-- ===== src/Server/DbUpdate/Order.antt =====
-- A round of db_update and a command of a client's thread, in either order: both hold the mutex,
-- and nothing says which of them gets it first.
use panngo.Base.{
  ℕ, ◌+◌, ◌≡◌, ◌≢◌, inl, inr, refl, sym, ap, ◌∙◌, List, [], ◌∷◌, Bool-cases, true, false,
  if◌then◌else◌, u32, sub32, take, Bool,
}
use mathlib.Core.Quot
use panngo.Server.Sql.{Statement, update_time_used}
use panngo.Server.Data.{PangoData}
use panngo.Server.Table.{Row}
use panngo.Server.Table.Ledger.{Ledger, command}
use panngo.Server.Table.Commute.{address, command-command}
use panngo.Server.Platform.{Platform, Laws}
use panngo.Server.DbUpdate.{
  db_update_round, return_database_update_thread, time_to_backup, update_loop, update_clients,
  update_thread_max_num_clients,
}

module _ (p : Platform) (laws : Laws p)
    (succeeds : (s : Statement) (d : p.Db) → (p.sqlite3_exec s d).0 ≡ true) where
  open laws use {rows, rows-exec}

  abbrev pub ledger : p.Db → Ledger
  ledger d = Quot.mk (rows d)

  -- No connected client has the address that the command names.
  abbrev pub IsElsewhere : Statement → List (PangoData p.F) → Type 0
  IsElsewhere s [] = Unit
  IsElsewhere s (c ∷ cs) = (c.connected ≡ true → address s ≢ c.mac_address) × IsElsewhere s cs

  ledger-exec : (s : Statement) (d : p.Db) → ledger (p.sqlite3_exec s d).1 ≡ command s (ledger d)
  unfolding command
  ledger-exec s d = ap (λ (rs : List Row). Quot.mk rs) (rw (rows-exec s d, succeeds s d) refl)

  abbrev one : ℕ → PangoData p.F → Ledger → Ledger
  one now c q =
      if c.connected
      then command (update_time_used (sub32 (u32 now) c.time_start_parking) c.mac_address) q
      else q

  abbrev each : (ℕ → ℕ) → ℕ → List (PangoData p.F) → Ledger → Ledger
  each clock i [] q = q
  each clock i (c ∷ cs) q = each clock (i + 1) cs (one (clock i) c q)

  ledger-loop :
      (clock : ℕ → ℕ) (i : ℕ) (cs : List (PangoData p.F)) (d : p.Db)
      → ledger (update_loop p clock i cs d) ≡ each clock i cs (ledger d)
  unfolding update_loop
  ledger-loop clock i [] d = refl
  ledger-loop clock i (c ∷ cs) d =
      let update : ℕ → PangoData p.F → Statement =
        λ i c. update_time_used (sub32 (u32 (clock i)) c.time_start_parking) c.mac_address in
      elim (Bool-cases c.connected) [
        | inl on ↦ rw on (
            ledger-loop clock (i + 1) cs (p.sqlite3_exec (update i c) d).1
            ∙ ap (each clock (i + 1) cs) (ledger-exec (update i c) d))
        | inr off ↦ rw off (ledger-loop clock (i + 1) cs d)
      ]

  command-one :
      (s : Statement) (now : ℕ) (c : PangoData p.F) (q : Ledger)
      → (c.connected ≡ true → address s ≢ c.mac_address)
      → command s (one now c q) ≡ one now c (command s q)
  command-one s now c q apart = elim (Bool-cases c.connected) [
    | inl on ↦ rw on (
        command-command s (update_time_used (sub32 (u32 now) c.time_start_parking) c.mac_address) q
          (apart on))
    | inr off ↦ rw off refl
  ]

  command-each :
      (s : Statement) (clock : ℕ → ℕ) (i : ℕ) (cs : List (PangoData p.F)) (q : Ledger)
      → IsElsewhere s cs
      → command s (each clock i cs q) ≡ each clock i cs (command s q)
  command-each s clock i [] q h = refl
  command-each s clock i (c ∷ cs) q h =
      command-each s clock (i + 1) cs (one (clock i) c q) h.1
      ∙ ap (each clock (i + 1) cs) (command-one s (clock i) c q h.0)

  update_clients_commutes :
      (s : Statement) (clock : ℕ → ℕ) (cs : List (PangoData p.F)) (is_backup_time : Bool) (d : p.Db)
      → IsElsewhere s (take update_thread_max_num_clients cs)
      → ledger (p.sqlite3_exec s (update_clients p clock cs is_backup_time d)).1
        ≡ ledger (update_clients p clock cs is_backup_time (p.sqlite3_exec s d).1)
  unfolding update_clients
  update_clients_commutes s clock cs true d h =
      let first = take update_thread_max_num_clients cs in
      ledger-exec s (update_loop p clock 0 first d)
      ∙ ap (command s) (ledger-loop clock 0 first d)
      ∙ command-each s clock 0 first (ledger d) h
      ∙ ap (each clock 0 first) (sym (ledger-exec s d))
      ∙ sym (ledger-loop clock 0 first (p.sqlite3_exec s d).1)
  update_clients_commutes s clock cs false d h = refl

  -- A round of the thread db_update and a command that another thread executes under the mutex on
  -- your_table can come in either order, where every command succeeds and the command is not about
  -- the MAC address of one of the first ten clients that is connected: the round ends the thread or
  -- not alike, and the table holds the same rows, its order apart.
  pub round_commutes :
      (s : Statement) (start now : ℕ) (return_thread : Bool) (first_clock second_clock : ℕ → ℕ)
      (cs : List (PangoData p.F)) (d : p.Db)
      → IsElsewhere s (take update_thread_max_num_clients cs)
      → let round = db_update_round p start now return_thread first_clock second_clock cs in
        ((round d).0 ≡ (round (p.sqlite3_exec s d).1).0)
        × (ledger (p.sqlite3_exec s (round d).1).1 ≡ ledger (round (p.sqlite3_exec s d).1).1)
  unfolding db_update_round return_database_update_thread
  round_commutes s start now true first_clock second_clock cs d h =
      (refl, update_clients_commutes s first_clock cs true d h)
  round_commutes s start now false first_clock second_clock cs d h =
      (refl, update_clients_commutes s second_clock cs (time_to_backup start now) d h)
