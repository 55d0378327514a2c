-- ===== src/Server/DbUpdate/Backup.antt =====
-- A round of db_update on the rows of your_table.
use panngo.Base.{
  ◌&&◌, ℕ, ◌+◌, ◌*◌, ◌<◌, ◌≡◌, ◌↔◌, refl, ◌∙◌, arith, List, [], ◌∷◌, true, false, Option, Text,
  text_eq, take, u32, sub32, if◌then◌else◌, Bool-cases, inl, inr, ap,
}
use mathlib.Core.Option
use panngo.Server.Sql.{Statement, update_time_used}
use panngo.Server.Table.{apply_statement, set_time}
use panngo.Server.Table.Rows.{time_of, time_of-set_time}
use panngo.Server.Data.{PangoData}
use panngo.Server.Platform.{Platform, Laws}
use panngo.Server.DbUpdate.{
  update_thread_max_num_clients, time_to_backup, update_loop, db_update_round,
}

-- Within times below 2 ^ 31, a backup is due in exactly the seconds that are a multiple of five
-- after the start.
pub time_to_backup_iff :
    (start k rest : ℕ)
    → rest < 5
    → start + (5 * k + rest) < 2147483648
    → (time_to_backup start (start + (5 * k + rest)) ≡ true) ↔ (rest ≡ 0)
unfolding time_to_backup
time_to_backup_iff start k rest h fits = ground arith

module _ {F : Type 0} (clock : ℕ → ℕ) (mac : Text) where
  -- The time that the backup writes for a MAC address: that of the last client in the array that is
  -- connected under it, or `old` where none is.
  abbrev pub backup_time : ℕ → List (PangoData F) → Option ℕ → Option ℕ
  backup_time i [] old = old
  backup_time i (c ∷ cs) old = backup_time (i + 1) cs (
      if c.connected && text_eq c.mac_address mac
      then Option.map (λ _. sub32 (u32 (clock i)) c.time_start_parking) old
      else old)

module _ (p : Platform) (laws : Laws p) where
  open laws use {rows}

  module _ (clock : ℕ → ℕ) (mac : Text)
      (succeeds : (s : Statement) (d : p.Db) → (p.sqlite3_exec s d).0 ≡ true) where
    after_client : ℕ → PangoData p.F → p.Db → p.Db
    after_client i c d =
        if c.connected
        then (p.sqlite3_exec
            (update_time_used (sub32 (u32 (clock i)) c.time_start_parking) c.mac_address) d).1
        else d

    after_client_lem :
        (i : ℕ) (c : PangoData p.F) (d : p.Db)
        → time_of mac (rows (after_client i c d)) ≡ (
            if c.connected && text_eq c.mac_address mac
            then Option.map (λ _. sub32 (u32 (clock i)) c.time_start_parking) (time_of mac (rows d))
            else time_of mac (rows d))
    unfolding after_client apply_statement
    after_client_lem i c d =
        let used = sub32 (u32 (clock i)) c.time_start_parking in
        let update = update_time_used used c.mac_address in
        let written : rows (p.sqlite3_exec update d).1 ≡ set_time used c.mac_address (rows d) =
          ground (arith, laws.rows-exec update d, succeeds update d) in
        elim (Bool-cases c.connected) [
          | inl on ↦ rw (on, written) (time_of-set_time used c.mac_address mac (rows d))
          | inr off ↦ rw off
        ]

    update_loop_lem :
        (i : ℕ) (clients : List (PangoData p.F)) (d : p.Db)
        → time_of mac (rows (update_loop p clock i clients d))
          ≡ backup_time clock mac i clients (time_of mac (rows d))
    unfolding update_loop after_client
    update_loop_lem i [] d = refl
    update_loop_lem i (c ∷ cs) d =
        update_loop_lem (i + 1) cs (after_client i c d)
        ∙ ap (backup_time clock mac (i + 1) cs) (after_client_lem i c d)

    -- One round of the thread db_update, where every command succeeds. When the main thread has
    -- told it to end, it writes the times of the connected clients once, whatever the time is, and
    -- says that it ends; otherwise it goes on, and writes them if the backup is due and else leaves
    -- the database alone. The time that a MAC address then has is that of the last of the ten
    -- clients that is connected under it.
    pub db_update_round_lem :
        (start now : ℕ) (second_clock : ℕ → ℕ) (clients : List (PangoData p.F)) (d : p.Db)
        → let held = take update_thread_max_num_clients clients in
          let ends = db_update_round p start now true clock second_clock clients d in
          let goes_on = db_update_round p start now false second_clock clock clients d in
          (ends.0 ≡ true)
          × (time_of mac (rows ends.1) ≡ backup_time clock mac 0 held (time_of mac (rows d)))
          × (goes_on ≡ (false, if time_to_backup start now then ends.1 else d))
    unfolding db_update_round
    db_update_round_lem start now second_clock clients d =
        (refl, update_loop_lem 0 (take update_thread_max_num_clients clients) d, ground arith)
