-- ===== src/Server/DbUpdate/Torn.antt =====
-- A round of db_update that reads a client's struct while the client's own thread stores a packet
-- in it: store_client_data_in_struct holds no mutex.
use panngo.Base.{
  c_string, ℕ, zero, suc, ◌+◌, ◌≡◌, ◌≢◌, ◌⊎◌, inl, inr, refl, sym, ap, ◌∙◌, arith, List, [], ◌∷◌,
  ◌++◌, Bool, Bool-cases, true, false, Text, text_eq, text_eq_iff, take, All, All-weaken, format_x,
  u32, sub32, if◌then◌else◌,
}
use mathlib.Core.Path.{ap₂}
use panngo.Server.Sql.{Statement, update_time_used}
use panngo.Server.Table.{Row, set_time, apply_statement}
use panngo.Server.Data.{PangoData}
use panngo.Server.Platform.{Platform, Laws}
use panngo.Server.Packet.Mac.{mac_text}
use panngo.Server.Packet.Store.{mac_bytes}
use panngo.Server.Packet.Memory.{store_writes, moments}
use panngo.Server.Packet.Memory.Torn.{IsTorn, store_moments}
use panngo.Server.DbUpdate.{
  update_thread_max_num_clients, time_to_backup, update_loop, update_clients, db_update_round,
  return_database_update_thread,
}

-- An address as store_client_data_in_struct writes it.
abbrev pub IsWhole : Text → Type 0
IsWhole mac = (b : ℕ) × (bs : List ℕ) × (mac ≡ mac_text (b ∷ bs))

last : ℕ → Text → ℕ
last a [] = a
last a (c ∷ cs) = last c cs

last-append : (a c : ℕ) (s t : Text) → last a (s ++ c ∷ t) ≡ last c t
unfolding last
last-append a c [] t = refl
last-append a c (b ∷ s) t = last-append b c s t

last-format_x : (a b : ℕ) → last a (format_x b) ≢ b':'
unfolding last format_x
last-format_x a b e = ground arith

last-mac_text : (a b : ℕ) (bs : List ℕ) → last a (mac_text (b ∷ bs)) ≢ b':'
unfolding mac_text
last-mac_text a b [] e = last-format_x a b e
last-mac_text a b (c ∷ bs) e =
    last-mac_text b':' c bs (sym (last-append a b':' (format_x b) (mac_text (c ∷ bs))) ∙ e)

cut-ne : (s mac : Text) → IsWhole mac → mac ≢ s ++ b':' ∷ []
unfolding last
cut-ne s mac (b, bs, whole) e =
    last-mac_text 0 b bs (ap (last 0) (sym whole ∙ e) ∙ last-append 0 b':' s [])

abbrev pub AllWhole : List Row → Type 0
AllWhole rs = All (λ (r : Row). IsWhole r.mac_adr) rs

set_time-cut :
    (time : ℕ) (s : Text) (rs : List Row) → AllWhole rs → set_time time (s ++ b':' ∷ []) rs ≡ rs
unfolding set_time
set_time-cut time s [] h = refl
set_time-cut time s (r ∷ rs) (here, later) =
    let other = cut-ne s r.mac_adr here in
    let rest = set_time-cut time s rs later in
    elim (Bool-cases (text_eq r.mac_adr (s ++ b':' ∷ []))) [
      | inl same ↦ absurd (other ((text_eq_iff r.mac_adr (s ++ b':' ∷ [])).0 same))
      | inr differs ↦ rw differs (ap (◌∷◌ r) rest)
    ]

pub set_time-AllWhole :
    (time : ℕ) (mac : Text) (rs : List Row) → AllWhole rs → AllWhole (set_time time mac rs)
unfolding set_time
set_time-AllWhole time mac [] h = tt
set_time-AllWhole time mac (r ∷ rs) (here, later) =
    let rest = set_time-AllWhole time mac rs later in
    elim (Bool-cases (text_eq r.mac_adr mac)) [
      | inl own ↦ rw own (here, rest)
      | inr other ↦ rw other (here, rest)
    ]

module _ {F : Type 0} (clock : ℕ → ℕ) where
  -- What the loop does to the rows, where every command succeeds.
  abbrev row_update : ℕ → PangoData F → List Row → List Row
  row_update i c rs =
      if c.connected
      then set_time (sub32 (u32 (clock i)) c.time_start_parking) c.mac_address rs
      else rs

  abbrev row_loop : ℕ → List (PangoData F) → List Row → List Row
  row_loop i [] rs = rs
  row_loop i (c ∷ cs) rs = row_loop (i + 1) cs (row_update i c rs)

  row_update-AllWhole :
      (i : ℕ) (c : PangoData F) (rs : List Row) → AllWhole rs → AllWhole (row_update i c rs)
  row_update-AllWhole i c rs h = elim (Bool-cases c.connected) [
    | inl on ↦ rw on (set_time-AllWhole _ c.mac_address rs h)
    | inr off ↦ rw off h
  ]

  -- A client with a part of an address counts as one that is not connected.
  row_loop-cut :
      (n i : ℕ) (front : List (PangoData F)) (c : PangoData F) (back : List (PangoData F))
      (s : Text) (rs : List Row)
      → AllWhole rs
      → row_loop i (take n (front ++ record c { mac_address = s ++ b':' ∷ [] } ∷ back)) rs
        ≡ row_loop i (take n (front ++ record c { connected = false } ∷ back)) rs
  row_loop-cut zero i front c back s rs h = refl
  row_loop-cut (suc n) i [] c back s rs h =
      ap (row_loop (i + 1) (take n back)) (elim (Bool-cases c.connected) [
        | inl on ↦ rw on (set_time-cut _ s rs h)
        | inr off ↦ rw off refl
      ])
  row_loop-cut (suc n) i (f ∷ front) c back s rs h =
      row_loop-cut n (i + 1) front c back s (row_update i f rs) (row_update-AllWhole i f rs h)

module _ (p : Platform) (laws : Laws p)
    (succeeds : (s : Statement) (d : p.Db) → (p.sqlite3_exec s d).0 ≡ true) where
  open laws use {rows, rows-exec}

  rows-loop :
      (clock : ℕ → ℕ) (i : ℕ) (cs : List (PangoData p.F)) (d : p.Db)
      → rows (update_loop p clock i cs d) ≡ row_loop clock i cs (rows d)
  unfolding update_loop apply_statement
  rows-loop clock i [] d = refl
  rows-loop clock i (c ∷ cs) d =
      let update = update_time_used (sub32 (u32 (clock i)) c.time_start_parking) c.mac_address in
      elim (Bool-cases c.connected) [
        | inl on ↦ rw on (
            rows-loop clock (i + 1) cs (p.sqlite3_exec update d).1
            ∙ ap (row_loop clock (i + 1) cs) (rw (rows-exec update d, succeeds update d) refl))
        | inr off ↦ rw off (rows-loop clock (i + 1) cs d)
      ]

  module _ (start now : ℕ) (return_thread : Bool) (first_clock second_clock : ℕ → ℕ)
      (front : List (PangoData p.F)) (c : PangoData p.F) (back : List (PangoData p.F))
      (d : p.Db) where
    -- The table behind a round that finds `client` in the struct.
    abbrev pub table_after : PangoData p.F → List Row
    table_after client =
        rows
          (db_update_round p start now return_thread first_clock second_clock
            (front ++ client ∷ back) d).1

    rows_round :
        (clients : List (PangoData p.F))
        → rows (db_update_round p start now return_thread first_clock second_clock clients d).1 ≡ (
            let held = take update_thread_max_num_clients clients in
            if return_thread
            then rows (update_loop p first_clock 0 held d)
            else if time_to_backup start now
            then rows (update_loop p second_clock 0 held d)
            else rows d)
    unfolding db_update_round return_database_update_thread update_clients
    rows_round clients = elim (Bool-cases return_thread) [
      | inl told ↦ rw told refl
      | inr untold ↦ rw untold (by_due (time_to_backup start now))
    ]
      where
        by_due :
            (due : Bool)
            → rows (update_clients p second_clock clients due d) ≡ (
                if due
                then rows
                    (update_loop p second_clock 0 (take update_thread_max_num_clients clients) d)
                else rows d)
        by_due true = refl
        by_due false = refl

    cut_round :
        (s : Text)
        → AllWhole (rows d)
        → table_after (record c { mac_address = s ++ b':' ∷ [] })
          ≡ table_after (record c { connected = false })
    cut_round s h =
        let cut = λ (clock : ℕ → ℕ).
          row_loop-cut clock update_thread_max_num_clients 0 front c back s (rows d) h in
        let off : PangoData p.F = record c { connected = false } in
        let torn : PangoData p.F = record c { mac_address = s ++ b':' ∷ [] } in
        let held = λ (x : PangoData p.F). take update_thread_max_num_clients (front ++ x ∷ back) in
        let loops = λ (clock : ℕ → ℕ).
          rows-loop clock 0 (held torn) d ∙ cut clock ∙ sym (rows-loop clock 0 (held off) d) in
        rows_round (front ++ torn ∷ back)
        ∙ ap₂
            (λ (a b : List Row).
              if return_thread then a else if time_to_backup start now then b else rows d)
            (loops first_clock) (loops second_clock)
        ∙ sym (rows_round (front ++ off ∷ back))

    -- A round of db_update that reads a client's struct before, between or behind any two of the
    -- byte writes by which the client's own thread stores, outside the mutex, a packet with the MAC
    -- address that the struct holds. Where every command succeeds and every row has an address as
    -- store_client_data_in_struct writes it, the table after the round is the one after a round
    -- that reads the whole struct, or the one after a round for which the client is not connected:
    -- no other client's row is touched.
    pub torn_backup :
        (buff array : List ℕ)
        → c_string array ≡ c.mac_address
        → c.mac_address ≡ mac_text (mac_bytes buff)
        → AllWhole (rows d)
        → All
            (λ (a : List ℕ).
              (table_after (record c { mac_address = c_string a }) ≡ table_after c)
              ⊎ (table_after (record c { mac_address = c_string a })
                  ≡ table_after (record c { connected = false })))
            (moments (store_writes buff 8 0 0) array)
    torn_backup buff array holds own whole =
        All-weaken (λ a. IsTorn (mac_text (mac_bytes buff)) (c_string a)) _
          (moments (store_writes buff 8 0 0) array)
          (λ a torn. elim torn [
            | inl e ↦
                inl (ap (λ (m : Text). table_after (record c { mac_address = m })) (e ∙ sym own))
            | inr (s, e) ↦ inr (
                ap (λ (m : Text). table_after (record c { mac_address = m })) e ∙ cut_round s whole)
          ])
          (store_moments buff array (holds ∙ own))
