-- ===== src/Server/DbUpdate/Run.antt =====
-- The thread db_update of server/database/parking_time_db/db_update_thread.c, from its start.
use panngo.Base.{
  ℕ, ◌+◌, ◌≡◌, inl, inr, refl, sym, ap, ◌∙◌, arith, List, [], ◌∷◌, map, Bool, Bool-cases, true,
  Text, text_eq, take, u32, sub32,
}
use mathlib.Core.Bool.{false≢true}
use panngo.Server.Sql.{update_time_used}
use panngo.Server.Table.{Row, Any, apply_statement, set_time}
use panngo.Server.Data.{PangoData}
use panngo.Server.Platform.{Platform, Laws}
use panngo.Server.DbUpdate.{
  set_start_time, time_to_backup, update_loop, db_update_round, Round, Updating, updating, ended,
  db_update_loop, db_update, update_thread_max_num_clients,
}

-- The rows without their times.
abbrev pub parkings : List Row → List (Text × Text)
parkings rs = map (λ (r : Row). (r.mac_adr, r.location)) rs

parkings-set_time :
    (time : ℕ) (mac : Text) (rs : List Row) → parkings (set_time time mac rs) ≡ parkings rs
unfolding set_time
parkings-set_time time mac [] = refl
parkings-set_time time mac (r ∷ rs) = elim (Bool-cases (text_eq r.mac_adr mac)) [
  | inl own ↦ rw own (
      ap (λ (others : List (Text × Text)). (r.mac_adr, r.location) ∷ others)
        (parkings-set_time time mac rs))
  | inr other ↦ rw other (
      ap (λ (others : List (Text × Text)). (r.mac_adr, r.location) ∷ others)
        (parkings-set_time time mac rs))
]

module _ (p : Platform) (laws : Laws p) where
  open laws use {rows}

  parkings-sqlite3_exec :
      (time : ℕ) (mac : Text) (d : p.Db)
      → parkings (rows (p.sqlite3_exec (update_time_used time mac) d).1) ≡ parkings (rows d)
  unfolding apply_statement
  parkings-sqlite3_exec time mac d =
      elim (Bool-cases (p.sqlite3_exec (update_time_used time mac) d).0) [
        | inl ok ↦
            ap parkings (ground (arith, laws.rows-exec (update_time_used time mac) d, ok))
            ∙ parkings-set_time time mac (rows d)
        | inr fails ↦
            ap parkings (ground (arith, laws.rows-exec (update_time_used time mac) d, fails))
      ]

  parkings-update_loop :
      (clock : ℕ → ℕ) (i : ℕ) (clients : List (PangoData p.F)) (d : p.Db)
      → parkings (rows (update_loop p clock i clients d)) ≡ parkings (rows d)
  unfolding update_loop
  parkings-update_loop clock i [] d = refl
  parkings-update_loop clock i (c ∷ cs) d =
      parkings-update_loop clock (i + 1) cs _ ∙ elim (Bool-cases c.connected) [
        | inl there ↦
            rw there
              (parkings-sqlite3_exec (sub32 (u32 (clock i)) c.time_start_parking) c.mac_address d)
        | inr gone ↦ rw gone refl
      ]

  pub parkings-db_update_round :
      (start now : ℕ) (flag : Bool) (first second : ℕ → ℕ) (clients : List (PangoData p.F))
      (d : p.Db)
      → parkings (rows (db_update_round p start now flag first second clients d).1)
        ≡ parkings (rows d)
  unfolding db_update_round
  parkings-db_update_round start now flag first second clients d = elim (Bool-cases flag) [
    | inl told ↦ rw told (all first d)
    | inr untold ↦ elim (Bool-cases (time_to_backup start now)) [
      | inl due ↦ rw (untold, due) (all second d)
      | inr early ↦ rw (untold, early) refl
    ]
  ]
    where
      all :
          (clock : ℕ → ℕ) (d : p.Db)
          → parkings (rows (update_loop p clock 0 (take update_thread_max_num_clients clients) d))
            ≡ parkings (rows d)
      all clock d = parkings-update_loop clock 0 (take update_thread_max_num_clients clients) d

  abbrev pub database : Updating p → p.Db
  database (updating d) = d
  database (ended d) = d

  loop_keeps :
      (start : ℕ) (rounds : List (Round p)) (d : p.Db)
      → parkings (rows (database (db_update_loop p start rounds d))) ≡ parkings (rows d)
  unfolding db_update_loop
  loop_keeps start [] d = refl
  loop_keeps start (r ∷ rs) d =
      let after =
        db_update_round p start r.now r.return_thread r.first_clock r.second_clock r.clients d in
      let same =
        parkings-db_update_round start r.now r.return_thread r.first_clock r.second_clock r.clients
          d in
      elim (Bool-cases after.0) [
        | inl last ↦ rw last same
        | inr more ↦ rw more (loop_keeps start rs after.1 ∙ same)
      ]

  round_ends :
      (start : ℕ) (r : Round p) (d : p.Db)
      → (db_update_round p start r.now r.return_thread r.first_clock r.second_clock r.clients d).0
        ≡ r.return_thread
  unfolding db_update_round
  round_ends start r d = ground arith

  loop_ends :
      (start : ℕ) (rounds : List (Round p)) (d : p.Db)
      → Any (λ (r : Round p). r.return_thread ≡ true) rounds
      → (e : p.Db) × (db_update_loop p start rounds d ≡ ended e)
  unfolding db_update_loop
  loop_ends start [] d told = elim told [ ]
  loop_ends start (r ∷ rs) d told = elim (Bool-cases r.return_thread) [
    | inl last ↦ (
      (db_update_round p start r.now r.return_thread r.first_clock r.second_clock r.clients d).1,
      ground (arith, round_ends start r d, last),
    )
    | inr more ↦ elim told [
      | inl now ↦ absurd (false≢true (sym more ∙ now))
      | inr later ↦
          let (e, ends) =
            loop_ends start rs
              (db_update_round p start r.now r.return_thread r.first_clock r.second_clock r.clients
                d).1
              later in
          (e, ground (arith, round_ends start r d, more, ends))
    ]
  ]

  -- The thread db_update, by itself, changes nothing but times in your_table: in any rounds, and
  -- whichever of its commands fail, the rows keep their order, their addresses and their locations.
  pub db_update_keeps :
      (start : ℕ) (rounds : List (Round p)) (d : p.Db)
      → parkings (rows (database (db_update p start rounds d))) ≡ parkings (rows d)
  unfolding db_update
  db_update_keeps start rounds d = loop_keeps (set_start_time start) rounds d

  -- The thread db_update has ended once there was a round in which the main thread had set its
  -- flag.
  pub db_update_ends :
      (start : ℕ) (rounds : List (Round p)) (d : p.Db)
      → Any (λ (r : Round p). r.return_thread ≡ true) rounds
      → (e : p.Db) × (db_update p start rounds d ≡ ended e)
  unfolding db_update
  db_update_ends start rounds d told = loop_ends (set_start_time start) rounds d told
