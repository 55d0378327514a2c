-- ===== src/Server/World/Isolated/Run.antt =====
-- The time that a lost connection leaves in the table, while other clients come and go.
use panngo.Base.{
  ℕ, ◌+◌, ◌-◌, ◌≤◌, ◌<◌, ◌≡◌, ◌≢◌, inl, inr, refl, ap, ◌∙◌, arith, List, [], ◌∷◌, Bool, Bool-cases,
  true, false, Text, text_eq_refl, some, take, u32, sub32, if-keeps,
}
use panngo.Server.Sql.{Statement, update_time_used, select_time_used}
use panngo.Server.Table.{Row, Value, row, apply_statement, set_time}
use panngo.Server.Table.Rows.{IsUnique, time_of, time_of-set_time, location_of}
use panngo.Server.Table.Others.{IsOwnChange, location_of-set_time}
use panngo.Server.Data.{PangoData}
use panngo.Server.Platform.{Platform, Laws}
use panngo.Server.Thread.{Event, update_client_data}
use panngo.Server.DbUpdate.{
  update_thread_max_num_clients, time_to_backup, update_loop, update_clients, db_update_round,
  return_database_update_thread,
}
use panngo.Server.World.{
  resuming, Task, update-cases, updating, move, World, attach, thread_step, structs, backup_step,
  Step, moves, backs_up, Reach, begin, later,
}
use panngo.Server.World.Moves.{mac_of}
use panngo.Server.ExistingClient.Resume.{retriev_client_data_resumes}
use panngo.Server.World.Isolated.{writes, move-IsOwn, update-IsOwn, resume-client}

module _ (p : Platform) (laws : Laws p) (mac : Text) where
  open laws use {rows}

  -- The row of the client, as far as its queries see it.
  abbrev IsKept : List Row → List Row → Type 0
  IsKept before after =
      (time_of mac after ≡ time_of mac before) × (location_of mac after ≡ location_of mac before)

  IsKept-IsOwnChange :
      (other : Text) (before after : List Row)
      → mac ≢ other
      → IsOwnChange other before after
      → IsKept before after
  IsKept-IsOwnChange other before after apart own = (own.times mac apart, own.locations mac apart)

  -- No connected client has the address.
  abbrev pub IsAbsent : List (PangoData p.F) → Type 0
  IsAbsent [] = Unit
  IsAbsent (c ∷ cs) = (c.connected ≡ true → mac ≢ c.mac_address) × IsAbsent cs

  update_loop-IsKept :
      (clock : ℕ → ℕ) (i : ℕ) (cs : List (PangoData p.F)) (d : p.Db)
      → IsAbsent cs
      → IsKept (rows d) (rows (update_loop p clock i cs d))
  unfolding update_loop
  update_loop-IsKept clock i [] d absent = (refl, refl)
  update_loop-IsKept clock i (c ∷ cs) d (here, rest) =
      let used = sub32 (u32 (clock i)) c.time_start_parking in
      elim (Bool-cases c.connected) [
        | inl on ↦
            let written = (p.sqlite3_exec (update_time_used used c.mac_address) d).1 in
            let (time, place) =
              IsKept-IsOwnChange c.mac_address (rows d) (rows written) (here on)
                (update-IsOwn p laws used c.mac_address d) in
            let (time', place') = update_loop-IsKept clock (i + 1) cs written rest in
            rw on (time' ∙ time, place' ∙ place)
        | inr off ↦ rw off (update_loop-IsKept clock (i + 1) cs d rest)
      ]

  round-IsKept :
      (start now : ℕ) (flag : Bool) (first second : ℕ → ℕ) (cs : List (PangoData p.F)) (d : p.Db)
      → IsAbsent (take update_thread_max_num_clients cs)
      → IsKept (rows d) (rows (db_update_round p start now flag first second cs d).1)
  unfolding db_update_round return_database_update_thread update_clients
  round-IsKept start now true first second cs d absent =
      update_loop-IsKept first 0 (take update_thread_max_num_clients cs) d absent
  round-IsKept start now false first second cs d absent =
      if-keeps (λ d'. IsKept (rows d) (rows d')) (time_to_backup start now) _ d
        (update_loop-IsKept second 0 (take update_thread_max_num_clients cs) d absent) (refl, refl)

  -- Steps in which no thread with this address writes, and db_update has no such client.
  abbrev pub IsElsewhere : {n start : ℕ} {w w' : World p} → Step p n start w w' → Type 0
  IsElsewhere {w = w} (moves i e below) =
      writes p laws (w.tasks i).phase ≡ true → mac ≢ mac_of p (w.tasks i).state
  IsElsewhere {w = w} (backs_up r goes_on) =
      IsAbsent
        (take update_thread_max_num_clients (structs p 0 update_thread_max_num_clients w.tasks))

  abbrev pub AllElsewhere : {n start : ℕ} {w w' : World p} → Reach p n start w w' → Type 0
  AllElsewhere begin = Unit
  AllElsewhere (later before s) = AllElsewhere before × IsElsewhere s

  Reach-IsKept :
      {n start : ℕ} {w w' : World p} (r : Reach p n start w w')
      → AllElsewhere r
      → IsKept (rows w.db_client) (rows w'.db_client)
  unfolding thread_step backup_step
  Reach-IsKept begin apart = (refl, refl)
  Reach-IsKept (later {w} before (moves i e below)) apart =
      let (time, place) = Reach-IsKept before apart.0 in
      let t = attach p w (w.tasks i).state in
      let (own, still) = move-IsOwn p laws e (w.tasks i).phase t in
      elim (Bool-cases (writes p laws (w.tasks i).phase)) [
        | inl yes' ↦
            let (time', place') =
              IsKept-IsOwnChange (mac_of p t) (rows w.db_client) _ (apart.1 yes') (own yes') in
            (time' ∙ time, place' ∙ place)
        | inr no' ↦ (ap (time_of mac) (still no') ∙ time, ap (location_of mac) (still no') ∙ place)
      ]
  Reach-IsKept {start = start} (later {w} before (backs_up r goes_on)) apart =
      let (time, place) = Reach-IsKept before apart.0 in
      let (time', place') =
        round-IsKept start r.now r.return_thread r.first_clock r.second_clock
          (structs p 0 update_thread_max_num_clients w.tasks) w.db_client apart.1 in
      (time' ∙ time, place' ∙ place)

  -- The section behind the loop of a thread that has lost its client.
  saves :
      (i : ℕ) (e : Event) (w : World p)
      → (w.tasks i).phase ≡ updating
      → mac_of p (w.tasks i).state ≡ mac
      → ((s : Statement) (d : p.Db) → (p.sqlite3_exec s d).0 ≡ true)
      → let start_time = (w.tasks i).state.session.client.time_start_parking in
        rows (thread_step p i e w).db_client
        ≡ set_time (sub32 (u32 e.now) start_time) mac (rows w.db_client)
  unfolding thread_step move update_client_data apply_statement
  saves i e w lost own succeeds =
      let t = attach p w (w.tasks i).state in
      let used = sub32 (u32 e.now) t.session.client.time_start_parking in
      let update = update_time_used used (mac_of p t) in
      ap (λ phase. rows (move p e phase t).state.session.db_client) lost
      ∙ ground (arith, laws.rows-exec update w.db_client, succeeds update w.db_client)
      ∙ ap (λ m. set_time used m (rows w.db_client)) own

  -- The row of a client whose connection was lost, in a world that is reached while no thread with
  -- its address writes.
  lost_parking_kept :
      (n start i : ℕ) (e : Event) (w : World p) (old : ℕ)
      → (w.tasks i).phase ≡ updating
      → mac_of p (w.tasks i).state ≡ mac
      → time_of mac (rows w.db_client) ≡ some old
      → ((s : Statement) (d : p.Db) → (p.sqlite3_exec s d).0 ≡ true)
      → {w' : World p} (r : Reach p n start (thread_step p i e w) w') → AllElsewhere r
      → (time_of mac (rows w'.db_client)
          ≡ some (sub32 (u32 e.now) (w.tasks i).state.session.client.time_start_parking))
        × (location_of mac (rows w'.db_client) ≡ location_of mac (rows w.db_client))
  lost_parking_kept n start i e w old lost own there succeeds r apart =
      let start_time = (w.tasks i).state.session.client.time_start_parking in
      let used = sub32 (u32 e.now) start_time in
      let saved = saves i e w lost own succeeds in
      let (time, place) = Reach-IsKept r apart in
      (
        time
            ∙ ap (time_of mac) saved
            ∙ ground
                (arith, time_of-set_time used mac mac (rows w.db_client), text_eq_refl mac, there),
        place ∙ ap (location_of mac) saved ∙ location_of-set_time mac mac used (rows w.db_client),
      )

  -- The struct of a thread that has gone through retriev_client_data.
  resumes :
      (j : ℕ) (e : Event) (w : World p) (used : ℕ) (v : Value p.F)
      → IsUnique (rows w.db_client)
      → time_of mac (rows w.db_client) ≡ some used
      → (w.tasks j).phase ≡ resuming
      → mac_of p (w.tasks j).state ≡ mac
      → (p.sqlite3_fetch (select_time_used mac) w.db_client).0 ≡ row v
      → ((thread_step p j e w).tasks j).state.session.client.time_start_parking ≡ sub32 e.now used
  unfolding thread_step move
  resumes j e w used v unique time back own fetched =
      let t = attach p w (w.tasks j).state in
      update-cases (λ (k : Task p). k.state.session.client.time_start_parking ≡ sub32 e.now used)
        w.tasks j (move p e (w.tasks j).phase t) j
        (λ same.
          ap (λ phase. (move p e phase t).state.session.client.time_start_parking) back
          ∙ ap (λ (c : PangoData p.F). c.time_start_parking) (resume-client p laws e.now t)
          ∙ retriev_client_data_resumes p laws e.now t.status t.session used v unique
              (ap (λ m. time_of m (rows w.db_client)) own ∙ time)
              (ap (λ m. (p.sqlite3_fetch (select_time_used m) w.db_client).0) own ∙ fetched))
        (λ differs. absurd (differs refl))

  -- In the threads together, the connection of a client is lost, and its thread saves the time in
  -- the client's row, at `lost`. Any steps of other threads and of db_update may follow, and those
  -- of a new thread for the client up to retriev_client_data, as long as no thread with the
  -- client's address inserts, updates or deletes, and db_update finds none of its first ten structs
  -- connected with it. There every MAC address then has at most one row, every command succeeds,
  -- and SQLite finds the time. After retriev_client_data at `back` the seconds from the start of
  -- the parking to any `end` are (lost - began) + (end - back), for times in this order and below 2
  -- ^ 31.
  pub lost_parking_resumes :
      (n start i j : ℕ) (e e' : Event) (w : World p) (old end : ℕ) (v : Value p.F)
      → (w.tasks i).phase ≡ updating
      → mac_of p (w.tasks i).state ≡ mac
      → time_of mac (rows w.db_client) ≡ some old
      → ((s : Statement) (d : p.Db) → (p.sqlite3_exec s d).0 ≡ true)
      → {w' : World p} (r : Reach p n start (thread_step p i e w) w') → AllElsewhere r
      → IsUnique (rows w'.db_client)
      → (w'.tasks j).phase ≡ resuming
      → mac_of p (w'.tasks j).state ≡ mac
      → (p.sqlite3_fetch (select_time_used mac) w'.db_client).0 ≡ row v
      → (w.tasks i).state.session.client.time_start_parking ≤ e.now
      → e.now ≤ e'.now
      → e'.now ≤ end
      → end < 2147483648
      → sub32 (u32 end) ((thread_step p j e' w').tasks j).state.session.client.time_start_parking
        ≡ (e.now - (w.tasks i).state.session.client.time_start_parking) + (end - e'.now)
  lost_parking_resumes n start i j e e' w old end v lost own there succeeds {w'} r apart unique back
        own' fetched h1 h2 h3 h4 =
      let began = (w.tasks i).state.session.client.time_start_parking in
      let kept = (lost_parking_kept n start i e w old lost own there succeeds r apart).0 in
      omega (arith, resumes j e' w' (sub32 (u32 e.now) began) v unique kept back own' fetched)
