-- ===== src/Server/World/Whole/Run.antt =====
-- The rows of every world that is reached, and a backup there that reads a struct in the middle of
-- a store.
use panngo.Base.{
  ℕ, ◌+◌, ◌≡◌, ◌⊎◌, inl, inr, refl, sym, subst, ap, arith, List, [], ◌∷◌, ◌++◌, Bool, Bool-cases,
  true, false, c_string, take, All, All-append, u32, sub32, if-keeps,
}
use panngo.Server.Sql.{Statement, update_time_used, delete_client}
use panngo.Server.Table.{Row, apply_statement}
use panngo.Server.Data.{PangoData}
use panngo.Server.Platform.{Platform, Laws, Session}
use panngo.Server.Typed.{loop_status-keeps}
use panngo.Server.Packet.Mac.{mac_text}
use panngo.Server.Packet.Store.{mac_bytes}
use panngo.Server.Packet.Memory.{store_writes, moments}
use panngo.Server.NewClient.{process_client_data}
use panngo.Server.NewClient.Laws.{new_row, process_client_data_lem}
use panngo.Server.Thread.{
  Event, ThreadState, close_app_case, remove_client_data, update_client_data,
}
use panngo.Server.DbUpdate.{
  update_thread_max_num_clients, time_to_backup, update_loop, update_clients, db_update_round,
  return_database_update_thread,
}
use panngo.Server.DbUpdate.Torn.{IsWhole, AllWhole, set_time-AllWhole, table_after, torn_backup}
use panngo.Server.World.{
  Phase, receiving, losing, asking, resuming, inserting, connecting, closing, removing, updating,
  removed, ended, Task, at, loop_test, insert, move, World, attach, thread_step, structs, Tick,
  backup_step, moves, backs_up, update-cases, Reach, begin, later, world_start,
}
use panngo.Server.World.Moves.{mac_of}
use panngo.Server.World.Isolated.{loop_test-IsSame, move-IsOwn}
use panngo.Server.World.Whole.{Holds, IsHolding, remove-AllWhole, move-IsHolding}

module _ (p : Platform) (laws : Laws p) where
  open laws use {rows}

  exec-AllWhole :
      (s : Statement) (d : p.Db)
      → AllWhole (apply_statement s (rows d))
      → AllWhole (rows d)
      → AllWhole (rows (p.sqlite3_exec s d).1)
  exec-AllWhole s d applied h = elim (Bool-cases (p.sqlite3_exec s d).0) [
    | inl ok ↦ subst AllWhole (sym (ground (arith, laws.rows-exec s d, ok))) applied
    | inr fails ↦ subst AllWhole (sym (ground (arith, laws.rows-exec s d, fails))) h
  ]

  update-AllWhole :
      (time : ℕ) (c : PangoData p.F) (d : p.Db)
      → AllWhole (rows d)
      → AllWhole (rows (p.sqlite3_exec (update_time_used time c.mac_address) d).1)
  unfolding apply_statement
  update-AllWhole time c d h =
      exec-AllWhole (update_time_used time c.mac_address) d
        (set_time-AllWhole time c.mac_address (rows d) h) h

  loop_test-AllWhole :
      (t : ThreadState p)
      → AllWhole (rows t.session.db_client)
      → AllWhole (rows (loop_test p t).state.session.db_client)
  loop_test-AllWhole t h = subst (λ d. AllWhole (rows d)) (sym (loop_test-IsSame p laws t).1) h

  insert-AllWhole :
      (now : ℕ) (t : ThreadState p)
      → IsWhole (mac_of p t)
      → AllWhole (rows t.session.db_client)
      → AllWhole (rows (insert p now t).state.session.db_client)
  unfolding insert
  insert-AllWhole now t whole h =
      let result = process_client_data p now t.status t.session in
      let law = process_client_data_lem p laws now t.status t.session in
      let t' : ThreadState p = record t {
        return_value = result.0;
        status = result.1;
        session = result.2;
      } in
      let after : AllWhole (rows t'.session.db_client) = elim law.outcome [
        | inl (stayed, kept, grown, sent) ↦ subst AllWhole (sym grown) (
            All-append (λ (r : Row). IsWhole r.mac_adr) (rows t.session.db_client)
              (new_row p laws t.session.client ∷ []) h (whole, tt))
        | inr (left, error, same, sent) ↦ subst AllWhole (sym same) h
      ] in
      loop_status-keeps (λ (k : Task p). AllWhole (rows k.state.session.db_client)) result.0
        (loop_test p t') (at p connecting t') (loop_test-AllWhole t' after) after

  move-AllWhole :
      (e : Event) (phase : Phase) (t : ThreadState p)
      → Holds phase (mac_of p t)
      → AllWhole (rows t.session.db_client)
      → AllWhole (rows (move p e phase t).state.session.db_client)
  unfolding move close_app_case remove_client_data update_client_data apply_statement
  move-AllWhole e inserting t whole h = insert-AllWhole e.now t whole h
  move-AllWhole e closing t whole h =
      loop_test-AllWhole (close_app_case p e.now t)
        (update-AllWhole _ t.session.client t.session.db_client h)
  move-AllWhole e removing t whole h =
      exec-AllWhole (delete_client (mac_of p t)) t.session.db_client
        (remove-AllWhole (mac_of p t) (rows t.session.db_client) h) h
  move-AllWhole e updating t whole h = update-AllWhole _ t.session.client t.session.db_client h
  move-AllWhole e receiving t whole h =
      subst AllWhole (sym ((move-IsOwn p laws e receiving t).1 refl)) h
  move-AllWhole e losing t whole h = subst AllWhole (sym ((move-IsOwn p laws e losing t).1 refl)) h
  move-AllWhole e asking t whole h = subst AllWhole (sym ((move-IsOwn p laws e asking t).1 refl)) h
  move-AllWhole e resuming t whole h =
      subst AllWhole (sym ((move-IsOwn p laws e resuming t).1 refl)) h
  move-AllWhole e connecting t whole h =
      subst AllWhole (sym ((move-IsOwn p laws e connecting t).1 refl)) h
  move-AllWhole e removed t whole h = h
  move-AllWhole e ended t whole h = h

  update_loop-AllWhole :
      (clock : ℕ → ℕ) (i : ℕ) (cs : List (PangoData p.F)) (d : p.Db)
      → AllWhole (rows d)
      → AllWhole (rows (update_loop p clock i cs d))
  unfolding update_loop
  update_loop-AllWhole clock i [] d h = h
  update_loop-AllWhole clock i (c ∷ cs) d h =
      let used = sub32 (u32 (clock i)) c.time_start_parking in
      update_loop-AllWhole clock (i + 1) cs _ (
        if-keeps (λ d'. AllWhole (rows d')) c.connected
          (p.sqlite3_exec (update_time_used used c.mac_address) d).1 d (update-AllWhole used c d h)
          h)

  round-AllWhole :
      (start now : ℕ) (flag : Bool) (first second : ℕ → ℕ) (cs : List (PangoData p.F)) (d : p.Db)
      → AllWhole (rows d)
      → AllWhole (rows (db_update_round p start now flag first second cs d).1)
  unfolding db_update_round return_database_update_thread update_clients
  round-AllWhole start now true first second cs d h =
      update_loop-AllWhole first 0 (take update_thread_max_num_clients cs) d h
  round-AllWhole start now false first second cs d h =
      if-keeps (λ d'. AllWhole (rows d')) (time_to_backup start now) _ d
        (update_loop-AllWhole second 0 (take update_thread_max_num_clients cs) d h) h

  record IsWorldWhole (w : World p) : Type 0 where
    table : AllWhole (rows w.db_client)
    threads : (i : ℕ) → IsHolding p laws (w.tasks i)

  Reach-IsWorldWhole :
      {n start : ℕ} {w w' : World p} → Reach p n start w w' → IsWorldWhole w → IsWorldWhole w'
  unfolding thread_step backup_step
  Reach-IsWorldWhole begin whole = whole
  Reach-IsWorldWhole (later {w} before (moves i e below)) whole =
      let h = Reach-IsWorldWhole before whole in
      let t = attach p w (w.tasks i).state in
      record {
        table = move-AllWhole e (w.tasks i).phase t (h.threads i) h.table;
        threads = λ j.
            update-cases (IsHolding p laws) w.tasks i (move p e (w.tasks i).phase t) j
              (λ same. move-IsHolding p laws e (w.tasks i).phase t (h.threads i))
              (λ differs. h.threads j);
      }
  Reach-IsWorldWhole {start = start} (later {w} before (backs_up r goes_on)) whole =
      let h = Reach-IsWorldWhole before whole in
      record {
        table =
            round-AllWhole start r.now r.return_thread r.first_clock r.second_clock
              (structs p 0 update_thread_max_num_clients w.tasks) w.db_client h.table;
        threads = h.threads;
      }

  module _ (succeeds : (s : Statement) (d : p.Db) → (p.sqlite3_exec s d).0 ≡ true) (n start : ℕ)
      (db_client db_prices : p.Db) (s : ℕ → Session p) (table : AllWhole (rows db_client)) where
    -- In the threads together, whatever comes to them, from a table whose rows have addresses as
    -- store_client_data_in_struct writes them. In any world that is reached db_update may read one
    -- struct before, between or behind any two of the byte writes by which the client's own thread
    -- stores, outside the mutex, a packet with the MAC address that the struct holds. Where every
    -- command succeeds, the table after the round is then the one after the round of backup_step,
    -- or the one after a round for which this client is not connected: no other client's row is
    -- touched.
    pub world_torn_backup :
        {w : World p} (r : Reach p n start (world_start p db_client db_prices s) w) (tick : Tick p)
        (front : List (PangoData p.F)) (c : PangoData p.F) (back : List (PangoData p.F))
        (buff array : List ℕ)
        → structs p 0 update_thread_max_num_clients w.tasks ≡ front ++ c ∷ back
        → c_string array ≡ c.mac_address
        → c.mac_address ≡ mac_text (mac_bytes buff)
        → let seen : PangoData p.F → List Row =
            table_after p laws succeeds start tick.now tick.return_thread tick.first_clock
              tick.second_clock front c back w.db_client in
          (seen c ≡ rows (backup_step p start tick w).db_client)
          × All
              (λ (a : List ℕ).
                (seen (record c { mac_address = c_string a }) ≡ seen c)
                ⊎ (seen (record c { mac_address = c_string a })
                    ≡ seen (record c { connected = false })))
              (moments (store_writes buff 8 0 0) array)
    unfolding backup_step
    world_torn_backup {w} r tick front c back buff array split holds own =
        let whole = Reach-IsWorldWhole r (record { table = table; threads = λ i. tt }) in
        (
          ap
              (λ (cs : List (PangoData p.F)).
                rows
                  (db_update_round p start tick.now tick.return_thread tick.first_clock
                    tick.second_clock cs w.db_client).1)
              (sym split),
          torn_backup p laws succeeds start tick.now tick.return_thread tick.first_clock
              tick.second_clock front c back w.db_client buff array holds own whole.table,
        )
