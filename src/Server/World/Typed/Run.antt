-- ===== src/Server/World/Typed/Run.antt =====
-- Whole runs of the threads of server/, on the C types and the buffers of their variables.
use panngo.Base.{
  ℕ, ◌+◌, ◌<◌, ◌≡◌, refl, arith, List, [], ◌∷◌, Bool, true, false, take, u32, sub32, IsByte,
  IsBytes, length, u32_mod, if-keeps,
}
use panngo.Server.Sql.{update_time_used}
use panngo.Server.Table.{apply_statement}
use panngo.Server.Data.{PangoData}
use panngo.Server.Platform.{Platform, Laws, Session}
use panngo.Server.Packet.Bounds.{IsBounded, bounded}
use panngo.Server.Typed.{AllTyped, IsStructTyped, exec-AllTyped, set_time-AllTyped}
use panngo.Server.Thread.{Event, ThreadState}
use panngo.Server.Thread.Typed.{IsReceived}
use panngo.Server.DbUpdate.{
  update_thread_max_num_clients, time_to_backup, update_loop, update_clients, db_update_round,
  return_database_update_thread,
}
use panngo.Server.World.{
  move, World, attach, thread_step, structs, Tick, backup_step, Step, moves, update-cases, backs_up,
  Reach, begin, later, world_start,
}
use panngo.Server.World.Typed.{move-IsTyped}

module _ (p : Platform) (laws : Laws p) where
  open laws use {rows}

  update_loop-AllTyped :
      (clock : ℕ → ℕ) (i : ℕ) (cs : List (PangoData p.F)) (d : p.Db)
      → AllTyped (rows d)
      → AllTyped (rows (update_loop p clock i cs d))
  unfolding update_loop apply_statement
  update_loop-AllTyped clock i [] d h = h
  update_loop-AllTyped clock i (c ∷ cs) d h =
      let used = sub32 (u32 (clock i)) c.time_start_parking in
      update_loop-AllTyped clock (i + 1) cs _ (
        if-keeps (λ d'. AllTyped (rows d')) c.connected
          (p.sqlite3_exec (update_time_used used c.mac_address) d).1 d
          (exec-AllTyped p laws (update_time_used used c.mac_address) d
            (set_time-AllTyped used c.mac_address (rows d) (omega arith)) h)
          h)

  round-AllTyped :
      (start now : ℕ) (flag : Bool) (first second : ℕ → ℕ) (cs : List (PangoData p.F)) (d : p.Db)
      → AllTyped (rows d)
      → AllTyped (rows (db_update_round p start now flag first second cs d).1)
  unfolding db_update_round return_database_update_thread update_clients
  round-AllTyped start now true first second cs d h =
      update_loop-AllTyped first 0 (take update_thread_max_num_clients cs) d h
  round-AllTyped start now false first second cs d h =
      if-keeps (λ d'. AllTyped (rows d')) (time_to_backup start now) _ d
        (update_loop-AllTyped second 0 (take update_thread_max_num_clients cs) d h) h

  -- What a thread keeps for itself: its struct, its buffer, and its variables.
  pub record IsLocalTyped (t : ThreadState p) : Type 0 where
    pub client : IsStructTyped t.session.client
    pub buffer : IsBytes t.client_data_buff × (length t.client_data_buff ≡ 10)
    pub status : IsByte t.status
    pub end_time : t.end_time < u32_mod

  -- The table and all threads.
  pub record IsWorldTyped (w : World p) : Type 0 where
    pub table : AllTyped (rows w.db_client)
    pub threads : (i : ℕ) → IsLocalTyped (w.tasks i).state

  -- Every recv of the run gives at most ten bytes.
  abbrev pub IsStepReceived : {n start : ℕ} {w w' : World p} → Step p n start w w' → Type 0
  IsStepReceived (moves i e below) = IsReceived e.recv
  IsStepReceived (backs_up r goes_on) = Unit

  abbrev pub AllReceived : {n start : ℕ} {w w' : World p} → Reach p n start w w' → Type 0
  AllReceived begin = Unit
  AllReceived (later before s) = AllReceived before × IsStepReceived s

  thread_step-IsWorldTyped :
      (w : World p) (i : ℕ) (e : Event)
      → IsReceived e.recv
      → IsWorldTyped w
      → IsWorldTyped (thread_step p i e w)
  unfolding thread_step
  thread_step-IsWorldTyped w i e came typed =
      let own = typed.threads i in
      let k = move p e (w.tasks i).phase (attach p w (w.tasks i).state) in
      let moved =
        move-IsTyped p laws e (w.tasks i).phase (attach p w (w.tasks i).state) came (record {
          session = record { client = own.client; table = typed.table };
          buffer = own.buffer;
          status = own.status;
          end_time = own.end_time;
        }) in
      record {
        table = moved.session.table;
        threads = λ j.
            update-cases (λ k'. IsLocalTyped k'.state) w.tasks i k j
              (λ same. record {
                client = moved.session.client;
                buffer = moved.buffer;
                status = moved.status;
                end_time = moved.end_time;
              })
              (λ differs. typed.threads j);
      }

  backup_step-IsWorldTyped :
      (start : ℕ) (r : Tick p) (w : World p)
      → IsWorldTyped w
      → IsWorldTyped (backup_step p start r w)
  unfolding backup_step
  backup_step-IsWorldTyped start r w typed = record {
    table =
        round-AllTyped start r.now r.return_thread r.first_clock r.second_clock
          (structs p 0 update_thread_max_num_clients w.tasks) w.db_client typed.table;
    threads = typed.threads;
  }

  Reach-IsWorldTyped :
      {n start : ℕ} {w w' : World p} (r : Reach p n start w w')
      → AllReceived r
      → IsWorldTyped w
      → IsWorldTyped w'
  Reach-IsWorldTyped begin came typed = typed
  Reach-IsWorldTyped (later {w} before (moves i e below)) came typed =
      thread_step-IsWorldTyped w i e came.1 (Reach-IsWorldTyped before came.0 typed)
  Reach-IsWorldTyped {start = start} (later {w} before (backs_up r goes_on)) came typed =
      backup_step-IsWorldTyped start r w (Reach-IsWorldTyped before came.0 typed)

  -- Threads of clients and the thread db_update, interleaved in any order of their sections,
  -- whatever bytes come, at most ten to a recv, and whichever commands and queries fail. If at
  -- first the strings of the structs and of the rows, with their NUL, fit the arrays of 18 and 12
  -- bytes, the coordinates are bytes, and the times patterns of 32 bits, then in every world that
  -- is reached this is still so, every thread's buffer has ten bytes, and its status and its end
  -- time are of 8 and 32 bits. The INSERT, DELETE and SELECT commands for every struct then fit 150
  -- bytes and the UPDATE, with any time, 100, each with its NUL.
  pub world-IsTyped :
      (n start : ℕ) (db_client db_prices : p.Db) (s : ℕ → Session p)
      → AllTyped (rows db_client)
      → ((i : ℕ) → IsStructTyped (s i).client)
      → {w : World p} (r : Reach p n start (world_start p db_client db_prices s) w) → AllReceived r
      → IsWorldTyped w × ((i : ℕ) → IsBounded (w.tasks i).state.session.client)
  world-IsTyped n start db_client db_prices s table clients {w} r came =
      let typed = Reach-IsWorldTyped r came (record {
        table = table;
        threads = λ i. record {
          client = clients i;
          buffer = (omega arith, refl);
          status = omega arith;
          end_time = omega arith;
        };
      }) in
      (
        typed,
        λ i.
            let c = (typed.threads i).client in
            bounded (w.tasks i).state.session.client (omega (arith, c.mac_address))
              (omega (arith, c.location)),
      )
