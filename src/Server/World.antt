-- ===== src/Server/World.antt =====
-- The threads of the server together: those of the clients (server/client/client_thread.c) and
-- db_update (server/database/parking_time_db/db_update_thread.c), on one pair of databases and one
-- array of client structs. A move of a client's thread is what it does up to and with its next
-- section on shared data: the part under the mutex, or, in clinet_exist_in_database_check and
-- `connected = TRUE`, the call or the write that is outside it. What a function does to the
-- client's own struct before it locks belongs to the same move.
pub mod Solo
pub mod Moves
pub mod Fair
pub mod Sections
pub mod Linked
pub mod Invariant
pub mod Connected
pub mod Race
pub mod Typed
pub mod Isolated
pub mod Whole
pub mod Ends
use panngo.Base.{
  ℕ, zero, suc, ◌+◌, ◌<◌, List, [], ◌∷◌, Bool, true, false, ◌≡◌, ◌≢◌, ◌==◌, if◌then◌else◌,
}
use mathlib.Core.Logic.{ite}
use native.Mathlib.Decide.{ℕ_discrete}
use panngo.Server.Data.{
  PangoData, quit, stay, start_app, close_app, connection_lost, crc8_test_failed,
  error_status_in_client_exist_subfunctions, error_status_in_new_client_subfunctions,
}
use panngo.Server.Platform.{Platform, Session}
use panngo.Server.NewClient.{process_client_data}
use panngo.Server.ExistingClient.{retriev_client_data}
use panngo.Server.Thread.{
  closed, recv_failed, received, Event, ThreadState, new_client, fill, take_packet,
  clinet_exist_in_database_check, update_client_data, calculate_and_send_payment_data,
  remove_client_data, close_app_case, send_error, thread_start,
}
use panngo.Server.DbUpdate.{update_thread_max_num_clients, db_update_round}

-- Where a client's thread stands: before recv; before `connected = FALSE` of
-- wait_for_data_from_client; before clinet_exist_in_database_check, retriev_client_data and
-- process_client_data; before `connected = TRUE`; before the section of case CLOSE_APP; behind the
-- loop, before remove_client_data and update_client_data; and at the end, with its row removed or
-- not.
pub data Phase : Type 0 where
  receiving losing asking resuming inserting connecting closing removing updating removed ended :
      Phase

pub record Task (p : Platform) : Type 0 where
  pub phase : Phase
  pub state : ThreadState p

abbrev pub update : {A : Type 0} → (ℕ → A) → ℕ → A → ℕ → A
update f i a j = ite (ℕ_discrete i j) a (f j)

pub update-cases :
    {A : Type 0} (P : A → Type 0) (f : ℕ → A) (i : ℕ) (a : A) (j : ℕ)
    → (i ≡ j → P a)
    → (i ≢ j → P (f j))
    → P (update f i a j)
update-cases P f i a j same other = by_dec (ℕ_discrete i j)
  where
    by_dec : (d : Dec (i ≡ j)) → P (ite d a (f j))
    by_dec (yes e) = same e
    by_dec (no e) = other e

module _ (p : Platform) where
  abbrev pub at : Phase → ThreadState p → Task p
  at phase t = record { phase = phase; state = t }

  abbrev failing : ThreadState p → Task p
  failing t = at ended (record t { session = send_error p t.session })

  -- The switch behind the loop, up to its section.
  unfoldable pub leave : ThreadState p → Task p
  unfolding calculate_and_send_payment_data send_error
  leave t =
      let s = t.session in
      let bill =
        calculate_and_send_payment_data p s.client.time_start_parking t.end_time s.client.price
          s.sent in
      if t.status == close_app
      then at removing (record t { session = record s { sent = bill } })
      else if t.status == connection_lost
      then at updating t
      else if t.status == crc8_test_failed
      then failing t
      else if t.status == error_status_in_client_exist_subfunctions
      then failing t
      else if t.status == error_status_in_new_client_subfunctions
      then failing t
      else at ended t

  -- The condition of the loop.
  unfoldable pub loop_test : ThreadState p → Task p
  unfolding leave
  loop_test t = elim t.return_value [ quit ↦ leave t | stay ↦ at receiving t ]

  -- The second `if` of case START_APP.
  unfoldable pub test_new : ThreadState p → Task p
  unfolding loop_test
  test_new t = if new_client t.checked_database then at inserting t else loop_test t

  -- From recv to the case of the second switch.
  unfoldable pub switch : ThreadState p → Task p
  unfolding take_packet loop_test
  switch t =
      let t' = take_packet p t in
      if t'.status == start_app
      then at asking t'
      else if t'.status == close_app
      then at closing t'
      else loop_test t'

  unfoldable pub receive : Event → ThreadState p → Task p
  unfolding switch
  receive e t = elim e.recv [
    | closed ↦ at losing (record t { status = connection_lost; return_value = quit })
    | recv_failed ↦ switch t
    | received bytes ↦ switch (record t { client_data_buff = fill bytes t.client_data_buff })
  ]

  abbrev pub set_connected : Bool → ThreadState p → ThreadState p
  set_connected b t = record t {
    session = record t.session { client = record t.session.client { connected = b } };
  }

  unfoldable pub ask : ThreadState p → Task p
  unfolding clinet_exist_in_database_check test_new
  ask t =
      let (found, s) = clinet_exist_in_database_check p t.checked_database t.session in
      let t' : ThreadState p = record t { session = s } in
      if found then at resuming t' else test_new t'

  unfoldable pub resume : ℕ → ThreadState p → Task p
  unfolding test_new
  resume now t =
      let (r, status, s) = retriev_client_data p now t.status t.session in
      let t' : ThreadState p = record t { return_value = r; status = status; session = s } in
      elim r [ quit ↦ loop_test t' | stay ↦ test_new (record t' { checked_database = true }) ]

  unfoldable pub insert : ℕ → ThreadState p → Task p
  unfolding loop_test
  insert now t =
      let (r, status, s) = process_client_data p now t.status t.session in
      let t' : ThreadState p = record t { return_value = r; status = status; session = s } in
      elim r [ quit ↦ loop_test t' | stay ↦ at connecting t' ]

  -- One move of a client's thread. It takes what recv gives, if it is at recv, and the tv_sec of
  -- gettimeofday.
  unfoldable pub move : Event → Phase → ThreadState p → Task p
  unfolding receive ask resume insert leave loop_test
  move e receiving t = receive e t
  move e losing t = leave (set_connected false t)
  move e asking t = ask t
  move e resuming t = resume e.now t
  move e inserting t = insert e.now t
  move e connecting t = loop_test (set_connected true t)
  move e closing t = loop_test (close_app_case p e.now t)
  move e removing t = at removed (record t { session = remove_client_data p t.session })
  move e updating t = at ended (record t { session = (update_client_data p e.now t.session).2 })
  move e removed t = at removed t
  move e ended t = at ended t

  -- The two handles and the flag of db_update, and the threads. What a thread's own state says of
  -- the handles is what they were at its last move.
  pub record World : Type 0 where
    pub db_client : p.Db
    pub db_prices : p.Db
    pub quit_loop_flag : Bool
    pub tasks : ℕ → Task p

  -- A thread's state, on the databases as they are now.
  abbrev pub attach : World → ThreadState p → ThreadState p
  attach w t = record t {
    session = record t.session { db_client = w.db_client; db_prices = w.db_prices };
  }

  unfoldable pub thread_step : ℕ → Event → World → World
  thread_step i e w =
      let k = move e (w.tasks i).phase (attach w (w.tasks i).state) in
      record w {
        db_client = k.state.session.db_client;
        db_prices = k.state.session.db_prices;
        tasks = update w.tasks i k;
      }

  -- The structs of `n` threads, from index `i` on.
  unfoldable pub structs : ℕ → ℕ → (ℕ → Task p) → List (PangoData p.F)
  structs i zero tasks = []
  structs i (suc n) tasks = (tasks i).state.session.client ∷ structs (i + 1) n tasks

  -- What a round of db_update meets, besides the structs.
  pub record Tick : Type 0 where
    pub now : ℕ
    pub return_thread : Bool
    pub first_clock : ℕ → ℕ
    pub second_clock : ℕ → ℕ

  unfoldable pub backup_step : ℕ → Tick → World → World
  backup_step start r w =
      let (last, d) =
        db_update_round p start r.now r.return_thread r.first_clock r.second_clock
          (structs 0 update_thread_max_num_clients w.tasks) w.db_client in
      record w { db_client = d; quit_loop_flag = last }

  -- One step, of one of `n` threads of clients or of db_update.
  pub data Step (n start : ℕ) (w : World) : World → Type 0 where
    moves : (i : ℕ) (e : Event) → i < n → Step n start w (thread_step i e w)
    backs_up : (r : Tick) → w.quit_loop_flag ≡ false → Step n start w (backup_step start r w)

  -- The worlds that steps lead to from `before`.
  pub data Reach (n start : ℕ) (before : World) : World → Type 0 where
    begin : Reach n start before before
    later : {w w' : World} → Reach n start before w → Step n start w w' → Reach n start before w'

  -- All threads at their first recv, `s i` the session of the thread `i`.
  abbrev pub world_start : p.Db → p.Db → (ℕ → Session p) → World
  world_start db_client db_prices s = record {
    db_client = db_client;
    db_prices = db_prices;
    quit_loop_flag = false;
    tasks = λ i. at receiving (thread_start p (s i));
  }
