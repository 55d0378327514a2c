-- ===== src/Server/Thread.antt =====
-- server/client/client_thread.c and the rest of client_thread_func.c: the thread of one client. A
-- round of its loop takes what recv gives and the tv_sec that gettimeofday gives in the round; no
-- round, and no exit, reads the clock twice. Whether a send succeeds changes nothing.
pub mod Handle
pub mod Start
pub mod Found
pub mod Back
pub mod Return
pub mod Close
pub mod Lost
pub mod Parked
pub mod Parking
pub mod Deaf
pub mod Invariant
pub mod Loop
pub mod Typed
use panngo.Base.{
  ℕ, List, [], ◌∷◌, ◌++◌, Bool, true, false, ◌&&◌, not, u32, sub32, drop, length, ◌==◌,
  if◌then◌else◌,
}
use panngo.Server.Sql.{select_client, update_time_used, delete_client}
use panngo.Server.Table.{Fetch, row}
use panngo.Server.Data.{
  LoopStatus, quit, stay, Message, err_msg, payment, start_app, close_app, connection_lost,
  status_initial_value, crc8_test_failed, error_status_in_client_exist_subfunctions,
  error_status_in_new_client_subfunctions, close_app_error, error, pango_data_size,
}
use panngo.Server.Platform.{Platform, Session}
use panngo.Server.Crc.{crc_8_check}
use panngo.Server.Packet.{store_client_data_in_struct}
use panngo.Server.NewClient.{process_client_data}
use panngo.Server.ExistingClient.{retriev_client_data}

-- recv: 0 for a connection that was closed, -1, or the bytes that came, at most the ten asked for.
pub data Recv : Type 0 where
  closed : Recv
  recv_failed : Recv
  received : List ℕ → Recv

pub record Event : Type 0 where
  pub recv : Recv
  pub now : ℕ

-- The local variables of pango_client, and what it shares.
pub record ThreadState (p : Platform) : Type 0 where
  pub session : Session p
  pub client_data_buff : List ℕ
  pub return_value : LoopStatus
  pub status : ℕ
  pub checked_database : Bool
  pub end_time : ℕ

abbrev pub new_client : Bool → Bool
new_client checked_database = not checked_database

-- The buffer after recv: the bytes that came stand in front of what was there behind them.
abbrev pub fill : List ℕ → List ℕ → List ℕ
fill bytes buff = bytes ++ drop (length bytes) buff

module _ (p : Platform) where
  abbrev is_row : Fetch p.F → Bool
  is_row (row v) = true
  is_row _ = false

  -- A prepare that fails leaves no statement, and stepping that gives no row.
  unfoldable pub clinet_exist_in_database_check : Bool → Session p → Bool × Session p
  clinet_exist_in_database_check allrdy_chckd s =
      let (result, d) = p.sqlite3_fetch (select_client s.client.mac_address) s.db_client in
      (is_row result && not allrdy_chckd, record s { db_client = d })

  -- 0 or ERROR, the end time, and the session.
  unfoldable pub update_client_data : ℕ → Session p → ℕ × ℕ × Session p
  update_client_data now s =
      let end_time = u32 now in
      let used = sub32 end_time s.client.time_start_parking in
      let (ok, d) = p.sqlite3_exec (update_time_used used s.client.mac_address) s.db_client in
      (if ok then 0 else error, end_time, record s { db_client = d })

  unfoldable pub calculate_and_send_payment_data :
      ℕ → ℕ → p.F → List (Message p.F) → List (Message p.F)
  calculate_and_send_payment_data start_time end_time parking_price_per_second sent =
      let elapsed = p.of_int (sub32 end_time start_time) in
      sent ++ payment (p.multiply parking_price_per_second elapsed) elapsed ∷ []

  unfoldable pub remove_client_data : Session p → Session p
  remove_client_data s = record s {
    db_client = (p.sqlite3_exec (delete_client s.client.mac_address) s.db_client).1;
  }

  -- case START_APP, once the database has been asked: a client that is new to it.
  unfoldable pub start_new_client : ℕ → ThreadState p → ThreadState p
  start_new_client now t =
      if new_client t.checked_database
      then (let (r, status, s) = process_client_data p now t.status t.session in
          let connected : Bool = elim r [ quit ↦ s.client.connected | stay ↦ true ] in
          record t {
            return_value = r;
            status = status;
            session = record s { client = record s.client { connected = connected } };
          })
      else t

  unfoldable pub start_app_case : ℕ → ThreadState p → ThreadState p
  unfolding start_new_client clinet_exist_in_database_check
  start_app_case now t =
      let (found, s) = clinet_exist_in_database_check t.checked_database t.session in
      let t' : ThreadState p = record t { session = s } in
      if found
      then (let (r, status, s') = retriev_client_data p now t.status s in
          let back : ThreadState p = record t' {
            return_value = r;
            status = status;
            session = s';
          } in
          elim r [
            | quit ↦ back
            | stay ↦ start_new_client now (record back { checked_database = true })
          ])
      else start_new_client now t'

  unfoldable pub close_app_case : ℕ → ThreadState p → ThreadState p
  unfolding update_client_data
  close_app_case now t =
      let (result, end_time, s) = update_client_data now t.session in
      record t {
        status = if result == error then close_app_error else t.status;
        end_time = end_time;
        session = record s { client = record s.client { connected = false } };
        return_value = quit;
      }

  -- The first switch of a round, for a buffer that has been filled.
  unfoldable pub take_packet : ThreadState p → ThreadState p
  take_packet t =
      let (ok, checked) = crc_8_check t.client_data_buff pango_data_size t.status in
      let (status, client) =
        if ok
        then store_client_data_in_struct checked t.client_data_buff t.session.client
        else (checked, t.session.client) in
      record t {
        status = status;
        session = record t.session { client = client };
        return_value = if ok then t.return_value else quit;
      }

  -- The two switches of a round.
  unfoldable pub handle_packet : ℕ → ThreadState p → ThreadState p
  unfolding take_packet start_app_case close_app_case
  handle_packet now t =
      let t' = take_packet t in
      if t'.status == start_app
      then start_app_case now t'
      else if t'.status == close_app
      then close_app_case now t'
      else t'

  -- wait_for_data_from_client finds the connection closed.
  unfoldable pub lose_connection : ThreadState p → ThreadState p
  lose_connection t = record t {
    status = connection_lost;
    session = record t.session { client = record t.session.client { connected = false } };
    return_value = quit;
  }

  -- One round of the loop. A recv that fails is not told from one that brings bytes.
  unfoldable pub thread_round : Event → ThreadState p → ThreadState p
  thread_round e t = elim e.recv [
    | closed ↦ lose_connection t
    | recv_failed ↦ handle_packet e.now t
    | received bytes ↦
        handle_packet e.now (record t { client_data_buff = fill bytes t.client_data_buff })
  ]

  unfoldable pub send_error : Session p → Session p
  send_error s = record s { sent = s.sent ++ err_msg ∷ [] }

  pay_and_remove : ℕ → Session p → Session p
  unfolding calculate_and_send_payment_data remove_client_data
  pay_and_remove end_time s = remove_client_data (record s {
    sent =
        calculate_and_send_payment_data s.client.time_start_parking end_time s.client.price s.sent;
  })

  -- The switch behind the loop.
  unfoldable pub thread_exit : ℕ → ThreadState p → Session p
  unfolding send_error pay_and_remove update_client_data
  thread_exit now t =
      if t.status == close_app
      then pay_and_remove t.end_time t.session
      else if t.status == connection_lost
      then (update_client_data now t.session).2
      else if t.status == crc8_test_failed
      then send_error t.session
      else if t.status == error_status_in_client_exist_subfunctions
      then send_error t.session
      else if t.status == error_status_in_new_client_subfunctions
      then send_error t.session
      else t.session

  -- A thread that waits for its next packet, or one that has ended.
  pub data Outcome : Type 0 where
    waiting : ThreadState p → Outcome
    exited : Session p → Outcome

  unfoldable pub pango_client_loop : ThreadState p → List Event → Outcome
  pango_client_loop t [] = waiting t
  pango_client_loop t (e ∷ es) =
      let t' = thread_round e t in
      let rest = pango_client_loop t' es in
      elim t'.return_value [ quit ↦ exited (thread_exit e.now t') | stay ↦ rest ]

  -- The thread at its first recv.
  abbrev pub thread_start : Session p → ThreadState p
  thread_start s = record {
    session = s;
    client_data_buff = 0 ∷ 0 ∷ 0 ∷ 0 ∷ 0 ∷ 0 ∷ 0 ∷ 0 ∷ 0 ∷ 0 ∷ [];
    return_value = stay;
    status = status_initial_value;
    checked_database = false;
    end_time = 0;
  }

  unfoldable pub pango_client : Session p → List Event → Outcome
  pango_client s events = pango_client_loop (thread_start s) events
