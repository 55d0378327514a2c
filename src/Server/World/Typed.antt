-- ===== src/Server/World/Typed.antt =====
-- The threads of server/ together, on the C types and the buffers of their variables.
pub mod Run
use panngo.Base.{
  ℕ, zero, suc, ◌+◌, ◌<◌, ◌≡◌, inl, inr, refl, subst, arith, List, [], ◌∷◌, Bool, Bool-cases, true,
  false, take, length, u32, u32_mod, IsByte, IsBytes, if-keeps, ◌==◌, if◌then◌else◌,
}
use panngo.Server.Sql.{delete_client, update_time_used, select_client}
use panngo.Server.Table.{Row, apply_statement}
use panngo.Server.Data.{
  PangoData, LoopStatus, quit, stay, start_app, close_app, connection_lost, crc8_test_failed,
  error_status_in_client_exist_subfunctions, error_status_in_new_client_subfunctions,
}
use panngo.Server.Platform.{Platform, Laws, Session}
use panngo.Server.Typed.{
  loop_status-keeps, AllTyped, IsStructTyped, IsSessionTyped, exec-AllTyped, fetch-AllTyped,
  set_time-AllTyped, remove-AllTyped,
}
use panngo.Server.NewClient.{process_client_data}
use panngo.Server.NewClient.Typed.{process_client_data-IsTyped}
use panngo.Server.ExistingClient.{retriev_client_data}
use panngo.Server.ExistingClient.Typed.{retriev_client_data-IsTyped}
use panngo.Server.Thread.{
  Recv, closed, recv_failed, received, fill, Event, ThreadState, new_client, take_packet,
  clinet_exist_in_database_check, close_app_case, remove_client_data, update_client_data,
  send_error, thread_start,
}
use panngo.Server.Thread.Typed.{IsReceived, IsTyped, connected-IsSessionTyped}
use panngo.Server.Thread.Typed.Rounds.{
  take_packet-IsTyped, filled-IsTyped, close_app_case-IsTyped, update-AllTyped,
}
use panngo.Server.World.{
  Phase, receiving, losing, asking, resuming, inserting, connecting, closing, removing, updating,
  removed, ended, Task, at, set_connected, leave, loop_test, test_new, switch, receive, ask, resume,
  insert, move,
}

module _ (p : Platform) (laws : Laws p) where
  open laws use {rows}

  abbrev IsTaskTyped : Task p → Type 0
  IsTaskTyped k = IsTyped p laws k.state

  leave-IsTyped : (t : ThreadState p) → IsTyped p laws t → IsTaskTyped (leave p t)
  unfolding leave send_error
  leave-IsTyped t typed =
      let failed : IsTaskTyped (at p ended (record t { session = send_error p t.session })) =
        record {
          session = record { client = typed.session.client; table = typed.session.table };
          buffer = typed.buffer;
          status = typed.status;
          end_time = typed.end_time;
        } in
      let failing = at p ended (record t { session = send_error p t.session }) in
      if-keeps IsTaskTyped (t.status == close_app) _ _
        (record {
          session = record { client = typed.session.client; table = typed.session.table };
          buffer = typed.buffer;
          status = typed.status;
          end_time = typed.end_time;
        })
        (if-keeps IsTaskTyped (t.status == connection_lost) (at p updating t) _ typed (
          if-keeps IsTaskTyped (t.status == crc8_test_failed) failing _ failed (
            if-keeps IsTaskTyped (t.status == error_status_in_client_exist_subfunctions) failing _
              failed
              (if-keeps IsTaskTyped (t.status == error_status_in_new_client_subfunctions) failing
                (at p ended t) failed typed))))

  loop_test-IsTyped : (t : ThreadState p) → IsTyped p laws t → IsTaskTyped (loop_test p t)
  unfolding loop_test
  loop_test-IsTyped t typed =
      loop_status-keeps IsTaskTyped t.return_value (leave p t) (at p receiving t)
        (leave-IsTyped t typed) typed

  test_new-IsTyped : (t : ThreadState p) → IsTyped p laws t → IsTaskTyped (test_new p t)
  unfolding test_new
  test_new-IsTyped t typed =
      if-keeps IsTaskTyped (new_client t.checked_database) (at p inserting t) (loop_test p t) typed
        (loop_test-IsTyped t typed)

  switch-IsTyped : (t : ThreadState p) → IsTyped p laws t → IsTaskTyped (switch p t)
  unfolding switch
  switch-IsTyped t typed =
      let t' = take_packet p t in
      let taken = take_packet-IsTyped p laws t typed in
      if-keeps IsTaskTyped (t'.status == start_app) (at p asking t') _ taken (
        if-keeps IsTaskTyped (t'.status == close_app) (at p closing t') (loop_test p t') taken
          (loop_test-IsTyped t' taken))

  receive-IsTyped :
      (e : Event) (t : ThreadState p)
      → IsReceived e.recv
      → IsTyped p laws t
      → IsTaskTyped (receive p e t)
  unfolding receive
  receive-IsTyped e t came typed = by_recv e.recv came
    where
      by_recv : (r : Recv) → IsReceived r → IsTaskTyped (receive p (record e { recv = r }) t)
      by_recv closed came = record {
        session = typed.session;
        buffer = typed.buffer;
        status = omega arith;
        end_time = typed.end_time;
      }
      by_recv recv_failed came = switch-IsTyped t typed
      by_recv (received bytes) came =
          switch-IsTyped (record t { client_data_buff = fill bytes t.client_data_buff })
            (filled-IsTyped p laws bytes t came typed)

  -- Another session, and another status.
  with_session :
      (status : ℕ) (s : Session p) (r : LoopStatus) (checked : Bool) (t : ThreadState p)
      → IsByte status
      → IsSessionTyped p laws s
      → IsTyped p laws t
      → IsTyped p laws
          (record t { return_value = r; status = status; session = s; checked_database = checked })
  with_session status s r checked t fits session typed = record {
    session = session;
    buffer = typed.buffer;
    status = fits;
    end_time = typed.end_time;
  }

  set_connected-IsTyped :
      (b : Bool) (t : ThreadState p) → IsTyped p laws t → IsTyped p laws (set_connected p b t)
  set_connected-IsTyped b t typed =
      with_session t.status _ t.return_value t.checked_database t typed.status
        (connected-IsSessionTyped p laws b t.session typed.session) typed

  ask-IsTyped : (t : ThreadState p) → IsTyped p laws t → IsTaskTyped (ask p t)
  unfolding ask clinet_exist_in_database_check
  ask-IsTyped t typed =
      let query = select_client t.session.client.mac_address in
      let s : Session p = record t.session {
        db_client = (p.sqlite3_fetch query t.session.db_client).1;
      } in
      let t' : ThreadState p = record t { session = s } in
      let asked : IsTyped p laws t' =
        with_session t.status s t.return_value t.checked_database t typed.status
          (record {
            client = typed.session.client;
            table = fetch-AllTyped p laws query t.session.db_client typed.session.table;
          })
          typed in
      if-keeps IsTaskTyped (clinet_exist_in_database_check p t.checked_database t.session).0
        (at p resuming t') (test_new p t') asked (test_new-IsTyped t' asked)

  resume-IsTyped : (now : ℕ) (t : ThreadState p) → IsTyped p laws t → IsTaskTyped (resume p now t)
  unfolding resume
  resume-IsTyped now t typed =
      let result = retriev_client_data p now t.status t.session in
      let (fits, session) =
        retriev_client_data-IsTyped p laws now t.status t.session typed.status typed.session in
      loop_status-keeps IsTaskTyped result.0 _ _
        (loop_test-IsTyped _
          (with_session result.1 result.2 result.0 t.checked_database t fits session typed))
        (test_new-IsTyped _ (with_session result.1 result.2 result.0 true t fits session typed))

  insert-IsTyped : (now : ℕ) (t : ThreadState p) → IsTyped p laws t → IsTaskTyped (insert p now t)
  unfolding insert
  insert-IsTyped now t typed =
      let result = process_client_data p now t.status t.session in
      let (fits, session) =
        process_client_data-IsTyped p laws now t.status t.session typed.status typed.session in
      let after = with_session result.1 result.2 result.0 t.checked_database t fits session typed in
      loop_status-keeps IsTaskTyped result.0 _ _ (loop_test-IsTyped _ after) after

  pub move-IsTyped :
      (e : Event) (phase : Phase) (t : ThreadState p)
      → IsReceived e.recv
      → IsTyped p laws t
      → IsTaskTyped (move p e phase t)
  unfolding move remove_client_data update_client_data apply_statement
  move-IsTyped e receiving t came typed = receive-IsTyped e t came typed
  move-IsTyped e losing t came typed = leave-IsTyped _ (set_connected-IsTyped false t typed)
  move-IsTyped e asking t came typed = ask-IsTyped t typed
  move-IsTyped e resuming t came typed = resume-IsTyped e.now t typed
  move-IsTyped e inserting t came typed = insert-IsTyped e.now t typed
  move-IsTyped e connecting t came typed = loop_test-IsTyped _ (set_connected-IsTyped true t typed)
  move-IsTyped e closing t came typed =
      loop_test-IsTyped _ (close_app_case-IsTyped p laws e.now t typed)
  move-IsTyped e removing t came typed =
      with_session t.status _ t.return_value t.checked_database t typed.status
        (record {
          client = typed.session.client;
          table =
              exec-AllTyped p laws (delete_client t.session.client.mac_address) t.session.db_client
                (remove-AllTyped t.session.client.mac_address (rows t.session.db_client))
                typed.session.table;
        })
        typed
  move-IsTyped e updating t came typed =
      with_session t.status _ t.return_value t.checked_database t typed.status
        (record {
          client = typed.session.client;
          table =
              update-AllTyped p laws (u32 e.now) t.session.client.time_start_parking t.session
                typed.session;
        })
        typed
  move-IsTyped e removed t came typed = typed
  move-IsTyped e ended t came typed = typed
