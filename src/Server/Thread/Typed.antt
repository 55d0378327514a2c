-- ===== src/Server/Thread/Typed.antt =====
-- A client's thread, on the C types and the buffers of its variables: case START_APP.
pub mod Rounds
use panngo.Base.{
  if-keeps, All-drop, length-drop, ℕ, zero, suc, ◌+◌, All, All-append, ◌≤◌, ◌<◌, ◌≡◌, inl, inr,
  refl, sym, subst, ap, ◌∙◌, arith, List, [], ◌∷◌, ◌++◌, Bool, Bool-cases, true, false, length,
  length-append, get_or, drop, u32, u32_mod, sub32, IsByte, IsBytes, ◌==◌, if◌then◌else◌,
}
use native.Mathlib.Decide.{ℕ_discrete}
use panngo.Crc8.Detection.{byte_at-IsByte}
use panngo.Server.Crc.{calculate_crc8}
use panngo.Server.Sql.{update_time_used, delete_client, select_client}
use panngo.Server.Table.{apply_statement}
use panngo.Server.Data.{
  connection_lost, error_status_in_client_exist_subfunctions,
  error_status_in_new_client_subfunctions, close_app_error, error, PangoData, Message, LoopStatus,
  quit, stay, crc8_test_failed, start_app, close_app,
}
use panngo.Server.Platform.{Platform, Laws, Session}
use panngo.Server.Packet.Store.{stored}
use panngo.Server.Typed.{
  loop_status-keeps, AllTyped, IsStructTyped, IsSessionTyped, exec-AllTyped, fetch-AllTyped,
  set_time-AllTyped, remove-AllTyped, stored-IsStructTyped,
}
use panngo.Server.NewClient.{process_client_data}
use panngo.Server.NewClient.Typed.{process_client_data-IsTyped}
use panngo.Server.ExistingClient.{retriev_client_data}
use panngo.Server.ExistingClient.Typed.{retriev_client_data-IsTyped}
use panngo.Server.Thread.Handle.{
  taken, dispatch, handle_packet_intact, handle_packet_corrupt, handle_packet_deaf,
}
use panngo.Server.Thread.Loop.{LoopStatus-cases, loop_quits, loop_stays}
use panngo.Server.Thread.{
  Recv, closed, recv_failed, received, Event, ThreadState, fill, clinet_exist_in_database_check,
  new_client, start_new_client, start_app_case, close_app_case, handle_packet, lose_connection,
  thread_round, thread_exit, Outcome, waiting, exited, pango_client_loop, pango_client,
  thread_start, update_client_data, remove_client_data, send_error,
}

-- recv gives at most the ten bytes asked for.
abbrev pub IsReceived : Recv → Type 0
IsReceived closed = Unit
IsReceived recv_failed = Unit
IsReceived (received bytes) = IsBytes bytes × (length bytes ≤ 10)

module _ (p : Platform) (laws : Laws p) where
  open laws use {rows}

  -- The local variables, and the session.
  pub record IsTyped (t : ThreadState p) : Type 0 where
    pub session : IsSessionTyped p laws t.session
    pub buffer : IsBytes t.client_data_buff × (length t.client_data_buff ≡ 10)
    pub status : IsByte t.status
    pub end_time : t.end_time < u32_mod

  pub connected-IsSessionTyped :
      (b : Bool) (s : Session p)
      → IsSessionTyped p laws s
      → IsSessionTyped p laws (record s { client = record s.client { connected = b } })
  connected-IsSessionTyped b s h = record {
    client = record {
      mac_address = h.client.mac_address;
      location = h.client.location;
      x_axis = h.client.x_axis;
      y_axis = h.client.y_axis;
      time_start_parking = h.client.time_start_parking;
    };
    table = h.table;
  }

  pub start_new_client-IsTyped :
      (now : ℕ) (t : ThreadState p) → IsTyped t → IsTyped (start_new_client p now t)
  unfolding start_new_client
  start_new_client-IsTyped now t typed =
      let (status, session) =
        process_client_data-IsTyped p laws now t.status t.session typed.status typed.session in
      if-keeps IsTyped (new_client t.checked_database) _ t
        (record {
          session = connected-IsSessionTyped _ _ session;
          buffer = typed.buffer;
          status = status;
          end_time = typed.end_time;
        })
        typed

  pub start_app_case-IsTyped :
      (now : ℕ) (t : ThreadState p) → IsTyped t → IsTyped (start_app_case p now t)
  unfolding start_app_case clinet_exist_in_database_check
  start_app_case-IsTyped now t typed =
      let asked =
        p.sqlite3_fetch (select_client t.session.client.mac_address) t.session.db_client in
      let s : Session p = record t.session { db_client = asked.1 } in
      let table =
        fetch-AllTyped p laws (select_client t.session.client.mac_address) t.session.db_client
          typed.session.table in
      let here : IsSessionTyped p laws s = record {
        client = typed.session.client;
        table = table;
      } in
      let looked_up : IsTyped (record t { session = s }) = record {
        session = here;
        buffer = typed.buffer;
        status = typed.status;
        end_time = typed.end_time;
      } in
      let (status, session) = retriev_client_data-IsTyped p laws now t.status s typed.status here in
      let back = retriev_client_data p now t.status s in
      let t' : ThreadState p = record t {
        return_value = back.0;
        status = back.1;
        session = back.2;
      } in
      let resumed : IsTyped t' = record {
        session = session;
        buffer = typed.buffer;
        status = status;
        end_time = typed.end_time;
      } in
      if-keeps IsTyped (clinet_exist_in_database_check p t.checked_database t.session).0 _ _
        (loop_status-keeps IsTyped back.0 t' _ resumed (
          start_new_client-IsTyped now (record t' { checked_database = true })
            (record {
              session = resumed.session;
              buffer = resumed.buffer;
              status = resumed.status;
              end_time = resumed.end_time;
            })))
        (start_new_client-IsTyped now (record t { session = s }) looked_up)
