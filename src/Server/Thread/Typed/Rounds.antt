-- ===== src/Server/Thread/Typed/Rounds.antt =====
-- The rounds of a client's thread, and its whole run, on the C types of its variables.
use panngo.Base.{
  if-keeps, All-drop, length-drop, ℕ, All, All-append, inl, inr, refl, arith, List, [], ◌∷◌, false,
  length, length-append, get_or, drop, u32, sub32, IsByte, ◌==◌,
}
use native.Mathlib.Decide.{ℕ_discrete}
use panngo.Crc8.Detection.{byte_at-IsByte}
use panngo.Server.Crc.{calculate_crc8}
use panngo.Server.Sql.{update_time_used, delete_client}
use panngo.Server.Table.{apply_statement}
use panngo.Server.Data.{
  connection_lost, error_status_in_client_exist_subfunctions,
  error_status_in_new_client_subfunctions, close_app_error, error, crc8_test_failed, start_app,
  close_app,
}
use panngo.Server.Platform.{Platform, Laws, Session}
use panngo.Server.Typed.{
  AllTyped, IsSessionTyped, exec-AllTyped, set_time-AllTyped, remove-AllTyped, stored-IsStructTyped,
}
use panngo.Server.Thread.Handle.{take_packet_intact, take_packet_corrupt, take_packet_deaf}
use panngo.Server.Thread.Loop.{LoopStatus-cases, loop_quits, loop_stays}
use panngo.Server.Thread.{
  Recv, closed, recv_failed, received, Event, ThreadState, fill, start_app_case, close_app_case,
  handle_packet, lose_connection, thread_round, thread_exit, Outcome, waiting, exited,
  pango_client_loop, pango_client, thread_start, take_packet, update_client_data, send_error,
}
use panngo.Server.Thread.Typed.{
  IsReceived, IsTyped, connected-IsSessionTyped, start_app_case-IsTyped,
}

module _ (p : Platform) (laws : Laws p) where
  open laws use {rows}

  pub update-AllTyped :
      (a b : ℕ) (s : Session p)
      → IsSessionTyped p laws s
      → let update = update_time_used (sub32 a b) s.client.mac_address in
        AllTyped (rows (p.sqlite3_exec update s.db_client).1)
  unfolding apply_statement
  update-AllTyped a b s typed =
      exec-AllTyped p laws (update_time_used (sub32 a b) s.client.mac_address) s.db_client
        (set_time-AllTyped (sub32 a b) s.client.mac_address (rows s.db_client) (omega arith))
        typed.table

  pub close_app_case-IsTyped :
      (now : ℕ) (t : ThreadState p) → IsTyped p laws t → IsTyped p laws (close_app_case p now t)
  unfolding close_app_case
  close_app_case-IsTyped now t typed = record {
    session = connected-IsSessionTyped p laws false _ (record {
      client = typed.session.client;
      table = update-AllTyped (u32 now) t.session.client.time_start_parking t.session typed.session;
    });
    buffer = typed.buffer;
    status =
        if-keeps IsByte ((update_client_data p now t.session).0 == error) close_app_error t.status
          (omega arith) typed.status;
    end_time = omega arith;
  }

  pub take_packet-IsTyped :
      (t : ThreadState p) → IsTyped p laws t → IsTyped p laws (take_packet p t)
  take_packet-IsTyped t typed =
      elim (ℕ_discrete (get_or t.client_data_buff 9 0) (calculate_crc8 t.client_data_buff 9)) [
        | no corrupt ↦ rw (take_packet_corrupt p t corrupt) (record {
          session = typed.session;
          buffer = typed.buffer;
          status = omega arith;
          end_time = typed.end_time;
        })
        | yes intact ↦ elim (ℕ_discrete t.status crc8_test_failed) [
          | yes deaf ↦ rw (take_packet_deaf p t intact deaf) typed
          | no fresh ↦ rw (take_packet_intact p t intact fresh) (record {
            session = record {
              client =
                  stored-IsStructTyped t.client_data_buff t.session.client typed.buffer.0
                    typed.session.client;
              table = typed.session.table;
            };
            buffer = typed.buffer;
            status = byte_at-IsByte t.client_data_buff 0 typed.buffer.0;
            end_time = typed.end_time;
          })
        ]
      ]

  handle_packet-IsTyped :
      (now : ℕ) (t : ThreadState p) → IsTyped p laws t → IsTyped p laws (handle_packet p now t)
  unfolding handle_packet
  handle_packet-IsTyped now t typed =
      let t' = take_packet p t in
      let taken = take_packet-IsTyped t typed in
      if-keeps (IsTyped p laws) (t'.status == start_app) (start_app_case p now t') _
        (start_app_case-IsTyped p laws now t' taken)
        (if-keeps (IsTyped p laws) (t'.status == close_app) (close_app_case p now t') t'
          (close_app_case-IsTyped now t' taken) taken)

  -- The buffer after recv.
  pub filled-IsTyped :
      (bytes : List ℕ) (t : ThreadState p)
      → IsReceived (received bytes)
      → IsTyped p laws t
      → IsTyped p laws (record t { client_data_buff = fill bytes t.client_data_buff })
  filled-IsTyped bytes t (are_bytes, fit) typed =
      let rest = drop (length bytes) t.client_data_buff in
      let whole = typed.buffer.1 in
      let left = length-drop (length bytes) t.client_data_buff (omega (arith, fit, whole)) in
      record {
        session = typed.session;
        buffer = (
          All-append IsByte bytes rest are_bytes
              (All-drop IsByte (length bytes) t.client_data_buff typed.buffer.0),
          omega (arith, length-append bytes rest, left, whole),
        );
        status = typed.status;
        end_time = typed.end_time;
      }

  thread_round-IsTyped :
      (e : Event) (t : ThreadState p)
      → IsReceived e.recv
      → IsTyped p laws t
      → IsTyped p laws (thread_round p e t)
  unfolding thread_round lose_connection
  thread_round-IsTyped e t came typed = by_recv e.recv came
    where
      by_recv :
          (r : Recv) → IsReceived r → IsTyped p laws (thread_round p (record e { recv = r }) t)
      by_recv closed came = record {
        session = connected-IsSessionTyped p laws false t.session typed.session;
        buffer = typed.buffer;
        status = omega arith;
        end_time = typed.end_time;
      }
      by_recv recv_failed came = handle_packet-IsTyped e.now t typed
      by_recv (received bytes) came =
          handle_packet-IsTyped e.now
            (record t { client_data_buff = fill bytes t.client_data_buff })
            (filled-IsTyped bytes t came typed)

  thread_exit-IsSessionTyped :
      (now : ℕ) (t : ThreadState p) → IsTyped p laws t → IsSessionTyped p laws (thread_exit p now t)
  unfolding thread_exit apply_statement send_error
  thread_exit-IsSessionTyped now t typed =
      let P = IsSessionTyped p laws in
      let s = t.session in
      let failed : P (send_error p s) = record {
        client = typed.session.client;
        table = typed.session.table;
      } in
      if-keeps P (t.status == close_app) _ _
        (record {
          client = typed.session.client;
          table =
              exec-AllTyped p laws (delete_client s.client.mac_address) s.db_client
                (remove-AllTyped s.client.mac_address (rows s.db_client)) typed.session.table;
        })
        (if-keeps P (t.status == connection_lost) _ _
          (record {
            client = typed.session.client;
            table = update-AllTyped (u32 now) s.client.time_start_parking s typed.session;
          })
          (if-keeps P (t.status == crc8_test_failed) (send_error p s) _ failed (
            if-keeps P (t.status == error_status_in_client_exist_subfunctions) (send_error p s) _
              failed
              (if-keeps P (t.status == error_status_in_new_client_subfunctions) (send_error p s) s
                failed typed.session))))

  abbrev pub IsOutcomeTyped : Outcome p → Type 0
  IsOutcomeTyped (waiting t) = IsTyped p laws t
  IsOutcomeTyped (exited s) = IsSessionTyped p laws s

  loop-IsTyped :
      (t : ThreadState p) (events : List Event)
      → All (λ e. IsReceived e.recv) events
      → IsTyped p laws t
      → IsOutcomeTyped (pango_client_loop p t events)
  unfolding pango_client_loop
  loop-IsTyped t [] came typed = typed
  loop-IsTyped t (e ∷ es) (first, rest) typed =
      let round = thread_round-IsTyped e t first typed in
      let later = loop-IsTyped (thread_round p e t) es rest round in
      elim (LoopStatus-cases p (thread_round p e t).return_value) [
        | inl q ↦
            rw (loop_quits p e t es q) (thread_exit-IsSessionTyped e.now (thread_round p e t) round)
        | inr q ↦ rw (loop_stays p e t es q) later
      ]

  -- x
  pub pango_client-IsTyped :
      (s : Session p) (events : List Event)
      → All (λ e. IsReceived e.recv) events
      → IsSessionTyped p laws s
      → IsOutcomeTyped (pango_client p s events)
  unfolding pango_client
  pango_client-IsTyped s events came typed = loop-IsTyped (thread_start p s) events came (record {
    session = typed;
    buffer = (omega arith, refl);
    status = omega arith;
    end_time = omega arith;
  })
