-- ===== src/Server/Thread/Close.antt =====
-- The end of pango_client: case CLOSE_APP and a failed check, in server/client/client_thread.c.
use panngo.Base.{
  if◌then◌else◌, ℕ, ◌≡◌, ◌≢◌, ◌∙◌, ap, refl, arith, List, [], ◌∷◌, ◌++◌, Bool, false, u32, sub32,
  get_or,
}
use panngo.Server.Sql.{update_time_used, delete_client}
use panngo.Server.Table.{apply_statement, remove, set_time}
use panngo.Server.Data.{quit, payment, err_msg, close_app, crc8_test_failed}
use panngo.Server.Platform.{Platform, Laws, Session}
use panngo.Server.Thread.{
  received, Event, ThreadState, fill, close_app_case, send_error, thread_round, thread_exit, exited,
  pango_client_loop,
}
use panngo.Server.Thread.Loop.{loop_quits}
use panngo.Server.Thread.Handle.{
  IsIntact, taken, dispatch, handle_packet_intact, handle_packet_corrupt,
}

module _ (p : Platform) where
  -- Whether the update of the row, at the end of the parking, succeeds.
  abbrev pub update_succeeds : ℕ → Session p → Bool
  update_succeeds now s =
      (p.sqlite3_exec
        (update_time_used (sub32 (u32 now) s.client.time_start_parking) s.client.mac_address)
        s.db_client).0

  -- Whether the removal of the row behind it succeeds.
  abbrev pub delete_succeeds : ℕ → Session p → Bool
  delete_succeeds now s =
      (p.sqlite3_exec (delete_client s.client.mac_address)
        (p.sqlite3_exec
          (update_time_used (sub32 (u32 now) s.client.time_start_parking) s.client.mac_address)
          s.db_client).1).0

module _ (p : Platform) (laws : Laws p) where
  open laws use {rows}

  -- What CLOSE_APP leaves of a session `s`: what was sent, the rows, and the flag.
  pub record IsBilled (now : ℕ) (s result : Session p) : Type 0 where
    pub bill :
        let elapsed = p.of_int (sub32 (u32 now) s.client.time_start_parking) in
        result.sent ≡ (
          if update_succeeds p now s
          then s.sent ++ payment (p.multiply s.client.price elapsed) elapsed ∷ []
          else s.sent)
    pub row_gone :
        let updated =
          set_time
            (sub32 (u32 now) s.client.time_start_parking)
            s.client.mac_address
            (rows s.db_client) in
        rows result.db_client ≡ (
          if update_succeeds p now s
          then (if delete_succeeds p now s then remove s.client.mac_address updated else updated)
          else rows s.db_client)
    pub disconnected : result.client.connected ≡ false

  close_app_case-IsBilled :
      (now : ℕ) (t : ThreadState p)
      → t.status ≡ close_app
      → IsBilled now t.session (thread_exit p now (close_app_case p now t))
  unfolding thread_exit close_app_case apply_statement
  close_app_case-IsBilled now t closing =
      let mac = t.session.client.mac_address in
      let used = sub32 (u32 now) t.session.client.time_start_parking in
      let update = update_time_used used mac in
      let d = (p.sqlite3_exec update t.session.db_client).1 in
      let first = laws.rows-exec update t.session.db_client in
      let second = laws.rows-exec (delete_client mac) d in
      record {
        bill = ground arith;
        row_gone = ground (arith, first, second);
        disconnected = ground arith;
      }

  -- An intact packet with CLOSE_APP, to a thread whose status is not CRC8_TEST_FAILED, ends the
  -- thread, whatever was to come. Where the update of the row succeeds, the client is sent its
  -- price per second times the 32-bit seconds since its start, and these seconds, and its row is
  -- removed, or only updated if the removal fails; where the update fails, nothing is sent and no
  -- row changes. The client is marked as not connected.
  pub close_ends :
      (t : ThreadState p) (bytes : List ℕ) (now : ℕ) (es : List Event)
      → let full : ThreadState p = record t { client_data_buff = fill bytes t.client_data_buff } in
        IsIntact full.client_data_buff
        → get_or full.client_data_buff 0 0 ≡ close_app
        → t.status ≢ crc8_test_failed
        → (result : Session p) × (pango_client_loop p t
              (record { recv = received bytes; now = now } ∷ es)
            ≡ exited result)
          × IsBilled now (taken p full).session result
  close_ends t bytes now es intact closing fresh = (
    thread_exit p now (close_app_case p now (taken p full)),
    loop_quits p (record { recv = received bytes; now = now }) t es (rw round quits)
        ∙ ap (λ (u : ThreadState p). exited (thread_exit p now u)) round,
    close_app_case-IsBilled now (taken p full) closing,
  )
    where
      full : ThreadState p
      full = record t { client_data_buff = fill bytes t.client_data_buff }

      dispatch-close_app :
          (u : ThreadState p) → u.status ≡ close_app → dispatch p now u ≡ close_app_case p now u
      dispatch-close_app u e = ground arith

      round :
          thread_round p (record { recv = received bytes; now = now }) t
          ≡ close_app_case p now (taken p full)
      round =
          unfold thread_round in
          handle_packet_intact p now full intact fresh ∙ dispatch-close_app (taken p full) closing

      quits : (close_app_case p now (taken p full)).return_value ≡ quit
      quits = unfold close_app_case in ground arith

module _ (p : Platform) where
  -- A packet that fails its checksum ends the thread, whatever was to come: the client is sent the
  -- error, and neither the database nor the client's data changes.
  pub corrupt_ends :
      (t : ThreadState p) (bytes : List ℕ) (now : ℕ) (es : List Event)
      → ¬ IsIntact (fill bytes t.client_data_buff)
      → pango_client_loop p t (record { recv = received bytes; now = now } ∷ es)
        ≡ exited (record t.session { sent = t.session.sent ++ err_msg ∷ [] })
  corrupt_ends t bytes now es corrupt =
      loop_quits p (record { recv = received bytes; now = now }) t es (rw round refl)
      ∙ ap (λ (u : ThreadState p). exited (thread_exit p now u)) round
      ∙ ap exited error_sent
    where
      full : ThreadState p
      full = record t { client_data_buff = fill bytes t.client_data_buff }

      round :
          thread_round p (record { recv = received bytes; now = now }) t
          ≡ record full { status = crc8_test_failed; return_value = quit }
      round = unfold thread_round in handle_packet_corrupt p now full corrupt

      error_sent :
          thread_exit p now (record full { status = crc8_test_failed; return_value = quit })
          ≡ record t.session { sent = t.session.sent ++ err_msg ∷ [] }
      error_sent = unfold thread_exit send_error in refl
