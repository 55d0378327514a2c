-- ===== src/Server/Thread/Handle.antt =====
-- The packet checks of pango_client in server/client/client_thread.c.
use panngo.Base.{ℕ, ◌≡◌, ◌≢◌, ◌∙◌, ap, arith, List, get_or, ◌==◌, if◌then◌else◌}
use panngo.Server.Data.{quit, start_app, close_app, crc8_test_failed, pango_data_size}
use panngo.Server.Platform.{Platform}
use panngo.Server.Crc.{calculate_crc8, crc_8_check}
use panngo.Server.Packet.Store.{stored, store_client_data_in_struct_lem}
use panngo.Server.Thread.{
  ThreadState, start_app_case, close_app_case, take_packet, handle_packet, received, fill,
  thread_round,
}

-- The last byte is the checksum of the nine before it.
abbrev pub IsIntact : List ℕ → Type 0
IsIntact buff = get_or buff 9 0 ≡ calculate_crc8 buff pango_data_size

module _ (p : Platform) where
  -- The thread when the packet in its buffer has been taken in.
  abbrev pub taken : ThreadState p → ThreadState p
  taken t = record t {
    status = get_or t.client_data_buff 0 0;
    session = record t.session { client = stored t.client_data_buff t.session.client };
  }

  -- The second switch of a round.
  abbrev pub dispatch : ℕ → ThreadState p → ThreadState p
  dispatch now t =
      if t.status == start_app
      then start_app_case p now t
      else if t.status == close_app
      then close_app_case p now t
      else t

  pub take_packet_intact :
      (t : ThreadState p)
      → IsIntact t.client_data_buff
      → t.status ≢ crc8_test_failed
      → take_packet p t ≡ taken t
  unfolding take_packet crc_8_check
  take_packet_intact t intact fresh =
      ground (arith, store_client_data_in_struct_lem t.status t.client_data_buff t.session.client)

  pub take_packet_corrupt :
      (t : ThreadState p)
      → ¬ IsIntact t.client_data_buff
      → take_packet p t ≡ record t { status = crc8_test_failed; return_value = quit }
  unfolding take_packet crc_8_check
  take_packet_corrupt t corrupt = ground arith

  pub take_packet_deaf :
      (t : ThreadState p)
      → IsIntact t.client_data_buff
      → t.status ≡ crc8_test_failed
      → take_packet p t ≡ t
  unfolding take_packet crc_8_check
  take_packet_deaf t intact deaf =
      ground (arith, store_client_data_in_struct_lem t.status t.client_data_buff t.session.client)

  pub handle_packet_intact :
      (now : ℕ) (t : ThreadState p)
      → IsIntact t.client_data_buff
      → t.status ≢ crc8_test_failed
      → handle_packet p now t ≡ dispatch now (taken t)
  unfolding handle_packet
  handle_packet_intact now t intact fresh = ap (dispatch now) (take_packet_intact t intact fresh)

  -- A packet that fails the check ends the loop, and nothing of it is taken in.
  pub handle_packet_corrupt :
      (now : ℕ) (t : ThreadState p)
      → ¬ IsIntact t.client_data_buff
      → handle_packet p now t ≡ record t { status = crc8_test_failed; return_value = quit }
  unfolding handle_packet
  handle_packet_corrupt now t corrupt = ap (dispatch now) (take_packet_corrupt t corrupt)

  -- Once the status of a thread is CRC8_TEST_FAILED, an intact packet changes nothing of the
  -- thread.
  pub handle_packet_deaf :
      (now : ℕ) (t : ThreadState p)
      → IsIntact t.client_data_buff
      → t.status ≡ crc8_test_failed
      → handle_packet p now t ≡ t
  unfolding handle_packet
  handle_packet_deaf now t intact deaf =
      ap (dispatch now) (take_packet_deaf t intact deaf) ∙ ground (arith, deaf)

  -- A round that brings an intact START_APP.
  pub thread_round_starts :
      (t : ThreadState p) (bytes : List ℕ) (now : ℕ)
      → let full : ThreadState p = record t { client_data_buff = fill bytes t.client_data_buff } in
        IsIntact full.client_data_buff
        → get_or full.client_data_buff 0 0 ≡ start_app
        → t.status ≢ crc8_test_failed
        → thread_round p (record { recv = received bytes; now = now }) t
          ≡ start_app_case p now (taken full)
  unfolding thread_round
  thread_round_starts t bytes now intact starting fresh =
      handle_packet_intact now full intact fresh ∙ dispatch-start_app (taken full) starting
    where
      full : ThreadState p
      full = record t { client_data_buff = fill bytes t.client_data_buff }

      dispatch-start_app :
          (u : ThreadState p) → u.status ≡ start_app → dispatch now u ≡ start_app_case p now u
      dispatch-start_app u e = ground arith
