-- ===== src/Tests/Clients.antt =====
-- Rounds of the client's loop.
use panngo.Base.{
  c_string, if◌then◌else◌, ◌==◌, ℕ, ◌+◌, ◌≡◌, ◌≢◌, inl, inr, sub32, refl, sym, ◌∙◌, arith, List, [],
  ◌∷◌, true, false, some, codes,
}
use panngo.Client.Crc
use panngo.Client.Data.{error, on, off}
use panngo.Client.Location.{fill, crc8_server_side_value, error_reply}
use panngo.Client.Network.{recv_failed, came, wait_poll_event, send_done, send_failed, sigpipe}
use panngo.Client.Main.{
  Round, MainState, goes_on, write_status, send_packet, act, main_round, main_loop, aborted,
}
use panngo.Client.Main.Rounds.{IsReady, IsMissed, IsIntact, main_round-IsReady}
use panngo.Client.Main.Sessions.{main_round_misses_failure, main_loop_refused}
use panngo.Client.Display.{final_price_for_costumer, int_div, int_rem}
use panngo.Client.Main.Start.{Setup}
use panngo.Tests.Devices.{cooked, unopened}
use panngo.Tests.Bytes.{
  the_packet, off_packet, changed_packet, packet_differs, the_packet-IsBytes,
  changed_packet-IsBytes, packet_intact, off_packet_intact,
}
use panngo.System.Corruption.{checksum_breaks}

-- A packet comes from the STM, and the server cannot be reached: the send raises SIGPIPE.
abbrev lonely : List ℕ → Round ℕ
lonely bytes = record {
  stm_poll = 1;
  stm_bytes = bytes;
  connecting = record { socket = true; connect = false };
  packet_sent = sigpipe;
  reply = recv_failed;
  close_sent = send_failed;
  bill = some (7, 60);
}

abbrev pub reached : List ℕ → Round ℕ
reached bytes = record (lonely bytes) {
  connecting = record { socket = true; connect = true };
  packet_sent = send_done;
  reply = came (codes "Ashkelon");
  close_sent = send_done;
}

-- The packet goes out, and no reply comes.
abbrev unanswered : List ℕ → Round ℕ
unanswered bytes = record (reached bytes) { reply = recv_failed }

-- The STM does not answer.
abbrev silent : Round ℕ
silent = record (lonely []) { stm_poll = 0 }

abbrev pub fresh : MainState ℕ
fresh = record {
  data_buff = [];
  status = on;
  stm_data_receive_error = 0;
  connected = false;
  location = 0 ∷ 0 ∷ 0 ∷ 0 ∷ 0 ∷ 0 ∷ 0 ∷ 0 ∷ 0 ∷ 0 ∷ 0 ∷ 0 ∷ [];
  exit_app = false;
  actions = [];
}

abbrev parked : MainState ℕ
parked = record fresh { status = off; connected = true }

fresh-IsReady : IsReady fresh
fresh-IsReady = record { status = inl refl; missed = omega arith }

answered : (bytes : List ℕ) → ¬ IsMissed (reached bytes)
unfolding wait_poll_event
answered bytes e = ground (arith, e)

the_packet-IsIntact : IsIntact the_packet
the_packet-IsIntact = packet_intact ∙ sym (Crc.calculate_crc8_lem the_packet 9)

off_packet-IsIntact : IsIntact off_packet
off_packet-IsIntact = off_packet_intact ∙ sym (Crc.calculate_crc8_lem off_packet 9)

changed_not-IsIntact : ¬ IsIntact changed_packet
changed_not-IsIntact fits =
    checksum_breaks the_packet changed_packet 7 the_packet-IsBytes changed_packet-IsBytes
      packet_intact (omega arith) packet_differs (fits ∙ Crc.calculate_crc8_lem changed_packet 9)

main_round_misses_failure_example :
    main_round (unanswered the_packet) fresh
    ≡ goes_on (record (act (send_packet the_packet) (act (write_status on) fresh)) {
      data_buff = the_packet;
      connected = true;
      status = off;
    })
main_round_misses_failure_example =
    main_round_misses_failure (unanswered the_packet) fresh (answered the_packet) (inl refl)
      the_packet-IsIntact refl refl refl (inr (refl, refl)) nothing_came
  where
    nothing_came : c_string fresh.location ≢ codes "ERROR"
    nothing_came = unfold c_string in λ e. cc

main_loop_refused_example :
    main_loop fresh (lonely the_packet ∷ silent ∷ [])
    ≡ aborted (record (act (send_packet the_packet) (act (write_status on) fresh)) {
      data_buff = the_packet;
      status = on;
    })
main_loop_refused_example =
    main_loop_refused (lonely the_packet) fresh (answered the_packet) (inl refl) (silent ∷ [])
      the_packet-IsIntact refl refl refl refl

-- A time of -60 seconds is printed as 0:-1:0.
minus_a_minute :
    final_price_for_costumer (sub32 0 60) ≡ record { hour = 0; minutes = sub32 0 1; seconds = 0 }
unfolding final_price_for_costumer int_div int_rem
minus_a_minute = refl

abbrev missed_once : MainState ℕ
missed_once = record (act (write_status on) fresh) { stm_data_receive_error = 1 }

silent_round : main_round silent fresh ≡ goes_on missed_once
unfolding main_round wait_poll_event
silent_round = refl

main_round-IsReady_example :
    IsReady missed_once
    × (missed_once.stm_data_receive_error ≡ (
        if wait_poll_event silent.stm_poll == error
        then fresh.stm_data_receive_error + 1
        else fresh.stm_data_receive_error))
main_round-IsReady_example = main_round-IsReady silent fresh missed_once fresh-IsReady silent_round

-- The UARTs do not open, and the STM is silent.
abbrev setup : Setup
setup = record {
  uart1 = unopened;
  uart4 = unopened;
  options = cooked;
  options2 = cooked;
  fds_uart1 = record { fd = 0; events = 0; revents = 0 };
  fds_uart4 = record { fd = 0; events = 0; revents = 0 };
  data_buff = fresh.data_buff;
  location = fresh.location;
}

error_reply_example :
    crc8_server_side_value on (fill (codes "ERROR") (codes "Petah-Tikva")) ≡ (on, true)
error_reply_example = error_reply on (codes "Petah-Tikva")
