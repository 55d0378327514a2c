-- ===== src/Client/Main.antt =====
-- main of client/main_client.c. A round of the loop takes what the kernel answers in it. The results
-- of tcflush, of the wait for the button, of write and of sleep do not matter to main. The set-up
-- before the loop is in Start.
pub mod Rounds
pub mod Sessions
pub mod Parking
pub mod Flag
pub mod Start
use panngo.Base.{
  ℕ, ◌+◌, ◌≡◌, List, [], ◌∷◌, ◌++◌, Bool, true, false, Option, none, some, u8, not, ◌&&◌, ◌==◌,
  if◌then◌else◌,
}
use panngo.Client.Data.{on, off, restart, error, pango_data_size}
use panngo.Client.Crc.{crc_8_check, get_status}
use panngo.Client.Status.{
  received_data_from_stm, updating_status_value, already_connected_to_server_check, ready_to_quit,
}
use panngo.Client.Location.{fill, crc8_server_side_value}
use panngo.Client.Display.{Clock, final_price_for_costumer}
use panngo.Client.Network.{
  wait_poll_event, Connecting, connect_to_pango_server, Reply, Sending, send_done, send_failed,
  sigpipe, send_data_and_receive_location, promote,
}

-- What a round meets. `bill` is the two doubles of `payment` that recv brings, the second one as
-- the int that it is cast to, or `none` where recv fails; F is the type `double`.
pub record Round (F : Type 0) : Type 0 where
  pub stm_poll : ℕ
  pub stm_bytes : List ℕ
  pub connecting : Connecting
  pub packet_sent : Sending
  pub reply : Reply
  pub close_sent : Sending
  pub bill : Option (F × ℕ)

-- What main does that others see, the latest last: its calls of write, send, printf and close.
pub data Action (F : Type 0) : Type 0 where
  write_status : ℕ → Action F
  write_restart : Action F
  send_packet : List ℕ → Action F
  print_price : F → Clock → Action F
  close_socket : Action F

-- The variables of main. `exit_app` is the flag that ends the button's thread.
pub record MainState (F : Type 0) : Type 0 where
  pub data_buff : List ℕ
  pub status : ℕ
  pub stm_data_receive_error : ℕ
  pub connected : Bool
  pub location : List ℕ
  pub exit_app : Bool
  pub actions : List (Action F)

-- After a round, or a part of one: the loop goes on, it is left by `break`, or the process exits.
pub data Control (F : Type 0) : Type 0 where
  goes_on : MainState F → Control F
  breaks : MainState F → Control F
  exits : MainState F → Control F

-- The end of main: `closed` behind the loop, or `aborted` by exit(EXIT_FAILURE) or
-- a signal.
pub data Finished (F : Type 0) : Type 0 where
  running : MainState F → Finished F
  closed : MainState F → Finished F
  aborted : MainState F → Finished F

module _ {F : Type 0} where
  infixl 5 ◌>>=◌
  -- `breaks` and `exits` skip what follows.
  abbrev ◌>>=◌ : Control F → (MainState F → Control F) → Control F
  goes_on s >>= f = f s
  breaks s >>= f = breaks s
  exits s >>= f = exits s

  abbrev pub act : Action F → MainState F → MainState F
  act a s = record s { actions = s.actions ++ a ∷ [] }

  -- What follows connect_to_pango_server, whose result is a uint8_t.
  unfoldable pub exchange : Round F → ℕ → MainState F → Control F
  exchange r connected_result s =
      let asked = act (send_packet s.data_buff) s in
      if promote connected_result == error
      then breaks (record s { exit_app = true })
      else elim (send_data_and_receive_location r.packet_sent r.reply s.location) [
        | none ↦ exits asked
        | some (result, location) ↦
            let (status, connected) = crc8_server_side_value s.status location in
            let sent : MainState F = record asked { location = location } in
            if promote (u8 result) == error
            then breaks sent
            else goes_on (record sent { status = status; connected = connected })
      ]

  -- The client is not connected yet, and starts.
  unfoldable pub connect_step : Round F → MainState F → Control F
  unfolding exchange
  connect_step r s =
      if already_connected_to_server_check s.status s.connected
      then goes_on s
      else elim (connect_to_pango_server r.connecting) [
        | none ↦ exits s
        | some result ↦ exchange r result s
      ]

  unfoldable pub quit_step : Round F → MainState F → Control F
  quit_step r s =
      let asked = act (send_packet s.data_buff) s in
      if ready_to_quit s.status s.connected
      then elim r.close_sent [
        | send_done ↦ elim r.bill [
          | none ↦ breaks asked
          | some (price, time) ↦
              goes_on
                (record (act close_socket
                  (act (print_price price (final_price_for_costumer time)) asked)) {
                    connected = false;
                  })
        ]
        | send_failed ↦ breaks asked
        | sigpipe ↦ exits asked
      ]
      else goes_on s

  -- The packet of the STM: the status is its first byte, or a mark that its checksum is wrong.
  unfoldable pub read_step : Round F → MainState F → MainState F
  read_step r s =
      let data_buff = fill r.stm_bytes s.data_buff in
      record s {
        data_buff = data_buff;
        status = crc_8_check data_buff pango_data_size (get_status data_buff);
      }

  unfoldable pub received_step : Round F → MainState F → Control F
  received_step r s =
      if received_data_from_stm s.status
      then (do t ← connect_step r (read_step r s); quit_step r t)
      else goes_on s

  -- One round of the loop.
  unfoldable pub main_round : Round F → MainState F → Control F
  main_round r s =
      let told = act (write_status s.status) s in
      let missed : MainState F = record told {
        stm_data_receive_error = u8 (s.stm_data_receive_error + 1);
      } in
      if wait_poll_event r.stm_poll == error
      then (if missed.stm_data_receive_error == restart
          then breaks (act write_restart missed)
          else goes_on missed)
      else do
        t ← received_step r told
        goes_on (record t { status = updating_status_value t.status })

  unfoldable pub main_loop : MainState F → List (Round F) → Finished F
  main_loop s [] = running s
  main_loop s (r ∷ rs) =
      let after = main_round r s in
      elim after [
        | goes_on t ↦ main_loop t rs
        | breaks t ↦ closed (act close_socket (act write_restart t))
        | exits t ↦ aborted t
      ]
