-- ===== src/Client/Main/Sessions.antt =====
-- A parking in the loop of client/main_client.c: a packet that is read wrong, the start, the end,
-- a server that cannot be reached, and an STM that does not answer.
use panngo.Base.{
  c_string, ℕ, ◌+◌, ◌≤◌, ◌<◌, ◌≡◌, ◌≢◌, ◌⊎◌, inl, inr, refl, arith, List, [], ◌∷◌, true, false,
  some, get_or, text_eq_iff, codes, ◌==◌, if◌then◌else◌,
}
use panngo.Client.Data.{on, off, error}
use panngo.Client.Crc.{crc_8_check, get_status}
use panngo.Client.Status.{
  received_data_from_stm, updating_status_value, IsOnOff, already_connected_to_server_check,
  ready_to_quit,
}
use panngo.Client.Location.{fill, crc8_server_side_value}
use panngo.Client.Display.{final_price_for_costumer}
use panngo.Client.Network.{
  wait_poll_event, connect_to_pango_server, came, recv_failed, receive, send_done, send_failed,
  sigpipe, send_data_and_receive_location,
}
use panngo.Client.Main.{
  Round, MainState, Control, goes_on, breaks, exits, write_status, send_packet, print_price,
  close_socket, act, exchange, connect_step, quit_step, read_step, received_step, main_round,
  Finished, running, closed, aborted, main_loop,
}
use panngo.Client.Main.Rounds.{IsReady, IsMissed, IsIntact, packet, main_round-IsReady}

module _ {F : Type 0} (r : Round F) (s : MainState F) (answered : ¬ IsMissed r)
    (ready : IsOnOff s.status) where
  abbrev told : MainState F
  told = act (write_status s.status) s

  -- When the STM answers with a packet that fails its checksum, and whose status is the one that
  -- was asked for, nothing is sent to the server, only the buffer changes, and the same status is
  -- sent to the STM again.
  main_round_retries :
      ¬ IsIntact (packet r s)
      → get_or (packet r s) 0 0 ≡ s.status
      → main_round r s ≡ goes_on (record told { data_buff = packet r s })
  unfolding main_round received_step read_step crc_8_check get_status received_data_from_stm
      connect_step quit_step already_connected_to_server_check ready_to_quit updating_status_value
  main_round_retries corrupt same = ground arith

  -- The array `location` after the reply.
  abbrev replied : List ℕ → List ℕ
  replied bytes = fill bytes s.location

  -- When the STM answers a client that is not connected, with an intact packet with ON, the
  -- connection and the send succeed, and a reply comes that does not read as "ERROR", then the
  -- packet is sent as it came, the client is connected, and it sends OFF to the STM next.
  pub main_round_starts :
      (bytes : List ℕ)
      → IsIntact (packet r s)
      → get_or (packet r s) 0 0 ≡ on
      → s.connected ≡ false
      → r.connecting ≡ record { socket = true; connect = true }
      → r.packet_sent ≡ send_done
      → r.reply ≡ came bytes
      → c_string (replied bytes) ≢ codes "ERROR"
      → main_round r s
        ≡ goes_on (record (act (send_packet (packet r s)) told) {
          data_buff = packet r s;
          location = replied bytes;
          connected = true;
          status = off;
        })
  unfolding main_round received_step read_step exchange connect_to_pango_server
      send_data_and_receive_location receive crc8_server_side_value crc_8_check get_status
      received_data_from_stm connect_step quit_step already_connected_to_server_check ready_to_quit
      updating_status_value
  main_round_starts bytes intact is_on apart connecting sent reply no_error =
      ground (arith, text_eq_iff (c_string (replied bytes)) (codes "ERROR"))

  -- When the STM answers a client that is not connected with an intact packet with ON, the
  -- connection succeeds, and then send gives -1 or recv does, then the client counts as connected,
  -- and sends OFF to the STM next, unless the array `location` reads as "ERROR".
  pub main_round_misses_failure :
      IsIntact (packet r s)
      → get_or (packet r s) 0 0 ≡ on
      → s.connected ≡ false
      → r.connecting ≡ record { socket = true; connect = true }
      → (r.packet_sent ≡ send_failed) ⊎ ((r.packet_sent ≡ send_done) × (r.reply ≡ recv_failed))
      → c_string s.location ≢ codes "ERROR"
      → main_round r s
        ≡ goes_on (record (act (send_packet (packet r s)) told) {
          data_buff = packet r s;
          connected = true;
          status = off;
        })
  unfolding main_round received_step read_step exchange connect_to_pango_server
      send_data_and_receive_location receive crc8_server_side_value crc_8_check get_status
      received_data_from_stm connect_step quit_step already_connected_to_server_check ready_to_quit
      updating_status_value
  main_round_misses_failure intact is_on apart connecting failed no_error =
      ground (arith, failed, text_eq_iff (c_string s.location) (codes "ERROR"))

  main_round_refused :
      IsIntact (packet r s)
      → get_or (packet r s) 0 0 ≡ on
      → s.connected ≡ false
      → r.connecting ≡ record { socket = true; connect = false }
      → r.packet_sent ≡ sigpipe
      → main_round r s
        ≡ exits
            (record (act (send_packet (packet r s)) told) { data_buff = packet r s; status = on })
  unfolding main_round received_step read_step exchange connect_to_pango_server
      send_data_and_receive_location receive crc8_server_side_value crc_8_check get_status
      received_data_from_stm connect_step quit_step already_connected_to_server_check ready_to_quit
      updating_status_value
  main_round_refused intact is_on apart connecting killed = ground arith

  -- When the STM answers a client that is not connected with an intact packet with ON, connect
  -- fails, and the send on that socket raises SIGPIPE, as it does on a socket that is not
  -- connected, then the client's process ends there, whatever was to come: exit_app is not set, the
  -- STM is not sent RESTART, and the socket is not closed by main.
  pub main_loop_refused :
      (rs : List (Round F))
      → IsIntact (packet r s)
      → get_or (packet r s) 0 0 ≡ on
      → s.connected ≡ false
      → r.connecting ≡ record { socket = true; connect = false }
      → r.packet_sent ≡ sigpipe
      → main_loop s (r ∷ rs)
        ≡ aborted
            (record (act (send_packet (packet r s)) told) { data_buff = packet r s; status = on })
  unfolding main_loop
  main_loop_refused rs intact is_on apart connecting killed =
      ground (arith, main_round_refused intact is_on apart connecting killed)

  -- When the STM answers a client that is connected, with an intact packet with OFF, and the send
  -- and the receipt of the bill succeed, then the packet is sent as it came, the price is printed
  -- with its time of day, the socket is closed, and the client is not connected and sends ON to the
  -- STM next.
  pub main_round_closes :
      (price : F) (time : ℕ)
      → IsIntact (packet r s)
      → get_or (packet r s) 0 0 ≡ off
      → s.connected ≡ true
      → r.close_sent ≡ send_done
      → r.bill ≡ some (price, time)
      → main_round r s
        ≡ goes_on
            (record (act close_socket (
              act
                (print_price price (final_price_for_costumer time))
                (act (send_packet (packet r s)) told))) {
                  data_buff = packet r s;
                  connected = false;
                  status = on;
                })
  unfolding main_round received_step read_step crc_8_check get_status received_data_from_stm
      connect_step quit_step already_connected_to_server_check ready_to_quit updating_status_value
  main_round_closes price time intact is_off there sent bill = ground arith

-- The rounds in which the STM does not answer.
unfoldable pub misses : {F : Type 0} → List (Round F) → ℕ
misses [] = 0
misses (r ∷ rs) =
    let rest = misses rs in if wait_poll_event r.stm_poll == error then rest + 1 else rest

IsLeft : {F : Type 0} → Control F → Type 0
IsLeft {F} after =
    ((u : MainState F) × (after ≡ breaks u)) ⊎ ((u : MainState F) × (after ≡ exits u))

Control-cases :
    {F : Type 0} (after : Control F) → ((u : MainState F) × (after ≡ goes_on u)) ⊎ IsLeft after
unfolding IsLeft
Control-cases (goes_on u) = inl (u, refl)
Control-cases (breaks u) = inr (inl (u, refl))
Control-cases (exits u) = inr (inr (u, refl))

left_not_running :
    {F : Type 0} (r : Round F) (rs : List (Round F)) (s t : MainState F)
    → IsLeft (main_round r s)
    → ¬ (main_loop s (r ∷ rs) ≡ running t)
unfolding IsLeft main_loop
left_not_running r rs s t (inl (u, after)) e = ground (arith, after)
left_not_running r rs s t (inr (u, after)) e = ground (arith, after)

-- While the loop runs, the misses before and since are fewer than three.
main_loop_few_misses :
    {F : Type 0} (rs : List (Round F)) (s t : MainState F)
    → IsReady s
    → main_loop s rs ≡ running t
    → s.stm_data_receive_error + misses rs < 3
unfolding main_loop misses
main_loop_few_misses [] s t ready e = ground (arith, ready.missed)
main_loop_few_misses (r ∷ rs) s t ready e = elim (Control-cases (main_round r s)) [
  | inl (u, after) ↦
      let (ready_after, count) = main_round-IsReady r s u ready after in
      ground (arith, count, main_loop_few_misses rs u t ready_after (ground (arith, after)))
  | inr left ↦ absurd (left_not_running r rs s t left e)
]

Finished-cases :
    {F : Type 0} (f : Finished F)
    → ((t : MainState F) × (f ≡ running t))
      ⊎ (((t : MainState F) × (f ≡ closed t)) ⊎ ((t : MainState F) × (f ≡ aborted t)))
Finished-cases (running t) = inl (t, refl)
Finished-cases (closed t) = inr (inl (t, refl))
Finished-cases (aborted t) = inr (inr (t, refl))

-- The client's loop, from a status of ON or OFF and at most two misses, has ended once the STM has
-- not answered in so many rounds that it is three misses in all: main has closed everything, or the
-- process has ended.
pub main_loop_ends :
    {F : Type 0} (rs : List (Round F)) (s : MainState F)
    → IsReady s
    → 3 ≤ s.stm_data_receive_error + misses rs
    → ((t : MainState F) × (main_loop s rs ≡ closed t))
      ⊎ ((t : MainState F) × (main_loop s rs ≡ aborted t))
main_loop_ends rs s ready three = elim (Finished-cases (main_loop s rs)) [
  | inl (t, runs) ↦ absurd (omega (arith, three, main_loop_few_misses rs s t ready runs))
  | inr ended ↦ ended
]
