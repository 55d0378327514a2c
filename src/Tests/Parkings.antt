-- ===== src/Tests/Parkings.antt =====
-- The three programs together, at a parking of a minute.
use panngo.Base.{
  ℕ, ◌*◌, ◌≡◌, inl, inr, refl, sym, subst, arith, List, [], ◌∷◌, true, replicate, u32, sub32,
}
use panngo.Client.Main.{Round, MainState, main_loop}
use panngo.Client.Main.Rounds.{IsMissed}
use panngo.Client.Main.Parking.{after_start, after_end}
use panngo.Client.Network.{came, wait_poll_event}
use panngo.Crc8
use panngo.Server.Crc as ServerCrc
use panngo.Server.Location.{location_func}
use panngo.Server.Packet.{store_client_data_in_struct}
use panngo.Server.Table.{Any}
use panngo.Server.Thread.{received, Outcome, pango_client}
use panngo.Server.Thread.Parked.{IsPriceOf}
use panngo.Stm.Packet.{PangoClientData, pack_step, pack_loop, pack_pango_buffer, fill_buffer}
use panngo.Stm.Sensors.{rand_uint128, get_coordinates, mac_loop, get_mac_address}
use panngo.Stm.Firmware.{
  Step, main_goes_on, byte_comes, start, run, ask, transmit_packet, main_step, callback, interrupt,
  step,
}
use panngo.Stm.Firmware.Packets.{registers_mac, sent}
use panngo.System.Parking.{messages, location_bytes, bill, parking}
use panngo.System.RoundTrip.{IsReceived, packet_round_trip}
use panngo.Tests.Bytes.{registers, the_packet, off_packet}
use panngo.Tests.Clients.{reached, fresh}
use panngo.Tests.Controllers.{hal}
use panngo.Tests.Threads.{new_session, session, toy-IsWorking}
use panngo.Tests.Toy.{toy, toy_laws}

-- ON comes, and later OFF; each is answered.
abbrev two_answers : List Step
two_answers =
    byte_comes 1 true
    ∷ main_goes_on hal
    ∷ main_goes_on hal
    ∷ byte_comes 2 true
    ∷ main_goes_on hal
    ∷ main_goes_on hal
    ∷ []

two_answers_sent : sent (run (start true registers true) two_answers) ≡ the_packet ∷ off_packet ∷ []
unfolding run start ask transmit_packet main_step callback interrupt step pack_step pack_loop
    pack_pango_buffer fill_buffer rand_uint128 get_coordinates mac_loop get_mac_address
    Crc8.crc_shift Crc8.crc_rounds Crc8.crc_byte Crc8.crc_loop Crc8.calculate_crc8
two_answers_sent = refl

abbrev coordinates : PangoClientData
coordinates = record { status = 1; mac_address = registers_mac registers; x_coor = 72; y_coor = 5 }

abbrev server_thread : Outcome toy
server_thread = pango_client toy new_session (
    record { recv = received the_packet; now = 1000 }
    ∷ record { recv = received off_packet; now = 1060 }
    ∷ [])

abbrev idle : MainState ℕ
idle = record fresh { data_buff = replicate 10 0 }

abbrev on_round : Round ℕ
on_round = record (reached the_packet) { reply = came (location_bytes (messages server_thread) []) }

abbrev off_round : Round ℕ
off_round = record (reached off_packet) { bill = bill toy.to_int (messages server_thread) }

answers : ¬ IsMissed on_round
unfolding wait_poll_event
answers h = omega (arith, h)

parking_example :
    (price : ℕ) × IsPriceOf toy toy_laws toy-IsWorking
      (location_func 72 5 new_session.client.location)
      new_session.client.price
      new_session.db_prices.city_parking
      price
    × (main_loop idle (on_round ∷ off_round ∷ [])
        ≡ main_loop
            (after_end off_packet
              (price * sub32 (u32 1060) (u32 1000))
              (sub32 (u32 1060) (u32 1000))
              (after_start the_packet (location_bytes (messages server_thread) []) idle))
            [])
parking_example =
    parking toy toy_laws toy-IsWorking true registers true two_answers the_packet off_packet []
      new_session 1000 1060 [] idle on_round off_round []
      (subst (Any (λ q. q ≡ the_packet)) (sym two_answers_sent) (inl refl))
      (subst (Any (λ q. q ≡ off_packet)) (sym two_answers_sent) (inr (inl refl))) refl refl refl
      (λ h. h) (record { status = refl; apart = refl; size = refl })
      (record {
        answer = record { answered = answers; bytes = refl };
        connecting = refl;
        packet_sent = refl;
        reply_came = refl;
      })
      (record {
        answer = record { answered = answers; bytes = refl };
        close_sent = refl;
        bill_came = refl;
      })

packet_round_trip_example :
    (ServerCrc.crc_8_check (fill_buffer coordinates (replicate 10 0)) 9 2 ≡ (true, 2))
    × IsReceived coordinates 2 session.client
        (store_client_data_in_struct 2 (fill_buffer coordinates (replicate 10 0)) session.client)
packet_round_trip_example =
    packet_round_trip coordinates (replicate 10 0) 2 session.client refl refl (omega arith)
