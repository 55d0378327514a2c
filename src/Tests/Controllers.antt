-- ===== src/Tests/Controllers.antt =====
-- The STM's program, and its packets at the checks of the others.
use panngo.Base.{◌≡◌, inl, inr, refl, arith, List, [], ◌∷◌, true, false, some, All}
use panngo.Client.Crc as ClientCrc
use panngo.Client.Status.{received_data_from_stm}
use panngo.Crc8
use panngo.Tests.Bytes.{
  registers, the_packet, changed_packet, packet_differs, packet_intact, the_packet-IsBytes,
  changed_packet-IsBytes,
}
use panngo.Server.Crc as ServerCrc
use panngo.Server.Data.{crc8_test_failed}
use panngo.Stm.Packet.{pack_step, pack_loop, pack_pango_buffer, fill_buffer}
use panngo.Stm.Sensors.{rand_uint128, get_coordinates, mac_loop, get_mac_address}
use panngo.Stm.Firmware.{
  on, off, Firmware, runs, Hal, Step, main_goes_on, byte_comes, start, run, ask, transmit_packet,
  main_step, callback, interrupt, step,
}
use panngo.Stm.Firmware.Packets.{IsAnswer, registers_mac, sent, run_packets}
use panngo.Stm.Firmware.Interrupts.{IsCounted, run-IsCounted, request_lost_for_good}
use panngo.System.Delivery.{IsDelivered, stm_packets-IsDelivered}
use panngo.System.Corruption.{one_byte_refused}

abbrev pub hal : Hal
hal = record { x_random = some 200; y_random = some 5; transmit = true; receive_it = true }

-- ON comes, the packet goes out, the flag is reset.
abbrev one_answer : List Step
one_answer = byte_comes 1 true ∷ main_goes_on hal ∷ main_goes_on hal ∷ []

abbrev waiting : Firmware
waiting = record {
  interrupt_flag = off;
  wrong_status = 1;
  pango_client_data = record {
    status = 1;
    mac_address = registers_mac registers;
    x_coor = 72;
    y_coor = 5;
  };
  send_buff = the_packet;
  listening = true;
  answering = false;
  transmitted = the_packet ∷ [];
}

one_answer-run : run (start true registers true) one_answer ≡ runs waiting
unfolding run start ask transmit_packet main_step callback interrupt step pack_step pack_loop
    pack_pango_buffer fill_buffer rand_uint128 get_coordinates mac_loop get_mac_address
    Crc8.crc_shift Crc8.crc_rounds Crc8.crc_byte Crc8.crc_loop Crc8.calculate_crc8
one_answer-run = refl

run_packets_example :
    All (IsAnswer (registers_mac registers)) (sent (run (start true registers true) one_answer))
run_packets_example = run_packets true registers true one_answer

stm_packets-IsDelivered_example :
    All (IsDelivered (registers_mac registers)) (sent (run (start true registers true) one_answer))
stm_packets-IsDelivered_example = stm_packets-IsDelivered true registers true one_answer

run-IsCounted_example : IsCounted waiting 9
run-IsCounted_example = run-IsCounted true registers true one_answer waiting 9 one_answer-run refl

-- The packet is out and the next byte asked for, and the flag is still set.
abbrev ending : Firmware
ending = record waiting { interrupt_flag = on; answering = true }

request_lost_for_good_example :
    run (runs ending) (byte_comes 2 true ∷ main_goes_on hal ∷ one_answer)
    ≡ runs (record ending {
      pango_client_data = record (ending.pango_client_data) { status = 2 };
      interrupt_flag = off;
      listening = false;
      answering = false;
    })
request_lost_for_good_example =
    request_lost_for_good 2 true hal ending one_answer refl refl (omega arith) (omega arith)
      (inr (inl refl))

one_byte_refused_example :
    (ServerCrc.crc_8_check changed_packet 9 1 ≡ (false, crc8_test_failed))
    × (received_data_from_stm
          (ClientCrc.crc_8_check changed_packet 9 (ClientCrc.get_status changed_packet))
        ≡ false)
one_byte_refused_example =
    one_byte_refused the_packet changed_packet 7 1 the_packet-IsBytes changed_packet-IsBytes
      packet_intact (omega arith) packet_differs
