-- ===== src/System/Delivery.antt =====
-- A packet of the STM at the checks of the client and of the server.
use panngo.Base.{ℕ, ◌≡◌, arith, List, [], ◌∷◌, Bool, true, get_or, All, Text, ◌≢◌}
use panngo.Client.Crc as ClientCrc
use panngo.Client.Data.{pango_data_size}
use panngo.Client.Status.{received_data_from_stm}
use panngo.Server.Crc as ServerCrc
use panngo.Server.Data.{PangoData, crc8_test_failed}
use panngo.Server.Location.{location_func}
use panngo.Server.Location.Cities.{IsCity, location_func-IsCity}
use panngo.Server.Packet.{store_client_data_in_struct}
use panngo.Server.Packet.Mac.{mac_text}
use panngo.Server.Packet.Store.{store_client_data_in_struct_lem}
use panngo.Stm.Firmware.{Step, start, run}
use panngo.Stm.Firmware.Packets.{IsAnswer, registers_mac, sent, run_packets}

-- What becomes of a packet of the controller `mac`, whatever the variables held before: the client
-- reads its status and knows it; the server finds it intact, stores the controller's address as
-- text, and places it in one of the four cities.
pub record IsDelivered (mac buff : List ℕ) : Type 1 where
  pub client_check :
      ClientCrc.crc_8_check buff pango_data_size (ClientCrc.get_status buff) ≡ get_or buff 0 0
  pub client_knows : received_data_from_stm (get_or buff 0 0) ≡ true
  pub server_check : (status : ℕ) → ServerCrc.crc_8_check buff 9 status ≡ (true, status)
  pub server_stores :
      (F : Type 0) (status : ℕ) (client : PangoData F)
      → status ≢ crc8_test_failed
      → store_client_data_in_struct status buff client ≡ (
        get_or buff 0 0,
        let filled : PangoData F = record client {
          mac_address = mac_text mac;
          x_axis = get_or buff 7 0;
          y_axis = get_or buff 8 0;
        } in
            filled,
      )
  pub server_places :
      (before : Text) → IsCity (location_func (get_or buff 7 0) (get_or buff 8 0) before)

answer-IsDelivered : (mac buff : List ℕ) → IsAnswer mac buff → IsDelivered mac buff
unfolding ClientCrc.crc_8_check ClientCrc.get_status received_data_from_stm ServerCrc.crc_8_check
answer-IsDelivered mac buff answer = record {
  client_check = ground (arith, answer.checksum, ClientCrc.calculate_crc8_lem buff 9);
  client_knows = ground (arith, answer.status);
  server_check = λ status. ground (arith, answer.checksum, ServerCrc.calculate_crc8_lem buff 9);
  server_stores = λ F status client fresh.
      rw (store_client_data_in_struct_lem status buff client, answer.mac_address)
        (ground (arith, fresh));
  server_places = λ before.
      location_func-IsCity (get_or buff 7 0) (get_or buff 8 0) before (omega (arith, answer.x_coor))
        (omega (arith, answer.y_coor));
}

all-IsDelivered :
    (mac : List ℕ) (packets : List (List ℕ))
    → All (IsAnswer mac) packets
    → All (IsDelivered mac) packets
all-IsDelivered mac [] answers = tt
all-IsDelivered mac (buff ∷ packets) answers =
    (answer-IsDelivered mac buff answers.0, all-IsDelivered mac packets answers.1)

-- Every packet that a run of the STM's program sends, from its start, in any order of its steps and
-- of incoming bytes and whatever its peripherals bring, passes the client's check with ON or OFF;
-- it passes the server's check, is stored with the address of the registers as text unless the
-- thread's status is CRC8_TEST_FAILED, and lies in one of the four cities.
pub stm_packets-IsDelivered :
    (initialized : Bool) (registers : List ℕ) (receive_it : Bool) (steps : List Step)
    → All
        (IsDelivered (registers_mac registers))
        (sent (run (start initialized registers receive_it) steps))
stm_packets-IsDelivered initialized registers receive_it steps =
    all-IsDelivered (registers_mac registers) _ (run_packets initialized registers receive_it steps)
