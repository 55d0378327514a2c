-- ===== src/System/RoundTrip.antt =====
-- A packet from pack_pango_buffer and the checksum of STM/PANGO_L/PNG/Src/PNG.c to CRC_8_check and
-- store_client_data_in_struct of server/client/client_thread_func.c.
use panngo.Base.{ℕ, ◌≡◌, ◌≢◌, ap, ◌∙◌, arith, List, true, length}
use panngo.Server.Crc as ServerCrc
use panngo.Server.Data.{PangoData, crc8_test_failed}
use panngo.Server.Packet.{store_client_data_in_struct}
use panngo.Server.Packet.Mac.{mac_text}
use panngo.Server.Packet.Store.{store_client_data_in_struct_lem}
use panngo.Stm.Packet.{PangoClientData, fill_buffer}
use panngo.Stm.Packet.Layout.{fill_buffer-IsPacket}

-- What the struct of the server says of the controller's data.
pub record IsReceived {F : Type 0} (d : PangoClientData) (status : ℕ) (client : PangoData F)
    (received : ℕ × PangoData F) : Type 0 where
  pub status_kept : received.0 ≡ d.status
  pub mac_kept : received.1.mac_address ≡ mac_text d.mac_address
  pub x_kept : received.1.x_axis ≡ d.x_coor
  pub y_kept : received.1.y_axis ≡ d.y_coor
  pub price_kept : received.1.price ≡ client.price
  pub start_kept : received.1.time_start_parking ≡ client.time_start_parking
  pub connected_kept : received.1.connected ≡ client.connected

module _ {F : Type 0} where
  -- The buffer of ten bytes that main_PNG fills for data with a MAC address of six passes the
  -- server's check, which leaves the status, and store_client_data_in_struct gives the data back,
  -- for a status that is not CRC8_TEST_FAILED: the status byte, the address as text, and the
  -- coordinates. The price, the start and the connected flag of the struct are kept.
  pub packet_round_trip :
      (d : PangoClientData) (buffer : List ℕ) (status : ℕ) (client : PangoData F)
      → length d.mac_address ≡ 6
      → length buffer ≡ 10
      → status ≢ crc8_test_failed
      → (ServerCrc.crc_8_check (fill_buffer d buffer) 9 status ≡ (true, status))
        × IsReceived d status client
            (store_client_data_in_struct status (fill_buffer d buffer) client)
  unfolding ServerCrc.crc_8_check
  packet_round_trip d buffer status client six ten fresh =
      let packet = fill_buffer d buffer in
      let sent = fill_buffer-IsPacket d buffer six ten in
      let stores = store_client_data_in_struct_lem status packet client in
      (
        ground (arith, sent.checksum, ServerCrc.calculate_crc8_lem packet 9),
        record {
          status_kept = ground (arith, stores, fresh, sent.status);
          mac_kept = ground (arith, stores, fresh) ∙ ap mac_text sent.mac_address;
          x_kept = ground (arith, stores, fresh, sent.x_coor);
          y_kept = ground (arith, stores, fresh, sent.y_coor);
          price_kept = ground (arith, stores, fresh);
          start_kept = ground (arith, stores, fresh);
          connected_kept = ground (arith, stores, fresh);
        },
      )
