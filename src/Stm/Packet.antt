-- ===== src/Stm/Packet.antt =====
-- struct pango_client_data of STM/PANGO_L/PNG/Inc/client_data.h, and pack_pango_buffer of
-- STM/PANGO_L/PNG/Src/pango_functions.c.
pub mod Layout
use panngo.Crc8.{calculate_crc8}
use panngo.Base.{ℕ, zero, suc, ◌+◌, ◌-◌, List, ◌&&◌, get_or, set, ltb, ◌==◌, if◌then◌else◌}

pub record PangoClientData : Type 0 where
  pub status : ℕ
  pub mac_address : List ℕ
  pub x_coor : ℕ
  pub y_coor : ℕ

-- BUFFER_SIZE_TO_SEND, AMOUNT_OF_DATA_MINUS_ONE_ITERATION, PLACE_FOR_CRC8_VALUE and
-- AMOUNT_OF_DATA_FOR_CRC8_CHECKSUM_VALUE
abbrev pub buffer_size_to_send : ℕ
buffer_size_to_send = 10

abbrev pub amount_of_data_minus_one_iteration : ℕ
amount_of_data_minus_one_iteration = 8

abbrev pub place_for_crc8_value : ℕ
place_for_crc8_value = 9

abbrev pub amount_of_data_for_crc8 : ℕ
amount_of_data_for_crc8 = 9

-- The body of the loop.
unfoldable pub pack_step : PangoClientData → ℕ → List ℕ → List ℕ
pack_step client_data i buffer =
    if i == 0
    then set buffer i client_data.status
    else if ltb 0 i && ltb i 7
    then set buffer i (get_or client_data.mac_address (i - 1) 0)
    else set (set buffer i client_data.x_coor) (i + 1) client_data.y_coor

-- The loop, with the rounds that are left.
unfoldable pub pack_loop : PangoClientData → ℕ → ℕ → List ℕ → List ℕ
pack_loop client_data zero i buffer = buffer
pack_loop client_data (suc left) i buffer =
    pack_loop client_data left (i + 1) (pack_step client_data i buffer)

unfoldable pub pack_pango_buffer : PangoClientData → List ℕ → List ℕ
pack_pango_buffer client_data buffer =
    pack_loop client_data amount_of_data_minus_one_iteration 0 buffer

-- Lines 63 and 66 of main_PNG: the buffer with its checksum.
unfoldable pub fill_buffer : PangoClientData → List ℕ → List ℕ
fill_buffer client_data send_buff =
    let packed = pack_pango_buffer client_data send_buff in
    set packed place_for_crc8_value (calculate_crc8 packed amount_of_data_for_crc8)
