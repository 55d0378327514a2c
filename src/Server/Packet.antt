-- ===== src/Server/Packet.antt =====
-- store_client_data_in_struct of server/client/client_thread_func.c: the ten bytes of a packet go
-- into struct pango_data, the MAC address as text.
pub mod Mac
pub mod Store
pub mod Keys
pub mod Bounds
pub mod Memory
use panngo.Base.{
  ℕ, zero, suc, ◌+◌, List, [], ◌∷◌, ◌++◌, ◌&&◌, Text, format_x, sprintf_at, length, get_or, ltb,
  ◌==◌, if◌then◌else◌,
}
use panngo.Server.Data.{PangoData, crc8_test_failed}

-- What sprintf writes for the byte at `i`: "%x" for the last one, and "%x:" for the others.
unfoldable pub mac_field : ℕ → ℕ → Text
mac_field i byte = if i == 6 then format_x byte else format_x byte ++ b':' ∷ []

module _ {F : Type 0} where
  -- The loop, with the rounds that are left: the status, and the struct.
  unfoldable pub store_loop : List ℕ → ℕ → ℕ → ℕ → ℕ → PangoData F → ℕ × PangoData F
  store_loop buff zero i status offset client = (status, client)
  store_loop buff (suc left) i status offset client =
      let new_status = if i == 0 then get_or buff 0 0 else status in
      let field = mac_field i (get_or buff i 0) in
      let is_mac = ltb 0 i && ltb i 7 in
      let new_offset = if is_mac then offset + length field else offset in
      let new_client =
        if is_mac
        then record client { mac_address = sprintf_at offset field client.mac_address }
        else record client { x_axis = get_or buff i 0; y_axis = get_or buff (i + 1) 0 } in
      store_loop buff left (i + 1) new_status new_offset new_client

  unfoldable pub store_client_data_in_struct : ℕ → List ℕ → PangoData F → ℕ × PangoData F
  unfolding store_loop mac_field
  store_client_data_in_struct status buff client =
      if status == crc8_test_failed then (status, client) else store_loop buff 8 0 status 0 client
