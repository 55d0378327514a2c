-- ===== src/Server/Packet/Keys.antt =====
-- The MAC addresses that store_client_data_in_struct makes of two packets.
use panngo.Base.{ℕ, ◌≡◌, ◌≢◌, refl, sym, ◌∙◌, arith, List, IsByte, IsBytes, get_or, Text}
use panngo.Crc8.Detection.{byte_at-IsByte}
use panngo.Server.Data.{PangoData, crc8_test_failed}
use panngo.Server.Packet.{store_client_data_in_struct}
use panngo.Server.Packet.Mac.{mac_text, mac_text_injective}
use panngo.Server.Packet.Store.{mac_bytes, store_client_data_in_struct_lem}

mac_bytes-IsBytes : (buff : List ℕ) → IsBytes buff → IsBytes (mac_bytes buff)
mac_bytes-IsBytes buff bytes = (b 1, (b 2, (b 3, (b 4, (b 5, (b 6, tt))))))
  where
    b : (i : ℕ) → IsByte (get_or buff i 0)
    b i = byte_at-IsByte buff i bytes

module _ {F : Type 0} (status : ℕ) (client : PangoData F) (fresh : status ≢ crc8_test_failed) where
  -- The address in the struct after a packet.
  abbrev key_of : List ℕ → Text
  key_of buff = (store_client_data_in_struct status buff client).1.mac_address

  key_of_lem : (buff : List ℕ) → key_of buff ≡ mac_text (mac_bytes buff)
  key_of_lem buff = ground (arith, store_client_data_in_struct_lem status buff client, fresh)

  -- Unless the status is CRC8_TEST_FAILED, two packets of bytes with different MAC addresses leave
  -- different texts in `mac_address`, by which the rows of the clients are told apart.
  pub stored_keys_differ :
      (a b : List ℕ)
      → IsBytes a
      → IsBytes b
      → mac_bytes a ≢ mac_bytes b
      → (store_client_data_in_struct status a client).1.mac_address
        ≢ (store_client_data_in_struct status b client).1.mac_address
  stored_keys_differ a b a_bytes b_bytes differ same = differ (
      mac_text_injective (mac_bytes a) (mac_bytes b) (mac_bytes-IsBytes a a_bytes)
        (mac_bytes-IsBytes b b_bytes) refl (sym (key_of_lem a) ∙ same ∙ key_of_lem b))
