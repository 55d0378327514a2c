-- ===== src/Server/Packet/Store.antt =====
-- The struct pango_data after store_client_data_in_struct.
use panngo.Base.{
  ℕ, suc, ◌+◌, ◌<◌, ◌≡◌, ap, ◌∙◌, arith, List, [], ◌∷◌, ◌++◌, get_or, length, length-append,
  sprintf_at-length, sprintf_at, if◌then◌else◌, ◌==◌, Text, zero,
}
use mathlib.Core.List.{append_assoc}
use panngo.Server.Data.{PangoData, crc8_test_failed}
use panngo.Server.Packet.{mac_field, store_loop, store_client_data_in_struct}
use panngo.Server.Packet.Mac.{mac_text}

-- The six bytes behind the status.
abbrev pub mac_bytes : List ℕ → List ℕ
mac_bytes buff =
    get_or buff 1 0
    ∷ get_or buff 2 0
    ∷ get_or buff 3 0
    ∷ get_or buff 4 0
    ∷ get_or buff 5 0
    ∷ get_or buff 6 0
    ∷ []

-- The address as far as byte `n` of the packet.
mac_after : List ℕ → ℕ → Text
mac_after buff zero = []
mac_after buff (suc n) = mac_after buff n ++ mac_field (suc n) (get_or buff (suc n) 0)

mac_after_lem : (buff : List ℕ) → mac_after buff 6 ≡ mac_text (mac_bytes buff)
unfolding mac_after mac_field mac_text
mac_after_lem buff = simp append_assoc

module _ {F : Type 0} (buff : List ℕ) where
  store_step :
      (left i status : ℕ) (client : PangoData F)
      → 0 < i
      → i < 7
      → let mac = client.mac_address ++ mac_field i (get_or buff i 0) in
        store_loop buff (suc left) i status (length client.mac_address) client
        ≡ store_loop buff left (i + 1) status (length mac) (record client { mac_address = mac })
  unfolding store_loop
  store_step left i status client low high =
      let field = mac_field i (get_or buff i 0) in
      ground
        (arith, sprintf_at-length field client.mac_address, length-append client.mac_address field)

  abbrev pub stored : PangoData F → PangoData F
  stored client = record client {
    mac_address = mac_text (mac_bytes buff);
    x_axis = get_or buff 7 0;
    y_axis = get_or buff 8 0;
  }

  -- The first two rounds: the status, and the first byte of the address over what stood there.
  store_start :
      (status : ℕ) (client : PangoData F)
      → let mac = mac_field 1 (get_or buff 1 0) in
        store_loop buff 8 0 status 0 client
        ≡ store_loop buff 6 2 (get_or buff 0 0) (length mac) (record client {
          mac_address = mac;
          x_axis = get_or buff 0 0;
          y_axis = get_or buff 1 0;
        })
  unfolding store_loop sprintf_at
  store_start status client = ground arith

  store_rounds :
      (status : ℕ) (client : PangoData F)
      → store_loop buff 6 2 status
          (length (mac_after buff 1))
          (record client { mac_address = mac_after buff 1 })
        ≡ store_loop buff 1 7 status
            (length (mac_after buff 6))
            (record client { mac_address = mac_after buff 6 })
  unfolding mac_after
  store_rounds status client =
      round 5 2 1 (omega arith) (omega arith)
      ∙ round 4 3 2 (omega arith) (omega arith)
      ∙ round 3 4 3 (omega arith) (omega arith)
      ∙ round 2 5 4 (omega arith) (omega arith)
      ∙ round 1 6 5 (omega arith) (omega arith)
    where
      round :
          (left i n : ℕ)
          → 0 < i
          → i < 7
          → store_loop buff
              (suc left)
              i
              status
              (length (mac_after buff n))
              (record client { mac_address = mac_after buff n })
            ≡ store_loop buff left
                (i + 1)
                status
                (length (mac_after buff n ++ mac_field i (get_or buff i 0)))
                (record client { mac_address = mac_after buff n ++ mac_field i (get_or buff i 0) })
      round left i n low high =
          store_step left i status (record client { mac_address = mac_after buff n }) low high

  store_loop_lem :
      (status : ℕ) (client : PangoData F)
      → store_loop buff 8 0 status 0 client ≡ (get_or buff 0 0, stored client)
  unfolding store_loop mac_after
  store_loop_lem status client =
      store_start status client
      ∙ store_rounds (get_or buff 0 0)
          (record client { x_axis = get_or buff 0 0; y_axis = get_or buff 1 0 })
      ∙ ap
          (λ (mac : Text). (
            get_or buff 0 0,
            let filled : PangoData F = record client {
              mac_address = mac;
              x_axis = get_or buff 7 0;
              y_axis = get_or buff 8 0;
            } in
                filled,
          ))
          (mac_after_lem buff)

-- With the status CRC8_TEST_FAILED store_client_data_in_struct changes nothing; otherwise the
-- status is the first byte, the MAC address the text of the next six, and the axes the two behind
-- them.
pub store_client_data_in_struct_lem :
    {F : Type 0} (status : ℕ) (buff : List ℕ) (client : PangoData F)
    → store_client_data_in_struct status buff client ≡ (
        if status == crc8_test_failed
        then (status, client)
        else (get_or buff 0 0, stored buff client))
unfolding store_client_data_in_struct
store_client_data_in_struct_lem status buff client =
    ground (arith, store_loop_lem buff status client)
