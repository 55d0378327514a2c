-- ===== src/Stm/Sensors.antt =====
-- What the STM reads of its peripherals: STM/PANGO_L/PNG/Src/random_number_generator.c and
-- ethernet_communication.c. A HAL call that fails leads to Error_Handler(), which does not return:
-- `none`.
use panngo.Base.{
  ℕ, zero, suc, ◌+◌, ◌%◌, ◌<◌, ◌≡◌, arith, List, Bool, Option, none, some, u8, get_or, set,
  if◌then◌else◌,
}
use panngo.Stm.Packet.{PangoClientData}

infixl 5 ◌>>=◌
-- `none` skips what follows.
abbrev ◌>>=◌ : {A B : Type 0} → Option A → (A → Option B) → Option B
none >>= f = none
some a >>= f = f a

-- The number that HAL_RNG_GenerateRandomNumber brings goes in.
unfoldable pub rand_uint128 : Option ℕ → Option ℕ
rand_uint128 random = do n ← random; some (u8 (n % 128))

-- The two numbers of the generator go in. The fields are of type uint8_t.
unfoldable pub get_coordinates : Option ℕ → Option ℕ → PangoClientData → Option PangoClientData
unfolding rand_uint128
get_coordinates first second client_data = do
  x ← rand_uint128 first
  y ← rand_uint128 second
  some (record client_data { x_coor = u8 x; y_coor = u8 y })

-- MAC_ADDRESS_LENGTH
abbrev pub mac_address_length : ℕ
mac_address_length = 6

-- The loop, with the rounds that are left; `registers` is what ETH_HANDLER.Init.MACAddr points to.
unfoldable pub mac_loop : List ℕ → ℕ → ℕ → List ℕ → List ℕ
mac_loop registers zero i mac_address = mac_address
mac_loop registers (suc left) i mac_address =
    mac_loop registers left (i + 1) (set mac_address i (get_or registers i 0))

-- Whether HAL_ETH_Init succeeds, and the registers, go in.
unfoldable pub get_mac_address : Bool → List ℕ → List ℕ → Option (List ℕ)
get_mac_address initialized registers mac_address =
    if initialized then some (mac_loop registers mac_address_length 0 mac_address) else none

-- Coordinates lie on the map, 0 to 127 in both directions; nothing else of the struct changes.
pub record IsOnMap (before after : PangoClientData) : Type 0 where
  pub x : after.x_coor < 128
  pub y : after.y_coor < 128
  pub status : after.status ≡ before.status
  pub mac_address : after.mac_address ≡ before.mac_address

pub get_coordinates-IsOnMap :
    (first second : Option ℕ) (before after : PangoClientData)
    → get_coordinates first second before ≡ some after
    → IsOnMap before after
unfolding get_coordinates rand_uint128
get_coordinates-IsOnMap none second before after e = ground arith
get_coordinates-IsOnMap (some n) none before after e = ground arith
get_coordinates-IsOnMap (some n) (some m) before after e = record {
  x = ground arith;
  y = ground arith;
  status = ground arith;
  mac_address = ground arith;
}
