-- ===== src/Client/Location.antt =====
-- crc8_server_side_value of client/bbb/server/connection_check/: the reply to a first packet.
use panngo.Base.{
  c_string, ℕ, zero, suc, ◌≡◌, refl, arith, List, [], ◌∷◌, ◌++◌, Bool, true, false, codes, text_eq,
  drop, length, get_or, ◌==◌, if◌then◌else◌,
}
use panngo.Client.Data.{stay_on}

-- The bytes of an array after recv or read: what came, in front of what was there behind it.
abbrev pub fill : List ℕ → List ℕ → List ℕ
fill bytes buff = bytes ++ drop (length bytes) buff

-- The status, and the flag `connected`.
unfoldable pub crc8_server_side_value : ℕ → List ℕ → ℕ × Bool
crc8_server_side_value status location =
    if text_eq (c_string location) (codes "ERROR") then (stay_on, false) else (status, true)

get_or-drop : (n : ℕ) (xs : List ℕ) → get_or (drop n xs) 0 0 ≡ get_or xs n 0
get_or-drop zero xs = refl
get_or-drop (suc n) [] = refl
get_or-drop (suc n) (x ∷ xs) = get_or-drop n xs

-- The letters in front of a tail that starts with a NUL, or with something else.
error_in_front :
    (status : ℕ) (tail : List ℕ)
    → crc8_server_side_value status (codes "ERROR" ++ tail)
      ≡ (if get_or tail 0 0 == 0 then (stay_on, false) else (status, true))
unfolding crc8_server_side_value c_string text_eq
error_in_front status [] = ground arith
error_in_front status (b ∷ bs) = ground arith

-- The server's reply of the five letters "ERROR", with no NUL, is taken for a failure exactly if
-- the byte at index 5 of the array is NUL already, or the array ends before it; otherwise it is
-- taken for a location, and the client counts as connected.
pub error_reply :
    (status : ℕ) (location : List ℕ)
    → crc8_server_side_value status (fill (codes "ERROR") location)
      ≡ (if get_or location 5 0 == 0 then (stay_on, false) else (status, true))
error_reply status location =
    ground (arith, error_in_front status (drop 5 location), get_or-drop 5 location)
