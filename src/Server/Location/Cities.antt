-- ===== src/Server/Location/Cities.antt =====
-- The map of location_func.
use panngo.Base.{ℕ, ◌≤◌, ◌<◌, ◌≡◌, inl, inr, arith, Text, length, Bool-cases, leb}
use panngo.Server.Location.{ashkelon, jerusalem, petah_tikva, herzliya, location_func}

-- The four cities of city_parking.
pub data IsCity (t : Text) : Type 0 where
  is_ashkelon : t ≡ ashkelon → IsCity t
  is_jerusalem : t ≡ jerusalem → IsCity t
  is_petah_tikva : t ≡ petah_tikva → IsCity t
  is_herzliya : t ≡ herzliya → IsCity t

-- The quarters of the map, with the bounds that belong to each.
pub record IsQuarter (x y : ℕ) (t : Text) : Type 0 where
  pub south_west : x ≤ 70 → y ≤ 70 → t ≡ ashkelon
  pub north_west : x ≤ 70 → 70 < y → t ≡ jerusalem
  pub south_east : 70 < x → y ≤ 70 → t ≡ petah_tikva
  pub north_east : 70 < x → 70 < y → t ≡ herzliya

-- For coordinates up to 127 the location is the city of its quarter of the map, each axis divided
-- behind 70, whatever the buffer held before.
pub location_func-IsQuarter :
    (x y : ℕ) (buff : Text) → x ≤ 127 → y ≤ 127 → IsQuarter x y (location_func x y buff)
unfolding location_func
location_func-IsQuarter x y buff hx hy = record {
  south_west = λ p q. ground arith;
  north_west = λ p q. ground arith;
  south_east = λ p q. ground arith;
  north_east = λ p q. ground arith;
}

pub location_func-IsCity :
    (x y : ℕ) (buff : Text) → x ≤ 127 → y ≤ 127 → IsCity (location_func x y buff)
location_func-IsCity x y buff hx hy =
    let q = location_func-IsQuarter x y buff hx hy in
    elim (Bool-cases (leb x 70)) [
      | inl west ↦ elim (Bool-cases (leb y 70)) [
        | inl south ↦ is_ashkelon (q.south_west (ground arith) (ground arith))
        | inr north ↦ is_jerusalem (q.north_west (ground arith) (ground arith))
      ]
      | inr east ↦ elim (Bool-cases (leb y 70)) [
        | inl south ↦ is_petah_tikva (q.south_east (ground arith) (ground arith))
        | inr north ↦ is_herzliya (q.north_east (ground arith) (ground arith))
      ]
    ]

pub length-location_func :
    (x y : ℕ) (buff : Text) → length buff ≤ 11 → length (location_func x y buff) ≤ 11
unfolding location_func
length-location_func x y buff h = ground arith
