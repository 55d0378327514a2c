-- ===== src/Server/Location.antt =====
-- location_func of server/client/new_client/new_client.c: the city of a pair of coordinates.
pub mod Cities
use panngo.Base.{ℕ, Text, codes, ltb, leb, ◌&&◌, ◌||◌, if◌then◌else◌}

abbrev pub ashkelon : Text
ashkelon = codes "Ashkelon"

abbrev pub jerusalem : Text
jerusalem = codes "Jerusalem"

abbrev pub petah_tikva : Text
petah_tikva = codes "Petah-Tikva"

abbrev pub herzliya : Text
herzliya = codes "Herzliya"

-- What the source writes for coordinates out of range, and for every failure.
abbrev pub error_text : Text
error_text = codes "ERROR"

-- The text that is in the buffer afterwards, `buff` being the text before. `x < 0` and `y < 0` do
-- not hold of a uint8_t.
unfoldable pub location_func : ℕ → ℕ → Text → Text
location_func x y buff =
    if ltb 127 x || ltb 127 y
    then error_text
    else if leb x 70 && leb y 70
    then ashkelon
    else if leb x 70 && ltb 70 y
    then jerusalem
    else if ltb 70 x && leb y 70
    then petah_tikva
    else if ltb 70 x && ltb 70 y
    then herzliya
    else buff
