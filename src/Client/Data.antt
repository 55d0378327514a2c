-- ===== src/Client/Data.antt =====
-- The constants of client/png_enums.h and client/client.h. A status is the raw uint8_t. TRUE and
-- CONNECTED are `true`.
use panngo.Base.{ℕ}

-- enum app_status
abbrev pub on : ℕ
on = 1

abbrev pub off : ℕ
off = 2

abbrev pub restart : ℕ
restart = 3

abbrev pub stay_on : ℕ
stay_on = 6

abbrev pub stay_off : ℕ
stay_off = 7

abbrev pub pango_data_size : ℕ
pango_data_size = 9

abbrev pub location_name_max_len : ℕ
location_name_max_len = 12

-- ERROR, the int -1, by its pattern.
abbrev pub error : ℕ
error = 4294967295
