-- ===== src/Server/Data.antt =====
-- The constants of server/client/client_thread.h and server/main_server.h, and struct pango_data.
-- A status is the raw uint8_t, since it comes out of a packet.
use panngo.Base.{ℕ, Text, Bool}

-- enum app_status
abbrev pub start_app : ℕ
start_app = 1

abbrev pub close_app : ℕ
close_app = 2

abbrev pub connection_lost : ℕ
connection_lost = 3

abbrev pub status_initial_value : ℕ
status_initial_value = 2

-- COMMON_DEFINES
abbrev pub crc8_test_failed : ℕ
crc8_test_failed = 255

abbrev pub error_status_in_client_exist_subfunctions : ℕ
error_status_in_client_exist_subfunctions = 254

abbrev pub error_status_in_new_client_subfunctions : ℕ
error_status_in_new_client_subfunctions = 253

abbrev pub close_app_error : ℕ
close_app_error = 252

abbrev pub error : ℕ
error = 251

abbrev pub pango_data_size : ℕ
pango_data_size = 9

-- enum loop_status
pub data LoopStatus : Type 0 where
  quit stay : LoopStatus

-- struct pango_data; F is the type `double`. The two char arrays are the strings that they hold,
-- `time_start_parking` is the pattern of an int, and `connected` is TRUE or FALSE.
pub record PangoData (F : Type 0) : Type 0 where
  pub status : ℕ
  pub mac_address : Text
  pub x_axis : ℕ
  pub y_axis : ℕ
  pub client_fd : ℕ
  pub location : Text
  pub price : F
  pub time_start_parking : ℕ
  pub connected : Bool

-- What the server sends: the `location` field, the five letters of err_msg, or pay[2].
pub data Message (F : Type 0) : Type 0 where
  location_name : Text → Message F
  err_msg : Message F
  payment : F → F → Message F
