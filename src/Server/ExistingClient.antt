-- ===== src/Server/ExistingClient.antt =====
-- server/client/existing_client/existing_client.c: a client whose row is in the database already.
-- `now` is the tv_sec that gettimeofday gives.
pub mod Laws
pub mod Resume
pub mod Typed
use panngo.Base.{ℕ, List, [], Bool, true, false, Text, u32, sub32, format_d}
use panngo.Server.Sql.{select_time_used, select_location}
use panngo.Server.Table.{Value, int, text, real, Fetch, refused, row, done, failed}
use panngo.Server.Data.{
  PangoData, LoopStatus, quit, stay, error_status_in_client_exist_subfunctions,
}
use panngo.Server.Platform.{Platform, Session}
use panngo.Server.NewClient.{
  ◌or_quit◌, retrieve_parking_price_per_city_from_database, send_client_location,
}

module _ (p : Platform) where
  -- sqlite3_column_int and sqlite3_column_text; the columns are an INT and a TEXT.
  abbrev pub column_int : Value p.F → ℕ
  column_int (int n) = n
  column_int (text t) = 0
  column_int (real v) = p.to_int v

  abbrev pub column_text : Value p.F → Text
  column_text (int n) = format_d n
  column_text (text t) = t
  column_text (real v) = []

  use_time : Fetch p.F → Session p → LoopStatus × Session p
  use_time refused s = (quit, s)
  use_time (row v) s =
      (stay, record s { client = record s.client { time_start_parking = column_int v } })
  use_time done s = (stay, s)
  use_time failed s = (stay, s)

  -- What it puts into `time_start_parking` is the time used so far.
  unfoldable pub retrieve_time_start_parking_value_from_database :
      Session p → LoopStatus × Session p
  unfolding use_time
  retrieve_time_start_parking_value_from_database s =
      let (result, d) = p.sqlite3_fetch (select_time_used s.client.mac_address) s.db_client in
      use_time result (record s { db_client = d })

  abbrev pub use_location : Fetch p.F → Session p → LoopStatus × Session p
  use_location refused s = (quit, s)
  use_location (row v) s =
      (stay, record s { client = record s.client { location = column_text v } })
  use_location done s = (stay, s)
  use_location failed s = (stay, s)

  -- The start moves so that the time used so far has passed since.
  unfoldable pub update_client_and_continue_time : ℕ → Session p → LoopStatus × Session p
  update_client_and_continue_time now s =
      let client : PangoData p.F = record s.client {
        time_start_parking = sub32 now s.client.time_start_parking;
        connected = true;
      } in
      let (result, d) = p.sqlite3_fetch (select_location client.mac_address) s.db_client in
      use_location result (record s { client = client; db_client = d })

  abbrev existing_client_result : ℕ → LoopStatus × Session p → LoopStatus × ℕ × Session p
  existing_client_result status (quit, s) = (quit, error_status_in_client_exist_subfunctions, s)
  existing_client_result status (stay, s) = (stay, status, send_client_location p s)

  -- The result, the status and the session.
  unfoldable pub retriev_client_data : ℕ → ℕ → Session p → LoopStatus × ℕ × Session p
  unfolding retrieve_time_start_parking_value_from_database update_client_and_continue_time
      retrieve_parking_price_per_city_from_database send_client_location
  retriev_client_data now status s = existing_client_result status (
      (retrieve_time_start_parking_value_from_database
          or_quit update_client_and_continue_time now
          or_quit retrieve_parking_price_per_city_from_database p)
        s)
