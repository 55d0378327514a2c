-- ===== src/Server/NewClient.antt =====
-- server/client/new_client/new_client.c: a client that is not in the database yet. The mutex is
-- held round the two database calls; a client's thread is modelled by itself, so that locking
-- leaves no trace. `now` is the tv_sec that gettimeofday gives.
pub mod Laws
pub mod Typed
use panngo.Base.{ℕ, List, [], ◌∷◌, ◌++◌, Bool, true, false, Text, u32, format_d}
use panngo.Server.Sql.{insert_client, select_price}
use panngo.Server.Table.{Value, int, text, real, Fetch, refused, row, done, failed}
use panngo.Server.Data.{
  PangoData, LoopStatus, quit, stay, Message, location_name,
  error_status_in_new_client_subfunctions,
}
use panngo.Server.Platform.{Platform, Session}
use panngo.Server.Location.{location_func}

-- `a == QUIT || b == QUIT`: b runs only where a does not quit.
infixr 20 ◌or_quit◌
abbrev pub ◌or_quit◌ :
    {p : Platform}
    → (Session p → LoopStatus × Session p)
    → (Session p → LoopStatus × Session p)
    → Session p
    → LoopStatus × Session p
◌or_quit◌ first second s = let (r, s') = first s in elim r [ quit ↦ (quit, s') | stay ↦ second s' ]

unfoldable pub initialize_and_get_start_time : {F : Type 0} → ℕ → PangoData F → PangoData F
initialize_and_get_start_time now client = record client {
  time_start_parking = u32 now;
  location = location_func client.x_axis client.y_axis client.location;
}

module _ (p : Platform) where
  -- sqlite3_column_double; the column is a REAL, and SQLite converts other types.
  abbrev pub column_double : Value p.F → p.F
  column_double (int n) = p.of_int n
  column_double (text t) = p.of_int 0
  column_double (real v) = v

  use_price : Fetch p.F → Session p → LoopStatus × Session p
  use_price refused s = (quit, s)
  use_price (row v) s = (stay, record s { client = record s.client { price = column_double v } })
  use_price done s = (stay, s)
  use_price failed s = (stay, s)

  unfoldable pub retrieve_parking_price_per_city_from_database : Session p → LoopStatus × Session p
  unfolding use_price
  retrieve_parking_price_per_city_from_database s =
      let (result, d) = p.sqlite3_fetch (select_price s.client.location) s.db_prices in
      use_price result (record s { db_prices = d })

  unfoldable pub insert_client_data_into_database : Session p → LoopStatus × Session p
  insert_client_data_into_database s =
      let (ok, d) =
        p.sqlite3_exec (insert_client s.client.mac_address 0 s.client.location) s.db_client in
      let s' : Session p = record s { db_client = d } in
      elim ok [ true ↦ (stay, s') | false ↦ (quit, s') ]

  -- Its own result is not looked at, so that it does not matter whether send fails.
  unfoldable pub send_client_location : Session p → Session p
  send_client_location s = record s { sent = s.sent ++ location_name s.client.location ∷ [] }

  abbrev new_client_result : ℕ → LoopStatus × Session p → LoopStatus × ℕ × Session p
  new_client_result status (quit, s) = (quit, error_status_in_new_client_subfunctions, s)
  new_client_result status (stay, s) = (stay, status, send_client_location s)

  -- The result, the status and the session.
  unfoldable pub process_client_data : ℕ → ℕ → Session p → LoopStatus × ℕ × Session p
  unfolding initialize_and_get_start_time retrieve_parking_price_per_city_from_database
      insert_client_data_into_database send_client_location
  process_client_data now status s =
      let started : Session p = record s { client = initialize_and_get_start_time now s.client } in
      new_client_result status (
        (retrieve_parking_price_per_city_from_database or_quit insert_client_data_into_database)
          started)
