-- ===== src/Server/NewClient/Laws.antt =====
-- The two ends of process_client_data of server/client/new_client/new_client.c, and the price.
use panngo.Base.{◌⊎◌, inl, inr, refl, ap, ℕ, ◌≡◌, arith, [], ◌∷◌, ◌++◌, u32}
use panngo.Server.Sql.{insert_client, Query, select_price}
use panngo.Server.Table.{
  Row, PriceRow, Fetch, refused, row, done, failed, Answers, Any, apply_statement,
}
use panngo.Server.Table.Rows.{Any-map}
use panngo.Server.Data.{
  PangoData, LoopStatus, quit, stay, location_name, error_status_in_new_client_subfunctions,
}
use panngo.Server.Platform.{Platform, Laws, Session}
use panngo.Server.Location.{location_func}
use panngo.Server.NewClient.{
  use_price, column_double, retrieve_parking_price_per_city_from_database,
  initialize_and_get_start_time, process_client_data,
}

module _ (p : Platform) (laws : Laws p) where
  open laws use {rows}

  -- The row that a new client gets.
  abbrev pub new_row : PangoData p.F → Row
  new_row c = record {
    mac_adr = c.mac_address;
    time_used = 0;
    location = location_func c.x_axis c.y_axis c.location;
  }

  -- Both outcomes of process_client_data, and what they have in common.
  pub record NewClientResult (now status : ℕ) (s : Session p) (result : LoopStatus × ℕ × Session p)
      : Type 0 where
    pub outcome :
        ((result.0 ≡ stay)
          × (result.1 ≡ status)
          × (rows result.2.db_client ≡ rows s.db_client ++ new_row s.client ∷ [])
          × (result.2.sent ≡ s.sent ++ location_name (new_row s.client).location ∷ []))
        ⊎ ((result.0 ≡ quit)
            × (result.1 ≡ error_status_in_new_client_subfunctions)
            × (rows result.2.db_client ≡ rows s.db_client)
            × (result.2.sent ≡ s.sent))
    pub start : result.2.client.time_start_parking ≡ u32 now
    pub same_mac : result.2.client.mac_address ≡ s.client.mac_address
    pub same_connected : result.2.client.connected ≡ s.client.connected

  -- Both outcomes of process_client_data. When it stays, the status is kept, the table has at its
  -- end one row more, with the client's address, no time used and the city of its place, and the
  -- client has been sent this city. When it quits, the status is the error, and no row has changed
  -- and nothing was sent. Either way the parking starts now, and the address and the connected flag
  -- are kept.
  pub process_client_data_lem :
      (now status : ℕ) (s : Session p)
      → NewClientResult now status s (process_client_data p now status s)
  unfolding process_client_data apply_statement
  process_client_data_lem now status s =
      let started : Session p = record s { client = initialize_and_get_start_time now s.client } in
      let insert =
        laws.rows-exec (insert_client started.client.mac_address 0 started.client.location)
          s.db_client in
      record {
        outcome = ground (arith, insert);
        start = ground arith;
        same_mac = ground arith;
        same_connected = ground arith;
      }

  -- The price of a client after the query is one that city_parking has for its location, or what it
  -- was before.
  pub price_cases :
      (s : Session p)
      → let s' = (retrieve_parking_price_per_city_from_database p s).1 in
        Any
          (λ (q : PriceRow p.F). (q.city ≡ s.client.location) × (s'.client.price ≡ q.price))
          (laws.prices s.db_prices)
        ⊎ (s'.client.price ≡ s.client.price)
  unfolding retrieve_parking_price_per_city_from_database
  price_cases s =
      of_result (p.sqlite3_fetch query s.db_prices) (laws.fetch-Answers query s.db_prices)
    where
      query : Query
      query = select_price s.client.location

      of_result :
          (result : Fetch p.F × p.Db)
          → Answers query (rows s.db_prices) (laws.prices s.db_prices) result.0
          → let s' = (use_price p result.0 (record s { db_prices = result.1 })).1 in
            Any
              (λ (q : PriceRow p.F). (q.city ≡ s.client.location) × (s'.client.price ≡ q.price))
              (laws.prices s.db_prices)
            ⊎ (s'.client.price ≡ s.client.price)
      of_result (refused, d) a = inr refl
      of_result (row v, d) a =
          inl (Any-map _ _ (laws.prices s.db_prices) (λ q h. (h.0, ap (column_double p) h.1)) a)
      of_result (done, d) a = inr refl
      of_result (failed, d) a = inr refl
