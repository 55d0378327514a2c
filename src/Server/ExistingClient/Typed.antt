-- ===== src/Server/ExistingClient/Typed.antt =====
-- retriev_client_data of server/client/existing_client/existing_client.c, on the C types of its
-- variables.
use panngo.Base.{
  ℕ, ◌<◌, ◌≡◌, inl, inr, arith, subst, sym, List, [], ◌∷◌, Text, length, sub32, u32_mod, true,
}
use panngo.Server.Sql.{select_time_used, select_location}
use panngo.Server.Table.{Row, Any, Value, int, text, Fetch, refused, row, done, failed, Answers}
use panngo.Server.Data.{PangoData, LoopStatus, quit, stay}
use panngo.Server.Platform.{Platform, Laws, Session}
use panngo.Server.Typed.{AllTyped, IsStructTyped, IsSessionTyped, fetch-AllTyped}
use panngo.Server.NewClient.{◌or_quit◌, retrieve_parking_price_per_city_from_database}
use panngo.Server.NewClient.Typed.{or_quit-keeps, price-IsSessionTyped}
use panngo.Server.ExistingClient.{
  column_int, column_text, use_time, use_location, retrieve_time_start_parking_value_from_database,
  update_client_and_continue_time, existing_client_result, retriev_client_data,
}

module _ (p : Platform) (laws : Laws p) where
  open laws use {rows}

  -- A cell of a typed row fits the field that it goes to.
  time-fits :
      (mac : Text) (v : Value p.F) (rs : List Row)
      → AllTyped rs
      → Any (λ r. (r.mac_adr ≡ mac) × (v ≡ int r.time_used)) rs
      → column_int p v < u32_mod
  time-fits mac v [] h a = elim a [ ]
  time-fits mac v (r ∷ rs) (here, later) (inl (own, e)) =
      subst (λ (c : Value p.F). column_int p c < u32_mod) (sym e) here.time_used
  time-fits mac v (r ∷ rs) (here, later) (inr a) = time-fits mac v rs later a

  location-fits :
      (mac : Text) (v : Value p.F) (rs : List Row)
      → AllTyped rs
      → Any (λ r. (r.mac_adr ≡ mac) × (v ≡ text r.location)) rs
      → length (column_text p v) < 12
  location-fits mac v [] h a = elim a [ ]
  location-fits mac v (r ∷ rs) (here, later) (inl (own, e)) =
      subst (λ (c : Value p.F). length (column_text p c) < 12) (sym e) here.location
  location-fits mac v (r ∷ rs) (here, later) (inr a) = location-fits mac v rs later a

  time-IsSessionTyped :
      (s : Session p)
      → IsSessionTyped p laws s
      → IsSessionTyped p laws (retrieve_time_start_parking_value_from_database p s).1
  unfolding retrieve_time_start_parking_value_from_database
  time-IsSessionTyped s typed =
      let query = select_time_used s.client.mac_address in
      of_result (p.sqlite3_fetch query s.db_client) (laws.fetch-Answers query s.db_client)
        (fetch-AllTyped p laws query s.db_client typed.table)
    where
      of_result :
          (result : Fetch p.F × p.Db)
          → Answers
              (select_time_used s.client.mac_address)
              (rows s.db_client)
              (laws.prices s.db_client)
              result.0
          → AllTyped (rows result.1)
          → IsSessionTyped p laws (use_time p result.0 (record s { db_client = result.1 })).1
      of_result (refused, d) a table = record { client = typed.client; table = table }
      of_result (row v, d) a table = record {
        client = record {
          mac_address = typed.client.mac_address;
          location = typed.client.location;
          x_axis = typed.client.x_axis;
          y_axis = typed.client.y_axis;
          time_start_parking = time-fits s.client.mac_address v (rows s.db_client) typed.table a;
        };
        table = table;
      }
      of_result (done, d) a table = record { client = typed.client; table = table }
      of_result (failed, d) a table = record { client = typed.client; table = table }

  continue-IsSessionTyped :
      (now : ℕ) (s : Session p)
      → IsSessionTyped p laws s
      → IsSessionTyped p laws (update_client_and_continue_time p now s).1
  unfolding update_client_and_continue_time
  continue-IsSessionTyped now s typed =
      let query = select_location s.client.mac_address in
      of_result (p.sqlite3_fetch query s.db_client) (laws.fetch-Answers query s.db_client)
        (fetch-AllTyped p laws query s.db_client typed.table)
    where
      client : PangoData p.F
      client = record s.client {
        time_start_parking = sub32 now s.client.time_start_parking;
        connected = true;
      }

      continued : IsStructTyped client
      continued = record {
        mac_address = typed.client.mac_address;
        location = typed.client.location;
        x_axis = typed.client.x_axis;
        y_axis = typed.client.y_axis;
        time_start_parking = omega arith;
      }

      of_result :
          (result : Fetch p.F × p.Db)
          → Answers
              (select_location s.client.mac_address)
              (rows s.db_client)
              (laws.prices s.db_client)
              result.0
          → AllTyped (rows result.1)
          → IsSessionTyped p laws
              (use_location p result.0 (record s { client = client; db_client = result.1 })).1
      of_result (refused, d) a table = record { client = continued; table = table }
      of_result (row v, d) a table = record {
        client = record {
          mac_address = continued.mac_address;
          location = location-fits s.client.mac_address v (rows s.db_client) typed.table a;
          x_axis = continued.x_axis;
          y_axis = continued.y_axis;
          time_start_parking = continued.time_start_parking;
        };
        table = table;
      }
      of_result (done, d) a table = record { client = continued; table = table }
      of_result (failed, d) a table = record { client = continued; table = table }

  pub retriev_client_data-IsTyped :
      (now status : ℕ) (s : Session p)
      → status < 256
      → IsSessionTyped p laws s
      → let (r, status', s') = retriev_client_data p now status s in
        (status' < 256) × IsSessionTyped p laws s'
  unfolding retriev_client_data
  retriev_client_data-IsTyped now status s fits typed =
      by_status
        ((retrieve_time_start_parking_value_from_database p
            or_quit update_client_and_continue_time p now
            or_quit retrieve_parking_price_per_city_from_database p)
          s)
        (or_quit-keeps p laws (IsSessionTyped p laws)
          (retrieve_time_start_parking_value_from_database p)
          (update_client_and_continue_time p now
            or_quit retrieve_parking_price_per_city_from_database p)
          time-IsSessionTyped
          (or_quit-keeps p laws (IsSessionTyped p laws) (update_client_and_continue_time p now)
            (retrieve_parking_price_per_city_from_database p) (continue-IsSessionTyped now)
            (price-IsSessionTyped p laws))
          s typed)
    where
      by_status :
          (r : LoopStatus × Session p)
          → IsSessionTyped p laws r.1
          → let (r', status', s') = existing_client_result p status r in
            (status' < 256) × IsSessionTyped p laws s'
      by_status (quit, s') h = (omega arith, h)
      by_status (stay, s') h = (fits, record { client = h.client; table = h.table })
