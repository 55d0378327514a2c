-- ===== src/Server/NewClient/Typed.antt =====
-- process_client_data of server/client/new_client/new_client.c, on the C types of its variables.
use panngo.Base.{ℕ, ◌<◌, arith, Bool, true, false, All-append}
use panngo.Server.Sql.{insert_client, select_price}
use panngo.Server.Table.{Fetch, refused, row, done, failed, apply_statement}
use panngo.Server.Data.{PangoData, LoopStatus, quit, stay}
use panngo.Server.Platform.{Platform, Laws, Session}
use panngo.Server.Location.Cities.{length-location_func}
use panngo.Server.Typed.{IsRowTyped, AllTyped, IsStructTyped, IsSessionTyped, exec-AllTyped}
use panngo.Server.NewClient.{
  ◌or_quit◌, initialize_and_get_start_time, retrieve_parking_price_per_city_from_database,
  use_price, insert_client_data_into_database, new_client_result, process_client_data,
}

initialized-IsStructTyped :
    {F : Type 0} (now : ℕ) (c : PangoData F)
    → IsStructTyped c
    → IsStructTyped (initialize_and_get_start_time now c)
unfolding initialize_and_get_start_time
initialized-IsStructTyped now c typed = record {
  mac_address = typed.mac_address;
  location =
      omega
        (arith, length-location_func c.x_axis c.y_axis c.location (omega (arith, typed.location)));
  x_axis = typed.x_axis;
  y_axis = typed.y_axis;
  time_start_parking = omega arith;
}

module _ (p : Platform) (laws : Laws p) where
  open laws use {rows}

  -- A property that both functions keep.
  pub or_quit-keeps :
      (P : Session p → Type 0) (first second : Session p → LoopStatus × Session p)
      → ((s : Session p) → P s → P (first s).1)
      → ((s : Session p) → P s → P (second s).1)
      → (s : Session p) → P s
      → P ((first or_quit second) s).1
  or_quit-keeps P first second one two s h = by_status (first s) (one s h)
    where
      by_status :
          (r : LoopStatus × Session p)
          → P r.1
          → let after : LoopStatus × Session p = elim r.0 [
            | quit ↦ (quit, r.1)
            | stay ↦ second r.1
          ] in
            P after.1
      by_status (quit, s') h' = h'
      by_status (stay, s') h' = two s' h'

  pub price-IsSessionTyped :
      (s : Session p)
      → IsSessionTyped p laws s
      → IsSessionTyped p laws (retrieve_parking_price_per_city_from_database p s).1
  unfolding retrieve_parking_price_per_city_from_database
  price-IsSessionTyped s typed =
      of_result (p.sqlite3_fetch (select_price s.client.location) s.db_prices)
    where
      of_result :
          (result : Fetch p.F × p.Db)
          → IsSessionTyped p laws (use_price p result.0 (record s { db_prices = result.1 })).1
      of_result (refused, d) = record { client = typed.client; table = typed.table }
      of_result (row v, d) = record {
        client = record {
          mac_address = typed.client.mac_address;
          location = typed.client.location;
          x_axis = typed.client.x_axis;
          y_axis = typed.client.y_axis;
          time_start_parking = typed.client.time_start_parking;
        };
        table = typed.table;
      }
      of_result (done, d) = record { client = typed.client; table = typed.table }
      of_result (failed, d) = record { client = typed.client; table = typed.table }

  insert-IsSessionTyped :
      (s : Session p)
      → IsSessionTyped p laws s
      → IsSessionTyped p laws (insert_client_data_into_database p s).1
  unfolding insert_client_data_into_database apply_statement
  insert-IsSessionTyped s typed =
      let statement = insert_client s.client.mac_address 0 s.client.location in
      let table : AllTyped (rows (p.sqlite3_exec statement s.db_client).1) =
        exec-AllTyped p laws statement s.db_client
          (λ h. All-append IsRowTyped (rows s.db_client) _ h (
            record {
              mac_adr = typed.client.mac_address;
              time_used = omega arith;
              location = typed.client.location;
            },
            tt,
          ))
          typed.table in
      by_result (p.sqlite3_exec statement s.db_client) table
    where
      by_result :
          (r : Bool × p.Db)
          → AllTyped (rows r.1)
          → let s' : Session p = record s { db_client = r.1 } in
            let after : LoopStatus × Session p = elim r.0 [
              | true ↦ (stay, s')
              | false ↦ (quit, s')
            ] in
            IsSessionTyped p laws after.1
      by_result (true, d) table = record { client = typed.client; table = table }
      by_result (false, d) table = record { client = typed.client; table = table }

  pub process_client_data-IsTyped :
      (now status : ℕ) (s : Session p)
      → status < 256
      → IsSessionTyped p laws s
      → let (r, status', s') = process_client_data p now status s in
        (status' < 256) × IsSessionTyped p laws s'
  unfolding process_client_data
  process_client_data-IsTyped now status s fits typed =
      let started : Session p = record s { client = initialize_and_get_start_time now s.client } in
      by_status
        ((retrieve_parking_price_per_city_from_database p
            or_quit insert_client_data_into_database p)
          started)
        (or_quit-keeps (IsSessionTyped p laws) (retrieve_parking_price_per_city_from_database p)
          (insert_client_data_into_database p) price-IsSessionTyped insert-IsSessionTyped started
          (record {
            client = initialized-IsStructTyped now s.client typed.client;
            table = typed.table;
          }))
    where
      by_status :
          (r : LoopStatus × Session p)
          → IsSessionTyped p laws r.1
          → let (r', status', s') = new_client_result p status r in
            (status' < 256) × IsSessionTyped p laws s'
      by_status (quit, s') h = (omega arith, h)
      by_status (stay, s') h = (fits, record { client = h.client; table = h.table })
