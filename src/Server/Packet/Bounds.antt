-- ===== src/Server/Packet/Bounds.antt =====
-- The buffers of the server for what a packet brings: `mac_address` and the SQL commands.
use panngo.Base.{ℕ, ◌≤◌, ◌<◌, ◌≡◌, ◌≢◌, subst, arith, List, length}
use panngo.Server.Data.{PangoData, crc8_test_failed}
use panngo.Server.Location.{location_func}
use panngo.Server.Location.Cities.{length-location_func}
use panngo.Server.Packet.{store_client_data_in_struct}
use panngo.Server.Packet.Mac.{mac_text, length-mac_text}
use panngo.Server.Packet.Store.{mac_bytes, stored, store_client_data_in_struct_lem}
use panngo.Server.Sql.{
  insert_client, update_time_used, delete_client, select_client, select_time_used, select_location,
  select_price, statement_text, query_text,
}
use panngo.Server.Sql.Buffers.{statement_text-Fits, query_text_fits}

-- The client's text fields, and the commands with them, are shorter than their buffers.
pub record IsBounded {F : Type 0} (c : PangoData F) : Type 0 where
  pub mac_address : length c.mac_address < 18
  pub place : length (location_func c.x_axis c.y_axis c.location) < 12
  pub insert :
      length (
        statement_text (insert_client c.mac_address 0 (location_func c.x_axis c.y_axis c.location)))
      < 150
  pub update : (time : ℕ) → length (statement_text (update_time_used time c.mac_address)) < 100
  pub delete : length (statement_text (delete_client c.mac_address)) < 150
  pub find : length (query_text (select_client c.mac_address)) < 150
  pub find_time : length (query_text (select_time_used c.mac_address)) < 150
  pub find_place : length (query_text (select_location c.mac_address)) < 150
  pub find_price :
      length (query_text (select_price (location_func c.x_axis c.y_axis c.location))) < 150
  pub find_price_back : length (query_text (select_price c.location)) < 150

-- The two strings of a struct decide it.
pub bounded :
    {F : Type 0} (c : PangoData F)
    → length c.mac_address ≤ 17
    → length c.location ≤ 11
    → IsBounded c
bounded c mac short =
    let place = length-location_func c.x_axis c.y_axis c.location short in
    record {
      mac_address = omega (arith, mac);
      place = omega (arith, place);
      insert = statement_text-Fits (insert_client _ 0 _) (mac, place);
      update = λ time. statement_text-Fits (update_time_used time _) mac;
      delete = statement_text-Fits (delete_client _) mac;
      find = query_text_fits (select_client _) mac;
      find_time = query_text_fits (select_time_used _) mac;
      find_place = query_text_fits (select_location _) mac;
      find_price = query_text_fits (select_price _) (omega (arith, place));
      find_price_back = query_text_fits (select_price _) (omega (arith, short));
    }

-- Unless the status is CRC8_TEST_FAILED, after any packet, for a struct whose `location` has at
-- most 11 characters: the address in the struct and the city of its coordinates fit their fields of
-- 18 and 12 bytes, and the INSERT, DELETE and SELECT commands with them fit 150 bytes and the
-- UPDATE, with any time, 100, each with its NUL.
stored-IsBounded :
    {F : Type 0} (status : ℕ) (buff : List ℕ) (client : PangoData F)
    → status ≢ crc8_test_failed
    → length client.location ≤ 11
    → IsBounded (store_client_data_in_struct status buff client).1
stored-IsBounded {F = F} status buff client fresh short = subst IsBounded same (bounded c mac short)
  where
    c : PangoData F
    c = stored buff client

    same : c ≡ (store_client_data_in_struct status buff client).1
    same = ground (arith, store_client_data_in_struct_lem status buff client, fresh)

    mac : length (mac_text (mac_bytes buff)) ≤ 17
    mac = length-mac_text _ _
