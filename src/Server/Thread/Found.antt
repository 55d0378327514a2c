-- ===== src/Server/Thread/Found.antt =====
-- retriev_client_data of server/client/existing_client/existing_client.c for a client that has its
-- row, where every SELECT runs to its end.
use panngo.Base.{
  ℕ, ◌≡◌, ◌≢◌, refl, sym, ap, subst, ◌∙◌, arith, List, [], ◌∷◌, ◌++◌, some, sub32, true, Text,
}
use panngo.Server.Sql.{Query, select_time_used, select_location, select_price}
use panngo.Server.Table.{Row, Value, Fetch, refused, row, done, failed, Answers, Any}
use panngo.Server.Table.Rows.{Any-map, Has, IsUnique, time_of}
use panngo.Server.Data.{PangoData, LoopStatus, stay, location_name}
use panngo.Server.Platform.{Platform, Laws, Session}
use panngo.Server.NewClient.{retrieve_parking_price_per_city_from_database}
use panngo.Server.NewClient.Laws.{price_cases}
use panngo.Server.ExistingClient.{
  retrieve_time_start_parking_value_from_database, update_client_and_continue_time,
  retriev_client_data, use_location, column_text,
}
use panngo.Server.ExistingClient.Laws.{retriev_client_data_lem}
use panngo.Server.ExistingClient.Resume.{retriev_client_data_resumes}
use panngo.Server.Thread.Start.{IsReliable}
use panngo.Server.Thread.Parked.{IsWorking, IsPriceOf}

module _ (p : Platform) (laws : Laws p) (reliable : IsReliable p) where
  open laws use {rows}

  -- The query for the time brings a row.
  time_comes :
      (s : Session p)
      → Has s.client.mac_address (rows s.db_client)
      → (v : Value p.F) × ((p.sqlite3_fetch (select_time_used s.client.mac_address) s.db_client).0
          ≡ row v)
  time_comes s has =
      of_result (p.sqlite3_fetch query s.db_client).0 (laws.fetch-Answers query s.db_client)
        (reliable.prepared query s.db_client) (reliable.stepped query s.db_client)
    where
      query : Query
      query = select_time_used s.client.mac_address

      of_result :
          (f : Fetch p.F)
          → Answers query (rows s.db_client) (laws.prices s.db_client) f
          → f ≢ refused
          → f ≢ failed
          → (v : Value p.F) × (f ≡ row v)
      of_result refused a h k = absurd (h refl)
      of_result (row v) a h k = (v, refl)
      of_result done a h k = absurd (a has)
      of_result failed a h k = absurd (k refl)

  -- The session behind each of the three queries.
  abbrev timed : Session p → Session p
  timed s = (retrieve_time_start_parking_value_from_database p s).1

  abbrev placed : ℕ → Session p → Session p
  placed now s = (update_client_and_continue_time p now (timed s)).1

  abbrev priced : ℕ → Session p → Session p
  priced now s = (retrieve_parking_price_per_city_from_database p (placed now s)).1

  time_stays : (s : Session p) → (retrieve_time_start_parking_value_from_database p s).0 ≡ stay
  unfolding retrieve_time_start_parking_value_from_database
  time_stays s =
      ground (arith, reliable.prepared (select_time_used s.client.mac_address) s.db_client)

  place_stays : (now : ℕ) (s : Session p) → (update_client_and_continue_time p now s).0 ≡ stay
  unfolding update_client_and_continue_time
  place_stays now s =
      ground (arith, reliable.prepared (select_location s.client.mac_address) s.db_client)

  price_stays : (s : Session p) → (retrieve_parking_price_per_city_from_database p s).0 ≡ stay
  unfolding retrieve_parking_price_per_city_from_database
  price_stays s = ground (arith, reliable.prepared (select_price s.client.location) s.db_prices)

  -- What the three leave: the last one's session, and its location sent.
  retriev_client_data_stays :
      (now status : ℕ) (s : Session p)
      → let result = retriev_client_data p now status s in
        (result.0 ≡ stay) × (result.2.client ≡ (priced now s).client)
  unfolding retriev_client_data
  retriev_client_data_stays now status s =
      ground (arith, time_stays s, place_stays now (timed s), price_stays (placed now s))

  -- The place is that of a row with the client's address.
  abbrev pub IsPlaceOf : Text → List Row → Text → Type 0
  IsPlaceOf mac rs city = Any (λ r. (r.mac_adr ≡ mac) × (city ≡ r.location)) rs

  place_comes :
      (now : ℕ) (s : Session p)
      → Has s.client.mac_address (rows s.db_client)
      → IsPlaceOf s.client.mac_address
          (rows s.db_client)
          (update_client_and_continue_time p now s).1.client.location
  unfolding update_client_and_continue_time
  place_comes now s has =
      of_result (p.sqlite3_fetch query s.db_client) (laws.fetch-Answers query s.db_client)
        (reliable.prepared query s.db_client) (reliable.stepped query s.db_client)
    where
      query : Query
      query = select_location s.client.mac_address

      of_result :
          (f : Fetch p.F × p.Db)
          → Answers query (rows s.db_client) (laws.prices s.db_client) f.0
          → f.0 ≢ refused
          → f.0 ≢ failed
          → IsPlaceOf s.client.mac_address
              (rows s.db_client)
              (use_location p f.0 (record s {
                client = record s.client {
                  time_start_parking = sub32 now s.client.time_start_parking;
                  connected = true;
                };
                db_client = f.1;
              })).1.client.location
      of_result (refused, d) a h k = absurd (h refl)
      of_result (row v, d) a h k =
          Any-map _ _ (rows s.db_client) (λ r q. (q.0, ap (column_text p) q.1)) a
      of_result (done, d) a h k = absurd (a has)
      of_result (failed, d) a h k = absurd (k refl)

  same_session :
      (now : ℕ) (s : Session p)
      → (rows (timed s).db_client ≡ rows s.db_client)
        × ((timed s).client.mac_address ≡ s.client.mac_address)
        × ((placed now s).client.price ≡ s.client.price)
        × ((placed now s).db_prices ≡ s.db_prices)
  unfolding retrieve_time_start_parking_value_from_database update_client_and_continue_time
  same_session now s =
      let kept = laws.rows-fetch (select_time_used s.client.mac_address) s.db_client in
      (ground (arith, kept), ground arith, ground arith, ground arith)

  same_place :
      (s : Session p)
      → (retrieve_parking_price_per_city_from_database p s).1.client.location ≡ s.client.location
  unfolding retrieve_parking_price_per_city_from_database
  same_place s = ground arith

  -- What a client that comes back at `now`, `used` seconds of whose parking are in its row, gets:
  -- the place of its row, and its start and price.
  pub record IsResumed (working : IsWorking p) (now asked used : ℕ) (s : Session p)
      (result : LoopStatus × ℕ × Session p) : Type 0 where
    pub stays : result.0 ≡ stay
    pub status : result.1 ≡ asked
    pub start : result.2.client.time_start_parking ≡ sub32 now used
    pub same_rows : rows result.2.db_client ≡ rows s.db_client
    pub same_mac : result.2.client.mac_address ≡ s.client.mac_address
    pub sent : result.2.sent ≡ s.sent ++ location_name result.2.client.location ∷ []
    pub place : IsPlaceOf s.client.mac_address (rows s.db_client) result.2.client.location
    pub price :
        IsPriceOf p laws working result.2.client.location s.client.price
          (laws.prices s.db_prices)
          result.2.client.price

  pub retriev_client_data-IsResumed :
      (working : IsWorking p) (now status used : ℕ) (s : Session p)
      → IsUnique (rows s.db_client)
      → Has s.client.mac_address (rows s.db_client)
      → time_of s.client.mac_address (rows s.db_client) ≡ some used
      → IsResumed working now status used s (retriev_client_data p now status s)
  retriev_client_data-IsResumed working now status used s unique has time =
      let law = retriev_client_data_lem p laws now status s in
      let (v, fetched) = time_comes s has in
      let (stays, last) = retriev_client_data_stays now status s in
      let (table, mac, price, prices) = same_session now s in
      let city = ap (λ (c : PangoData p.F). c.location) last ∙ same_place (placed now s) in
      record {
        stays = stays;
        status = ground (arith, law.outcome, stays);
        start = retriev_client_data_resumes p laws now status s used v unique time fetched;
        same_rows = law.same_rows;
        same_mac = law.same_mac;
        sent = ground (arith, law.outcome, stays);
        place =
            subst (λ (c : Text). IsPlaceOf s.client.mac_address (rows s.db_client) c) (sym city)
              (subst
                (λ (rs : List Row).
                  IsPlaceOf s.client.mac_address rs (placed now s).client.location)
                table
                (subst
                  (λ (m : Text).
                    IsPlaceOf m (rows (timed s).db_client) (placed now s).client.location)
                  mac
                  (place_comes now (timed s) (
                    subst (λ (m : Text). Has m (rows (timed s).db_client)) (sym mac)
                      (subst (λ (rs : List Row). Has s.client.mac_address rs) (sym table) has)))));
        price =
            rw (city, ap (λ (c : PangoData p.F). c.price) last)
              (subst
                (λ (d : p.Db).
                  IsPriceOf p laws working (placed now s).client.location s.client.price
                    (laws.prices d) (priced now s).client.price)
                prices
                (subst
                  (λ (old : p.F).
                    IsPriceOf p laws working (placed now s).client.location old
                      (laws.prices (placed now s).db_prices) (priced now s).client.price)
                  price (price_cases p laws (placed now s))));
      }
