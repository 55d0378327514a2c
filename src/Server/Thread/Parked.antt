-- ===== src/Server/Thread/Parked.antt =====
-- The first round of pango_client for a client without a row, in server/client/client_thread.c.
use panngo.Base.{
  ℕ, ◌≡◌, ◌≢◌, ◌⊎◌, refl, sym, ap, subst, ◌∙◌, arith, List, [], ◌∷◌, ◌++◌, true, false, ◌&&◌, not,
  Text, get_or, u32,
}
use panngo.Server.Sql.{Statement, Query, select_client, insert_client, select_price}
use panngo.Server.Table.{Row, PriceRow, Any, Fetch, refused, row, done, failed, Answers}
use panngo.Server.Table.Rows.{Has}
use panngo.Server.Data.{stay, location_name, start_app, crc8_test_failed}
use panngo.Server.Platform.{Platform, Laws, Session}
use panngo.Server.Location.{location_func}
use panngo.Server.NewClient.{
  process_client_data, initialize_and_get_start_time, retrieve_parking_price_per_city_from_database,
}
use panngo.Server.NewClient.Laws.{new_row, process_client_data_lem, price_cases}
use panngo.Server.Packet.Mac.{mac_text}
use panngo.Server.Packet.Store.{mac_bytes}
use panngo.Server.Thread.{
  received, ThreadState, fill, clinet_exist_in_database_check, start_new_client, start_app_case,
  thread_round, is_row,
}
use panngo.Server.Thread.Handle.{IsIntact, taken, thread_round_starts}

-- Every command succeeds, and every query is prepared.
pub record IsWorking (p : Platform) : Type 0 where
  pub succeeds : (s : Statement) (d : p.Db) → (p.sqlite3_exec s d).0 ≡ true
  pub prepared : (q : Query) (d : p.Db) → (p.sqlite3_fetch q d).0 ≢ refused

module _ (p : Platform) (laws : Laws p) (working : IsWorking p) where
  open laws use {rows}

  -- A client without a row is not found.
  not_found :
      (s : Session p)
      → ¬ Has s.client.mac_address (rows s.db_client)
      → (clinet_exist_in_database_check p false s).0 ≡ false
  unfolding clinet_exist_in_database_check
  not_found s absent =
      of_result (p.sqlite3_fetch (select_client s.client.mac_address) s.db_client).0
        (laws.fetch-Answers (select_client s.client.mac_address) s.db_client)
    where
      of_result :
          (f : Fetch p.F)
          → Answers
              (select_client s.client.mac_address)
              (rows s.db_client)
              (laws.prices s.db_client)
              f
          → (is_row p f && not false) ≡ false
      of_result refused a = refl
      of_result (row v) a = absurd (absent a)
      of_result done a = refl
      of_result failed a = refl

  new_client_stays :
      (now status : ℕ) (s : Session p) → (process_client_data p now status s).0 ≡ stay
  unfolding process_client_data
  new_client_stays now status s =
      let started = initialize_and_get_start_time now s.client in
      ground (
        arith,
        working.succeeds (insert_client started.mac_address 0 started.location) s.db_client,
        working.prepared (select_price started.location) s.db_prices,
      )

  -- The price that city_parking has for a place, or `old`.
  abbrev pub IsPriceOf : Text → p.F → List (PriceRow p.F) → p.F → Type 0
  IsPriceOf city old prices price =
      Any (λ q. (q.city ≡ city) × (price ≡ q.price)) prices ⊎ (price ≡ old)

  new_client_price :
      (now status : ℕ) (s : Session p)
      → IsPriceOf
          (new_row p laws s.client).location
          s.client.price
          (laws.prices s.db_prices)
          (process_client_data p now status s).2.client.price
  unfolding initialize_and_get_start_time location_func
  new_client_price now status s =
      subst (IsPriceOf (new_row p laws s.client).location s.client.price (laws.prices s.db_prices))
        same (price_cases p laws started)
    where
      started : Session p
      started = record s { client = initialize_and_get_start_time now s.client }

      same :
          (retrieve_parking_price_per_city_from_database p started).1.client.price
          ≡ (process_client_data p now status s).2.client.price
      same = unfold process_client_data in ground arith

  -- A thread whose client has just started to park, from the thread `t` with its packet taken in.
  pub record IsParked (now : ℕ) (t u : ThreadState p) : Type 0 where
    pub stays : u.return_value ≡ stay
    pub status : u.status ≡ start_app
    pub buffer : u.client_data_buff ≡ t.client_data_buff
    pub mac : u.session.client.mac_address ≡ t.session.client.mac_address
    pub start : u.session.client.time_start_parking ≡ u32 now
    pub table :
        rows u.session.db_client ≡ rows t.session.db_client ++ new_row p laws t.session.client ∷ []
    pub sent :
        u.session.sent
        ≡ t.session.sent ++ location_name (new_row p laws t.session.client).location ∷ []
    pub price :
        IsPriceOf
          (new_row p laws t.session.client).location
          t.session.client.price
          (laws.prices t.session.db_prices)
          u.session.client.price

  start_new_client-IsParked :
      (now : ℕ) (t : ThreadState p)
      → t.checked_database ≡ false
      → t.status ≡ start_app
      → IsParked now t (start_new_client p now t)
  unfolding start_new_client
  start_new_client-IsParked now t unchecked starting =
      let law = process_client_data_lem p laws now t.status t.session in
      let stays = new_client_stays now t.status t.session in
      record {
        stays = ground (arith, unchecked, stays);
        status = ground (arith, unchecked, law.outcome, stays);
        buffer = ground (arith, unchecked);
        mac = ground (arith, unchecked, law.same_mac);
        start = ground (arith, unchecked, law.start);
        table = ground (arith, unchecked, law.outcome, stays);
        sent = ground (arith, unchecked, law.outcome, stays);
        price = rw unchecked (new_client_price now t.status t.session);
      }

  -- START_APP for a client without a row: the query for it leaves the database alone.
  start_app_case-IsParked :
      (now : ℕ) (t : ThreadState p)
      → t.checked_database ≡ false
      → t.status ≡ start_app
      → ¬ Has t.session.client.mac_address (rows t.session.db_client)
      → IsParked now t (start_app_case p now t)
  start_app_case-IsParked now t unchecked starting absent =
      subst (IsParked now t) (sym new) (record {
        stays = law.stays;
        status = law.status;
        buffer = law.buffer;
        mac = law.mac;
        start = law.start;
        table =
            law.table
            ∙ ap (λ (rs : List Row). rs ++ new_row p laws t.session.client ∷ [])
                (laws.rows-fetch (select_client t.session.client.mac_address) t.session.db_client);
        sent = law.sent;
        price = law.price;
      })
    where
      looked_up : ThreadState p
      looked_up = record t {
        session = record t.session {
          db_client =
              (p.sqlite3_fetch (select_client t.session.client.mac_address) t.session.db_client).1;
        };
      }

      new : start_app_case p now t ≡ start_new_client p now looked_up
      new =
          unfold start_app_case clinet_exist_in_database_check in
          ground (arith, unchecked, not_found t.session absent)

      law : IsParked now looked_up (start_new_client p now looked_up)
      law = start_new_client-IsParked now looked_up unchecked starting

  -- The first round, from a thread that has looked for nothing yet.
  pub first_round-IsParked :
      (t : ThreadState p) (bytes : List ℕ) (now : ℕ)
      → let full : ThreadState p = record t { client_data_buff = fill bytes t.client_data_buff } in
        IsIntact full.client_data_buff
        → get_or full.client_data_buff 0 0 ≡ start_app
        → t.status ≢ crc8_test_failed
        → t.checked_database ≡ false
        → ¬ Has (mac_text (mac_bytes full.client_data_buff)) (rows t.session.db_client)
        → IsParked now
            (taken p full)
            (thread_round p (record { recv = received bytes; now = now }) t)
  first_round-IsParked t bytes now intact starting fresh unchecked absent =
      subst (IsParked now (taken p full)) (sym round)
        (start_app_case-IsParked now (taken p full) unchecked starting absent)
    where
      full : ThreadState p
      full = record t { client_data_buff = fill bytes t.client_data_buff }

      round :
          thread_round p (record { recv = received bytes; now = now }) t
          ≡ start_app_case p now (taken p full)
      round = thread_round_starts p t bytes now intact starting fresh
