-- ===== src/Server/Thread/Back.antt =====
-- START_APP from a client that has its row, in server/client/client_thread.c, where every SELECT
-- runs to its end.
use panngo.Base.{
  ℕ, ◌≡◌, ◌≢◌, refl, sym, ap, subst, ◌∙◌, arith, List, [], ◌∷◌, ◌++◌, true, false, some, sub32,
  ◌&&◌, not,
}
use panngo.Server.Sql.{Query, select_client}
use panngo.Server.Table.{Row, Fetch, refused, row, done, failed, Answers}
use panngo.Server.Table.Rows.{Has, IsUnique, time_of}
use panngo.Server.Data.{stay, location_name, start_app}
use panngo.Server.Platform.{Platform, Laws, Session}
use panngo.Server.ExistingClient.{retriev_client_data}
use panngo.Server.Thread.{
  ThreadState, clinet_exist_in_database_check, start_app_case, start_new_client, is_row,
}
use panngo.Server.Thread.Found.{IsPlaceOf, IsResumed, retriev_client_data-IsResumed}
use panngo.Server.Thread.Parked.{IsWorking, IsPriceOf}
use panngo.Server.Thread.Start.{IsReliable}

module _ (p : Platform) (laws : Laws p) (reliable : IsReliable p) where
  open laws use {rows}

  is_found :
      (s : Session p)
      → Has s.client.mac_address (rows s.db_client)
      → (clinet_exist_in_database_check p false s).0 ≡ true
  unfolding clinet_exist_in_database_check
  is_found s has =
      of_result (p.sqlite3_fetch query s.db_client).0 (laws.fetch-Answers query s.db_client)
        (reliable.prepared query s.db_client) (reliable.stepped query s.db_client)
    where
      query : Query
      query = select_client s.client.mac_address

      of_result :
          (f : Fetch p.F)
          → Answers query (rows s.db_client) (laws.prices s.db_client) f
          → f ≢ refused
          → f ≢ failed
          → (is_row p f && not false) ≡ true
      of_result refused a h k = absurd (h refl)
      of_result (row v) a h k = refl
      of_result done a h k = absurd (a has)
      of_result failed a h k = absurd (k refl)

  -- The session in which the row was looked for.
  abbrev looked_up : Session p → Session p
  looked_up s = record s {
    db_client = (p.sqlite3_fetch (select_client s.client.mac_address) s.db_client).1;
  }

  -- START_APP of a client that is found, and whose queries succeed.
  start_app_case_returns :
      (now : ℕ) (t : ThreadState p)
      → t.checked_database ≡ false
      → (clinet_exist_in_database_check p false t.session).0 ≡ true
      → let result = retriev_client_data p now t.status (looked_up t.session) in
        result.0 ≡ stay
        → start_app_case p now t ≡ record t {
          return_value = stay;
          status = result.1;
          session = result.2;
          checked_database = true;
        }
  unfolding start_app_case start_new_client clinet_exist_in_database_check
  start_app_case_returns now t unchecked found stays = ground arith

module _ (p : Platform) (laws : Laws p) (working : IsWorking p) (reliable : IsReliable p) where
  open laws use {rows}

  -- A thread whose client has come back, from the thread `t` with its packet taken in.
  pub record IsBack (now used : ℕ) (t u : ThreadState p) : Type 0 where
    pub stays : u.return_value ≡ stay
    pub status : u.status ≡ start_app
    pub buffer : u.client_data_buff ≡ t.client_data_buff
    pub start : u.session.client.time_start_parking ≡ sub32 now used
    pub table : rows u.session.db_client ≡ rows t.session.db_client
    pub sent : u.session.sent ≡ t.session.sent ++ location_name u.session.client.location ∷ []
    pub place :
        IsPlaceOf p laws reliable t.session.client.mac_address
          (rows t.session.db_client)
          u.session.client.location
    pub price :
        IsPriceOf p laws working u.session.client.location t.session.client.price
          (laws.prices t.session.db_prices)
          u.session.client.price

  pub start_app_case-IsBack :
      (now used : ℕ) (t : ThreadState p)
      → t.checked_database ≡ false
      → t.status ≡ start_app
      → IsUnique (rows t.session.db_client)
      → Has t.session.client.mac_address (rows t.session.db_client)
      → time_of t.session.client.mac_address (rows t.session.db_client) ≡ some used
      → IsBack now used t (start_app_case p now t)
  start_app_case-IsBack now used t unchecked starting unique has time =
      subst (IsBack now used t) (sym returned) (record {
        stays = refl;
        status = law.status ∙ starting;
        buffer = refl;
        start = law.start;
        table = law.same_rows ∙ kept;
        sent = law.sent;
        place =
            subst
              (λ (rs : List Row).
                IsPlaceOf p laws reliable s.client.mac_address rs
                  (retriev_client_data p now t.status s).2.client.location)
              kept law.place;
        price = law.price;
      })
    where
      s : Session p
      s = looked_up p laws reliable t.session

      kept : rows s.db_client ≡ rows t.session.db_client
      kept = laws.rows-fetch (select_client t.session.client.mac_address) t.session.db_client

      law :
          IsResumed p laws reliable working now t.status used s
            (retriev_client_data p now t.status s)
      law =
          retriev_client_data-IsResumed p laws reliable working now t.status used s
            (subst (λ (rs : List Row). IsUnique rs) (sym kept) unique)
            (subst (λ (rs : List Row). Has s.client.mac_address rs) (sym kept) has)
            (ap (time_of s.client.mac_address) kept ∙ time)

      returned : start_app_case p now t ≡ record t {
        return_value = stay;
        status = (retriev_client_data p now t.status s).1;
        session = (retriev_client_data p now t.status s).2;
        checked_database = true;
      }
      returned =
          start_app_case_returns p laws reliable now t unchecked
            (is_found p laws reliable t.session has) law.stays
