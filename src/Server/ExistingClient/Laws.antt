-- ===== src/Server/ExistingClient/Laws.antt =====
-- The two ends of retriev_client_data of server/client/existing_client/existing_client.c.
use panngo.Base.{◌⊎◌, ℕ, ◌≡◌, arith, [], ◌∷◌, ◌++◌, true}
use panngo.Server.Sql.{select_time_used, select_location}
use panngo.Server.Data.{
  LoopStatus, quit, stay, location_name, error_status_in_client_exist_subfunctions,
}
use panngo.Server.Platform.{Platform, Laws, Session}
use panngo.Server.ExistingClient.{retriev_client_data}

module _ (p : Platform) (laws : Laws p) where
  open laws use {rows}

  -- Both outcomes of retriev_client_data, and what they have in common.
  pub record ExistingClientResult (now status : ℕ) (s : Session p)
      (result : LoopStatus × ℕ × Session p) : Type 0 where
    pub outcome :
        ((result.0 ≡ stay)
          × (result.1 ≡ status)
          × (result.2.client.connected ≡ true)
          × (result.2.sent ≡ s.sent ++ location_name result.2.client.location ∷ []))
        ⊎ ((result.0 ≡ quit)
            × (result.1 ≡ error_status_in_client_exist_subfunctions)
            × (result.2.sent ≡ s.sent))
    pub same_rows : rows result.2.db_client ≡ rows s.db_client
    pub same_mac : result.2.client.mac_address ≡ s.client.mac_address

  -- Both outcomes of retriev_client_data. No row changes, and the client keeps its address. When it
  -- stays, the status is kept, the client is connected and has been sent its location; when it
  -- quits, the status is the error, and nothing was sent.
  pub retriev_client_data_lem :
      (now status : ℕ) (s : Session p)
      → ExistingClientResult now status s (retriev_client_data p now status s)
  unfolding retriev_client_data
  retriev_client_data_lem now status s =
      let time = select_time_used s.client.mac_address in
      let d = (p.sqlite3_fetch time s.db_client).1 in
      let place = select_location s.client.mac_address in
      let first = laws.rows-fetch time s.db_client in
      let second = laws.rows-fetch place d in
      record {
        outcome = ground arith;
        same_rows = ground (arith, first, second);
        same_mac = ground arith;
      }
