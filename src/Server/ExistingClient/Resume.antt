-- ===== src/Server/ExistingClient/Resume.antt =====
-- The time and the flag of a client that comes back, in existing_client.c.
use panngo.Base.{ℕ, ◌≡◌, ◌≢◌, ap, arith, true, some, sub32, subst}
use panngo.Server.Sql.{select_time_used}
use panngo.Server.Table.{Row, Value, int, refused, row, Answers, Any}
use panngo.Server.Table.Rows.{IsUnique, time_of, time_of_unique, Any-map}
use panngo.Server.Platform.{Platform, Laws, Session}
use panngo.Server.ExistingClient.{column_int, retriev_client_data}

module _ (p : Platform) (laws : Laws p) where
  open laws use {rows}

  -- The cell that the query for TIME_USED brings is the time of the client's row.
  time_cell :
      (s : Session p) (used : ℕ) (v : Value p.F)
      → IsUnique (rows s.db_client)
      → time_of s.client.mac_address (rows s.db_client) ≡ some used
      → (p.sqlite3_fetch (select_time_used s.client.mac_address) s.db_client).0 ≡ row v
      → column_int p v ≡ used
  time_cell s used v unique time fetched = cc (
    time,
    time_of_unique s.client.mac_address (column_int p v) (rows s.db_client) unique
        (Any-map _ _ (rows s.db_client) (λ r h. (h.0, ap (column_int p) h.1)) cell),
  )
    where
      cell :
          Any
            (λ (r : Row). (r.mac_adr ≡ s.client.mac_address) × (v ≡ int r.time_used))
            (rows s.db_client)
      cell =
          subst
            (Answers (select_time_used s.client.mac_address) (rows s.db_client)
              (laws.prices s.db_client))
            fetched (laws.fetch-Answers (select_time_used s.client.mac_address) s.db_client)

  -- Where every MAC address has at most one row, the client's row has the time `used`, and SQLite
  -- finds it, the parking of a client that comes back starts `used` seconds before now, in 32 bits.
  pub retriev_client_data_resumes :
      (now status : ℕ) (s : Session p) (used : ℕ) (v : Value p.F)
      → IsUnique (rows s.db_client)
      → time_of s.client.mac_address (rows s.db_client) ≡ some used
      → (p.sqlite3_fetch (select_time_used s.client.mac_address) s.db_client).0 ≡ row v
      → (retriev_client_data p now status s).2.client.time_start_parking ≡ sub32 now used
  unfolding retriev_client_data
  retriev_client_data_resumes now status s used v unique time fetched =
      ground (arith, time_cell s used v unique time fetched)

  -- Unless the query for the time used is refused, retriev_client_data leaves the client marked as
  -- connected, also when it quits.
  pub retriev_client_data_stays_connected :
      (now status : ℕ) (s : Session p)
      → (p.sqlite3_fetch (select_time_used s.client.mac_address) s.db_client).0 ≢ refused
      → (retriev_client_data p now status s).2.client.connected ≡ true
  unfolding retriev_client_data
  retriev_client_data_stays_connected now status s prepared = ground arith
