-- ===== src/Server/MainServer/Shutdown.antt =====
-- server/main_server.c: the end of main, behind the accept loop.
use panngo.Base.{ℕ, ◌<◌, ◌≡◌, arith, List, [], ◌∷◌, ◌++◌, Bool, ◌==◌, if◌then◌else◌}
use panngo.Server.MainServer.{minus_one}

-- What the calls return, as patterns of ints: 0 for success, and for pthread_join an error number.
pub record Closing : Type 0 where
  pub join_client : ℕ
  pub join_db_upd_thr : ℕ
  pub close_server_sockfd : ℕ
  pub close_db_prices : ℕ
  pub close_db_client : ℕ

-- What main does, in order; `reports` is a perror behind the call before it.
pub data Release : Type 0 where
  joins_client joins_db_upd_thr sets_return_thread closes_socket closes_prices closes_clients :
      Release
  destroys_mutex reports : Release

abbrev report_if : Bool → List Release
report_if failed = if failed then reports ∷ [] else []

unfoldable pub shut_down : Closing → List Release
shut_down c =
    joins_client ∷ report_if (c.join_client == minus_one)
    ++ sets_return_thread ∷ joins_db_upd_thr ∷ report_if (c.join_db_upd_thr == minus_one)
    ++ closes_socket ∷ report_if (c.close_server_sockfd == minus_one)
    ++ closes_prices ∷ (if c.close_db_prices == 0 then [] else reports ∷ [])
    ++ closes_clients ∷ (if c.close_db_client == 0 then [] else reports ∷ [])
    ++ destroys_mutex ∷ []

-- An error number of pthread_join is positive, and no error of a join is reported: what main does is
-- what it does where both joins succeed.
joins_unreported :
    (c : Closing)
    → c.join_client < 2147483648
    → c.join_db_upd_thr < 2147483648
    → shut_down c ≡ shut_down (record c { join_client = 0; join_db_upd_thr = 0 })
unfolding shut_down
joins_unreported c client db = ground arith
