-- ===== src/Server/MainServer/Accept.antt =====
-- The start and the accept loop of main in server/main_server.c.
use panngo.Base.{
  ℕ, zero, suc, ◌+◌, ◌-◌, ◌≡◌, ◌↔◌, refl, ap, ◌∙◌, arith, List, [], ◌∷◌, ◌++◌, true, false, length,
  u8,
}
use panngo.Server.Data.{PangoData}
use panngo.Server.MainServer.{
  server_max_num_clients, Startup, exit_failure, listening, start_server, Accepted, overrun, set_fd,
  accept_round, accept_loop,
}

-- The loop starts exactly when every call before it has succeeded, and the socket is closed on the
-- way out exactly when bind is what failed.
start_server_lem :
    (s : Startup)
    → ((start_server s ≡ listening) ↔ (
        (s.open_clients ≡ true)
        × (s.create_table ≡ true)
        × (s.open_prices ≡ true)
        × (s.socket ≡ true)
        × (s.bind ≡ true)
        × (s.listen ≡ true)))
      × ((start_server s ≡ exit_failure true) ↔ (
          (s.open_clients ≡ true)
          × (s.create_table ≡ true)
          × (s.open_prices ≡ true)
          × (s.socket ≡ true)
          × (s.bind ≡ false)))
unfolding start_server
start_server_lem s = ground arith

module _ {F : Type 0} where
  length-set_fd : (cs : List (PangoData F)) (i fd : ℕ) → length (set_fd cs i fd) ≡ length cs
  length-set_fd [] i fd = refl
  length-set_fd (c ∷ cs) zero fd = refl
  length-set_fd (c ∷ cs) (suc i) fd = ap suc (length-set_fd cs i fd)

  -- Whatever accept returns, -1 included, a round counts no error, creates a thread for its slot,
  -- and leaves the array as long as it was.
  accept_round_lem :
      (i result : ℕ) (a : Accepted F)
      → ((accept_round i result a).noticed ≡ a.noticed)
        × ((accept_round i result a).threads ≡ a.threads ++ i ∷ [])
        × (length (accept_round i result a).clients ≡ length a.clients)
  unfolding accept_round
  accept_round_lem i result a = (ground arith, refl, length-set_fd a.clients i (u8 result))

  -- The loop over the slots that are left, from any of them.
  accept_loop_from :
      (left i : ℕ) (results : List ℕ) (last : ℕ) (rest : List ℕ) (a : Accepted F)
      → length results ≡ left
      → i + left ≡ server_max_num_clients
      → length a.clients ≡ server_max_num_clients
      → (b : Accepted F) × (accept_loop i (results ++ last ∷ rest) a ≡ overrun b)
        × (b.noticed ≡ a.noticed)
  unfolding accept_loop
  accept_loop_from left i [] last rest a n e full = (a, ground arith, refl)
  accept_loop_from left i (r ∷ rs) last rest a n e full =
      let law = accept_round_lem i r a in
      let (b, loop, same) =
        accept_loop_from (left - 1) (i + 1) rs last rest (accept_round i r a) (omega arith)
          (omega arith) (law.2 ∙ full) in
      (b, ground (arith, loop), same ∙ law.0)

  -- From an array of ten clients, the eleventh result of accept is written past the end of the
  -- array, whatever accept returned for any of them, -1 included, and no error of accept has been
  -- noticed.
  pub accept_loop_overruns :
      (results : List ℕ) (last : ℕ) (rest : List ℕ) (a : Accepted F)
      → length results ≡ server_max_num_clients
      → length a.clients ≡ server_max_num_clients
      → (b : Accepted F) × (accept_loop 0 (results ++ last ∷ rest) a ≡ overrun b)
        × (b.noticed ≡ a.noticed)
  accept_loop_overruns results last rest a n full =
      accept_loop_from server_max_num_clients 0 results last rest a n refl full
