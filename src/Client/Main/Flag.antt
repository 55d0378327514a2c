-- ===== src/Client/Main/Flag.antt =====
-- exit_app, which main of client/main_client.c sets where connect_to_pango_server gives -1, and the
-- button's thread start_end_func of client/client_func.c, which ends when it is set.
use panngo.Base.{
  ℕ, suc, ◌+◌, ◌≡◌, refl, ap, ◌∙◌, arith, List, [], ◌∷◌, map, length, Bool, false, Bool-cases, inl,
  inr, ◌==◌,
}
use panngo.Client.Data.{error}
use panngo.Client.Network.{connect_to_pango_server, wait_poll_event}
use panngo.Client.Status.{received_data_from_stm}
use panngo.Client.Main.{
  Round, MainState, Control, goes_on, breaks, exits, exchange, connect_step, quit_step,
  received_step, main_round, ◌>>=◌, read_step, write_status, close_socket, write_restart, act,
  Finished, running, closed, aborted, main_loop,
}
use panngo.Client.Button.{writing, start_end_func}

module _ {F : Type 0} where
  -- exit_app at the end of a part of main.
  abbrev flag : Control F → Bool
  flag (goes_on t) = t.exit_app
  flag (breaks t) = t.exit_app
  flag (exits t) = t.exit_app

  abbrev pub exit_app_of : Finished F → Bool
  exit_app_of (running t) = t.exit_app
  exit_app_of (closed t) = t.exit_app
  exit_app_of (aborted t) = t.exit_app

  -- The result of connect_to_pango_server is a byte, and never the int -1.
  connect_step_flag : (r : Round F) (s : MainState F) → flag (connect_step r s) ≡ s.exit_app
  unfolding connect_step connect_to_pango_server exchange
  connect_step_flag r s = ground arith

  quit_step_flag : (r : Round F) (s : MainState F) → flag (quit_step r s) ≡ s.exit_app
  unfolding quit_step
  quit_step_flag r s = ground arith

  >>=-flag :
      (m : Control F) (f : MainState F → Control F) (b : Bool)
      → flag m ≡ b
      → ((t : MainState F) → t.exit_app ≡ b → flag (f t) ≡ b)
      → flag (m >>= f) ≡ b
  >>=-flag (goes_on t) f b h next = next t h
  >>=-flag (breaks t) f b h next = h
  >>=-flag (exits t) f b h next = h

  received_step_flag : (r : Round F) (s : MainState F) → flag (received_step r s) ≡ s.exit_app
  unfolding received_step read_step
  received_step_flag r s = elim (Bool-cases (received_data_from_stm s.status)) [
    | inl known ↦ rw known (
        >>=-flag (connect_step r (read_step r s)) (quit_step r) s.exit_app
          (connect_step_flag r (read_step r s)) (λ t h. quit_step_flag r t ∙ h))
    | inr unknown ↦ rw unknown refl
  ]

  main_round_flag : (r : Round F) (s : MainState F) → flag (main_round r s) ≡ s.exit_app
  unfolding main_round
  main_round_flag r s = elim (Bool-cases (wait_poll_event r.stm_poll == error)) [
    | inl missed ↦ ground (arith, missed)
    | inr answered ↦ rw answered (
        >>=-flag (received_step r (act (write_status s.status) s)) _ s.exit_app
          (received_step_flag r (act (write_status s.status) s)) (λ t h. h))
  ]

  main_loop_flag :
      (rs : List (Round F)) (s : MainState F) → exit_app_of (main_loop s rs) ≡ s.exit_app
  unfolding main_loop
  main_loop_flag [] s = refl
  main_loop_flag (r ∷ rs) s =
      by_control (main_round r s) (main_round_flag r s) (λ t. main_loop_flag rs t)
    where
      by_control :
          (after : Control F)
          → flag after ≡ s.exit_app
          → ((t : MainState F) → exit_app_of (main_loop t rs) ≡ t.exit_app)
          → exit_app_of (elim after [
            | goes_on t ↦ main_loop t rs
            | breaks t ↦ closed (act close_socket (act write_restart t))
            | exits t ↦ aborted t
          ])
            ≡ s.exit_app
      by_control (goes_on t) h rest = rest t ∙ h
      by_control (breaks t) h rest = h
      by_control (exits t) h rest = h

  reads : MainState F → List (List (Round F)) → List Bool
  reads s points = map (λ (rs : List (Round F)). exit_app_of (main_loop s rs)) points

  writes_on :
      (s : MainState F) (writes : ℕ) (points : List (List (Round F)))
      → s.exit_app ≡ false
      → start_end_func writes (reads s points) ≡ writing (writes + length points)
  unfolding start_end_func reads
  writes_on s writes [] unset = ap writing (omega arith)
  writes_on s writes (rs ∷ points) unset =
      rw (main_loop_flag rs s ∙ unset)
        (writes_on s (suc writes) points unset ∙ ap writing (omega arith))

  -- From a state of main in which exit_app is not set, whenever start_end_func reads the flag,
  -- after any rounds of main's loop, it goes on writing: main never sets exit_app.
  pub button_never_ends :
      (s : MainState F) (points : List (List (Round F)))
      → s.exit_app ≡ false
      → start_end_func 0 (map (λ rs. exit_app_of (main_loop s rs)) points) ≡ writing (length points)
  unfolding reads
  button_never_ends s points unset = writes_on s 0 points unset ∙ ap writing (omega arith)
