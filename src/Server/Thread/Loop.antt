-- ===== src/Server/Thread/Loop.antt =====
-- The loop of pango_client in server/client/client_thread.c, round by round.
use panngo.Base.{◌≡◌, ◌⊎◌, inl, inr, refl, arith, List, [], ◌∷◌}
use panngo.Server.Data.{LoopStatus, quit, stay}
use panngo.Server.Platform.{Platform, Session}
use panngo.Server.Table.{Any}
use panngo.Server.Thread.{
  closed, Event, ThreadState, lose_connection, thread_round, thread_exit, exited, pango_client_loop,
}

module _ (p : Platform) where
  pub loop_quits :
      (e : Event) (t : ThreadState p) (es : List Event)
      → (thread_round p e t).return_value ≡ quit
      → pango_client_loop p t (e ∷ es) ≡ exited (thread_exit p e.now (thread_round p e t))
  unfolding pango_client_loop
  loop_quits e t es h = ground arith

  pub loop_stays :
      (e : Event) (t : ThreadState p) (es : List Event)
      → (thread_round p e t).return_value ≡ stay
      → pango_client_loop p t (e ∷ es) ≡ pango_client_loop p (thread_round p e t) es
  unfolding pango_client_loop
  loop_stays e t es h = ground arith

  pub LoopStatus-cases : (r : LoopStatus) → (r ≡ quit) ⊎ (r ≡ stay)
  LoopStatus-cases quit = inl refl
  LoopStatus-cases stay = inr refl

  pub thread_round_closed :
      (e : Event) (t : ThreadState p) → e.recv ≡ closed → thread_round p e t ≡ lose_connection p t
  unfolding thread_round
  thread_round_closed e t h = ground arith

  pub lose_connection-quit : (t : ThreadState p) → (lose_connection p t).return_value ≡ quit
  unfolding lose_connection
  lose_connection-quit t = refl

  -- Once the peer closes the connection, a client's thread has ended, whatever came before.
  pub pango_client_loop_ends :
      (t : ThreadState p) (events : List Event)
      → Any (λ (e : Event). e.recv ≡ closed) events
      → (s : Session p) × (pango_client_loop p t events ≡ exited s)
  pango_client_loop_ends t [] h = elim h [ ]
  pango_client_loop_ends t (e ∷ es) (inl h) = (
    thread_exit p e.now (thread_round p e t),
    loop_quits e t es (rw (thread_round_closed e t h) (lose_connection-quit t)),
  )
  pango_client_loop_ends t (e ∷ es) (inr h) =
      elim (LoopStatus-cases (thread_round p e t).return_value) [
        | inl q ↦ (thread_exit p e.now (thread_round p e t), loop_quits e t es q)
        | inr q ↦ rw (loop_stays e t es q) (pango_client_loop_ends (thread_round p e t) es h)
      ]
