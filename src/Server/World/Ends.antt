-- ===== src/Server/World/Ends.antt =====
-- The end of a client's thread among the others of server/, once its connection is closed.
use panngo.Base.{
  ℕ, suc, ◌+◌, ◌≤◌, ◌<◌, ◌≡◌, ◌⊎◌, inl, inr, refl, sym, subst, arith, true, false, if-keeps, ◌==◌,
}
use native.Mathlib.Decide.{ℕ_discrete}
use mathlib.Core.Logic.{ite}
use panngo.Server.Data.{
  close_app, connection_lost, crc8_test_failed, error_status_in_client_exist_subfunctions,
  error_status_in_new_client_subfunctions,
}
use panngo.Server.Platform.{Platform}
use panngo.Server.Typed.{loop_status-keeps}
use panngo.Server.NewClient.{process_client_data}
use panngo.Server.ExistingClient.{retriev_client_data}
use panngo.Server.Thread.{
  Recv, closed, Event, ThreadState, new_client, clinet_exist_in_database_check, close_app_case,
  send_error,
}
use panngo.Server.World.{
  Phase, receiving, losing, asking, resuming, inserting, connecting, closing, removing, updating,
  removed, ended, Task, at, set_connected, leave, loop_test, test_new, receive, ask, resume, insert,
  move, World, attach, thread_step, moves, backs_up, Reach, begin, later, backup_step,
}

-- How many moves of its own a thread makes at most, once its connection is closed.
abbrev pub moves_left : Phase → ℕ
moves_left asking = 8
moves_left resuming = 7
moves_left inserting = 6
moves_left connecting = 5
moves_left closing = 4
moves_left receiving = 3
moves_left losing = 2
moves_left removing = 1
moves_left updating = 1
moves_left removed = 0
moves_left ended = 0

-- Without moves left, a thread has ended.
moves_left_zero : (q : Phase) → moves_left q ≡ 0 → (q ≡ removed) ⊎ (q ≡ ended)
moves_left_zero removed none = inl refl
moves_left_zero ended none = inr refl
moves_left_zero asking none = absurd (omega arith)
moves_left_zero resuming none = absurd (omega arith)
moves_left_zero inserting none = absurd (omega arith)
moves_left_zero connecting none = absurd (omega arith)
moves_left_zero closing none = absurd (omega arith)
moves_left_zero receiving none = absurd (omega arith)
moves_left_zero losing none = absurd (omega arith)
moves_left_zero removing none = absurd (omega arith)
moves_left_zero updating none = absurd (omega arith)

module _ (p : Platform) where
  abbrev IsWithin : ℕ → Task p → Type 0
  IsWithin n k = moves_left k.phase ≤ n

  leave-IsWithin : (t : ThreadState p) → IsWithin 1 (leave p t)
  unfolding leave
  leave-IsWithin t =
      let s = record t { session = send_error p t.session } in
      let P = IsWithin 1 in
      if-keeps P (t.status == close_app) _ _ (omega arith) (
        if-keeps P (t.status == connection_lost) (at p updating t) _ (omega arith) (
          if-keeps P (t.status == crc8_test_failed) (at p ended s) _ (omega arith) (
            if-keeps P (t.status == error_status_in_client_exist_subfunctions) (at p ended s) _
              (omega arith)
              (if-keeps P (t.status == error_status_in_new_client_subfunctions) (at p ended s)
                (at p ended t) (omega arith) (omega arith)))))

  loop_test-IsWithin : (t : ThreadState p) → IsWithin 3 (loop_test p t)
  unfolding loop_test
  loop_test-IsWithin t =
      loop_status-keeps (IsWithin 3) t.return_value (leave p t) (at p receiving t)
        (omega (arith, leave-IsWithin t)) (omega arith)

  test_new-IsWithin : (t : ThreadState p) → IsWithin 6 (test_new p t)
  unfolding test_new
  test_new-IsWithin t =
      if-keeps (IsWithin 6) (new_client t.checked_database) (at p inserting t) (loop_test p t)
        (omega arith) (omega (arith, loop_test-IsWithin t))

  ask-IsWithin : (t : ThreadState p) → IsWithin 7 (ask p t)
  unfolding ask
  ask-IsWithin t =
      let asked = clinet_exist_in_database_check p t.checked_database t.session in
      let t' : ThreadState p = record t { session = asked.1 } in
      if-keeps (IsWithin 7) asked.0 (at p resuming t') (test_new p t') (omega arith)
        (omega (arith, test_new-IsWithin t'))

  resume-IsWithin : (now : ℕ) (t : ThreadState p) → IsWithin 6 (resume p now t)
  unfolding resume
  resume-IsWithin now t =
      let result = retriev_client_data p now t.status t.session in
      let t' : ThreadState p = record t {
        return_value = result.0;
        status = result.1;
        session = result.2;
      } in
      let new : ThreadState p = record t' { checked_database = true } in
      loop_status-keeps (IsWithin 6) result.0 (loop_test p t') (test_new p new)
        (omega (arith, loop_test-IsWithin t')) (test_new-IsWithin new)

  insert-IsWithin : (now : ℕ) (t : ThreadState p) → IsWithin 5 (insert p now t)
  unfolding insert
  insert-IsWithin now t =
      let result = process_client_data p now t.status t.session in
      let t' : ThreadState p = record t {
        return_value = result.0;
        status = result.1;
        session = result.2;
      } in
      loop_status-keeps (IsWithin 5) result.0 (loop_test p t') (at p connecting t')
        (omega (arith, loop_test-IsWithin t')) (omega arith)

  -- Every move has fewer left, up to the end.
  moves_left-move :
      (e : Event) (phase : Phase) (t : ThreadState p)
      → e.recv ≡ closed
      → (moves_left (move p e phase t).phase < moves_left phase)
        ⊎ ((moves_left phase ≡ 0) × (moves_left (move p e phase t).phase ≡ 0))
  unfolding move receive
  moves_left-move e receiving t gone = inl (
      subst (λ (r : Recv). moves_left (receive p (record e { recv = r }) t).phase < 3) (sym gone)
        (omega arith))
  moves_left-move e losing t gone = inl (omega (arith, leave-IsWithin (set_connected p false t)))
  moves_left-move e asking t gone = inl (omega (arith, ask-IsWithin t))
  moves_left-move e resuming t gone = inl (omega (arith, resume-IsWithin e.now t))
  moves_left-move e inserting t gone = inl (omega (arith, insert-IsWithin e.now t))
  moves_left-move e connecting t gone =
      inl (omega (arith, loop_test-IsWithin (set_connected p true t)))
  moves_left-move e closing t gone =
      inl (omega (arith, loop_test-IsWithin (close_app_case p e.now t)))
  moves_left-move e removing t gone = inl (omega arith)
  moves_left-move e updating t gone = inl (omega arith)
  moves_left-move e removed t gone = inr (refl, refl)
  moves_left-move e ended t gone = inr (refl, refl)

  module _ (i : ℕ) where
    -- The steps of the thread.
    abbrev pub own_steps : {n start : ℕ} {w w' : World p} → Reach p n start w w' → ℕ
    own_steps begin = 0
    own_steps (later before (moves j e below)) =
        ite (ℕ_discrete j i) (suc (own_steps before)) (own_steps before)
    own_steps (later before (backs_up r goes_on)) = own_steps before

    -- Its peer has closed the connection.
    abbrev pub IsClosed : {n start : ℕ} {w w' : World p} → Reach p n start w w' → Type 0
    IsClosed begin = Unit
    IsClosed (later before (moves j e below)) = IsClosed before × (j ≡ i → e.recv ≡ closed)
    IsClosed (later before (backs_up r goes_on)) = IsClosed before

    -- Fewer moves are left by each of its own.
    abbrev Left : World p → World p → ℕ → Type 0
    Left w w' taken =
        (moves_left (w'.tasks i).phase + taken ≤ moves_left (w.tasks i).phase)
        ⊎ (moves_left (w'.tasks i).phase ≡ 0)

    one_more :
        (w u : World p) (taken j : ℕ) (e : Event)
        → Left w u taken
        → (j ≡ i → e.recv ≡ closed)
        → (d : Dec (j ≡ i))
        → (moves_left
                (ite d
                  (move p e (u.tasks j).phase (attach p u (u.tasks j).state))
                  (u.tasks i)).phase
              + ite d (suc taken) taken
            ≤ moves_left (w.tasks i).phase)
          ⊎ (moves_left
                (ite d
                  (move p e (u.tasks j).phase (attach p u (u.tasks j).state))
                  (u.tasks i)).phase
              ≡ 0)
    one_more w u taken j e left gone (no other) = left
    one_more w u taken j e left gone (yes own) = on_own left (
        subst
          (λ l.
            (moves_left k.phase < moves_left (u.tasks l).phase)
            ⊎ ((moves_left (u.tasks l).phase ≡ 0) × (moves_left k.phase ≡ 0)))
          own (moves_left-move e (u.tasks j).phase (attach p u (u.tasks j).state) (gone own)))
      where
        k : Task p
        k = move p e (u.tasks j).phase (attach p u (u.tasks j).state)

        on_own :
            Left w u taken
            → (moves_left k.phase < moves_left (u.tasks i).phase)
              ⊎ ((moves_left (u.tasks i).phase ≡ 0) × (moves_left k.phase ≡ 0))
            → (moves_left k.phase + suc taken ≤ moves_left (w.tasks i).phase)
              ⊎ (moves_left k.phase ≡ 0)
        on_own left (inr (at_end, stays)) = inr stays
        on_own (inl below) (inl less) = inl (omega arith)
        on_own (inr at_end) (inl less) = inr (omega arith)

    Reach-Left :
        {n start : ℕ} {w w' : World p} (r : Reach p n start w w')
        → IsClosed r
        → Left w w' (own_steps r)
    unfolding thread_step backup_step
    Reach-Left begin gone = inl (omega arith)
    Reach-Left {w = w} (later {w = u} before (moves j e below)) gone =
        one_more w u (own_steps before) j e (Reach-Left before gone.0) gone.1 (ℕ_discrete j i)
    Reach-Left (later before (backs_up r goes_on)) gone = Reach-Left before gone

    -- In the threads together, let a client's connection be closed, so that recv gives 0 whenever
    -- the client's own thread reaches it. Once this thread has made as many moves as its phase
    -- still allows, three from recv on and eight at most, it has ended, with its row removed or
    -- not, whatever the other threads and db_update do between its moves, and whatever its commands
    -- to the databases give.
    pub thread_ends :
        {n start : ℕ} {w w' : World p} (r : Reach p n start w w')
        → IsClosed r
        → moves_left (w.tasks i).phase ≤ own_steps r
        → ((w'.tasks i).phase ≡ removed) ⊎ ((w'.tasks i).phase ≡ ended)
    thread_ends {w = w} {w' = w'} r gone enough = at_end (Reach-Left r gone)
      where
        at_end :
            Left w w' (own_steps r) → ((w'.tasks i).phase ≡ removed) ⊎ ((w'.tasks i).phase ≡ ended)
        at_end (inl below) = moves_left_zero (w'.tasks i).phase (omega arith)
        at_end (inr none) = moves_left_zero (w'.tasks i).phase none
