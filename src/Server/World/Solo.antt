-- ===== src/Server/World/Solo.antt =====
-- The moves of a client's thread, one after the other, against the rounds of its loop.
use panngo.Base.{
  ℕ, zero, suc, ◌≡◌, inl, inr, refl, arith, Bool, true, false, Bool-cases, if◌then◌else◌, ◌==◌,
}
use panngo.Server.Data.{quit, stay, start_app, close_app, connection_lost}
use panngo.Server.Platform.{Platform}
use panngo.Server.NewClient.{process_client_data}
use panngo.Server.Thread.Loop.{LoopStatus-cases}
use panngo.Server.Thread.{
  Recv, closed, recv_failed, received, Event, ThreadState, clinet_exist_in_database_check, fill,
  take_packet, start_app_case, start_new_client, close_app_case, handle_packet, lose_connection,
  thread_round, thread_exit,
}
use panngo.Server.World.{
  Phase, receiving, losing, asking, resuming, inserting, connecting, closing, removed, ended, Task,
  at, loop_test, switch, receive, insert, ask, resume, move,
}

module _ (p : Platform) where
  -- A thread that waits for its client, or has ended.
  abbrev rests : Phase → Bool
  rests receiving = true
  rests removed = true
  rests ended = true
  rests _ = false

  -- Moves until the thread rests, `n` at most.
  abbrev settle : ℕ → Event → Task p → Task p
  settle zero e k = k
  settle (suc n) e k =
      let next = settle n e (move p e k.phase k.state) in if rests k.phase then k else next

  -- What the end of a round comes to: the next recv, or the exit.
  abbrev round_end : Event → ThreadState p → Task p
  round_end e t = elim t.return_value [
    | stay ↦ at p receiving t
    | quit ↦
        at p (if t.status == close_app then removed else ended)
          (record t { session = thread_exit p e.now t })
  ]

  longer :
      (n : ℕ) (e : Event) (k x : Task p)
      → rests x.phase ≡ true
      → settle n e k ≡ x
      → settle (suc n) e k ≡ x
  longer zero e k x r h = ground arith
  longer (suc n) e k x r h = elim (Bool-cases (rests k.phase)) [
    | inl now ↦ ground arith
    | inr not_yet ↦ ground (arith, longer n e (move p e k.phase k.state) x r)
  ]

  one_more :
      (n : ℕ) (e : Event) (k j x : Task p) (phase : Phase)
      → k.phase ≡ phase
      → rests phase ≡ false
      → move p e phase k.state ≡ j
      → settle n e j ≡ x
      → settle (suc n) e k ≡ x
  one_more n e k j x phase here moving moved settled = rw (here, moving, moved) settled

  rests-round_end : (e : Event) (t : ThreadState p) → rests (round_end e t).phase ≡ true
  rests-round_end e t = ground arith

  settle-loop_test : (e : Event) (t : ThreadState p) → settle 1 e (loop_test p t) ≡ round_end e t
  unfolding loop_test thread_exit move
  settle-loop_test e t = ground arith

  settle-loop_test_more :
      (n : ℕ) (e : Event) (t : ThreadState p) → settle (suc n) e (loop_test p t) ≡ round_end e t
  settle-loop_test_more zero e t = settle-loop_test e t
  settle-loop_test_more (suc n) e t =
      longer (suc n) e (loop_test p t) (round_end e t) (rests-round_end e t)
        (settle-loop_test_more n e t)

  insert_quits :
      (now : ℕ) (t : ThreadState p)
      → t.checked_database ≡ false
      → (process_client_data p now t.status t.session).0 ≡ quit
      → insert p now t ≡ loop_test p (start_new_client p now t)
  unfolding insert start_new_client
  insert_quits now t new q = ground arith

  insert_stays :
      (e : Event) (t : ThreadState p)
      → t.checked_database ≡ false
      → (process_client_data p e.now t.status t.session).0 ≡ stay
      → ((insert p e.now t).phase ≡ connecting)
        × (move p e connecting (insert p e.now t).state ≡ loop_test p (start_new_client p e.now t))
  unfolding insert start_new_client move
  insert_stays e t new q = ground arith

  settle-insert :
      (e : Event) (t : ThreadState p)
      → t.checked_database ≡ false
      → settle 2 e (insert p e.now t) ≡ round_end e (start_new_client p e.now t)
  settle-insert e t new =
      elim (LoopStatus-cases p (process_client_data p e.now t.status t.session).0) [
        | inl q ↦
            rw (insert_quits e.now t new q) (settle-loop_test_more 1 e (start_new_client p e.now t))
        | inr q ↦
            let (connects, after) = insert_stays e t new q in
            one_more 1 e (insert p e.now t) _ _ connecting connects refl after
              (settle-loop_test e (start_new_client p e.now t))
      ]

  -- clinet_exist_in_database_check, and the state behind it.
  abbrev found : ThreadState p → Bool
  found t = (clinet_exist_in_database_check p t.checked_database t.session).0

  abbrev asked : ThreadState p → ThreadState p
  asked t = record t { session = (clinet_exist_in_database_check p t.checked_database t.session).1 }

  ask_finds : (t : ThreadState p) → found t ≡ true → ask p t ≡ at p resuming (asked t)
  unfolding ask
  ask_finds t h = ground arith

  ask_new :
      (now : ℕ) (t : ThreadState p)
      → found t ≡ false
      → t.checked_database ≡ false
      → (ask p t ≡ at p inserting (asked t))
        × (start_app_case p now t ≡ start_new_client p now (asked t))
  unfolding ask start_app_case
  ask_new now t h new = ground arith

  ask_old :
      (now : ℕ) (t : ThreadState p)
      → found t ≡ false
      → t.checked_database ≡ true
      → ask p t ≡ loop_test p (start_app_case p now t)
  unfolding ask start_app_case start_new_client
  ask_old now t h old = ground arith

  resume_lem :
      (now : ℕ) (t : ThreadState p)
      → found t ≡ true
      → resume p now (asked t) ≡ loop_test p (start_app_case p now t)
  unfolding resume start_app_case start_new_client
  resume_lem now t h = ground arith

  move_resuming :
      (e : Event) (t : ThreadState p)
      → found t ≡ true
      → move p e resuming (asked t) ≡ loop_test p (start_app_case p e.now t)
  unfolding move
  move_resuming e t h = resume_lem e.now t h

  settle-asked :
      (e : Event) (t : ThreadState p)
      → t.checked_database ≡ false
      → settle 3 e (at p inserting (asked t)) ≡ round_end e (start_new_client p e.now (asked t))
  unfolding move
  settle-asked e t new = settle-insert e (asked t) new

  settle-ask :
      (e : Event) (t : ThreadState p)
      → settle 3 e (ask p t) ≡ round_end e (start_app_case p e.now t)
  settle-ask e t = elim (Bool-cases (found t)) [
    | inl finds ↦
        rw (ask_finds t finds, move_resuming e t finds)
          (settle-loop_test_more 1 e (start_app_case p e.now t))
    | inr misses ↦ elim (Bool-cases t.checked_database) [
      | inl old ↦
          rw (ask_old e.now t misses old) (settle-loop_test_more 2 e (start_app_case p e.now t))
      | inr new ↦
          let (inserts, same) = ask_new e.now t misses new in
          rw (inserts, same) (settle-asked e t new)
    ]
  ]

  settle-asking :
      (e : Event) (t : ThreadState p)
      → settle 4 e (at p asking t) ≡ round_end e (start_app_case p e.now t)
  unfolding move
  settle-asking e t = settle-ask e t

  settle-closing :
      (e : Event) (t : ThreadState p)
      → settle 4 e (at p closing t) ≡ round_end e (close_app_case p e.now t)
  unfolding move
  settle-closing e t = settle-loop_test_more 2 e (close_app_case p e.now t)

  settle-switch :
      (e : Event) (t : ThreadState p)
      → settle 4 e (switch p t) ≡ round_end e (handle_packet p e.now t)
  unfolding switch handle_packet
  settle-switch e t =
      let t' = take_packet p t in
      elim (Bool-cases (t'.status == start_app)) [
        | inl opens ↦ rw opens (settle-asking e t')
        | inr other ↦ elim (Bool-cases (t'.status == close_app)) [
          | inl closes ↦ rw (other, closes) (settle-closing e t')
          | inr others ↦ rw (other, others) (settle-loop_test_more 3 e t')
        ]
      ]

  settle-losing :
      (e : Event) (t : ThreadState p)
      → settle 4 e (at p losing (record t { status = connection_lost; return_value = quit }))
        ≡ round_end e (lose_connection p t)
  unfolding move loop_test lose_connection
  settle-losing e t = settle-loop_test_more 2 e (lose_connection p t)

  -- The moves of a client's thread from a recv on, without moves of others in between, come within
  -- five moves to what the round of its loop comes to: the next recv, with the state of
  -- thread_round, or, where that quits, the end of the thread with the session of thread_exit,
  -- behind remove_client_data exactly if the status is CLOSE_APP.
  moves_are_rounds :
      (e : Event) (t : ThreadState p)
      → settle 4 e (move p e receiving t) ≡ round_end e (thread_round p e t)
  unfolding move receive thread_round
  moves_are_rounds e t = by_recv e.recv
    where
      by_recv :
          (r : Recv)
          → let e' : Event = record e { recv = r } in
            settle 4 e' (move p e' receiving t) ≡ round_end e' (thread_round p e' t)
      by_recv closed = settle-losing (record e { recv = closed }) t
      by_recv recv_failed = settle-switch (record e { recv = recv_failed }) t
      by_recv (received bytes) =
          settle-switch (record e { recv = received bytes })
            (record t { client_data_buff = fill bytes t.client_data_buff })
