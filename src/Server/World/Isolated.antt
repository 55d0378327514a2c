-- ===== src/Server/World/Isolated.antt =====
-- The row of a client under the threads of the others: what they leave alone.
pub mod Run
use panngo.Base.{
  ℕ, zero, suc, ◌+◌, ◌<◌, ◌≡◌, ◌≢◌, inl, inr, refl, sym, subst, ap, ◌∙◌, arith, List, [], ◌∷◌, ◌++◌,
  Bool, Bool-cases, true, false, Text, text_eq, text_eq_iff, Option, none, some, map, take, u32,
  sub32, if-keeps, if◌then◌else◌, ◌==◌,
}
use panngo.Server.Sql.{Statement, update_time_used, delete_client, select_client}
use panngo.Server.Table.{Row, apply_statement}
use panngo.Server.Table.Rows.{Has, time_of}
use panngo.Server.Table.Others.{
  IsOwnChange, IsOwnChange-refl, append-IsOwnChange, set_time-IsOwnChange, remove-IsOwnChange,
}
use panngo.Server.Data.{
  PangoData, start_app, close_app, connection_lost, crc8_test_failed,
  error_status_in_client_exist_subfunctions, error_status_in_new_client_subfunctions,
}
use panngo.Server.Platform.{Platform, Laws, Session}
use panngo.Server.Typed.{loop_status-keeps}
use panngo.Server.NewClient.{process_client_data}
use panngo.Server.NewClient.Laws.{new_row, process_client_data_lem}
use panngo.Server.ExistingClient.{retriev_client_data}
use panngo.Server.ExistingClient.Laws.{retriev_client_data_lem}
use panngo.Server.Thread.{
  Recv, closed, recv_failed, received, fill, Event, ThreadState, new_client, take_packet,
  clinet_exist_in_database_check, close_app_case, remove_client_data, update_client_data,
  send_error,
}
use panngo.Server.World.{
  Phase, receiving, losing, asking, resuming, inserting, connecting, closing, removing, updating,
  removed, ended, Task, at, set_connected, leave, loop_test, test_new, switch, receive, ask, resume,
  insert, move,
}
use panngo.Server.World.Moves.{mac_of}

module _ (p : Platform) (laws : Laws p) where
  open laws use {rows}

  -- A task has the client and the database of `t`.
  abbrev pub IsSame : ThreadState p → Task p → Type 0
  IsSame t k =
      (k.state.session.client ≡ t.session.client)
      × (k.state.session.db_client ≡ t.session.db_client)

  leave-IsSame : (t : ThreadState p) → IsSame t (leave p t)
  unfolding leave send_error
  leave-IsSame t =
      let failing = at p ended (record t { session = send_error p t.session }) in
      if-keeps (IsSame t) (t.status == close_app) _ _ (refl, refl)
        (if-keeps (IsSame t) (t.status == connection_lost) (at p updating t) _ (refl, refl)
          (if-keeps (IsSame t) (t.status == crc8_test_failed) failing _ (refl, refl)
            (if-keeps (IsSame t) (t.status == error_status_in_client_exist_subfunctions) failing _
              (refl, refl)
              (if-keeps (IsSame t) (t.status == error_status_in_new_client_subfunctions) failing
                (at p ended t) (refl, refl) (refl, refl)))))

  pub loop_test-IsSame : (t : ThreadState p) → IsSame t (loop_test p t)
  unfolding loop_test
  loop_test-IsSame t =
      loop_status-keeps (IsSame t) t.return_value (leave p t) (at p receiving t) (leave-IsSame t)
        (refl, refl)

  pub test_new-IsSame : (t : ThreadState p) → IsSame t (test_new p t)
  unfolding test_new
  test_new-IsSame t =
      if-keeps (IsSame t) (new_client t.checked_database) (at p inserting t) (loop_test p t)
        (refl, refl) (loop_test-IsSame t)

  -- The table of a task is the one that was `before`.
  abbrev IsStill : List Row → Task p → Type 0
  IsStill before k = rows k.state.session.db_client ≡ before

  loop_test-IsStill :
      (before : List Row) (t : ThreadState p)
      → rows t.session.db_client ≡ before
      → IsStill before (loop_test p t)
  loop_test-IsStill before t same = ap rows (loop_test-IsSame t).1 ∙ same

  test_new-IsStill :
      (before : List Row) (t : ThreadState p)
      → rows t.session.db_client ≡ before
      → IsStill before (test_new p t)
  test_new-IsStill before t same = ap rows (test_new-IsSame t).1 ∙ same

  switch-IsStill : (t : ThreadState p) → IsStill (rows t.session.db_client) (switch p t)
  unfolding switch
  switch-IsStill t =
      let before = rows t.session.db_client in
      let t' = take_packet p t in
      let same : rows t'.session.db_client ≡ before = unfold take_packet in refl in
      if-keeps (IsStill before) (t'.status == start_app) (at p asking t') _ same (
        if-keeps (IsStill before) (t'.status == close_app) (at p closing t') (loop_test p t') same
          (loop_test-IsStill before t' same))

  receive-IsStill :
      (e : Event) (t : ThreadState p) → IsStill (rows t.session.db_client) (receive p e t)
  unfolding receive
  receive-IsStill e t = by_recv e.recv
    where
      by_recv :
          (r : Recv) → IsStill (rows t.session.db_client) (receive p (record e { recv = r }) t)
      by_recv closed = refl
      by_recv recv_failed = switch-IsStill t
      by_recv (received bytes) =
          switch-IsStill (record t { client_data_buff = fill bytes t.client_data_buff })

  ask-IsStill : (t : ThreadState p) → IsStill (rows t.session.db_client) (ask p t)
  unfolding ask clinet_exist_in_database_check
  ask-IsStill t =
      let before = rows t.session.db_client in
      let query = select_client (mac_of p t) in
      let d = (p.sqlite3_fetch query t.session.db_client).1 in
      let t' : ThreadState p = record t { session = record t.session { db_client = d } } in
      let same = laws.rows-fetch query t.session.db_client in
      if-keeps (IsStill before) (clinet_exist_in_database_check p t.checked_database t.session).0
        (at p resuming t') (test_new p t') same (test_new-IsStill before t' same)

  resume-IsStill :
      (now : ℕ) (t : ThreadState p) → IsStill (rows t.session.db_client) (resume p now t)
  unfolding resume
  resume-IsStill now t =
      let before = rows t.session.db_client in
      let result = retriev_client_data p now t.status t.session in
      let same = (retriev_client_data_lem p laws now t.status t.session).same_rows in
      let t' : ThreadState p = record t {
        return_value = result.0;
        status = result.1;
        session = result.2;
      } in
      let new : ThreadState p = record t' { checked_database = true } in
      loop_status-keeps (IsStill before) result.0 (loop_test p t') (test_new p new)
        (loop_test-IsStill before t' same) (test_new-IsStill before new same)

  -- The struct behind retriev_client_data.
  pub resume-client :
      (now : ℕ) (t : ThreadState p)
      → (resume p now t).state.session.client
        ≡ (retriev_client_data p now t.status t.session).2.client
  unfolding resume
  resume-client now t =
      let result = retriev_client_data p now t.status t.session in
      let t' : ThreadState p = record t {
        return_value = result.0;
        status = result.1;
        session = result.2;
      } in
      let new : ThreadState p = record t' { checked_database = true } in
      loop_status-keeps (λ (k : Task p). k.state.session.client ≡ result.2.client) result.0
        (loop_test p t') (test_new p new) (loop_test-IsSame t').0 (test_new-IsSame new).0

  -- A task has changed at most the rows of the address `mac`.
  abbrev IsOwn : Text → List Row → Task p → Type 0
  IsOwn mac before k = IsOwnChange mac before (rows k.state.session.db_client)

  IsOwn-eq : (mac : Text) (before now : List Row) → now ≡ before → IsOwnChange mac before now
  IsOwn-eq mac before now e = subst (IsOwnChange mac before) (sym e) (IsOwnChange-refl mac before)

  loop_test-IsOwn :
      (mac : Text) (before : List Row) (t : ThreadState p)
      → IsOwnChange mac before (rows t.session.db_client)
      → IsOwn mac before (loop_test p t)
  loop_test-IsOwn mac before t own =
      subst (λ d. IsOwnChange mac before (rows d)) (sym (loop_test-IsSame t).1) own

  insert-IsOwn :
      (now : ℕ) (t : ThreadState p) → IsOwn (mac_of p t) (rows t.session.db_client) (insert p now t)
  unfolding insert
  insert-IsOwn now t =
      let mac = mac_of p t in
      let before = rows t.session.db_client in
      let result = process_client_data p now t.status t.session in
      let law = process_client_data_lem p laws now t.status t.session in
      let t' : ThreadState p = record t {
        return_value = result.0;
        status = result.1;
        session = result.2;
      } in
      let own : IsOwnChange mac before (rows t'.session.db_client) = elim law.outcome [
        | inl (stayed, kept, grown, sent) ↦
            subst (IsOwnChange mac before) (sym grown)
              (append-IsOwnChange mac before (new_row p laws t.session.client) refl)
        | inr (left, error, same, sent) ↦ IsOwn-eq mac before _ same
      ] in
      loop_status-keeps (IsOwn mac before) result.0 (loop_test p t') (at p connecting t')
        (loop_test-IsOwn mac before t' own) own

  -- One command about the client's own rows.
  exec-IsOwn :
      (s : Statement) (mac : Text) (d : p.Db)
      → IsOwnChange mac (rows d) (apply_statement s (rows d))
      → IsOwnChange mac (rows d) (rows (p.sqlite3_exec s d).1)
  exec-IsOwn s mac d own = elim (Bool-cases (p.sqlite3_exec s d).0) [
    | inl ok ↦ subst (IsOwnChange mac (rows d)) (sym (ground (arith, laws.rows-exec s d, ok))) own
    | inr fails ↦ IsOwn-eq mac (rows d) _ (ground (arith, laws.rows-exec s d, fails))
  ]

  pub update-IsOwn :
      (time : ℕ) (mac : Text) (d : p.Db)
      → IsOwnChange mac (rows d) (rows (p.sqlite3_exec (update_time_used time mac) d).1)
  unfolding apply_statement
  update-IsOwn time mac d =
      exec-IsOwn (update_time_used time mac) mac d (set_time-IsOwnChange mac time (rows d))

  -- The phases whose section has an INSERT, an UPDATE or a DELETE.
  abbrev pub writes : Phase → Bool
  writes inserting = true
  writes closing = true
  writes removing = true
  writes updating = true
  writes _ = false

  -- A move changes at most the rows of the client's own address, and only in such a phase.
  pub move-IsOwn :
      (e : Event) (phase : Phase) (t : ThreadState p)
      → (writes phase ≡ true → IsOwn (mac_of p t) (rows t.session.db_client) (move p e phase t))
        × (writes phase ≡ false → IsStill (rows t.session.db_client) (move p e phase t))
  unfolding move close_app_case remove_client_data update_client_data apply_statement
  move-IsOwn e receiving t = (λ w. cc, λ w. receive-IsStill e t)
  move-IsOwn e losing t = (λ w. cc, λ w. ap rows (leave-IsSame (set_connected p false t)).1)
  move-IsOwn e asking t = (λ w. cc, λ w. ask-IsStill t)
  move-IsOwn e resuming t = (λ w. cc, λ w. resume-IsStill e.now t)
  move-IsOwn e inserting t = (λ w. insert-IsOwn e.now t, λ w. cc)
  move-IsOwn e connecting t = (λ w. cc, λ w. ap rows (loop_test-IsSame (set_connected p true t)).1)
  move-IsOwn e closing t = (
    λ w.
        loop_test-IsOwn (mac_of p t) (rows t.session.db_client) (close_app_case p e.now t)
          (update-IsOwn _ (mac_of p t) t.session.db_client),
    λ w. cc,
  )
  move-IsOwn e removing t = (
    λ w.
        exec-IsOwn (delete_client (mac_of p t)) (mac_of p t) t.session.db_client
          (remove-IsOwnChange (mac_of p t) (rows t.session.db_client)),
    λ w. cc,
  )
  move-IsOwn e updating t = (λ w. update-IsOwn _ (mac_of p t) t.session.db_client, λ w. cc)
  move-IsOwn e removed t = (λ w. cc, λ w. refl)
  move-IsOwn e ended t = (λ w. cc, λ w. refl)
