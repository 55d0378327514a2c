-- ===== src/Server/World/Linked/Moves.antt =====
-- The flag `connected` and the row of a client, in the sections of server/client/client_thread.c on
-- shared data.
use panngo.Base.{
  ℕ, ◌≡◌, inl, inr, refl, sym, subst, ◌∙◌, ap, arith, List, Text, Bool, true, false, Bool-cases,
}
use mathlib.Core.Bool.{false≢true}
use panngo.Server.Sql.{update_time_used}
use panngo.Server.Table.{Row, apply_statement}
use panngo.Server.Table.Rows.{Has, set_time-Has, Has-append_last}
use panngo.Server.Data.{quit, start_app}
use panngo.Server.Platform.{Platform, Laws}
use panngo.Server.NewClient.{process_client_data}
use panngo.Server.NewClient.Laws.{new_row, process_client_data_lem}
use panngo.Server.ExistingClient.{retriev_client_data}
use panngo.Server.ExistingClient.Laws.{retriev_client_data_lem}
use panngo.Server.Thread.{
  Event, ThreadState, clinet_exist_in_database_check, close_app_case, remove_client_data,
  update_client_data,
}
use panngo.Server.Thread.Start.{IsReliable, clinet_exist_in_database_check_lem}
use panngo.Server.World.{
  Phase, receiving, losing, asking, resuming, inserting, connecting, closing, removing, updating,
  removed, ended, at, set_connected, loop_test, test_new, ask, resume, insert, move,
}
use panngo.Server.World.Linked.{Linked, leave-Linked, loop_test-Linked, receive-Linked}
use panngo.Server.World.Moves.{mac_of, Sound}
use panngo.Server.World.Sections.{after, resume_cases, insert_cases, test_new_cases}

module _ (p : Platform) (laws : Laws p) (reliable : IsReliable p) (owner : Text) where
  open laws use {rows}

  abbrev table : ThreadState p → List Row
  table t = rows t.session.db_client

  abbrev is_connected : ThreadState p → Bool
  is_connected t = t.session.client.connected

  test_new-Linked :
      (t : ThreadState p)
      → (is_connected t ≡ true → Has owner (table t))
      → t.status ≡ start_app
      → Linked p laws reliable owner (test_new p t)
  test_new-Linked t row starting = elim (test_new_cases p laws reliable owner t) [
    | inl (fresh, e) ↦ rw e (record { row = row; ahead = starting })
    | inr e ↦ rw e (loop_test-Linked p laws reliable owner t row (λ closes. ground arith))
  ]

  ask-Linked :
      (t : ThreadState p)
      → mac_of p t ≡ owner
      → t.status ≡ start_app
      → (is_connected t ≡ true → Has owner (table t))
      → Linked p laws reliable owner (ask p t)
  unfolding ask
  ask-Linked t own starting row =
      let law = clinet_exist_in_database_check_lem p laws reliable t.checked_database t.session in
      let asked = clinet_exist_in_database_check p t.checked_database t.session in
      let keep : Has owner (table t) → Has owner (rows asked.1.db_client) =
        subst (Has owner) (sym law.same_table) in
      let row' : asked.1.client.connected ≡ true → Has owner (rows asked.1.db_client) =
        λ c. keep (row (ap (λ q. q.connected) (sym law.same_client) ∙ c)) in
      elim (Bool-cases asked.0) [
        | inl found ↦ rw found (record {
          row = row';
          ahead = (starting, keep (subst (λ m. Has m (table t)) own (law.is_found found)));
        })
        | inr missing ↦ rw missing (test_new-Linked (record t { session = asked.1 }) row' starting)
      ]

  resume_quits :
      (now : ℕ) (t : ThreadState p)
      → (retriev_client_data p now t.status t.session).0 ≡ quit
      → resume p now t
        ≡ loop_test p (after p laws reliable owner t (retriev_client_data p now t.status t.session))
  unfolding resume
  resume_quits now t h = ground arith

  insert_quits :
      (now : ℕ) (t : ThreadState p)
      → (process_client_data p now t.status t.session).0 ≡ quit
      → insert p now t
        ≡ loop_test p (after p laws reliable owner t (process_client_data p now t.status t.session))
  unfolding insert
  insert_quits now t h = ground arith

  resume-Linked :
      (now : ℕ) (t : ThreadState p)
      → t.status ≡ start_app
      → Has owner (table t)
      → Linked p laws reliable owner (resume p now t)
  resume-Linked now t starting there =
      let law = retriev_client_data_lem p laws now t.status t.session in
      let t' = after p laws reliable owner t (retriev_client_data p now t.status t.session) in
      let there' : Has owner (table t') = subst (Has owner) (sym law.same_rows) there in
      elim law.outcome [
        | inl (stayed, kept, connected, sent) ↦ elim (resume_cases p laws reliable owner now t) [
          | inl e ↦
              rw e
                (loop_test-Linked p laws reliable owner t' (λ c. there') (λ closes. ground arith))
          | inr e ↦ rw e (
              test_new-Linked (record t' { checked_database = true }) (λ c. there')
                (kept ∙ starting))
        ]
        | inr (left, error, sent) ↦
            rw (resume_quits now t left)
              (loop_test-Linked p laws reliable owner t' (λ c. there') (λ closes. ground arith))
      ]

  insert-Linked :
      (now : ℕ) (t : ThreadState p)
      → mac_of p t ≡ owner
      → t.status ≡ start_app
      → (is_connected t ≡ true → Has owner (table t))
      → Linked p laws reliable owner (insert p now t)
  insert-Linked now t own starting row =
      let law = process_client_data_lem p laws now t.status t.session in
      let t' = after p laws reliable owner t (process_client_data p now t.status t.session) in
      elim law.outcome [
        | inl (stayed, kept, grown, sent) ↦
            let there : Has owner (table t') =
              subst (Has owner) (sym grown)
                (Has-append_last owner (table t) (new_row p laws t.session.client) own) in
            elim (insert_cases p laws reliable owner now t) [
              | inl e ↦
                  rw e (
                    loop_test-Linked p laws reliable owner t' (λ c. there) (λ closes. ground arith))
              | inr e ↦ rw e (record { row = λ c. there; ahead = (kept ∙ starting, there) })
            ]
        | inr (left, error, same, sent) ↦ rw (insert_quits now t left) (
            loop_test-Linked p laws reliable owner t'
              (λ c. subst (Has owner) (sym same) (row (sym law.same_connected ∙ c)))
              (λ closes. ground arith))
      ]

  update_keeps :
      (time : ℕ) (mac : Text) (d : p.Db)
      → Has owner (rows d)
      → Has owner (rows (p.sqlite3_exec (update_time_used time mac) d).1)
  unfolding apply_statement
  update_keeps time mac d h =
      let law = laws.rows-exec (update_time_used time mac) d in
      elim (Bool-cases (p.sqlite3_exec (update_time_used time mac) d).0) [
        | inl e ↦
            subst (Has owner) (sym (ground (arith, law))) (set_time-Has time mac owner (rows d) h)
        | inr e ↦ subst (Has owner) (sym (ground (arith, law))) h
      ]

  close-Linked :
      (now : ℕ) (t : ThreadState p)
      → Linked p laws reliable owner (loop_test p (close_app_case p now t))
  unfolding close_app_case
  close-Linked now t =
      loop_test-Linked p laws reliable owner (close_app_case p now t) (λ c. absurd (false≢true c))
        (λ closes. refl)

  -- A move of a thread that is sound and linked.
  pub move-Linked :
      (e : Event) (phase : Phase) (t : ThreadState p)
      → Sound p owner (table t) (at p phase t)
      → Linked p laws reliable owner (at p phase t)
      → Linked p laws reliable owner (move p e phase t)
  unfolding move remove_client_data update_client_data
  move-Linked e receiving t sound h = receive-Linked p laws reliable owner e t h.row
  move-Linked e losing t sound h =
      leave-Linked p laws reliable owner (set_connected p false t) (λ c. absurd (false≢true c))
        (λ closes. refl)
  move-Linked e asking t sound h = ask-Linked t sound h.ahead h.row
  move-Linked e resuming t sound h = resume-Linked e.now t h.ahead.0 h.ahead.1
  move-Linked e inserting t sound h = insert-Linked e.now t sound.0 h.ahead h.row
  move-Linked e connecting t sound h =
      loop_test-Linked p laws reliable owner (set_connected p true t) (λ c. h.ahead.1)
        (λ closes. ground arith)
  move-Linked e closing t sound h = close-Linked e.now t
  move-Linked e removing t sound h = record {
    row = λ c. absurd (false≢true (sym h.ahead ∙ c));
    ahead = h.ahead;
  }
  move-Linked e updating t sound h = record {
    row = λ c. update_keeps _ (mac_of p t) t.session.db_client (h.row c);
    ahead = tt;
  }
  move-Linked e removed t sound h = h
  move-Linked e ended t sound h = h
