-- ===== src/Server/World/Sections.antt =====
-- The sections of a client's thread on shared data, one by one: server/client/client_thread.c on
-- the table.
use panngo.Base.{
  ℕ, ◌≡◌, ◌⊎◌, inl, inr, refl, sym, subst, ◌∙◌, ap, arith, List, [], ◌∷◌, ◌++◌, Text, true, false,
  Bool-cases,
}
use panngo.Server.Sql.{delete_client}
use panngo.Server.Table.{Row}
use panngo.Server.Table.Rows.{Has}
use panngo.Server.Data.{LoopStatus}
use panngo.Server.Platform.{Platform, Laws, Session}
use panngo.Server.NewClient.{process_client_data}
use panngo.Server.NewClient.Laws.{new_row, process_client_data_lem}
use panngo.Server.ExistingClient.{retriev_client_data}
use panngo.Server.ExistingClient.Laws.{retriev_client_data_lem}
use panngo.Server.Thread.{
  Event, ThreadState, clinet_exist_in_database_check, close_app_case, remove_client_data,
  update_client_data,
}
use panngo.Server.Thread.Start.{IsReliable, clinet_exist_in_database_check_lem}
use panngo.Server.World.{
  Phase, receiving, losing, asking, resuming, inserting, connecting, closing, removing, updating,
  removed, ended, at, set_connected, loop_test, test_new, ask, resume, insert, move,
}
use panngo.Server.World.Fair.{
  Fair, update-IsFair, delete-IsFair, delete_deletes, loop_test-Fair, receive-Fair,
}
use panngo.Server.World.Moves.{
  IsFair, IsFair-eq, IsFair-append, IsFrom, mac_of, Sound, leave-Sound, leave-db,
}

module _ (p : Platform) (laws : Laws p) (reliable : IsReliable p) (owner : Text) where
  open laws use {rows}

  abbrev table : ThreadState p → List Row
  table t = rows t.session.db_client

  pub test_new_cases :
      (t : ThreadState p)
      → ((t.checked_database ≡ false) × (test_new p t ≡ at p inserting t))
        ⊎ (test_new p t ≡ loop_test p t)
  unfolding test_new
  test_new_cases t = ground arith

  test_new-Fair :
      (t t' : ThreadState p)
      → table t' ≡ table t
      → mac_of p t' ≡ owner
      → (t'.checked_database ≡ false → ¬ Has owner (table t'))
      → Fair p laws reliable owner t (test_new p t')
  test_new-Fair t t' same own new = elim (test_new_cases t') [
    | inl (fresh, e) ↦ rw e (IsFair-eq owner same, (own, new fresh))
    | inr e ↦ rw e (loop_test-Fair p laws reliable owner t t' (IsFair-eq owner same) (λ _. own))
  ]

  ask-Fair : (t : ThreadState p) → mac_of p t ≡ owner → Fair p laws reliable owner t (ask p t)
  unfolding ask
  ask-Fair t own =
      let law = clinet_exist_in_database_check_lem p laws reliable t.checked_database t.session in
      let asked = clinet_exist_in_database_check p t.checked_database t.session in
      let t' : ThreadState p = record t { session = asked.1 } in
      let mine : mac_of p t' ≡ owner = ap (λ c. c.mac_address) law.same_client ∙ own in
      elim (Bool-cases asked.0) [
        | inl found ↦ rw found (IsFair-eq owner law.same_table, mine)
        | inr missing ↦
            let absent : t.checked_database ≡ false → ¬ Has owner (table t) =
              λ fresh. subst (λ m. ¬ Has m (table t)) own (law.not_found missing fresh) in
            rw missing (
              test_new-Fair t t' law.same_table mine
                (λ fresh. subst (λ rs. ¬ Has owner rs) (sym law.same_table) (absent fresh)))
      ]

  -- The state behind retriev_client_data, and behind process_client_data.
  abbrev pub after : ThreadState p → LoopStatus × ℕ × Session p → ThreadState p
  after t (r, status, s) = record t { return_value = r; status = status; session = s }

  pub resume_cases :
      (now : ℕ) (t : ThreadState p)
      → let t' = after t (retriev_client_data p now t.status t.session) in
        (resume p now t ≡ loop_test p t')
        ⊎ (resume p now t ≡ test_new p (record t' { checked_database = true }))
  unfolding resume
  resume_cases now t = ground arith

  resume-Fair :
      (now : ℕ) (t : ThreadState p)
      → mac_of p t ≡ owner
      → Fair p laws reliable owner t (resume p now t)
  resume-Fair now t own =
      let law = retriev_client_data_lem p laws now t.status t.session in
      let t' = after t (retriev_client_data p now t.status t.session) in
      let mine : mac_of p t' ≡ owner = law.same_mac ∙ own in
      elim (resume_cases now t) [
        | inl e ↦
            rw e (
              loop_test-Fair p laws reliable owner t t' (IsFair-eq owner law.same_rows) (λ _. mine))
        | inr e ↦
            rw e
              (test_new-Fair t (record t' { checked_database = true }) law.same_rows mine (λ f. cc))
      ]

  pub insert_cases :
      (now : ℕ) (t : ThreadState p)
      → let t' = after t (process_client_data p now t.status t.session) in
        (insert p now t ≡ loop_test p t') ⊎ (insert p now t ≡ at p connecting t')
  unfolding insert
  insert_cases now t = ground arith

  process_client_data-IsFair :
      (now status : ℕ) (s : Session p)
      → s.client.mac_address ≡ owner
      → ¬ Has owner (rows s.db_client)
      → IsFair owner (rows s.db_client) (rows (process_client_data p now status s).2.db_client)
  process_client_data-IsFair now status s own new =
      let law = process_client_data_lem p laws now status s in
      elim law.outcome [
        | inr (left, error, same, sent) ↦ IsFair-eq owner same
        | inl (stayed, kept, grown, sent) ↦ subst (IsFair owner (rows s.db_client)) (sym grown) (
            subst
              (λ m. IsFair m (rows s.db_client) (rows s.db_client ++ new_row p laws s.client ∷ []))
              own
              (IsFair-append (rows s.db_client) (new_row p laws s.client)
                (subst (λ m. ¬ Has m (rows s.db_client)) (sym own) new)))
      ]

  insert-Fair :
      (now : ℕ) (t : ThreadState p)
      → mac_of p t ≡ owner
      → ¬ Has owner (table t)
      → Fair p laws reliable owner t (insert p now t)
  insert-Fair now t own new =
      let fair = process_client_data-IsFair now t.status t.session own new in
      let law = process_client_data_lem p laws now t.status t.session in
      let t' = after t (process_client_data p now t.status t.session) in
      let mine : mac_of p t' ≡ owner = law.same_mac ∙ own in
      elim (insert_cases now t) [
        | inl e ↦ rw e (loop_test-Fair p laws reliable owner t t' fair (λ _. mine))
        | inr e ↦ rw e (fair, mine)
      ]

  close-Fair :
      (now : ℕ) (t : ThreadState p)
      → mac_of p t ≡ owner
      → Fair p laws reliable owner t (loop_test p (close_app_case p now t))
  unfolding close_app_case
  close-Fair now t own =
      loop_test-Fair p laws reliable owner t (close_app_case p now t)
        (update-IsFair p laws reliable owner _ (mac_of p t) t.session.db_client) (λ _. own)

  remove-Fair :
      (t : ThreadState p)
      → mac_of p t ≡ owner
      → Fair p laws reliable owner t
          (at p removed (record t { session = remove_client_data p t.session }))
  unfolding remove_client_data
  remove-Fair t own = (
    subst
        (λ m.
          IsFair owner (table t) (rows (p.sqlite3_exec (delete_client m) t.session.db_client).1))
        (sym own) (delete-IsFair p laws reliable owner t.session.db_client),
    λ deletes.
        subst (λ m. ¬ Has m (table (record t { session = remove_client_data p t.session }))) own
          (delete_deletes p laws reliable owner (mac_of p t) t.session.db_client deletes),
  )

  update-Fair :
      (now : ℕ) (t : ThreadState p)
      → Fair p laws reliable owner t
          (at p ended (record t { session = (update_client_data p now t.session).2 }))
  unfolding update_client_data
  update-Fair now t = (update-IsFair p laws reliable owner _ (mac_of p t) t.session.db_client, tt)

  -- A move of a thread that is sound, with a packet of its own if it takes one.
  pub move-Fair :
      (e : Event) (phase : Phase) (t : ThreadState p)
      → (phase ≡ receiving → IsFrom p owner e t)
      → Sound p owner (table t) (at p phase t)
      → Fair p laws reliable owner t (move p e phase t)
  unfolding move
  move-Fair e receiving t from s = receive-Fair p laws reliable owner e t (from refl)
  move-Fair e losing t from s =
      let t' = set_connected p false t in
      (
        subst (λ d. IsFair owner (table t) (rows d)) (sym (leave-db p t')) (IsFair-eq owner refl),
        leave-Sound p owner _ t' (λ closes. ground (arith, s, closes)),
      )
  move-Fair e asking t from s = ask-Fair t s
  move-Fair e resuming t from s = resume-Fair e.now t s
  move-Fair e inserting t from s = insert-Fair e.now t s.0 s.1
  move-Fair e connecting t from s =
      loop_test-Fair p laws reliable owner t (set_connected p true t) (IsFair-eq owner refl)
        (λ _. s)
  move-Fair e closing t from s = close-Fair e.now t s
  move-Fair e removing t from s = remove-Fair t s
  move-Fair e updating t from s = update-Fair e.now t
  move-Fair e removed t from s = (IsFair-eq owner refl, s)
  move-Fair e ended t from s = (IsFair-eq owner refl, tt)
