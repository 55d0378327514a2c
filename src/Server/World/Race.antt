-- ===== src/Server/World/Race.antt =====
-- Two clients with one MAC address: clinet_exist_in_database_check of
-- server/client/client_thread_func.c asks outside the mutex, and process_client_data of
-- server/client/new_client/new_client.c inserts later.
use panngo.Base.{
  ℕ, ◌<◌, ◌≡◌, ◌≢◌, inl, inr, refl, sym, subst, ◌∙◌, ap, arith, List, [], ◌∷◌, ◌++◌, Text, true,
  false, Bool-cases,
}
use panngo.Server.Sql.{insert_client, select_price}
use panngo.Server.Table.{Row}
use panngo.Server.Table.Rows.{Has}
use panngo.Server.Data.{stay}
use panngo.Server.Platform.{Platform, Laws, Session}
use panngo.Server.NewClient.{process_client_data, initialize_and_get_start_time}
use panngo.Server.NewClient.Laws.{new_row, process_client_data_lem}
use panngo.Server.Thread.{Event, ThreadState, clinet_exist_in_database_check}
use panngo.Server.Thread.Start.{IsReliable, clinet_exist_in_database_check_lem}
use panngo.Server.World.{
  Phase, asking, inserting, Task, ask, insert, test_new, move, World, attach, thread_step,
  update-cases, moves, Reach, begin, later,
}

module _ (p : Platform) (laws : Laws p) (reliable : IsReliable p) where
  open laws use {rows}

  abbrev table : ThreadState p → List Row
  table t = rows t.session.db_client

  abbrev mac_of : ThreadState p → Text
  mac_of t = t.session.client.mac_address

  -- No INSERT fails.
  abbrev pub IsInserting : Type 0
  IsInserting =
      (mac : Text) (time : ℕ) (location : Text) (d : p.Db)
      → (p.sqlite3_exec (insert_client mac time location) d).0 ≡ true

  -- A thread before the section `phase`, for a client with this MAC address that it has not found
  -- in the database before.
  pub record IsPoised (phase : Phase) (mac : Text) (k : Task p) : Type 0 where
    pub there : k.phase ≡ phase
    pub own : k.state.session.client.mac_address ≡ mac
    pub fresh : k.state.checked_database ≡ false

  ask_absent :
      (mac : Text) (t : ThreadState p)
      → mac_of t ≡ mac
      → t.checked_database ≡ false
      → ¬ Has mac (table t)
      → IsPoised inserting mac (ask p t) × (table (ask p t).state ≡ table t)
  unfolding ask test_new
  ask_absent mac t own fresh absent =
      let law = clinet_exist_in_database_check_lem p laws reliable t.checked_database t.session in
      elim (Bool-cases (clinet_exist_in_database_check p t.checked_database t.session).0) [
        | inl found ↦ absurd (absent (subst (λ m. Has m (table t)) own (law.is_found found)))
        | inr missing ↦
            rw (missing, fresh)
              (
                record { there = refl; own = own; fresh = refl },
                laws.rows-fetch _ t.session.db_client,
              )
      ]

  process_client_data_stays :
      (now status : ℕ) (s : Session p) → IsInserting → (process_client_data p now status s).0 ≡ stay
  unfolding process_client_data
  process_client_data_stays now status s inserts =
      let client = initialize_and_get_start_time now s.client in
      let price = reliable.prepared (select_price client.location) s.db_prices in
      let row = inserts client.mac_address 0 client.location s.db_client in ground arith

  insert_rows :
      (e : Event) (t : ThreadState p)
      → (process_client_data p e.now t.status t.session).0 ≡ stay
      → table (insert p e.now t).state
        ≡ rows (process_client_data p e.now t.status t.session).2.db_client
  unfolding insert
  insert_rows e t stays = ground arith

  insert_absent :
      (e : Event) (t : ThreadState p)
      → IsInserting
      → table (insert p e.now t).state ≡ table t ++ new_row p laws t.session.client ∷ []
  insert_absent e t inserts =
      let law = process_client_data_lem p laws e.now t.status t.session in
      let stays = process_client_data_stays e.now t.status t.session inserts in
      elim law.outcome [
        | inl (stayed, kept, grown, sent) ↦ insert_rows e t stays ∙ grown
        | inr (left, error, same, sent) ↦ cc
      ]

  -- The move of the thread `i` in a world.
  module _ (w : World p) (i : ℕ) (e : Event) where
    abbrev mine : ThreadState p
    mine = attach p w (w.tasks i).state

    thread_step_own :
        (P : Task p → Type 0)
        → P (move p e (w.tasks i).phase mine)
        → P ((thread_step p i e w).tasks i)
    unfolding thread_step
    thread_step_own P h =
        update-cases P w.tasks i (move p e (w.tasks i).phase mine) i (λ same. h)
          (λ other. absurd (other refl))

    thread_step_other :
        (P : Task p → Type 0) (j : ℕ) → i ≢ j → P (w.tasks j) → P ((thread_step p i e w).tasks j)
    unfolding thread_step
    thread_step_other P j apart h =
        update-cases P w.tasks i (move p e (w.tasks i).phase mine) j (λ same. absurd (apart same))
          (λ other. h)

    thread_asks :
        (mac : Text)
        → IsPoised asking mac (w.tasks i)
        → ¬ Has mac (rows w.db_client)
        → IsPoised inserting mac ((thread_step p i e w).tasks i)
          × (rows (thread_step p i e w).db_client ≡ rows w.db_client)
    unfolding thread_step move
    thread_asks mac poised absent =
        let (next, same) = ask_absent mac mine poised.own poised.fresh absent in
        (
          thread_step_own (IsPoised inserting mac) (rw poised.there next),
          ap (λ phase. table (move p e phase mine).state) poised.there ∙ same,
        )

    thread_inserts :
        (mac : Text)
        → IsPoised inserting mac (w.tasks i)
        → IsInserting
        → (r : Row) × (r.mac_adr ≡ mac)
          × (rows (thread_step p i e w).db_client ≡ rows w.db_client ++ r ∷ [])
    unfolding thread_step move
    thread_inserts mac poised inserts = (
      new_row p laws mine.session.client,
      poised.own,
      ap (λ phase. table (move p e phase mine).state) poised.there ∙ insert_absent e mine inserts,
    )

  -- Where two threads stand before clinet_exist_in_database_check for the same MAC address, which
  -- has no row, and have not found it before: there is an order of steps of these two after which
  -- the table has two rows more, both with this address, if no INSERT fails and every SELECT ends
  -- in SQLITE_ROW or SQLITE_DONE.
  pub two_rows :
      (n start : ℕ) (w : World p) (i j : ℕ) (mac : Text) (e e' : Event)
      → i < n
      → j < n
      → i ≢ j
      → IsPoised asking mac (w.tasks i)
      → IsPoised asking mac (w.tasks j)
      → ¬ Has mac (rows w.db_client)
      → IsInserting
      → (w' : World p) × Reach p n start w w'
        × (r r' : Row) × (r.mac_adr ≡ mac)
        × (r'.mac_adr ≡ mac)
        × (rows w'.db_client ≡ (rows w.db_client ++ r ∷ []) ++ r' ∷ [])
  two_rows n start w i j mac e e' i_below j_below apart poised poised' absent inserts =
      let w1 = thread_step p i e w in
      let (next, same) = thread_asks w i e mac poised absent in
      let other = thread_step_other w i e (IsPoised asking mac) j apart poised' in
      let absent1 = subst (λ rs. ¬ Has mac rs) (sym same) absent in
      let w2 = thread_step p j e' w1 in
      let (next', same') = thread_asks w1 j e' mac other absent1 in
      let ready = thread_step_other w1 j e' (IsPoised inserting mac) i (λ s. apart (sym s)) next in
      let w3 = thread_step p i e w2 in
      let (r, own, grown) = thread_inserts w2 i e mac ready inserts in
      let ready' = thread_step_other w2 i e (IsPoised inserting mac) j apart next' in
      let (r', own', grown') = thread_inserts w3 j e' mac ready' inserts in
      (
        thread_step p j e' w3,
        later
            (later (later (later begin (moves i e i_below)) (moves j e' j_below))
              (moves i e i_below))
            (moves j e' j_below),
        r,
        r',
        own,
        own',
        grown' ∙ ap (λ rs. rs ++ r' ∷ []) (grown ∙ ap (λ rs. rs ++ r ∷ []) (same' ∙ same)),
      )
