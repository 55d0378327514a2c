-- ===== src/Server/Thread/Start.antt =====
-- The table under case START_APP of a client's thread.
use panngo.Base.{
  ℕ, ◌≡◌, ◌≢◌, inl, inr, refl, sym, ◌∙◌, ap, subst, arith, List, Bool, true, false, Text,
  Bool-cases,
}
use mathlib.Core.Bool.{false≢true}
use panngo.Server.Sql.{Query, select_client}
use panngo.Server.Table.{Row, PriceRow, Fetch, refused, row, done, failed, Answers}
use panngo.Server.Table.Rows.{Has, IsUnique-append}
use panngo.Server.Table.Others.{append-IsOwnChange}
use panngo.Server.Table.Tidy.{IsTidy, IsTidy-refl, IsTidy-eq}
use panngo.Server.Data.{PangoData, LoopStatus}
use panngo.Server.Platform.{Platform, Laws, Session}
use panngo.Server.NewClient.Laws.{process_client_data_lem}
use panngo.Server.ExistingClient.{retriev_client_data}
use panngo.Server.ExistingClient.Laws.{ExistingClientResult, retriev_client_data_lem}
use panngo.Server.Thread.Loop.{LoopStatus-cases}
use panngo.Server.Thread.{
  ThreadState, clinet_exist_in_database_check, start_new_client, start_app_case, is_row,
}

-- Every SELECT that the server sends runs to its end: SQLITE_ROW or SQLITE_DONE.
pub record IsReliable (p : Platform) : Type 0 where
  pub prepared : (q : Query) (d : p.Db) → (p.sqlite3_fetch q d).0 ≢ refused
  pub stepped : (q : Query) (d : p.Db) → (p.sqlite3_fetch q d).0 ≢ failed

module _ (p : Platform) (laws : Laws p) (reliable : IsReliable p) where
  open laws use {rows}

  abbrev table : Session p → List Row
  table s = rows s.db_client

  abbrev mac_of : Session p → Text
  mac_of s = s.client.mac_address

  -- A client that was not found has no row.
  absent :
      (mac : Text) (rs : List Row) (ps : List (PriceRow p.F)) (result : Fetch p.F)
      → Answers (select_client mac) rs ps result
      → result ≢ refused
      → result ≢ failed
      → is_row p result ≡ false
      → ¬ Has mac rs
  absent mac rs ps refused a h k e = absurd (h refl)
  absent mac rs ps (row v) a h k e = cc
  absent mac rs ps done a h k e = a
  absent mac rs ps failed a h k e = absurd (k refl)

  -- One that was found has one.
  present :
      (mac : Text) (rs : List Row) (ps : List (PriceRow p.F)) (result : Fetch p.F)
      → Answers (select_client mac) rs ps result
      → is_row p result ≡ true
      → Has mac rs
  present mac rs ps refused a e = cc
  present mac rs ps (row v) a e = a
  present mac rs ps done a e = cc
  present mac rs ps failed a e = cc

  -- clinet_exist_in_database_check changes neither the table nor the client.
  pub record Checked (allrdy : Bool) (s : Session p) (result : Bool × Session p) : Type 0 where
    pub same_table : table result.1 ≡ table s
    pub same_client : result.1.client ≡ s.client
    pub is_found : result.0 ≡ true → Has (mac_of s) (table s)
    pub not_found : result.0 ≡ false → allrdy ≡ false → ¬ Has (mac_of s) (table s)

  pub clinet_exist_in_database_check_lem :
      (allrdy : Bool) (s : Session p) → Checked allrdy s (clinet_exist_in_database_check p allrdy s)
  unfolding clinet_exist_in_database_check
  clinet_exist_in_database_check_lem allrdy s =
      let query = select_client (mac_of s) in
      record {
        same_table = laws.rows-fetch query s.db_client;
        same_client = refl;
        is_found = λ e.
            present (mac_of s) (table s) (laws.prices s.db_client) _
              (laws.fetch-Answers query s.db_client) (ground arith);
        not_found = λ e f.
            absent (mac_of s) (table s) (laws.prices s.db_client) _
              (laws.fetch-Answers query s.db_client) (reliable.prepared query s.db_client)
              (reliable.stepped query s.db_client) (ground arith);
      }

  start_new_client-IsTidy :
      (now : ℕ) (t : ThreadState p)
      → (t.checked_database ≡ false → ¬ Has (mac_of t.session) (table t.session))
      → IsTidy (mac_of t.session) (table t.session) (table (start_new_client p now t).session)
        × (mac_of (start_new_client p now t).session ≡ mac_of t.session)
  unfolding start_new_client
  start_new_client-IsTidy now t new =
      let law = process_client_data_lem p laws now t.status t.session in
      elim (Bool-cases t.checked_database) [
        | inl old ↦ rw old (IsTidy-refl _ _, refl)
        | inr fresh ↦ rw fresh (elim law.outcome [
          | inr (left, status, same, sent) ↦ (IsTidy-eq _ same, law.same_mac)
          | inl (stayed, status, grown, sent) ↦ (
            subst (IsTidy _ (table t.session)) (sym grown) (record {
              own = append-IsOwnChange (mac_of t.session) (table t.session) _ refl;
              unique = λ u. IsUnique-append (table t.session) _ u (new fresh);
            }),
            law.same_mac,
          )
        ])
      ]

  abbrev Tidy : ThreadState p → ThreadState p → Type 0
  Tidy t t' =
      IsTidy (mac_of t.session) (table t.session) (table t'.session)
      × (mac_of t'.session ≡ mac_of t.session)

  -- From a session with the same table and client, such as one that only the clock has moved.
  Tidy-from :
      (t u t' : ThreadState p)
      → table u.session ≡ table t.session
      → mac_of u.session ≡ mac_of t.session
      → Tidy u t'
      → Tidy t t'
  Tidy-from t u t' same_table same_mac (tidy, mac) = (
    subst (λ (m : Text). IsTidy m (table t.session) (table t'.session)) same_mac
        (subst (λ (rs : List Row). IsTidy (mac_of u.session) rs (table t'.session)) same_table
          tidy),
    mac ∙ same_mac,
  )

  -- What START_APP does to the table, for a client that is new to it and for one that is not.
  pub start_app_case-Tidy : (now : ℕ) (t : ThreadState p) → Tidy t (start_app_case p now t)
  unfolding start_app_case
  start_app_case-Tidy now t = elim (Bool-cases found) [
    | inl old ↦ rw old (elim (LoopStatus-cases p back.0) [
      | inl q ↦ rw q (IsTidy-eq _ (resumed.same_rows ∙ law.same_table), resumed.same_mac ∙ client)
      | inr q ↦ rw q (
          Tidy-from t resume (start_new_client p now resume) (resumed.same_rows ∙ law.same_table)
            (resumed.same_mac ∙ client)
            (start_new_client-IsTidy now resume (λ e. absurd (false≢true (sym e)))))
    ])
    | inr new ↦ rw new (
        Tidy-from t looked_up (start_new_client p now looked_up) law.same_table client (
          start_new_client-IsTidy now looked_up (λ e h. law.not_found new e (
            subst (λ (m : Text). Has m (table t.session)) client
              (subst (λ (rs : List Row). Has (mac_of s) rs) law.same_table h)))))
  ]
    where
      found : Bool
      found = (clinet_exist_in_database_check p t.checked_database t.session).0

      s : Session p
      s = (clinet_exist_in_database_check p t.checked_database t.session).1

      back : LoopStatus × ℕ × Session p
      back = retriev_client_data p now t.status s

      law :
          Checked t.checked_database t.session
            (clinet_exist_in_database_check p t.checked_database t.session)
      law = clinet_exist_in_database_check_lem t.checked_database t.session

      client : mac_of s ≡ mac_of t.session
      client = ap (λ (c : PangoData p.F). c.mac_address) law.same_client

      resume : ThreadState p
      resume = record t {
        session = back.2;
        return_value = back.0;
        status = back.1;
        checked_database = true;
      }

      looked_up : ThreadState p
      looked_up = record t { session = s }

      resumed : ExistingClientResult p laws now t.status s back
      resumed = retriev_client_data_lem p laws now t.status s
