-- ===== src/Server/Thread/Invariant.antt =====
-- your_table under the thread of server/client/client_thread.c: the rows of its own client, and
-- those of the others.
use panngo.Base.{
  ℕ, ◌≡◌, inl, inr, refl, sym, subst, arith, List, [], ◌∷◌, Text, get_or, u32, sub32, ◌==◌,
  Bool-cases,
}
use native.Mathlib.Decide.{ℕ_discrete}
use panngo.Server.Sql.{update_time_used, delete_client}
use panngo.Server.Table.{Row, apply_statement}
use panngo.Server.Table.Rows.{IsUnique}
use panngo.Server.Table.Tidy.{IsTidy, IsTidy-refl, IsTidy-eq, IsTidy-set_time, IsTidy-remove}
use panngo.Server.Data.{crc8_test_failed, start_app, close_app}
use panngo.Server.Platform.{Platform, Laws, Session}
use panngo.Server.Thread.Handle.{
  taken, dispatch, handle_packet_intact, handle_packet_corrupt, handle_packet_deaf,
}
use panngo.Server.Thread.Loop.{LoopStatus-cases, loop_quits, loop_stays}
use panngo.Server.Crc.{calculate_crc8}
use panngo.Server.Thread.{
  Recv, closed, recv_failed, received, fill, Event, ThreadState, close_app_case, handle_packet,
  lose_connection, thread_round, thread_exit, Outcome, waiting, exited, pango_client_loop,
  pango_client, thread_start,
}
use panngo.Server.Thread.Start.{IsReliable, start_app_case-Tidy}

module _ (p : Platform) (laws : Laws p) (reliable : IsReliable p) where
  open laws use {rows}

  abbrev table : Session p → List Row
  table s = rows s.db_client

  abbrev mac_of : Session p → Text
  mac_of s = s.client.mac_address

  abbrev Tidy : ThreadState p → ThreadState p → Type 0
  Tidy t t' =
      IsTidy (mac_of t.session) (table t.session) (table t'.session)
      × (mac_of t'.session ≡ mac_of t.session)

  module _ (mac : Text) (d : p.Db) where
    update-IsTidy :
        (time : ℕ) → IsTidy mac (rows d) (rows (p.sqlite3_exec (update_time_used time mac) d).1)
    unfolding apply_statement
    update-IsTidy time =
        let law = laws.rows-exec (update_time_used time mac) d in
        elim (Bool-cases (p.sqlite3_exec (update_time_used time mac) d).0) [
          | inl e ↦
              subst (IsTidy mac (rows d)) (sym (ground (arith, law)))
                (IsTidy-set_time time mac (rows d))
          | inr e ↦ IsTidy-eq mac (ground (arith, law))
        ]

    delete-IsTidy : IsTidy mac (rows d) (rows (p.sqlite3_exec (delete_client mac) d).1)
    unfolding apply_statement
    delete-IsTidy =
        let law = laws.rows-exec (delete_client mac) d in
        elim (Bool-cases (p.sqlite3_exec (delete_client mac) d).0) [
          | inl e ↦
              subst (IsTidy mac (rows d)) (sym (ground (arith, law))) (IsTidy-remove mac (rows d))
          | inr e ↦ IsTidy-eq mac (ground (arith, law))
        ]

  close_app_case-Tidy : (now : ℕ) (t : ThreadState p) → Tidy t (close_app_case p now t)
  unfolding close_app_case
  close_app_case-Tidy now t = (update-IsTidy (mac_of t.session) t.session.db_client _, refl)

  dispatch-Tidy : (now : ℕ) (t : ThreadState p) → Tidy t (dispatch p now t)
  dispatch-Tidy now t = elim (Bool-cases (t.status == start_app)) [
    | inl e ↦ rw e (start_app_case-Tidy p laws reliable now t)
    | inr e ↦ elim (Bool-cases (t.status == close_app)) [
      | inl f ↦ rw (e, f) (close_app_case-Tidy now t)
      | inr f ↦ rw (e, f) (IsTidy-refl _ _, refl)
    ]
  ]

  -- The MAC address is the one of the packet where that is taken in.
  handle_packet-IsTidy :
      (now : ℕ) (t : ThreadState p)
      → IsTidy
          (mac_of (handle_packet p now t).session)
          (table t.session)
          (table (handle_packet p now t).session)
  handle_packet-IsTidy now t =
      elim (ℕ_discrete (get_or t.client_data_buff 9 0) (calculate_crc8 t.client_data_buff 9)) [
        | no corrupt ↦ rw (handle_packet_corrupt p now t corrupt) (IsTidy-refl _ _)
        | yes intact ↦ elim (ℕ_discrete t.status crc8_test_failed) [
          | yes deaf ↦ rw (handle_packet_deaf p now t intact deaf) (IsTidy-refl _ _)
          | no fresh ↦ rw (handle_packet_intact p now t intact fresh) (
              let (tidy, mac) = dispatch-Tidy now (taken p t) in
              subst
                (λ (m : Text).
                  IsTidy m (table t.session) (table (dispatch p now (taken p t)).session))
                (sym mac) tidy)
        ]
      ]

  pub thread_round-IsTidy :
      (e : Event) (t : ThreadState p)
      → IsTidy
          (thread_round p e t).session.client.mac_address
          (rows t.session.db_client)
          (rows (thread_round p e t).session.db_client)
  unfolding thread_round lose_connection
  thread_round-IsTidy e t = by_recv e.recv
    where
      by_recv :
          (r : Recv)
          → IsTidy
              (mac_of (thread_round p (record e { recv = r }) t).session)
              (table t.session)
              (table (thread_round p (record e { recv = r }) t).session)
      by_recv closed = IsTidy-refl _ _
      by_recv recv_failed = handle_packet-IsTidy e.now t
      by_recv (received bytes) =
          handle_packet-IsTidy e.now (record t { client_data_buff = fill bytes t.client_data_buff })

  -- So does the exit.
  thread_exit-IsTidy :
      (now : ℕ) (t : ThreadState p)
      → IsTidy t.session.client.mac_address
          (rows t.session.db_client)
          (rows (thread_exit p now t).db_client)
  unfolding thread_exit
  thread_exit-IsTidy now t =
      let same = IsTidy-refl (mac_of t.session) (table t.session) in
      let paid = delete-IsTidy (mac_of t.session) t.session.db_client in
      let updated =
        update-IsTidy (mac_of t.session) t.session.db_client
          (sub32 (u32 now) t.session.client.time_start_parking) in
      ground (arith, same, paid, updated)

  abbrev pub outcome_session : Outcome p → Session p
  outcome_session (waiting t) = t.session
  outcome_session (exited s) = s

  loop-IsUnique :
      (t : ThreadState p) (events : List Event)
      → IsUnique (table t.session)
      → IsUnique (table (outcome_session (pango_client_loop p t events)))
  unfolding pango_client_loop
  loop-IsUnique t [] u = u
  loop-IsUnique t (e ∷ es) u =
      let round = (thread_round-IsTidy e t).unique u in
      let rest = loop-IsUnique (thread_round p e t) es round in
      elim (LoopStatus-cases p (thread_round p e t).return_value) [
        | inl q ↦
            rw (loop_quits p e t es q)
              ((thread_exit-IsTidy e.now (thread_round p e t)).unique round)
        | inr q ↦ rw (loop_stays p e t es q) rest
      ]

  -- From a table with at most one row for every MAC address, a whole run of a client's thread comes
  -- to such a table, whatever it receives and whichever of its commands fail, if every SELECT ends
  -- in SQLITE_ROW or SQLITE_DONE.
  pub pango_client-IsUnique :
      (s : Session p) (events : List Event)
      → IsUnique (rows s.db_client)
      → IsUnique (rows (outcome_session (pango_client p s events)).db_client)
  unfolding pango_client
  pango_client-IsUnique s events u = loop-IsUnique (thread_start p s) events u
