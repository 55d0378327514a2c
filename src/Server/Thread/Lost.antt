-- ===== src/Server/Thread/Lost.antt =====
-- The end of pango_client by a lost connection, and the client's return.
use panngo.Base.{ℕ, ◌≡◌, ◌∙◌, refl, ap, arith, List, ◌∷◌, false, u32, sub32, if◌then◌else◌}
use panngo.Server.Sql.{update_time_used}
use panngo.Server.Table.{apply_statement, set_time}
use panngo.Server.Platform.{Platform, Laws, Session}
use panngo.Server.Thread.{
  closed, Event, ThreadState, lose_connection, thread_exit, exited, pango_client_loop,
}
use panngo.Server.Thread.Close.{update_succeeds}
use panngo.Server.Thread.Loop.{loop_quits, thread_round_closed, lose_connection-quit}

module _ (p : Platform) (laws : Laws p) where
  open laws use {rows}

  -- What a lost connection leaves of a session `s`: the client is not connected any more and was
  -- sent nothing, and its row has the time since its start, if the update succeeds.
  pub record IsLost (now : ℕ) (s result : Session p) : Type 0 where
    pub time_kept : rows result.db_client ≡ (
        if update_succeeds p now s
        then set_time
            (sub32 (u32 now) s.client.time_start_parking)
            s.client.mac_address
            (rows s.db_client)
        else rows s.db_client)
    pub no_bill : result.sent ≡ s.sent
    pub disconnected : result.client.connected ≡ false

  exit-IsLost :
      (now : ℕ) (t : ThreadState p) → IsLost now t.session (thread_exit p now (lose_connection p t))
  unfolding thread_exit lose_connection apply_statement
  exit-IsLost now t =
      let used = sub32 (u32 now) t.session.client.time_start_parking in
      let law =
        laws.rows-exec (update_time_used used t.session.client.mac_address) t.session.db_client in
      record {
        time_kept = ground (arith, law);
        no_bill = ground arith;
        disconnected = ground arith;
      }

  -- A connection that closes ends the thread, whatever was to come: the client is sent nothing and
  -- is not connected any more, and its row gets the 32-bit seconds since its start, if the update
  -- succeeds, and no row changes otherwise.
  pub pango_client_loop-IsLost :
      (t : ThreadState p) (now : ℕ) (es : List Event)
      → (result : Session p) × (pango_client_loop p t (record { recv = closed; now = now } ∷ es)
          ≡ exited result)
        × IsLost now t.session result
  pango_client_loop-IsLost t now es =
      let e : Event = record { recv = closed; now = now } in
      let round = thread_round_closed p e t refl in
      (
        thread_exit p now (lose_connection p t),
        loop_quits p e t es (rw round (lose_connection-quit p t))
            ∙ ap (λ (u : ThreadState p). exited (thread_exit p now u)) round,
        exit-IsLost now t,
      )
