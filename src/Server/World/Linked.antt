-- ===== src/Server/World/Linked.antt =====
-- The flag `connected` of a client, by which db_update picks the clients whose row it writes, and
-- the rows of your_table: a move of server/client/client_thread.c.
pub mod Moves
use panngo.Base.{
  ℕ, ◌≡◌, ◌≢◌, ◌⊎◌, inl, inr, refl, sym, subst, ◌∙◌, ap, arith, List, [], ◌∷◌, ◌++◌, Text, get_or,
  Bool, true, false, Bool-cases, ◌==◌,
}
use mathlib.Core.Bool.{false≢true}
use native.Mathlib.Decide.{ℕ_discrete}
use panngo.Server.Sql.{update_time_used}
use panngo.Server.Table.{Row, apply_statement}
use panngo.Server.Table.Rows.{Has, set_time-Has, Has-append_left, Has-append_last}
use panngo.Server.Data.{
  quit, stay, start_app, close_app, connection_lost, crc8_test_failed,
  error_status_in_client_exist_subfunctions, error_status_in_new_client_subfunctions,
}
use panngo.Server.Platform.{Platform, Laws, Session}
use panngo.Server.Crc.{calculate_crc8}
use panngo.Server.NewClient.{process_client_data}
use panngo.Server.NewClient.Laws.{new_row, process_client_data_lem}
use panngo.Server.ExistingClient.{retriev_client_data}
use panngo.Server.ExistingClient.Laws.{retriev_client_data_lem}
use panngo.Server.Thread.{
  Recv, closed, recv_failed, received, Event, ThreadState, fill, take_packet,
  clinet_exist_in_database_check, close_app_case, remove_client_data, update_client_data,
}
use panngo.Server.Thread.Start.{IsReliable, clinet_exist_in_database_check_lem}
use panngo.Server.Thread.Handle.{
  IsIntact, take_packet_intact, take_packet_corrupt, take_packet_deaf,
}
use panngo.Server.World.{
  Phase, receiving, losing, asking, resuming, inserting, connecting, closing, removing, updating,
  removed, ended, Task, at, set_connected, leave, loop_test, test_new, switch, receive, ask, resume,
  insert, move,
}
use panngo.Server.World.Moves.{
  mac_of, Sound, leave_closes, leave_other, leave-db, loop_test_cases, loop_test-db,
}
use panngo.Server.World.Sections.{after, resume_cases, insert_cases, test_new_cases}

-- What the phase adds.
abbrev pub IsAhead : Text → List Row → Phase → Bool → ℕ → Type 0
IsAhead owner rs asking connected status = status ≡ start_app
IsAhead owner rs inserting connected status = status ≡ start_app
IsAhead owner rs resuming connected status = (status ≡ start_app) × Has owner rs
IsAhead owner rs connecting connected status = (status ≡ start_app) × Has owner rs
IsAhead owner rs removing connected status = connected ≡ false
IsAhead owner rs removed connected status = connected ≡ false
IsAhead owner rs _ connected status = Unit

IsAhead-kept :
    (owner : Text) (rs rs' : List Row) (phase : Phase) (connected : Bool) (status : ℕ)
    → (Has owner rs → Has owner rs')
    → IsAhead owner rs phase connected status
    → IsAhead owner rs' phase connected status
IsAhead-kept owner rs rs' receiving connected status h s = s
IsAhead-kept owner rs rs' losing connected status h s = s
IsAhead-kept owner rs rs' asking connected status h s = s
IsAhead-kept owner rs rs' resuming connected status h s = (s.0, h s.1)
IsAhead-kept owner rs rs' inserting connected status h s = s
IsAhead-kept owner rs rs' connecting connected status h s = (s.0, h s.1)
IsAhead-kept owner rs rs' closing connected status h s = s
IsAhead-kept owner rs rs' removing connected status h s = s
IsAhead-kept owner rs rs' updating connected status h s = s
IsAhead-kept owner rs rs' removed connected status h s = s
IsAhead-kept owner rs rs' ended connected status h s = s

-- A connected client has its row.
pub record IsLinked {p : Platform} (owner : Text) (rs : List Row) (k : Task p) : Type 0 where
  pub row : k.state.session.client.connected ≡ true → Has owner rs
  pub ahead : IsAhead owner rs k.phase k.state.session.client.connected k.state.status

pub IsLinked-kept :
    {p : Platform} (owner : Text) (rs rs' : List Row) (k : Task p)
    → (Has owner rs → Has owner rs')
    → IsLinked owner rs k
    → IsLinked owner rs' k
IsLinked-kept owner rs rs' k h linked = record {
  row = λ c. h (linked.row c);
  ahead =
      IsAhead-kept owner rs rs' k.phase k.state.session.client.connected k.state.status h
        linked.ahead;
}

module _ (p : Platform) (laws : Laws p) (reliable : IsReliable p) (owner : Text) where
  open laws use {rows}

  abbrev table : ThreadState p → List Row
  table t = rows t.session.db_client

  abbrev is_connected : ThreadState p → Bool
  is_connected t = t.session.client.connected

  -- The task `k`, on its own table.
  abbrev pub Linked : Task p → Type 0
  Linked k = IsLinked owner (table k.state) k

  leave_same : (t : ThreadState p) → (leave p t).state.session.client ≡ t.session.client
  unfolding leave
  leave_same t = ground arith

  pub leave-Linked :
      (t : ThreadState p)
      → (is_connected t ≡ true → Has owner (table t))
      → (t.status ≡ close_app → is_connected t ≡ false)
      → Linked (leave p t)
  leave-Linked t row h = record {
    row = λ c.
        subst (λ d. Has owner (rows d)) (sym (leave-db p t))
          (row (ap (λ q. q.connected) (sym (leave_same t)) ∙ c));
    ahead = elim (ℕ_discrete t.status close_app) [
      | yes closes ↦
          let (phase, mac) = leave_closes p t closes in
          rw phase (ap (λ q. q.connected) (leave_same t) ∙ h closes)
      | no other ↦ elim (leave_other p t other) [ inl e ↦ rw e tt | inr e ↦ rw e tt ]
    ];
  }

  loop_test_same : (t : ThreadState p) → (loop_test p t).state.session.client ≡ t.session.client
  unfolding loop_test
  loop_test_same t = ground arith

  pub loop_test-Linked :
      (t : ThreadState p)
      → (is_connected t ≡ true → Has owner (table t))
      → (t.status ≡ close_app → is_connected t ≡ false)
      → Linked (loop_test p t)
  loop_test-Linked t row h = record {
    row = λ c.
        subst (λ d. Has owner (rows d)) (sym (loop_test-db p t))
          (row (ap (λ q. q.connected) (sym (loop_test_same t)) ∙ c));
    ahead = elim (loop_test_cases p t) [
      | inl stays ↦ rw stays tt
      | inr leaves ↦ rw leaves (leave-Linked t row h).ahead
    ];
  }

  take_packet_same :
      (t : ThreadState p)
      → ((take_packet p t).session.db_client ≡ t.session.db_client)
        × (is_connected (take_packet p t) ≡ is_connected t)
  take_packet_same t =
      elim (ℕ_discrete (get_or t.client_data_buff 9 0) (calculate_crc8 t.client_data_buff 9)) [
        | no corrupt ↦ rw (take_packet_corrupt p t corrupt) (refl, refl)
        | yes intact ↦ elim (ℕ_discrete t.status crc8_test_failed) [
          | yes deaf ↦ rw (take_packet_deaf p t intact deaf) (refl, refl)
          | no fresh ↦ rw (take_packet_intact p t intact fresh) (refl, refl)
        ]
      ]

  switch-Linked :
      (t : ThreadState p) → (is_connected t ≡ true → Has owner (table t)) → Linked (switch p t)
  unfolding switch
  switch-Linked t before =
      let t' = take_packet p t in
      let (same, connected) = take_packet_same t in
      let row : is_connected t' ≡ true → Has owner (table t') =
        λ c. subst (λ d. Has owner (rows d)) (sym same) (before (sym connected ∙ c)) in
      elim (Bool-cases (t'.status == start_app)) [
        | inl opens ↦ rw opens (record { row = row; ahead = ground arith })
        | inr other ↦ elim (Bool-cases (t'.status == close_app)) [
          | inl closes ↦ rw (other, closes) (record { row = row; ahead = tt })
          | inr others ↦ rw (other, others) (loop_test-Linked t' row (λ e. ground arith))
        ]
      ]

  pub receive-Linked :
      (e : Event) (t : ThreadState p)
      → (is_connected t ≡ true → Has owner (table t))
      → Linked (receive p e t)
  unfolding receive
  receive-Linked e t row = by_recv e.recv
    where
      by_recv : (r : Recv) → Linked (receive p (record e { recv = r }) t)
      by_recv closed = record { row = row; ahead = tt }
      by_recv recv_failed = switch-Linked t row
      by_recv (received bytes) =
          switch-Linked (record t { client_data_buff = fill bytes t.client_data_buff }) row
