-- ===== src/Server/World/Fair.antt =====
-- From recv to the second switch, and the loop's test: server/client/client_thread.c on the table.
use panngo.Base.{
  ℕ, ◌≡◌, ◌≢◌, ◌⊎◌, inl, inr, refl, sym, subst, ap, arith, List, Text, get_or, Bool-cases, ◌==◌,
}
use native.Mathlib.Decide.{ℕ_discrete}
use panngo.Server.Sql.{update_time_used, delete_client}
use panngo.Server.Table.{Row, apply_statement}
use panngo.Server.Table.Rows.{Has, not-Has-remove}
use panngo.Server.Data.{start_app, close_app, crc8_test_failed}
use panngo.Server.Platform.{Platform, Laws}
use panngo.Server.Crc.{calculate_crc8}
use panngo.Server.Packet.Store.{stored}
use panngo.Server.Thread.{
  Recv, closed, recv_failed, received, Event, ThreadState, fill, take_packet,
}
use panngo.Server.Thread.Start.{IsReliable}
use panngo.Server.Thread.Handle.{
  IsIntact, take_packet_intact, take_packet_corrupt, take_packet_deaf,
}
use panngo.Server.World.{Task, loop_test, switch, receive}
use panngo.Server.World.Moves.{
  IsFair, IsFair-eq, IsFair-set_time, IsFair-remove, IsDeleting, IsFrom, mac_of, Sound,
  loop_test-Sound, loop_test-db,
}

module _ (p : Platform) (laws : Laws p) (reliable : IsReliable p) (owner : Text) where
  open laws use {rows}

  abbrev table : ThreadState p → List Row
  table t = rows t.session.db_client

  -- What a move from the state `t` to the task `k` keeps.
  abbrev pub Fair : ThreadState p → Task p → Type 0
  Fair t k = IsFair owner (table t) (table k.state) × Sound p owner (table k.state) k

  pub update-IsFair :
      (time : ℕ) (mac : Text) (d : p.Db)
      → IsFair owner (rows d) (rows (p.sqlite3_exec (update_time_used time mac) d).1)
  unfolding apply_statement
  update-IsFair time mac d =
      let law = laws.rows-exec (update_time_used time mac) d in
      elim (Bool-cases (p.sqlite3_exec (update_time_used time mac) d).0) [
        | inl e ↦
            subst (IsFair owner (rows d)) (sym (ground (arith, law)))
              (IsFair-set_time owner time mac (rows d))
        | inr e ↦ IsFair-eq owner (ground (arith, law))
      ]

  pub delete-IsFair :
      (d : p.Db) → IsFair owner (rows d) (rows (p.sqlite3_exec (delete_client owner) d).1)
  unfolding apply_statement
  delete-IsFair d =
      let law = laws.rows-exec (delete_client owner) d in
      elim (Bool-cases (p.sqlite3_exec (delete_client owner) d).0) [
        | inl e ↦
            subst (IsFair owner (rows d)) (sym (ground (arith, law))) (IsFair-remove owner (rows d))
        | inr e ↦ IsFair-eq owner (ground (arith, law))
      ]

  pub delete_deletes :
      (mac : Text) (d : p.Db)
      → IsDeleting p
      → ¬ Has mac (rows (p.sqlite3_exec (delete_client mac) d).1)
  unfolding apply_statement
  delete_deletes mac d deletes =
      let law = laws.rows-exec (delete_client mac) d in
      let done = deletes mac d in
      subst (λ rs. ¬ Has mac rs) (sym (ground (arith, law))) (not-Has-remove mac (rows d))

  -- A state that the loop is tested on, after a fair change.
  pub loop_test-Fair :
      (t t' : ThreadState p)
      → IsFair owner (table t) (table t')
      → (t'.status ≡ close_app → mac_of p t' ≡ owner)
      → Fair t (loop_test p t')
  loop_test-Fair t t' fair h = (
    subst (λ d. IsFair owner (table t) (rows d)) (sym (loop_test-db p t')) fair,
    loop_test-Sound p owner _ t' h,
  )

  take_packet-Fair :
      (t : ThreadState p)
      → (IsIntact t.client_data_buff
          → (stored t.client_data_buff t.session.client).mac_address ≡ owner)
      → ((take_packet p t).session.db_client ≡ t.session.db_client)
        × (((take_packet p t).status ≡ crc8_test_failed) ⊎ (mac_of p (take_packet p t) ≡ owner))
  take_packet-Fair t from =
      elim (ℕ_discrete (get_or t.client_data_buff 9 0) (calculate_crc8 t.client_data_buff 9)) [
        | no corrupt ↦ rw (take_packet_corrupt p t corrupt) (refl, inl refl)
        | yes intact ↦ elim (ℕ_discrete t.status crc8_test_failed) [
          | yes deaf ↦ rw (take_packet_deaf p t intact deaf) (refl, inl deaf)
          | no fresh ↦ rw (take_packet_intact p t intact fresh) (refl, inr (from intact))
        ]
      ]

  switch-Fair :
      (t : ThreadState p)
      → (IsIntact t.client_data_buff
          → (stored t.client_data_buff t.session.client).mac_address ≡ owner)
      → Fair t (switch p t)
  unfolding switch
  switch-Fair t from =
      let t' = take_packet p t in
      let (same, own) = take_packet-Fair t from in
      let fair : IsFair owner (table t) (table t') = IsFair-eq owner (ap rows same) in
      let mac : (t'.status ≢ crc8_test_failed) → mac_of p t' ≡ owner =
        λ h. elim own [ inl e ↦ absurd (h e) | inr e ↦ e ] in
      elim (Bool-cases (t'.status == start_app)) [
        | inl opens ↦ rw opens (fair, mac (ground arith))
        | inr other ↦ elim (Bool-cases (t'.status == close_app)) [
          | inl closes ↦ rw (other, closes) (fair, mac (ground arith))
          | inr others ↦ rw (other, others) (loop_test-Fair t t' fair (λ e. mac (ground arith)))
        ]
      ]

  pub receive-Fair : (e : Event) (t : ThreadState p) → IsFrom p owner e t → Fair t (receive p e t)
  unfolding receive
  receive-Fair e t from = by_recv e.recv from
    where
      by_recv :
          (r : Recv)
          → let e' : Event = record e { recv = r } in IsFrom p owner e' t → Fair t (receive p e' t)
      by_recv closed h = (IsFair-eq owner refl, refl)
      by_recv recv_failed h = switch-Fair t h
      by_recv (received bytes) h =
          switch-Fair (record t { client_data_buff = fill bytes t.client_data_buff }) h
