-- ===== src/Server/World/Whole.antt =====
-- The addresses of the rows under the threads of server/: each is one that
-- store_client_data_in_struct writes, which db_update relies on where it reads a struct in the
-- middle of a store.
pub mod Run
use panngo.Base.{
  ℕ, suc, ◌<◌, ◌≡◌, ◌≢◌, inl, inr, refl, sym, subst, ap, ◌∙◌, arith, List, [], ◌∷◌, ◌++◌, Bool,
  Bool-cases, true, false, Text, text_eq, get_or, take, All, All-append, u32, sub32, if-keeps,
  if◌then◌else◌, ◌==◌, ==_iff,
}
use native.Mathlib.Decide.{ℕ_discrete}
use panngo.Server.Sql.{Statement, update_time_used, delete_client, select_client}
use panngo.Server.Table.{Row, set_time, remove, apply_statement}
use panngo.Server.Data.{
  PangoData, quit, stay, start_app, close_app, connection_lost, crc8_test_failed,
  error_status_in_client_exist_subfunctions, error_status_in_new_client_subfunctions,
}
use panngo.Server.Platform.{Platform, Laws, Session}
use panngo.Server.Typed.{loop_status-keeps}
use panngo.Server.Crc.{calculate_crc8}
use panngo.Server.Packet.Mac.{mac_text}
use panngo.Server.Packet.Store.{mac_bytes}
use panngo.Server.NewClient.{process_client_data}
use panngo.Server.NewClient.Laws.{new_row, process_client_data_lem}
use panngo.Server.ExistingClient.{retriev_client_data}
use panngo.Server.ExistingClient.Laws.{retriev_client_data_lem}
use panngo.Server.Thread.{
  Recv, closed, recv_failed, received, fill, Event, ThreadState, new_client, take_packet,
  clinet_exist_in_database_check, close_app_case, remove_client_data, update_client_data,
  send_error,
}
use panngo.Server.Thread.Handle.{take_packet_intact, take_packet_corrupt, take_packet_deaf}
use panngo.Server.DbUpdate.Torn.{IsWhole, AllWhole, set_time-AllWhole}
use panngo.Server.World.{
  Phase, receiving, losing, asking, resuming, inserting, connecting, closing, removing, updating,
  removed, ended, Task, at, set_connected, leave, loop_test, test_new, switch, receive, ask, resume,
  insert, move,
}
use panngo.Server.World.Moves.{mac_of}
use panngo.Server.World.Isolated.{loop_test-IsSame, test_new-IsSame, writes, move-IsOwn}

-- Before its INSERT a client's struct has the address of a packet.
abbrev pub Holds : Phase → Text → Type 0
Holds asking mac = IsWhole mac
Holds resuming mac = IsWhole mac
Holds inserting mac = IsWhole mac
Holds _ mac = Unit

pub remove-AllWhole : (mac : Text) (rs : List Row) → AllWhole rs → AllWhole (remove mac rs)
unfolding remove
remove-AllWhole mac [] h = tt
remove-AllWhole mac (r ∷ rs) (here, later) =
    let rest = remove-AllWhole mac rs later in
    elim (Bool-cases (text_eq r.mac_adr mac)) [
      | inl own ↦ rw own rest
      | inr other ↦ rw other (here, rest)
    ]

module _ (p : Platform) (laws : Laws p) where
  open laws use {rows}

  abbrev pub IsHolding : Task p → Type 0
  IsHolding k = Holds k.phase (mac_of p k.state)

  leave-IsHolding : (t : ThreadState p) → IsHolding (leave p t)
  unfolding leave
  leave-IsHolding t =
      let s = record t { session = send_error p t.session } in
      if-keeps IsHolding (t.status == close_app) _ _ tt (
        if-keeps IsHolding (t.status == connection_lost) (at p updating t) _ tt (
          if-keeps IsHolding (t.status == crc8_test_failed) (at p ended s) _ tt (
            if-keeps IsHolding (t.status == error_status_in_client_exist_subfunctions)
              (at p ended s) _ tt
              (if-keeps IsHolding (t.status == error_status_in_new_client_subfunctions)
                (at p ended s) (at p ended t) tt tt))))

  loop_test-IsHolding : (t : ThreadState p) → IsHolding (loop_test p t)
  unfolding loop_test
  loop_test-IsHolding t =
      loop_status-keeps IsHolding t.return_value (leave p t) (at p receiving t) (leave-IsHolding t)
        tt

  test_new-IsHolding : (t : ThreadState p) → IsWhole (mac_of p t) → IsHolding (test_new p t)
  unfolding test_new
  test_new-IsHolding t whole =
      if-keeps IsHolding (new_client t.checked_database) (at p inserting t) (loop_test p t) whole
        (loop_test-IsHolding t)

  -- A status of START_APP comes out of a packet that was taken in.
  taken-IsWhole :
      (t : ThreadState p)
      → (take_packet p t).status ≡ start_app
      → IsWhole (mac_of p (take_packet p t))
  taken-IsWhole t starts =
      elim (ℕ_discrete (get_or t.client_data_buff 9 0) (calculate_crc8 t.client_data_buff 9)) [
        | no corrupt ↦ absurd (
            ground (
              arith,
              starts,
              ap (λ (u : ThreadState p). u.status) (take_packet_corrupt p t corrupt),
            ))
        | yes intact ↦ elim (ℕ_discrete t.status crc8_test_failed) [
          | yes deaf ↦ absurd (
              ground (
                arith,
                starts,
                deaf,
                ap (λ (u : ThreadState p). u.status) (take_packet_deaf p t intact deaf),
              ))
          | no fresh ↦ (
            get_or t.client_data_buff 1 0,
            get_or t.client_data_buff 2 0
                ∷ get_or t.client_data_buff 3 0
                ∷ get_or t.client_data_buff 4 0
                ∷ get_or t.client_data_buff 5 0
                ∷ get_or t.client_data_buff 6 0
                ∷ [],
            ap (mac_of p) (take_packet_intact p t intact fresh),
          )
        ]
      ]

  switch-IsHolding : (t : ThreadState p) → IsHolding (switch p t)
  unfolding switch
  switch-IsHolding t =
      let t' = take_packet p t in
      let other : IsHolding (if t'.status == close_app then at p closing t' else loop_test p t') =
        if-keeps IsHolding (t'.status == close_app) (at p closing t') (loop_test p t') tt
          (loop_test-IsHolding t') in
      elim (Bool-cases (t'.status == start_app)) [
        | inl starts ↦ rw starts (taken-IsWhole t ((==_iff t'.status start_app).0 starts))
        | inr differs ↦ rw differs other
      ]

  receive-IsHolding : (e : Event) (t : ThreadState p) → IsHolding (receive p e t)
  unfolding receive
  receive-IsHolding e t = by_recv e.recv
    where
      by_recv : (r : Recv) → IsHolding (receive p (record e { recv = r }) t)
      by_recv closed = tt
      by_recv recv_failed = switch-IsHolding t
      by_recv (received bytes) =
          switch-IsHolding (record t { client_data_buff = fill bytes t.client_data_buff })

  ask-IsHolding : (t : ThreadState p) → IsWhole (mac_of p t) → IsHolding (ask p t)
  unfolding ask clinet_exist_in_database_check
  ask-IsHolding t whole =
      let asked = clinet_exist_in_database_check p t.checked_database t.session in
      let t' : ThreadState p = record t { session = asked.1 } in
      if-keeps IsHolding asked.0 (at p resuming t') (test_new p t') whole
        (test_new-IsHolding t' whole)

  resume-IsHolding :
      (now : ℕ) (t : ThreadState p) → IsWhole (mac_of p t) → IsHolding (resume p now t)
  unfolding resume
  resume-IsHolding now t whole =
      let result = retriev_client_data p now t.status t.session in
      let law = retriev_client_data_lem p laws now t.status t.session in
      let t' : ThreadState p = record t {
        return_value = result.0;
        status = result.1;
        session = result.2;
      } in
      let new : ThreadState p = record t' { checked_database = true } in
      loop_status-keeps IsHolding result.0 (loop_test p t') (test_new p new)
        (loop_test-IsHolding t') (test_new-IsHolding new (subst IsWhole (sym law.same_mac) whole))

  insert-IsHolding : (now : ℕ) (t : ThreadState p) → IsHolding (insert p now t)
  unfolding insert
  insert-IsHolding now t =
      let result = process_client_data p now t.status t.session in
      let t' : ThreadState p = record t {
        return_value = result.0;
        status = result.1;
        session = result.2;
      } in
      loop_status-keeps IsHolding result.0 (loop_test p t') (at p connecting t')
        (loop_test-IsHolding t') tt

  pub move-IsHolding :
      (e : Event) (phase : Phase) (t : ThreadState p)
      → Holds phase (mac_of p t)
      → IsHolding (move p e phase t)
  unfolding move
  move-IsHolding e receiving t h = receive-IsHolding e t
  move-IsHolding e losing t h = leave-IsHolding (set_connected p false t)
  move-IsHolding e asking t h = ask-IsHolding t h
  move-IsHolding e resuming t h = resume-IsHolding e.now t h
  move-IsHolding e inserting t h = insert-IsHolding e.now t
  move-IsHolding e connecting t h = loop_test-IsHolding (set_connected p true t)
  move-IsHolding e closing t h = loop_test-IsHolding (close_app_case p e.now t)
  move-IsHolding e removing t h = tt
  move-IsHolding e updating t h = tt
  move-IsHolding e removed t h = tt
  move-IsHolding e ended t h = tt
