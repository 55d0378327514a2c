-- ===== src/Server/World/Moves.antt =====
-- your_table under one move of a client's thread that has only packets of its own MAC address.
use panngo.Base.{
  ℕ, ◌≡◌, ◌≢◌, ◌⊎◌, inl, inr, sym, subst, ◌∙◌, arith, List, [], ◌∷◌, ◌++◌, Text, true,
}
use native.Mathlib.Decide.{ℕ_discrete}
use panngo.Server.Sql.{delete_client}
use panngo.Server.Table.{Row, set_time, remove}
use panngo.Server.Table.Rows.{
  Has, IsUnique, Has-append, IsUnique-append, Has-set_time, IsUnique-set_time, Has-remove,
  IsUnique-remove, Has-append_left, set_time-Has, remove-Has,
}
use panngo.Server.Data.{close_app, connection_lost}
use panngo.Server.Platform.{Platform}
use panngo.Server.Packet.Store.{stored}
use panngo.Server.Thread.{Recv, received, Event, ThreadState, fill}
use panngo.Server.Thread.Handle.{IsIntact}
use panngo.Server.World.{
  Phase, receiving, losing, asking, resuming, inserting, connecting, closing, removing, updating,
  removed, ended, Task, leave, loop_test,
}

-- A change of the table that gives rows to the client `owner` only, and no second one, and takes
-- none from another one.
pub record IsFair (owner : Text) (before after : List Row) : Type 0 where
  pub keeps : (k : Text) → k ≢ owner → Has k before → Has k after
  pub spares : (k : Text) → k ≢ owner → Has k after → Has k before
  pub unique : IsUnique before → IsUnique after

pub IsFair-eq :
    (owner : Text) {before after : List Row} → after ≡ before → IsFair owner before after
IsFair-eq owner {before} {after} e =
    subst (IsFair owner before) (sym e)
      (record { keeps = λ k other h. h; spares = λ k other h. h; unique = λ u. u })

pub IsFair-set_time :
    (owner : Text) (time : ℕ) (mac : Text) (rs : List Row) → IsFair owner rs (set_time time mac rs)
IsFair-set_time owner time mac rs = record {
  keeps = λ k other h. set_time-Has time mac k rs h;
  spares = λ k other h. Has-set_time time mac k rs h;
  unique = IsUnique-set_time time mac rs;
}

pub IsFair-remove : (owner : Text) (rs : List Row) → IsFair owner rs (remove owner rs)
IsFair-remove owner rs = record {
  keeps = λ k other h. remove-Has owner k rs other h;
  spares = λ k other h. Has-remove owner k rs h;
  unique = IsUnique-remove owner rs;
}

pub IsFair-append :
    (rs : List Row) (r : Row) → ¬ Has r.mac_adr rs → IsFair r.mac_adr rs (rs ++ r ∷ [])
IsFair-append rs r no_row = record {
  keeps = λ k other h. Has-append_left k rs (r ∷ []) h;
  spares = λ k other h. elim (Has-append k rs r h) [
    | inl old ↦ old
    | inr new ↦ absurd (other (sym new))
  ];
  unique = λ u. IsUnique-append rs r u no_row;
}

module _ (p : Platform) where
  -- No DELETE fails.
  abbrev pub IsDeleting : Type 0
  IsDeleting = (mac : Text) (d : p.Db) → (p.sqlite3_exec (delete_client mac) d).0 ≡ true

  -- What a thread's phase says of its MAC address, its status and the table, for a client with the
  -- MAC address `owner`.
  abbrev pub IsSound : Text → List Row → Phase → Text → ℕ → Type 0
  IsSound owner rs receiving mac status = Unit
  IsSound owner rs losing mac status = status ≡ connection_lost
  IsSound owner rs inserting mac status = (mac ≡ owner) × ¬ Has owner rs
  IsSound owner rs updating mac status = Unit
  IsSound owner rs removed mac status = IsDeleting → ¬ Has owner rs
  IsSound owner rs ended mac status = Unit
  IsSound owner rs _ mac status = mac ≡ owner

  -- The buffer after recv.
  abbrev pub buffer_after : Recv → List ℕ → List ℕ
  buffer_after (received bytes) buff = fill bytes buff
  buffer_after _ buff = buff

  -- If the buffer passes the check after recv, its MAC address is `owner`.
  abbrev pub IsFrom : Text → Event → ThreadState p → Type 0
  IsFrom owner e t =
      let buff = buffer_after e.recv t.client_data_buff in
      IsIntact buff → (stored buff t.session.client).mac_address ≡ owner

  pub IsSound-spared :
      (owner : Text) (rs rs' : List Row) (phase : Phase) (mac : Text) (status : ℕ)
      → (Has owner rs' → Has owner rs)
      → IsSound owner rs phase mac status
      → IsSound owner rs' phase mac status
  IsSound-spared owner rs rs' receiving mac status h s = s
  IsSound-spared owner rs rs' losing mac status h s = s
  IsSound-spared owner rs rs' asking mac status h s = s
  IsSound-spared owner rs rs' resuming mac status h s = s
  IsSound-spared owner rs rs' inserting mac status h s = (s.0, λ k. s.1 (h k))
  IsSound-spared owner rs rs' connecting mac status h s = s
  IsSound-spared owner rs rs' closing mac status h s = s
  IsSound-spared owner rs rs' removing mac status h s = s
  IsSound-spared owner rs rs' updating mac status h s = s
  IsSound-spared owner rs rs' removed mac status h s = λ deletes k. s deletes (h k)
  IsSound-spared owner rs rs' ended mac status h s = s

  abbrev pub mac_of : ThreadState p → Text
  mac_of t = t.session.client.mac_address

  abbrev pub Sound : Text → List Row → Task p → Type 0
  Sound owner rs k = IsSound owner rs k.phase (mac_of k.state) k.state.status

  -- The phase behind the loop.
  pub leave_closes :
      (t : ThreadState p)
      → t.status ≡ close_app
      → ((leave p t).phase ≡ removing) × (mac_of (leave p t).state ≡ mac_of t)
  unfolding leave
  leave_closes t h = ground arith

  pub leave_other :
      (t : ThreadState p)
      → t.status ≢ close_app
      → ((leave p t).phase ≡ ended) ⊎ ((leave p t).phase ≡ updating)
  unfolding leave
  leave_other t h = ground arith

  pub leave-Sound :
      (owner : Text) (rs : List Row) (t : ThreadState p)
      → (t.status ≡ close_app → mac_of t ≡ owner)
      → Sound owner rs (leave p t)
  leave-Sound owner rs t h = elim (ℕ_discrete t.status close_app) [
    | yes closes ↦ let (phase, mac) = leave_closes t closes in rw phase (mac ∙ h closes)
    | no other ↦ elim (leave_other t other) [ inl e ↦ rw e tt | inr e ↦ rw e tt ]
  ]

  pub leave-db : (t : ThreadState p) → (leave p t).state.session.db_client ≡ t.session.db_client
  unfolding leave
  leave-db t = ground arith

  pub loop_test_cases :
      (t : ThreadState p) → ((loop_test p t).phase ≡ receiving) ⊎ (loop_test p t ≡ leave p t)
  unfolding loop_test
  loop_test_cases t = ground arith

  pub loop_test-Sound :
      (owner : Text) (rs : List Row) (t : ThreadState p)
      → (t.status ≡ close_app → mac_of t ≡ owner)
      → Sound owner rs (loop_test p t)
  loop_test-Sound owner rs t h = elim (loop_test_cases t) [
    | inl stays ↦ rw stays tt
    | inr leaves ↦ rw leaves (leave-Sound owner rs t h)
  ]

  pub loop_test-db :
      (t : ThreadState p) → (loop_test p t).state.session.db_client ≡ t.session.db_client
  unfolding loop_test
  loop_test-db t = ground arith
