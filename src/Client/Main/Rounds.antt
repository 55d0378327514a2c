-- ===== src/Client/Main/Rounds.antt =====
-- One round of the loop of client/main_client.c.
use native.Mathlib.Decide.{ℕ_discrete}
use panngo.Base.{
  if◌then◌else◌, ◌==◌, Bool-cases, ℕ, ◌+◌, ◌<◌, ◌≡◌, inl, inr, refl, arith, List, get_or,
}
use panngo.Client.Data.{error, pango_data_size}
use panngo.Client.Crc.{calculate_crc8}
use panngo.Client.Status.{
  received_data_from_stm, updating_status_value, updating_status_value_lem, IsOnOff,
}
use panngo.Client.Location.{fill}
use panngo.Client.Network.{wait_poll_event}
use panngo.Client.Main.{
  Round, MainState, Control, goes_on, breaks, exits, write_status, act, exchange, connect_step,
  quit_step, read_step, received_step, main_round, ◌>>=◌,
}

-- The nine bytes fit their checksum.
abbrev pub IsIntact : List ℕ → Type 0
IsIntact buff = get_or buff 9 0 ≡ calculate_crc8 buff pango_data_size

module _ {F : Type 0} where
  -- What holds at the head of the loop: the status to send is ON or OFF, and the STM has been
  -- missed at most twice.
  pub record IsReady (s : MainState F) : Type 0 where
    pub status : IsOnOff s.status
    pub missed : s.stm_data_receive_error < 3

  -- The STM does not answer within its second.
  abbrev pub IsMissed : Round F → Type 0
  IsMissed r = wait_poll_event r.stm_poll ≡ error

  -- The buffer after the read of this round.
  abbrev pub packet : Round F → MainState F → List ℕ
  packet r s = fill r.stm_bytes s.data_buff

  >>=-eq-goes_on :
      (m : Control F) (f : MainState F → Control F) (t : MainState F)
      → (m >>= f) ≡ goes_on t
      → (u : MainState F) × (m ≡ goes_on u) × (f u ≡ goes_on t)
  >>=-eq-goes_on (goes_on u) f t e = (u, refl, e)
  >>=-eq-goes_on (breaks u) f t e = cc
  >>=-eq-goes_on (exits u) f t e = cc

  exchange_error_count :
      (r : Round F) (c : ℕ) (s t : MainState F)
      → exchange r c s ≡ goes_on t
      → t.stm_data_receive_error ≡ s.stm_data_receive_error
  unfolding exchange
  exchange_error_count r c s t e = ground arith

  connect_step_error_count :
      (r : Round F) (s t : MainState F)
      → connect_step r s ≡ goes_on t
      → t.stm_data_receive_error ≡ s.stm_data_receive_error
  unfolding connect_step
  connect_step_error_count r s t e = ground arith

  quit_step_error_count :
      (r : Round F) (s t : MainState F)
      → quit_step r s ≡ goes_on t
      → t.stm_data_receive_error ≡ s.stm_data_receive_error
  unfolding quit_step
  quit_step_error_count r s t e = ground arith

  received_step_error_count :
      (r : Round F) (s t : MainState F)
      → received_step r s ≡ goes_on t
      → t.stm_data_receive_error ≡ s.stm_data_receive_error
  unfolding received_step read_step
  received_step_error_count r s t e = elim (Bool-cases (received_data_from_stm s.status)) [
    | inl yes_data ↦
        let (u, connecting, quitting) =
          >>=-eq-goes_on (connect_step r (read_step r s)) (quit_step r) t (ground arith) in
        omega (
          arith,
          quit_step_error_count r u t quitting,
          connect_step_error_count r (read_step r s) u connecting,
        )
    | inr no_data ↦ ground arith
  ]

  -- A round of the client's loop that goes on, from a status of ON or OFF and at most two missed
  -- answers, comes to such a state again. One in which the STM does not answer counts one more
  -- miss, and every other one keeps the count.
  pub main_round-IsReady :
      (r : Round F) (s t : MainState F)
      → IsReady s
      → main_round r s ≡ goes_on t
      → IsReady t
        × (t.stm_data_receive_error ≡ (
            if wait_poll_event r.stm_poll == error
            then s.stm_data_receive_error + 1
            else s.stm_data_receive_error))
  unfolding main_round
  main_round-IsReady r s t ready e = elim (ℕ_discrete (wait_poll_event r.stm_poll) error) [
    | yes missed ↦ (
      record { status = ground (arith, ready.status); missed = ground (arith, ready.missed) },
      ground (arith, ready.missed),
    )
    | no answered ↦
        let told = act (write_status s.status) s in
        let (u, received, final) =
          >>=-eq-goes_on (received_step r told)
            (λ (u : MainState F). goes_on (record u { status = updating_status_value u.status })) t
            (ground arith) in
        let count = received_step_error_count r told u received in
        (
          record {
            status = ground (arith, (updating_status_value_lem u.status).0);
            missed = ground (arith, count, ready.missed);
          },
          ground (arith, answered, count),
        )
  ]
