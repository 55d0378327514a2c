-- ===== src/Stm/Firmware/Interrupts.antt =====
-- HAL_UART_RxCpltCallback of STM/PANGO_L/PNG/Src/PNG.c: its count of unknown status bytes, and a
-- byte that comes while a round of main_PNG ends.
use panngo.Base.{
  if◌then◌else◌, ℕ, ◌+◌, ◌≤◌, ◌<◌, ◌≡◌, ◌⊎◌, inl, inr, refl, ap, subst, ◌∙◌, arith, List, [], ◌∷◌,
  ◌++◌, Bool, Bool-cases, true, false, ◌==◌, ◌||◌, ◌%◌,
}
use panngo.Stm.Sensors.{get_mac_address}
use panngo.Stm.Firmware.{
  on, off, restart, Firmware, Machine, runs, stops, error_handler, Hal, ask, start, transmit_packet,
  main_step, callback, interrupt, Step, main_goes_on, byte_comes, step, run,
}

-- The count does not wrap: it stays in 1 to 5.
abbrev pub IsCounting : Machine → Type 0
IsCounting (runs s) = (1 ≤ s.wrong_status) × (s.wrong_status ≤ 5)
IsCounting (stops why s) = (1 ≤ s.wrong_status) × (s.wrong_status ≤ 5)

callback-IsCounting : (ok : Bool) (s : Firmware) → IsCounting (runs s) → IsCounting (callback ok s)
unfolding callback ask
callback-IsCounting ok s counting = elim (Bool-cases (s.wrong_status % 5 == 0)) [
  | inl broken ↦ rw broken counting
  | inr fine ↦
      let status = s.pango_client_data.status in
      elim (Bool-cases (status == on || status == off || status == restart)) [
        | inl known ↦ rw (fine, known) counting
        | inr unknown ↦ elim (Bool-cases ok) [
          | inl e ↦ rw (fine, unknown, e) (ground (arith, counting, fine))
          | inr e ↦ rw (fine, unknown, e) (ground (arith, counting, fine))
        ]
      ]
]

main_step-IsCounting :
    (hal : Hal) (s : Firmware) → IsCounting (runs s) → IsCounting (main_step hal s)
unfolding main_step transmit_packet ask
main_step-IsCounting hal s counting = ground arith

step-IsCounting : (e : Step) (s : Firmware) → IsCounting (runs s) → IsCounting (step e s)
unfolding step interrupt
step-IsCounting (main_goes_on hal) s counting = main_step-IsCounting hal s counting
step-IsCounting (byte_comes byte ok) s counting = elim (Bool-cases s.listening) [
  | inl asked ↦ rw asked (callback-IsCounting ok _ counting)
  | inr lost ↦ rw lost counting
]

run-IsCounting : (m : Machine) (steps : List Step) → IsCounting m → IsCounting (run m steps)
unfolding run
run-IsCounting m [] counting = counting
run-IsCounting (stops why s) (e ∷ es) counting = counting
run-IsCounting (runs s) (e ∷ es) counting =
    run-IsCounting (step e s) es (step-IsCounting e s counting)

start-IsCounting :
    (initialized : Bool) (registers : List ℕ) (ok : Bool)
    → IsCounting (start initialized registers ok)
unfolding start get_mac_address ask
start-IsCounting false registers ok = (omega arith, omega arith)
start-IsCounting true registers false = (omega arith, omega arith)
start-IsCounting true registers true = (omega arith, omega arith)

-- The count, and what a byte that has been asked for does if HAL_UART_Receive_IT succeeds.
pub record IsCounted (s : Firmware) (byte : ℕ) : Type 0 where
  pub low : 1 ≤ s.wrong_status
  pub high : s.wrong_status ≤ 5
  pub next :
      let came : Firmware = record s {
        pango_client_data = record (s.pango_client_data) { status = byte };
        listening = false;
      } in
      interrupt byte true s ≡ (
        if s.wrong_status == 5
        then stops error_handler came
        else if byte == on || byte == off || byte == restart
        then runs (record came { interrupt_flag = on })
        else runs (record came {
          wrong_status = s.wrong_status + 1;
          interrupt_flag = off;
          listening = true;
        }))

-- In every run from the start of main_PNG that has not halted and that waits for a byte,
-- `wrong_status` is from 1 to 5. If HAL_UART_Receive_IT succeeds, the next byte, whichever it is,
-- ends in Error_Handler() at 5; below 5 it sets the flag if it is ON, OFF or RESTART, and otherwise
-- raises the count by one, and the program waits for the next one.
pub run-IsCounted :
    (initialized : Bool) (registers : List ℕ) (receive_it : Bool) (steps : List Step) (s : Firmware)
    (byte : ℕ)
    → run (start initialized registers receive_it) steps ≡ runs s
    → s.listening ≡ true
    → IsCounted s byte
unfolding interrupt callback ask
run-IsCounted initialized registers receive_it steps s byte reached asked =
    let counting = subst IsCounting reached (
      run-IsCounting (start initialized registers receive_it) steps
        (start-IsCounting initialized registers receive_it)) in
    record { low = counting.0; high = counting.1; next = ground (arith, counting, asked) }

-- The controller is idle, and waits for no byte.
pub record IsDeaf (s : Firmware) : Type 0 where
  pub flag : s.interrupt_flag ≡ off
  pub listening : s.listening ≡ false
  pub answering : s.answering ≡ false

step-IsDeaf : (e : Step) (s : Firmware) → IsDeaf s → step e s ≡ runs s
unfolding step main_step interrupt
step-IsDeaf (main_goes_on hal) s deaf = ground (arith, deaf.flag, deaf.answering)
step-IsDeaf (byte_comes byte ok) s deaf = ground (arith, deaf.listening)

run-IsDeaf : (steps : List Step) (s : Firmware) → IsDeaf s → run (runs s) steps ≡ runs s
unfolding run
run-IsDeaf [] s deaf = refl
run-IsDeaf (e ∷ es) s deaf = rw (step-IsDeaf e s deaf) (run-IsDeaf es s deaf)

request_lost :
    (byte : ℕ) (ok : Bool) (hal : Hal) (s : Firmware)
    → s.answering ≡ true
    → s.listening ≡ true
    → s.wrong_status < 5
    → 1 ≤ s.wrong_status
    → (byte ≡ on) ⊎ ((byte ≡ off) ⊎ (byte ≡ restart))
    → run (runs s) (byte_comes byte ok ∷ main_goes_on hal ∷ [])
      ≡ runs (record s {
        pango_client_data = record (s.pango_client_data) { status = byte };
        interrupt_flag = off;
        listening = false;
        answering = false;
      })
unfolding run step interrupt callback main_step
request_lost byte ok hal s busy asked low high known = ground arith

run_append : (es fs : List Step) (m : Machine) → run m (es ++ fs) ≡ run (run m es) fs
unfolding run
run_append [] fs m = refl
run_append (e ∷ es) [] (stops why s) = refl
run_append (e ∷ es) (f ∷ fs) (stops why s) = refl
run_append (e ∷ es) fs (runs s) = run_append es fs (step e s)

-- When ON, OFF or RESTART comes between the new HAL_UART_Receive_IT of a round of main_PNG and the
-- reset of the flag, and the count of unknown bytes is from 1 to 4, then the flag is cleared behind
-- it, and nothing ever changes any more, whatever bytes come: no byte is asked for, and no packet
-- goes out.
pub request_lost_for_good :
    (byte : ℕ) (ok : Bool) (hal : Hal) (s : Firmware) (steps : List Step)
    → s.answering ≡ true
    → s.listening ≡ true
    → s.wrong_status < 5
    → 1 ≤ s.wrong_status
    → (byte ≡ on) ⊎ ((byte ≡ off) ⊎ (byte ≡ restart))
    → run (runs s) (byte_comes byte ok ∷ main_goes_on hal ∷ steps)
      ≡ runs (record s {
        pango_client_data = record (s.pango_client_data) { status = byte };
        interrupt_flag = off;
        listening = false;
        answering = false;
      })
request_lost_for_good byte ok hal s steps busy asked low high known =
    run_append (byte_comes byte ok ∷ main_goes_on hal ∷ []) steps (runs s)
    ∙ ap (λ (m : Machine). run m steps) (request_lost byte ok hal s busy asked low high known)
    ∙ run-IsDeaf steps _ (record { flag = refl; listening = refl; answering = refl })
