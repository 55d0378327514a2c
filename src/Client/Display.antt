-- ===== src/Client/Display.antt =====
-- final_price_for_costumer of client/client_func.c: the time parked in hours, minutes and seconds.
use panngo.Base.{ℕ, ◌+◌, ◌*◌, ◌/◌, ◌%◌, ◌<◌, ◌≤◌, ◌≡◌, arith, ltb, sub32, if◌then◌else◌}

-- C's / and % of an int and a positive number: the quotient is cut towards 0, and the remainder has
-- the sign of the int. An int is its pattern.
unfoldable pub int_div : ℕ → ℕ → ℕ
int_div n d = if ltb n 2147483648 then n / d else sub32 0 (sub32 0 n / d)

unfoldable pub int_rem : ℕ → ℕ → ℕ
int_rem n d = if ltb n 2147483648 then n % d else sub32 0 (sub32 0 n % d)

-- Three ints.
pub record Clock : Type 0 where
  pub hour : ℕ
  pub minutes : ℕ
  pub seconds : ℕ

-- What is printed for the int `time`.
unfoldable pub final_price_for_costumer : ℕ → Clock
unfolding int_div int_rem
final_price_for_costumer time = record {
  hour = int_rem (int_div (int_div time 60) 60) 24;
  minutes = int_rem (int_div time 60) 60;
  seconds = int_rem time 60;
}

-- Of the negation of a small number.
int_div-60 : (q : ℕ) → q ≤ 2147483648 → int_div (sub32 0 q) 60 ≡ sub32 0 (q / 60)
unfolding int_div
int_div-60 q small = ground arith

int_rem-60 : (q : ℕ) → q ≤ 2147483648 → int_rem (sub32 0 q) 60 ≡ sub32 0 (q % 60)
unfolding int_rem
int_rem-60 q small = ground arith

int_rem-24 : (q : ℕ) → q ≤ 2147483648 → int_rem (sub32 0 q) 24 ≡ sub32 0 (q % 24)
unfolding int_rem
int_rem-24 q small = ground arith

-- The fields of a clock, which add up to the time within its day.
abbrev IsClockOf : ℕ → ℕ → ℕ → ℕ → Type 0
IsClockOf time hour minutes seconds =
    (hour < 24)
    × (minutes < 60)
    × (seconds < 60)
    × (hour * 3600 + minutes * 60 + seconds ≡ time % 86400)

-- For a time that is not negative, what is printed are the fields of a clock, which add up to the
-- time within its day: whole days are left out.
pub final_price_for_costumer_lem :
    (time : ℕ)
    → time < 2147483648
    → let c = final_price_for_costumer time in IsClockOf time c.hour c.minutes c.seconds
unfolding final_price_for_costumer int_div int_rem
final_price_for_costumer_lem time small = ground arith

-- For a negative one, all three are the negations of the fields for its size.
pub final_price_for_costumer_negative :
    (size : ℕ)
    → size ≤ 2147483648
    → let c = final_price_for_costumer (sub32 0 size) in
      IsClockOf size (sub32 0 c.hour) (sub32 0 c.minutes) (sub32 0 c.seconds)
unfolding final_price_for_costumer
final_price_for_costumer_negative size small =
    rw
      (
        int_div-60 size small,
        int_div-60 (size / 60) (omega arith),
        int_rem-24 (size / 60 / 60) (omega arith),
        int_rem-60 (size / 60) (omega arith),
        int_rem-60 size small,
      )
      (omega arith)
