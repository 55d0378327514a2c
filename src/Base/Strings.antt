-- ===== src/Base/Strings.antt =====
-- C strings as lists of character codes without the NUL that ends them, and what sprintf makes of
-- `%x` and `%d`.
use Prim.Native.Nat.{ℕ, zero, suc, ◌+◌, ◌-◌, ◌/◌, ◌%◌, ◌≤◌}
use Prim.Native.Char.{code}
use Prim.Native.String.{String}
use mathlib.Core.Path.{◌≡◌, refl, ap}
use mathlib.Core.Logic.{◌↔◌}
use mathlib.Core.Bool.{Bool, true, false, ◌&&◌}
use mathlib.Core.List.{List, [], ◌∷◌, ◌++◌}
use native.Mathlib.Omega.{arith}
use panngo.Base.Tests.{◌==◌, ltb, if◌then◌else◌}
use panngo.Base.Lists.{length, take}
use panngo.Base.Words.{u32_mod}

abbrev pub Text : Type 0
Text = List ℕ

abbrev pub codes : String → Text
codes String.[] = []
codes (String.◌∷◌ c s) = code c ∷ codes s

unfoldable pub text_eq : Text → Text → Bool
text_eq [] [] = true
text_eq [] (b ∷ bs) = false
text_eq (a ∷ as') [] = false
text_eq (a ∷ as') (b ∷ bs) = a == b && text_eq as' bs

pub text_eq_iff : (a b : Text) → (text_eq a b ≡ true) ↔ (a ≡ b)
unfolding text_eq
text_eq_iff [] [] = ground arith
text_eq_iff [] (b ∷ bs) = ground arith
text_eq_iff (a ∷ as') [] = ground arith
text_eq_iff (a ∷ as') (b ∷ bs) = ground (arith, text_eq_iff as' bs)

pub text_eq_refl : (a : Text) → text_eq a a ≡ true
text_eq_refl a = (text_eq_iff a a).1 refl

-- A lower-case hexadecimal digit.
abbrev pub hex_digit : ℕ → ℕ
hex_digit d = if ltb d 10 then 48 + d else 87 + d

-- `%x` of a uint8_t.
unfoldable pub format_x : ℕ → Text
format_x n = if ltb n 16 then hex_digit n ∷ [] else hex_digit (n / 16) ∷ hex_digit (n % 16) ∷ []

-- The decimal digits in front of `rest`; ten rounds are enough for 32 bits.
unfoldable pub decimal : ℕ → ℕ → Text → Text
decimal zero n rest = rest
decimal (suc fuel) n rest =
    let digit = 48 + n % 10 in
    let more = decimal fuel (n / 10) (digit ∷ rest) in if ltb n 10 then digit ∷ rest else more

-- `%d` of the int with this pattern.
unfoldable pub format_d : ℕ → Text
unfolding decimal
format_d w = if ltb w 2147483648 then decimal 10 w [] else 45 ∷ decimal 10 (u32_mod - w) []

pub length-format_x : (n : ℕ) → length (format_x n) ≤ 2
unfolding format_x
length-format_x n = ground arith

length-decimal : (fuel n : ℕ) (rest : Text) → length (decimal fuel n rest) ≤ fuel + length rest
unfolding decimal
length-decimal zero n rest = omega arith
length-decimal (suc fuel) n rest =
    ground (arith, length-decimal fuel (n / 10) ((48 + n % 10) ∷ rest))

pub length-format_d : (w : ℕ) → length (format_d w) ≤ 11
unfolding format_d
length-format_d w = ground (arith, length-decimal 10 w [], length-decimal 10 (u32_mod - w) [])

-- sprintf into a buffer at an offset inside the string that it holds: what stands before the
-- offset stays, and the string now ends with the new text.
unfoldable pub sprintf_at : ℕ → Text → Text → Text
sprintf_at offset text buff = take offset buff ++ text

take-length : (xs : Text) → take (length xs) xs ≡ xs
take-length [] = refl
take-length (x ∷ xs) = ap (◌∷◌ x) (take-length xs)

-- At the end of the string sprintf appends.
pub sprintf_at-length : (text buff : Text) → sprintf_at (length buff) text buff ≡ buff ++ text
unfolding sprintf_at
sprintf_at-length text buff = ap (λ (t : Text). t ++ text) (take-length buff)

-- The string in a char array: the characters before the first NUL. Where there is none, it is the
-- whole array.
unfoldable pub c_string : List ℕ → Text
c_string [] = []
c_string (zero ∷ bs) = []
c_string (suc b ∷ bs) = suc b ∷ c_string bs
