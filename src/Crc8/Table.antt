-- ===== src/Crc8/Table.antt =====
-- The rounds of the checksum over all 256 values of a byte.
use panngo.Base.{
  ℕ, zero, suc, ◌+◌, ◌/◌, ◌%◌, ◌≡◌, refl, sym, ap, ◌∙◌, arith, bit_xor, true, ◌==◌, ==_iff,
  if◌then◌else◌, holds_below, holds_below_lem, bit_xor-lt_pow, bit_xor_injective, IsByte,
}
use panngo.Crc8.{crc_polynomial, crc_shift, crc_rounds, crc_byte}

-- The round before: an odd value had the polynomial taken in, since that is odd.
unshift : ℕ → ℕ
unshift crc = if crc % 2 == 0 then crc / 2 else bit_xor crc crc_polynomial / 2 + 128

unshift_table : holds_below (λ x. unshift (crc_shift x) == x) 256 ≡ true
unfolding holds_below unshift crc_shift
unshift_table = refl

unshift-crc_shift : (x : ℕ) → IsByte x → unshift (crc_shift x) ≡ x
unshift-crc_shift x h = (==_iff _ x).0 (holds_below_lem _ 256 x h unshift_table)

crc_shift-IsByte : (x : ℕ) → IsByte (crc_shift x)
unfolding crc_shift
crc_shift-IsByte x = ground arith

crc_shift_injective : (x y : ℕ) → IsByte x → IsByte y → crc_shift x ≡ crc_shift y → x ≡ y
crc_shift_injective x y hx hy e =
    sym (unshift-crc_shift x hx) ∙ ap unshift e ∙ unshift-crc_shift y hy

crc_rounds_injective : (k x y : ℕ) → IsByte x → IsByte y → crc_rounds k x ≡ crc_rounds k y → x ≡ y
unfolding crc_rounds
crc_rounds_injective zero x y hx hy e = e
crc_rounds_injective (suc k) x y hx hy e =
    crc_shift_injective x y hx hy (
      crc_rounds_injective k (crc_shift x) (crc_shift y) (crc_shift-IsByte x) (crc_shift-IsByte y)
        e)

crc_rounds-IsByte : (k x : ℕ) → IsByte x → IsByte (crc_rounds k x)
unfolding crc_rounds
crc_rounds-IsByte zero x h = h
crc_rounds-IsByte (suc k) x h = crc_rounds-IsByte k (crc_shift x) (crc_shift-IsByte x)

bit_xor-IsByte : (a b : ℕ) → IsByte a → IsByte b → IsByte (bit_xor a b)
bit_xor-IsByte = bit_xor-lt_pow 8

module _ (crc byte : ℕ) (crc_fits : IsByte crc) (byte_fits : IsByte byte) where
  pub crc_byte-IsByte : IsByte (crc_byte crc byte)
  unfolding crc_byte
  crc_byte-IsByte =
      crc_rounds-IsByte 8 (bit_xor crc byte) (bit_xor-IsByte crc byte crc_fits byte_fits)

-- Two data bytes that give one checksum are the same byte.
pub crc_byte_injective :
    (crc a b : ℕ) → IsByte crc → IsByte a → IsByte b → crc_byte crc a ≡ crc_byte crc b → a ≡ b
unfolding crc_byte
crc_byte_injective crc a b hc ha hb e =
    bit_xor_injective crc a b
      (crc_rounds_injective 8 _ _ (bit_xor-IsByte crc a hc ha) (bit_xor-IsByte crc b hc hb) e)
