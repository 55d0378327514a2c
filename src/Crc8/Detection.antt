-- ===== src/Crc8/Detection.antt =====
-- calculate_crc8 over whole buffers: equal ones, ones that differ in one byte, and ones that hold
-- their own checksum.
use panngo.Base.{
  ℕ, zero, suc, ◌+◌, ◌≤◌, ◌<◌, ◌≡◌, ◌≢◌, ◌↔◌, refl, sym, subst, ap, ◌∙◌, arith, List, [], ◌∷◌,
  get_or, IsByte, IsBytes, bit_xor_comm, bit_xor_self,
}
use native.Mathlib.Decide.{ℕ_discrete}
use panngo.Crc8.{crc_shift, crc_rounds, crc_byte, crc_loop, calculate_crc8}
use panngo.Crc8.Table.{crc_byte-IsByte, crc_byte_injective}

abbrev pub byte_at : List ℕ → ℕ → ℕ
byte_at buff i = get_or buff i 0

pub byte_at-IsByte : (buff : List ℕ) (i : ℕ) → IsBytes buff → IsByte (byte_at buff i)
byte_at-IsByte [] i h = omega arith
byte_at-IsByte (x ∷ xs) zero h = h.0
byte_at-IsByte (x ∷ xs) (suc i) h = byte_at-IsByte xs i h.1

module _ (a b : List ℕ) where
  -- The loop reads the bytes from `i` on and no other.
  crc_loop_agree :
      (left i crc : ℕ)
      → ((j : ℕ) → i ≤ j → j < i + left → byte_at a j ≡ byte_at b j)
      → crc_loop a left i crc ≡ crc_loop b left i crc
  unfolding crc_loop
  crc_loop_agree zero i crc same = refl
  crc_loop_agree (suc left) i crc same =
      crc_loop_agree left (i + 1) (crc_byte crc (byte_at a i))
        (λ j p q. same j (omega arith) (omega arith))
      ∙ ap (λ (t : ℕ). crc_loop b left (i + 1) (crc_byte crc t))
          (same i (omega arith) (omega arith))

  pub calculate_crc8_agree :
      (n : ℕ)
      → ((j : ℕ) → j < n → byte_at a j ≡ byte_at b j)
      → calculate_crc8 a n ≡ calculate_crc8 b n
  unfolding calculate_crc8
  calculate_crc8_agree n same = crc_loop_agree n 0 0xFF (λ j p q. same j (omega arith))

crc_byte_state_injective :
    (x y byte : ℕ) → IsByte x → IsByte y → IsByte byte → crc_byte x byte ≡ crc_byte y byte → x ≡ y
crc_byte_state_injective x y byte hx hy hb e =
    crc_byte_injective byte x y hb hx hy (swapped x ∙ e ∙ sym (swapped y))
  where
    swapped : (z : ℕ) → crc_byte byte z ≡ crc_byte z byte
    swapped z = unfold crc_byte in ap (crc_rounds 8) (bit_xor_comm byte z)

module _ (buff : List ℕ) (bytes : IsBytes buff) where
  crc_loop-IsByte : (left i crc : ℕ) → IsByte crc → IsByte (crc_loop buff left i crc)
  unfolding crc_loop
  crc_loop-IsByte zero i crc h = h
  crc_loop-IsByte (suc left) i crc h =
      crc_loop-IsByte left (i + 1) (crc_byte crc (byte_at buff i))
        (crc_byte-IsByte crc (byte_at buff i) h (byte_at-IsByte buff i bytes))

  crc_loop_injective :
      (left i x y : ℕ)
      → IsByte x
      → IsByte y
      → crc_loop buff left i x ≡ crc_loop buff left i y
      → x ≡ y
  unfolding crc_loop
  crc_loop_injective zero i x y hx hy e = e
  crc_loop_injective (suc left) i x y hx hy e =
      let byte = byte_at buff i in
      let fits = byte_at-IsByte buff i bytes in
      crc_byte_state_injective x y byte hx hy fits (
        crc_loop_injective left (i + 1) (crc_byte x byte) (crc_byte y byte)
          (crc_byte-IsByte x byte hx fits) (crc_byte-IsByte y byte hy fits) e)

  -- The checksum is a byte.
  calculate_crc8-IsByte : (n : ℕ) → IsByte (calculate_crc8 buff n)
  unfolding calculate_crc8
  calculate_crc8-IsByte n = crc_loop-IsByte n 0 0xFF (omega arith)

-- `b` is `a` with the byte at `k` changed, and no other.
pub record DifferAt (k : ℕ) (a b : List ℕ) : Type 0 where
  pub here : byte_at a k ≢ byte_at b k
  pub elsewhere : (j : ℕ) → j ≢ k → byte_at a j ≡ byte_at b j

module _ (a b : List ℕ) (k : ℕ) (a_bytes : IsBytes a) (b_bytes : IsBytes b)
    (d : DifferAt k a b) where
  -- The bytes behind `k` are the same, so that equal checksums mean equal bytes at `k`.
  same_byte :
      (left i crc : ℕ)
      → IsByte crc
      → i ≡ k
      → crc_loop a left (i + 1) (crc_byte crc (byte_at a i))
        ≡ crc_loop b left (i + 1) (crc_byte crc (byte_at b i))
      → byte_at a i ≡ byte_at b i
  same_byte left i crc h p e =
      let a_fits = byte_at-IsByte a i a_bytes in
      let b_fits = byte_at-IsByte b i b_bytes in
      let past = crc_byte crc (byte_at a i) in
      crc_byte_injective crc (byte_at a i) (byte_at b i) h a_fits b_fits (
        crc_loop_injective b b_bytes left (i + 1) past (crc_byte crc (byte_at b i))
          (crc_byte-IsByte crc (byte_at a i) h a_fits) (crc_byte-IsByte crc (byte_at b i) h b_fits)
          (sym (crc_loop_agree a b left (i + 1) past (λ j q r. d.elsewhere j (omega arith))) ∙ e))

  crc_loop-DifferAt :
      (left i crc : ℕ)
      → IsByte crc
      → i ≤ k
      → k < i + left
      → crc_loop a left i crc ≢ crc_loop b left i crc
  unfolding crc_loop
  crc_loop-DifferAt zero i crc h below above e = absurd (omega arith)
  crc_loop-DifferAt (suc left) i crc h below above e = elim (ℕ_discrete i k) [
    | yes p ↦ d.here (subst (λ t. byte_at a t ≡ byte_at b t) p (same_byte left i crc h p e))
    | no p ↦
        crc_loop-DifferAt left (i + 1) (crc_byte crc (byte_at a i))
          (crc_byte-IsByte crc (byte_at a i) h (byte_at-IsByte a i a_bytes)) (omega arith)
          (omega arith)
          (e ∙ ap (λ (t : ℕ). crc_loop b left (i + 1) (crc_byte crc t)) (sym (d.elsewhere i p)))
  ]

  -- Changing one byte that the checksum covers changes the checksum.
  pub calculate_crc8-DifferAt : (n : ℕ) → k < n → calculate_crc8 a n ≢ calculate_crc8 b n
  unfolding calculate_crc8
  calculate_crc8-DifferAt n below =
      crc_loop-DifferAt n 0 0xFF (omega arith) (omega arith) (omega arith)

crc_loop_last :
    (buff : List ℕ) (n i crc : ℕ)
    → crc_loop buff (suc n) i crc ≡ crc_byte (crc_loop buff n i crc) (byte_at buff (i + n))
unfolding crc_loop
crc_loop_last buff zero i crc = ap (λ (t : ℕ). crc_byte crc (byte_at buff t)) (omega arith)
crc_loop_last buff (suc n) i crc =
    crc_loop_last buff n (i + 1) (crc_byte crc (byte_at buff i))
    ∙ ap
        (λ (t : ℕ).
          crc_byte (crc_loop buff n (i + 1) (crc_byte crc (byte_at buff i))) (byte_at buff t))
        (omega arith)

crc_byte_self : (x : ℕ) → crc_byte x x ≡ 0
unfolding crc_byte
crc_byte_self x = ap (crc_rounds 8) (bit_xor_self x) ∙ zeros
  where
    zeros : crc_rounds 8 0 ≡ 0
    zeros = unfold crc_rounds crc_shift in refl

-- For a buffer of bytes, the checksum of n + 1 of them is 0 exactly when the last one of them is
-- the checksum of the n before it.
calculate_crc8_residue :
    (buff : List ℕ) (n : ℕ)
    → IsBytes buff
    → (calculate_crc8 buff (suc n) ≡ 0) ↔ (byte_at buff n ≡ calculate_crc8 buff n)
unfolding calculate_crc8
calculate_crc8_residue buff n bytes = (to, from)
  where
    crc : ℕ
    crc = crc_loop buff n 0 0xFF

    fits : IsByte crc
    fits = crc_loop-IsByte buff bytes n 0 0xFF (omega arith)

    last : crc_loop buff (suc n) 0 0xFF ≡ crc_byte crc (byte_at buff n)
    last = crc_loop_last buff n 0 0xFF ∙ ap (λ (t : ℕ). crc_byte crc (byte_at buff t)) (omega arith)

    to : crc_loop buff (suc n) 0 0xFF ≡ 0 → byte_at buff n ≡ crc
    to e =
        crc_byte_injective crc (byte_at buff n) crc fits (byte_at-IsByte buff n bytes) fits
          (sym last ∙ e ∙ sym (crc_byte_self crc))

    from : byte_at buff n ≡ crc → crc_loop buff (suc n) 0 0xFF ≡ 0
    from e = last ∙ ap (crc_byte crc) e ∙ crc_byte_self crc
