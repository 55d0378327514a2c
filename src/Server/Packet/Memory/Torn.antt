-- ===== src/Server/Packet/Memory/Torn.antt =====
-- The string in `mac_address` while a packet with the address that it holds is stored.
use panngo.Base.{
  c_string, ℕ, zero, suc, ◌+◌, ◌<◌, ◌≡◌, ◌≢◌, ◌⊎◌, inl, inr, refl, sym, subst, ap, ◌∙◌, arith, List,
  [], ◌∷◌, ◌++◌, Text, length, length-append, get_or, set, All, All-weaken, format_x,
}
use mathlib.Core.List.{append_assoc}
use panngo.Server.Packet.Mac.{mac_text}
use panngo.Server.Packet.Store.{mac_bytes}
use panngo.Server.Packet.Memory.{sprintf_writes, store_writes, written, moments}
use panngo.Server.Packet.Memory.Writes.{colon, mac_writes, store_writes_lem}

set-get_or : (xs : List ℕ) (i : ℕ) → set xs i (get_or xs i 0) ≡ xs
set-get_or [] i = refl
set-get_or (x ∷ xs) zero = refl
set-get_or (x ∷ xs) (suc i) = ap (◌∷◌ x) (set-get_or xs i)

set-set : (xs : List ℕ) (i v : ℕ) → set (set xs i v) i (get_or xs i 0) ≡ xs
set-set [] i v = refl
set-set (x ∷ xs) zero v = refl
set-set (x ∷ xs) (suc i) v = ap (◌∷◌ x) (set-set xs i v)

-- The array has the text at the offset.
abbrev Reads : List ℕ → ℕ → Text → Type 0
Reads w offset [] = Unit
Reads w offset (c ∷ cs) = (get_or w offset 0 ≡ c) × Reads w (offset + 1) cs

Reads-append :
    (w : List ℕ) (offset : ℕ) (f g : Text)
    → Reads w offset (f ++ g)
    → Reads w offset f × Reads w (offset + length f) g
Reads-append w offset [] g r = (tt, subst (λ n. Reads w n g) (omega arith) r)
Reads-append w offset (c ∷ f) g (here, r) =
    let (front, back) = Reads-append w (offset + 1) f g r in
    ((here, front), subst (λ n. Reads w n g) (omega arith) back)

Reads-suc :
    (b : ℕ) (w : List ℕ) (offset : ℕ) (t : Text) → Reads w offset t → Reads (b ∷ w) (suc offset) t
Reads-suc b w offset [] r = tt
Reads-suc b w offset (c ∷ t) (here, r) =
    (here, subst (λ n. Reads (b ∷ w) n t) (omega arith) (Reads-suc b w (offset + 1) t r))

c_string-Reads : (w : List ℕ) → Reads w 0 (c_string w) × (get_or w (length (c_string w)) 0 ≡ 0)
unfolding c_string
c_string-Reads [] = (tt, refl)
c_string-Reads (zero ∷ w) = (tt, refl)
c_string-Reads (suc b ∷ w) =
    let (r, ends) = c_string-Reads w in ((refl, Reads-suc (suc b) w 0 (c_string w) r), ends)

moments-append :
    (P : List ℕ → Type 0) (ws ws' : List (ℕ × ℕ)) (a : List ℕ)
    → All P (moments ws a)
    → All P (moments ws' (written ws a))
    → All P (moments (ws ++ ws') a)
unfolding moments written
moments-append P [] ws' a front back = back
moments-append P ((i, b) ∷ ws) ws' a (first, front) back =
    (first, moments-append P ws ws' (set a i b) front back)

format_x-ne : (b : ℕ) → format_x b ≢ []
unfolding format_x
format_x-ne b e = ground arith

colon-ne : (t : Text) → colon t ≢ []
colon-ne [] e = ground (arith, e)
colon-ne (c ∷ t) e = ground (arith, e)

-- A field that is written over itself: only the NUL behind it changes the array.
module _ (w : List ℕ) where
  sprintf-written :
      (offset : ℕ) (f : Text)
      → Reads w offset f
      → written (sprintf_writes offset f) w ≡ set w (offset + length f) 0
  unfolding written sprintf_writes
  sprintf-written offset [] r = ap (λ n. set w n 0) (omega arith)
  sprintf-written offset (c ∷ f) (here, r) =
      ap (written (sprintf_writes (offset + 1) f))
        (ap (set w offset) (sym here) ∙ set-get_or w offset)
      ∙ sprintf-written (offset + 1) f r
      ∙ ap (λ n. set w n 0) (omega arith)

  module _ (P : List ℕ → Type 0) (whole : P w) where
    sprintf-moments :
        (offset : ℕ) (f : Text)
        → Reads w offset f
        → P (set w (offset + length f) 0)
        → All P (moments (sprintf_writes offset f) w)
    unfolding moments sprintf_writes
    sprintf-moments offset [] r h = (whole, (subst (λ n. P (set w n 0)) (omega arith) h, tt))
    sprintf-moments offset (c ∷ f) (here, r) h = (
      whole,
      subst (λ (a : List ℕ). All P (moments (sprintf_writes (offset + 1) f) a))
          (sym (ap (set w offset) (sym here) ∙ set-get_or w offset))
          (sprintf-moments (offset + 1) f r (subst (λ n. P (set w n 0)) (omega arith) h)),
    )

    -- The array may begin with another character at the offset.
    field-moments :
        (a : List ℕ) (offset : ℕ) (f : Text)
        → f ≢ []
        → P a
        → set a offset (get_or w offset 0) ≡ w
        → Reads w offset f
        → P (set w (offset + length f) 0)
        → All P (moments (sprintf_writes offset f) a)
          × (written (sprintf_writes offset f) a ≡ set w (offset + length f) 0)
    unfolding moments written sprintf_writes
    field-moments a offset [] some_text first mended r h = absurd (some_text refl)
    field-moments a offset (c ∷ f) some_text first mended (here, r) h =
        let second : set a offset c ≡ w = ap (set a offset) (sym here) ∙ mended in
        (
          (
            first,
            subst (λ (a' : List ℕ). All P (moments (sprintf_writes (offset + 1) f) a')) (sym second)
                (sprintf-moments (offset + 1) f r (subst (λ n. P (set w n 0)) (omega arith) h)),
          ),
          ap (written (sprintf_writes (offset + 1) f)) second
              ∙ sprintf-written (offset + 1) f r
              ∙ ap (λ n. set w n 0) (omega arith),
        )

  -- Whole, or with a NUL behind a colon among the first `n` characters.
  abbrev IsMoment : ℕ → List ℕ → Type 0
  IsMoment n a = (a ≡ w) ⊎ ((m : ℕ) × (m < n) × (get_or w m 0 ≡ b':') × (a ≡ set w (suc m) 0))

  mac-moments :
      (n : ℕ) (a : List ℕ) (offset b : ℕ) (bs : List ℕ)
      → IsMoment n a
      → set a offset (get_or w offset 0) ≡ w
      → Reads w offset (mac_text (b ∷ bs))
      → offset + length (mac_text (b ∷ bs)) ≡ n
      → get_or w n 0 ≡ 0
      → All (IsMoment n) (moments (mac_writes offset (b ∷ bs)) a)
  unfolding mac_text
  mac-moments n a offset b [] first mended r ends nul =
      (field-moments (IsMoment n) (inl refl) a offset (format_x b) (format_x-ne b) first mended r
        (inl (ap (λ m. set w m 0) ends ∙ ap (set w n) (sym nul) ∙ set-get_or w n))).0
  mac-moments n a offset b (c ∷ bs) first mended r ends nul =
      let f = colon (format_x b) in
      let rest = mac_text (c ∷ bs) in
      let (front, back) =
        Reads-append w offset f rest
          (subst (Reads w offset) (sym (append_assoc (format_x b) (b':' ∷ []) rest)) r) in
      let (digits, mark) = Reads-append w offset (format_x b) (b':' ∷ []) front in
      let marked = length-append (format_x b) (b':' ∷ []) in
      let all : length (mac_text (b ∷ c ∷ bs)) ≡ length f + length rest =
        ap length (sym (append_assoc (format_x b) (b':' ∷ []) rest)) ∙ length-append f rest in
      let fits : offset + length (format_x b) < n = omega (arith, marked, all, ends) in
      let cut : IsMoment n (set w (offset + length f) 0) =
        inr (
          offset + length (format_x b),
          fits,
          mark.0,
          ap (λ m. set w m 0) (omega (arith, marked)),
        ) in
      let (here, after) =
        field-moments (IsMoment n) (inl refl) a offset f (colon-ne (format_x b)) first mended front
          cut in
      moments-append (IsMoment n) (sprintf_writes offset f)
        (mac_writes (offset + length f) (c ∷ bs)) a here
        (subst (λ a'. All (IsMoment n) (moments (mac_writes (offset + length f) (c ∷ bs)) a'))
          (sym after)
          (mac-moments n (set w (offset + length f) 0) (offset + length f) c bs cut
            (set-set w (offset + length f) 0) back (omega (arith, all, ends)) nul))

c_string-set :
    (w : List ℕ) (m v : ℕ)
    → m < length (c_string w)
    → get_or w m 0 ≡ v
    → (t : Text) × (c_string (set w (suc m) 0) ≡ t ++ v ∷ [])
unfolding c_string
c_string-set [] m v h e = absurd (omega (arith, h))
c_string-set (zero ∷ w) m v h e = absurd (omega (arith, h))
c_string-set (suc b ∷ []) zero v h e = ([], ap (λ (x : ℕ). x ∷ []) e)
c_string-set (suc b ∷ c ∷ w) zero v h e = ([], ap (λ (x : ℕ). x ∷ []) e)
c_string-set (suc b ∷ w) (suc m) v h e =
    let (t, e') = c_string-set w m v (omega (arith, h)) e in (suc b ∷ t, ap (◌∷◌ (suc b)) e')

-- The whole address, or a part of it that ends in a colon.
abbrev pub IsTorn : Text → Text → Type 0
IsTorn mac t = (t ≡ mac) ⊎ ((s : Text) × (t ≡ s ++ b':' ∷ []))

pub store_moments :
    (buff w : List ℕ)
    → c_string w ≡ mac_text (mac_bytes buff)
    → All
        (λ a. IsTorn (mac_text (mac_bytes buff)) (c_string a))
        (moments (store_writes buff 8 0 0) w)
store_moments buff w holds =
    let (r, nul) = c_string-Reads w in
    let n = length (c_string w) in
    All-weaken (IsMoment w n) (λ a. IsTorn (mac_text (mac_bytes buff)) (c_string a))
      (moments (store_writes buff 8 0 0) w)
      (λ a at. elim at [
        | inl e ↦ inl (ap c_string e ∙ holds)
        | inr (m, below, mark, e) ↦
            let (t, e') = c_string-set w m b':' below mark in inr (t, ap c_string e ∙ e')
      ])
      (subst (λ ws. All (IsMoment w n) (moments ws w)) (sym (store_writes_lem buff))
        (mac-moments w n w 0 (get_or buff 1 0) _ (inl refl) (set-get_or w 0)
          (subst (Reads w 0) holds r) (omega (arith, ap length holds)) nul))
