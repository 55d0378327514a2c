-- ===== src/Server/Packet/Mac.antt =====
-- The text of a MAC address in struct pango_data, the key of a client's row.
use panngo.Base.{
  ℕ, ◌+◌, ◌*◌, ◌≤◌, ◌≡◌, refl, ap, arith, List, [], ◌∷◌, ◌++◌, Text, format_x, length,
  length-append, length-format_x, IsByte, IsBytes,
}

-- "%x:%x:…:%x".
unfoldable pub mac_text : List ℕ → Text
mac_text [] = []
mac_text (b ∷ []) = format_x b
mac_text (b ∷ c ∷ bs) = format_x b ++ b':' ∷ mac_text (c ∷ bs)

-- n bytes make at most 3 n - 1 characters, which is 17 for the six of a MAC address.
pub length-mac_text : (b : ℕ) (bs : List ℕ) → length (mac_text (b ∷ bs)) ≤ 2 + 3 * length bs
unfolding mac_text
length-mac_text b [] = omega (arith, length-format_x b)
length-mac_text b (c ∷ bs) = omega (
  arith,
  length-format_x b,
  length-append (format_x b) (b':' ∷ mac_text (c ∷ bs)),
  length-mac_text c bs,
)

format_x_injective : (a b : ℕ) → IsByte a → IsByte b → format_x a ≡ format_x b → a ≡ b
unfolding format_x
format_x_injective a b ha hb e = ground arith

-- A colon is no digit, so that the first one ends the first byte.
format_x_split :
    (a b : ℕ) (s t : Text)
    → IsByte a
    → IsByte b
    → format_x a ++ b':' ∷ s ≡ format_x b ++ b':' ∷ t
    → (a ≡ b) × (s ≡ t)
unfolding format_x
format_x_split a b s t ha hb e = ground arith

-- Two addresses of equally many bytes with the same text, as "%x" with colons in between writes it,
-- are the same.
pub mac_text_injective :
    (xs ys : List ℕ)
    → IsBytes xs
    → IsBytes ys
    → length xs ≡ length ys
    → mac_text xs ≡ mac_text ys
    → xs ≡ ys
unfolding mac_text
mac_text_injective [] [] hx hy n e = refl
mac_text_injective [] (y ∷ ys) hx hy n e = absurd (omega arith)
mac_text_injective (x ∷ xs) [] hx hy n e = absurd (omega arith)
mac_text_injective (x ∷ []) (y ∷ []) hx hy n e =
    ap (λ (t : ℕ). t ∷ []) (format_x_injective x y hx.0 hy.0 e)
mac_text_injective (x ∷ []) (y ∷ z ∷ ys) hx hy n e = absurd (omega arith)
mac_text_injective (x ∷ z ∷ xs) (y ∷ []) hx hy n e = absurd (omega arith)
mac_text_injective (x ∷ u ∷ xs) (y ∷ v ∷ ys) hx hy n e =
    let (first, others) = format_x_split x y _ _ hx.0 hy.0 e in
    cc (first, mac_text_injective (u ∷ xs) (v ∷ ys) hx.1 hy.1 (omega arith) others)
