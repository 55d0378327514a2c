-- ===== src/Server/Packet/Memory/Stored.antt =====
-- What the writes of store_client_data_in_struct leave in `mac_address`, and where they go.
use panngo.Base.{
  c_string, ℕ, zero, suc, ◌+◌, ◌≤◌, ◌<◌, ◌≡◌, ◌≢◌, refl, sym, subst, ap, ◌∙◌, arith, List, [], ◌∷◌,
  ◌++◌, Text, length, length-append, get_or, set, All, All-append, format_x,
}
use mathlib.Core.List.{append-nil, append_assoc}
use panngo.Server.Data.{PangoData, crc8_test_failed}
use panngo.Server.Packet.{store_client_data_in_struct}
use panngo.Server.Packet.Mac.{mac_text, length-mac_text}
use panngo.Server.Packet.Store.{mac_bytes, store_client_data_in_struct_lem}
use panngo.Server.Packet.Memory.{sprintf_writes, store_writes, written}
use panngo.Server.Packet.Memory.Writes.{colon, mac_writes, store_writes_lem}

abbrev IsWithin : ℕ → ℕ × ℕ → Type 0
IsWithin n w = w.0 < n

sprintf_writes-IsWithin :
    (n offset : ℕ) (f : Text) → offset + length f < n → All (IsWithin n) (sprintf_writes offset f)
unfolding sprintf_writes
sprintf_writes-IsWithin n offset [] h = (omega (arith, h), tt)
sprintf_writes-IsWithin n offset (c ∷ f) h =
    (omega (arith, h), sprintf_writes-IsWithin n (offset + 1) f (omega (arith, h)))

-- The length of the address as far as it goes on behind its first byte.
length-mac_text-suc :
    (b c : ℕ) (bs : List ℕ)
    → length (mac_text (b ∷ c ∷ bs)) ≡ length (colon (format_x b)) + length (mac_text (c ∷ bs))
unfolding mac_text
length-mac_text-suc b c bs =
    ap length (sym (append_assoc (format_x b) (b':' ∷ []) (mac_text (c ∷ bs))))
    ∙ length-append (colon (format_x b)) (mac_text (c ∷ bs))

mac_writes-IsWithin :
    (n offset b : ℕ) (bs : List ℕ)
    → offset + length (mac_text (b ∷ bs)) < n
    → All (IsWithin n) (mac_writes offset (b ∷ bs))
unfolding mac_text
mac_writes-IsWithin n offset b [] h = sprintf_writes-IsWithin n offset (format_x b) h
mac_writes-IsWithin n offset b (c ∷ bs) h =
    let all = length-mac_text-suc b c bs in
    All-append (IsWithin n) (sprintf_writes offset (colon (format_x b)))
      (mac_writes (offset + length (colon (format_x b))) (c ∷ bs))
      (sprintf_writes-IsWithin n offset (colon (format_x b)) (omega (arith, all, h)))
      (mac_writes-IsWithin n (offset + length (colon (format_x b))) c bs (omega (arith, all, h)))

set-append :
    (pre : List ℕ) (o v : ℕ) (post : List ℕ)
    → set (pre ++ o ∷ post) (length pre) v ≡ pre ++ v ∷ post
set-append [] o v post = refl
set-append (x ∷ pre) o v post = ap (◌∷◌ x) (set-append pre o v post)

written-append :
    (ws ws' : List (ℕ × ℕ)) (a : List ℕ) → written (ws ++ ws') a ≡ written ws' (written ws a)
unfolding written
written-append [] ws' a = refl
written-append ((i, b) ∷ ws) ws' a = written-append ws ws' (set a i b)

-- The array from `pre` on, behind sprintf of `f`.
record IsPrinted (pre f old result : List ℕ) : Type 0 where
  rest : List ℕ
  same : result ≡ (pre ++ f) ++ 0 ∷ rest
  left : length f + suc (length rest) ≡ length old

sprintf-IsPrinted :
    (pre f old : List ℕ)
    → length f < length old
    → IsPrinted pre f old (written (sprintf_writes (length pre) f) (pre ++ old))
unfolding written sprintf_writes
sprintf-IsPrinted pre f [] h = absurd (omega (arith, h))
sprintf-IsPrinted pre [] (o ∷ old) h = record {
  rest = old;
  same = set-append pre o 0 old ∙ ap (λ (t : Text). t ++ 0 ∷ old) (sym (append-nil pre));
  left = omega arith;
}
sprintf-IsPrinted pre (c ∷ f) (o ∷ old) h =
    let next = sprintf-IsPrinted (pre ++ c ∷ []) f old (omega (arith, h)) in
    record {
      rest = next.rest;
      same =
          ap (written (sprintf_writes (length pre + 1) f))
            (set-append pre o c old ∙ sym (append_assoc pre (c ∷ []) old))
          ∙ ap (λ n. written (sprintf_writes n f) ((pre ++ c ∷ []) ++ old))
              (sym (length-append pre (c ∷ [])))
          ∙ next.same
          ∙ ap (λ (t : Text). t ++ 0 ∷ next.rest) (append_assoc pre (c ∷ []) f);
      left = omega (arith, next.left);
    }

mac-IsPrinted :
    (pre : List ℕ) (b : ℕ) (bs old : List ℕ)
    → length (mac_text (b ∷ bs)) < length old
    → IsPrinted pre
        (mac_text (b ∷ bs))
        old
        (written (mac_writes (length pre) (b ∷ bs)) (pre ++ old))
unfolding mac_text
mac-IsPrinted pre b [] old h = sprintf-IsPrinted pre (format_x b) old h
mac-IsPrinted pre b (c ∷ bs) old h =
    let f = colon (format_x b) in
    let all = length-mac_text-suc b c bs in
    let here = sprintf-IsPrinted pre f old (omega (arith, all, h)) in
    let next = mac-IsPrinted (pre ++ f) c bs (0 ∷ here.rest) (omega (arith, all, h, here.left)) in
    record {
      rest = next.rest;
      same =
          written-append (sprintf_writes (length pre) f)
            (mac_writes (length pre + length f) (c ∷ bs)) (pre ++ old)
          ∙ ap (written (mac_writes (length pre + length f) (c ∷ bs))) here.same
          ∙ ap (λ n. written (mac_writes n (c ∷ bs)) ((pre ++ f) ++ 0 ∷ here.rest))
              (sym (length-append pre f))
          ∙ next.same
          ∙ ap (λ (t : Text). t ++ 0 ∷ next.rest)
              (append_assoc pre f (mac_text (c ∷ bs))
                ∙ ap (λ (t : Text). pre ++ t)
                    (append_assoc (format_x b) (b':' ∷ []) (mac_text (c ∷ bs))));
      left = omega (arith, all, here.left, next.left);
    }

abbrev IsPositive : ℕ → Type 0
IsPositive c = 0 < c

format_x-IsPositive : (b : ℕ) → All IsPositive (format_x b)
unfolding format_x
format_x-IsPositive b = ground arith

mac_text-IsPositive : (bs : List ℕ) → All IsPositive (mac_text bs)
unfolding mac_text
mac_text-IsPositive [] = tt
mac_text-IsPositive (b ∷ []) = format_x-IsPositive b
mac_text-IsPositive (b ∷ c ∷ bs) =
    All-append IsPositive (format_x b) (b':' ∷ mac_text (c ∷ bs)) (format_x-IsPositive b)
      (omega arith, mac_text-IsPositive (c ∷ bs))

c_string-append : (t rest : List ℕ) → All IsPositive t → c_string (t ++ 0 ∷ rest) ≡ t
unfolding c_string
c_string-append [] rest h = refl
c_string-append (zero ∷ t) rest h = absurd (omega (arith, h.0))
c_string-append (suc c ∷ t) rest h = ap (◌∷◌ (suc c)) (c_string-append t rest h.1)

abbrev other_bytes : List ℕ → List ℕ
other_bytes buff =
    get_or buff 2 0 ∷ get_or buff 3 0 ∷ get_or buff 4 0 ∷ get_or buff 5 0 ∷ get_or buff 6 0 ∷ []

module _ {F : Type 0} where
  -- Unless the status is CRC8_TEST_FAILED, the byte writes of store_client_data_in_struct to
  -- `mac_address` stay inside its 18 bytes, and leave in them, whatever they held, the string that
  -- the model of the function on strings leaves.
  pub store_writes_refine :
      (status : ℕ) (buff array : List ℕ) (client : PangoData F)
      → status ≢ crc8_test_failed
      → length array ≡ 18
      → All (λ w. w.0 < 18) (store_writes buff 8 0 0)
        × (c_string (written (store_writes buff 8 0 0) array)
            ≡ (store_client_data_in_struct status buff client).1.mac_address)
  store_writes_refine status buff array client fresh whole = (
    subst (All (IsWithin 18)) (sym (store_writes_lem buff))
        (mac_writes-IsWithin 18 0 (get_or buff 1 0) (other_bytes buff) (omega (arith, short))),
    ap (λ ws. c_string (written ws array)) (store_writes_lem buff)
        ∙ ap c_string printed.same
        ∙ c_string-append (mac_text (mac_bytes buff)) printed.rest
            (mac_text-IsPositive (mac_bytes buff))
        ∙ ground (arith, store_client_data_in_struct_lem status buff client, fresh),
  )
    where
      short : length (mac_text (mac_bytes buff)) ≤ 17
      short = length-mac_text (get_or buff 1 0) (other_bytes buff)

      printed :
          IsPrinted []
            (mac_text (mac_bytes buff))
            array
            (written (mac_writes 0 (mac_bytes buff)) array)
      printed =
          mac-IsPrinted [] (get_or buff 1 0) (other_bytes buff) array (omega (arith, short, whole))
