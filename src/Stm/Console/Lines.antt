-- ===== src/Stm/Console/Lines.antt =====
-- The lines that _read of STM/PANGO_L/PNG/Src/Tools.c takes.
use panngo.Base.{ℕ, ◌+◌, ◌<◌, ◌≡◌, ◌≢◌, ◌⊎◌, List, [], ◌∷◌, ◌++◌, All, length}
use panngo.Stm.Console.{Console, Reading, waits, returns}

-- A carriage return, or a line feed.
abbrev pub IsNewline : ℕ → Type 0
IsNewline ch = (ch ≡ 13) ⊎ (ch ≡ 10)

-- No byte of it ends a line.
abbrev pub IsText : List ℕ → Type 0
IsText bytes = All (λ ch. (ch ≢ 13) × (ch ≢ 10)) bytes

-- What `len` bytes at most of what comes are: a line that ends among them, a text that fills them,
-- or one that is shorter.
data Line (len : ℕ) (incoming : List ℕ) : Type 0 where
  ending :
      (text : List ℕ) (end : ℕ) (rest : List ℕ)
      → IsText text
      → IsNewline end
      → length text < len
      → incoming ≡ text ++ end ∷ rest
      → Line len incoming
  filling :
      (text rest : List ℕ)
      → IsText text
      → length text ≡ len
      → incoming ≡ text ++ rest
      → Line len incoming
  short : IsText incoming → length incoming < len → Line len incoming

-- What a _read of `len` bytes comes to. A line that ends within them is stored with its end and a
-- NUL; a text of `len` bytes is stored without a NUL, and the result is one more than its size; and
-- a shorter text that no end follows is stored, and _read waits. All that was taken has gone out.
pub data IsRead (len : ℕ) (c : Console) (reading : Reading) : Type 0 where
  line :
      (text : List ℕ) (end : ℕ) (rest : List ℕ)
      → IsText text
      → IsNewline end
      → length text < len
      → c.incoming ≡ text ++ end ∷ rest
      → reading
        ≡ returns
            (length text + 1)
            (text ++ end ∷ 0 ∷ [])
            (record { incoming = rest; outgoing = c.outgoing ++ (text ++ end ∷ []) })
      → IsRead len c reading
  full :
      (text rest : List ℕ)
      → IsText text
      → length text ≡ len
      → c.incoming ≡ text ++ rest
      → reading ≡ returns (len + 1) text (record { incoming = rest; outgoing = c.outgoing ++ text })
      → IsRead len c reading
  unfinished :
      IsText c.incoming
      → length c.incoming < len
      → reading ≡ waits c.incoming
      → IsRead len c reading
