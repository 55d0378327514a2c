-- ===== src/Stm/Console.antt =====
-- STM/PANGO_L/PNG/Src/Tools.c: printf and scanf on a UART. The bytes that the UART brings are a
-- list; a receive waits where it ends, since its timeout is HAL_MAX_DELAY, and its result, like
-- that of a transmission, is not looked at.
pub mod Lines
use panngo.Base.{
  ℕ, zero, suc, ◌+◌, List, [], ◌∷◌, ◌++◌, Bool, Option, none, some, u8, take, ◌||◌, ◌==◌,
  if◌then◌else◌,
}

-- What has gone out on the UART, the latest last.
pub record Console : Type 0 where
  pub incoming : List ℕ
  pub outgoing : List ℕ

-- The result, and the console. `&ch` is the address of the int's low byte.
unfoldable pub __io_putchar : ℕ → Console → ℕ × Console
__io_putchar ch c = (ch, record c { outgoing = c.outgoing ++ u8 ch ∷ [] })

-- `bytes` are those at `ptr`.
unfoldable pub _write : List ℕ → ℕ → Console → ℕ × Console
_write bytes len c = (len, record c { outgoing = c.outgoing ++ take len bytes })

-- The byte comes, and goes out again.
unfoldable pub __io_getchar : Console → Option (ℕ × Console)
__io_getchar c = elim c.incoming [
  | [] ↦ none
  | ch ∷ rest ↦ some (ch, record { incoming = rest; outgoing = c.outgoing ++ ch ∷ [] })
]

-- What _read has done: its result, and the bytes that it has written from `ptr` on, without a gap.
-- It waits where no byte comes.
pub data Reading : Type 0 where
  waits : List ℕ → Reading
  returns : ℕ → List ℕ → Console → Reading

abbrev pub is_newline : ℕ → Bool
is_newline ch = ch == 13 || ch == 10

-- The loop, with the rounds that are left: DataIdx, and what has been written.
unfoldable pub read_loop : ℕ → ℕ → List ℕ → Console → Reading
unfolding __io_getchar
read_loop zero data_idx written c = returns (data_idx + 1) written c
read_loop (suc left) data_idx written c = elim (__io_getchar c) [
  | none ↦ waits written
  | some (ch, c') ↦
      let stored = written ++ ch ∷ [] in
      let rest = read_loop left (data_idx + 1) stored c' in
      if is_newline ch then returns (data_idx + 1) (stored ++ 0 ∷ []) c' else rest
]

unfoldable pub _read : ℕ → Console → Reading
unfolding read_loop
_read len c = read_loop len 0 [] c
