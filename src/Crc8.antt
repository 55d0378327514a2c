-- ===== src/Crc8.antt =====
-- The CRC-8 checksum: calculate_crc8 of STM/PANGO_L/PNG/Src/pango_functions.c. client/client_func.c
-- and server/client/client_thread_func.c hold the same loop again, as calculateCRC8; their own
-- copies are in Client/Crc.antt and Server/Crc.antt. A uint8_t keeps its wrap as `% 256`; the
-- counters `j` (uint8_t, up to 8) and `i` (uint32_t, up to the length) do not wrap.
pub mod Table
pub mod Detection
use Prim.Native.Nat.{bit_and}
use panngo.Base.{ℕ, zero, suc, ◌+◌, ◌*◌, List, bit_xor, ◌==◌, if◌then◌else◌, u8, get_or}

-- CRC_POLYNOMIAL
abbrev pub crc_polynomial : ℕ
crc_polynomial = 0x8D

-- The body of the loop over `j`.
unfoldable pub crc_shift : ℕ → ℕ
crc_shift crc =
    if bit_and crc 0x80 == 0 then u8 (crc * 2) else u8 (bit_xor (crc * 2) crc_polynomial)

-- The loop over `j`, with the rounds that are left.
unfoldable pub crc_rounds : ℕ → ℕ → ℕ
crc_rounds zero crc = crc
crc_rounds (suc left) crc = crc_rounds left (crc_shift crc)

-- The body of the loop over `i`: one byte of data goes in.
unfoldable pub crc_byte : ℕ → ℕ → ℕ
crc_byte crc byte = crc_rounds 8 (bit_xor crc byte)

-- The loop over `i`, with the bytes that are left.
unfoldable pub crc_loop : List ℕ → ℕ → ℕ → ℕ → ℕ
crc_loop buff zero i crc = crc
crc_loop buff (suc left) i crc = crc_loop buff left (i + 1) (crc_byte crc (get_or buff i 0))

-- A caller's array is at least as long as `length`, so that no read is past its end.
unfoldable pub calculate_crc8 : List ℕ → ℕ → ℕ
calculate_crc8 buff length = crc_loop buff length 0 0xFF
