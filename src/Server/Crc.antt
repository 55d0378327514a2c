-- ===== src/Server/Crc.antt =====
-- calculateCRC8 and CRC_8_check of server/client/client_thread_func.c.
use panngo.Base.{ℕ, zero, suc, ◌+◌, ◌≡◌, refl, List, Bool, true, false, get_or, ◌==◌, if◌then◌else◌}
use panngo.Crc8
use panngo.Crc8.{crc_byte}
use panngo.Server.Data.{crc8_test_failed}

unfoldable crc_loop : List ℕ → ℕ → ℕ → ℕ → ℕ
crc_loop buff zero i crc = crc
crc_loop buff (suc left) i crc = crc_loop buff left (i + 1) (crc_byte crc (get_or buff i 0))

unfoldable pub calculate_crc8 : List ℕ → ℕ → ℕ
unfolding crc_loop
calculate_crc8 buff length = crc_loop buff length 0 0xFF

-- The result, and the status after it.
unfoldable pub crc_8_check : List ℕ → ℕ → ℕ → Bool × ℕ
crc_8_check buff buff_size status =
    if get_or buff 9 0 == calculate_crc8 buff buff_size
    then (true, status)
    else (false, crc8_test_failed)

crc_loop_lem :
    (buff : List ℕ) (left i crc : ℕ) → crc_loop buff left i crc ≡ Crc8.crc_loop buff left i crc
unfolding crc_loop Crc8.crc_loop
crc_loop_lem buff zero i crc = refl
crc_loop_lem buff (suc left) i crc = crc_loop_lem buff left (i + 1) (crc_byte crc (get_or buff i 0))

-- The copy computes what the STM's function computes.
pub calculate_crc8_lem :
    (buff : List ℕ) (n : ℕ) → calculate_crc8 buff n ≡ Crc8.calculate_crc8 buff n
unfolding calculate_crc8 Crc8.calculate_crc8
calculate_crc8_lem buff n = crc_loop_lem buff n 0 0xFF
