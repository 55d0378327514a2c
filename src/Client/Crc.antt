-- ===== src/Client/Crc.antt =====
-- calculateCRC8, CRC_8_check and get_status of client/client_func.c.
use panngo.Base.{ℕ, zero, suc, ◌+◌, ◌≡◌, refl, List, get_or, ◌==◌, if◌then◌else◌}
use panngo.Crc8
use panngo.Crc8.{crc_byte}
use panngo.Client.Data.{on, stay_on, stay_off}

crc_loop : List ℕ → ℕ → ℕ → ℕ → ℕ
crc_loop buff zero i crc = crc
crc_loop buff (suc left) i crc = crc_loop buff left (i + 1) (crc_byte crc (get_or buff i 0))

pub calculate_crc8 : List ℕ → ℕ → ℕ
unfolding crc_loop
calculate_crc8 buff length = crc_loop buff length 0 0xFF

-- The status after the check.
unfoldable pub crc_8_check : List ℕ → ℕ → ℕ → ℕ
crc_8_check buff buff_size status =
    if get_or buff 9 0 == calculate_crc8 buff buff_size
    then status
    else if status == on
    then stay_on
    else stay_off

unfoldable pub get_status : List ℕ → ℕ
get_status buff = get_or buff 0 0

crc_loop_lem :
    (buff : List ℕ) (left i crc : ℕ) → crc_loop buff left i crc ≡ Crc8.crc_loop buff left i crc
unfolding crc_loop Crc8.crc_loop
crc_loop_lem buff zero i crc = refl
crc_loop_lem buff (suc left) i crc = crc_loop_lem buff left (i + 1) (crc_byte crc (get_or buff i 0))

-- The copy computes what the STM's function computes.
pub calculate_crc8_lem :
    (buff : List ℕ) (n : ℕ) → calculate_crc8 buff n ≡ Crc8.calculate_crc8 buff n
unfolding calculate_crc8 Crc8.calculate_crc8
calculate_crc8_lem buff n = crc_loop_lem buff n 0 0xFF
