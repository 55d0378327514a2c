-- ===== src/System/Corruption.antt =====
-- A packet of which one byte has changed on its way.
use panngo.Base.{ℕ, ◌<◌, ◌≡◌, ◌≢◌, sym, subst, ◌∙◌, arith, List, false, get_or, IsBytes}
use native.Mathlib.Decide.{ℕ_discrete}
use panngo.Crc8
use panngo.Crc8.Detection.{DifferAt, calculate_crc8-DifferAt, calculate_crc8_agree}
use panngo.Client.Crc as ClientCrc
use panngo.Client.Status.{received_data_from_stm}
use panngo.Server.Crc as ServerCrc
use panngo.Server.Data.{crc8_test_failed}

-- The checksum behind the nine bytes does not fit them after the change of one of the ten.
pub checksum_breaks :
    (a b : List ℕ) (k : ℕ)
    → IsBytes a
    → IsBytes b
    → get_or a 9 0 ≡ Crc8.calculate_crc8 a 9
    → k < 10
    → DifferAt k a b
    → get_or b 9 0 ≢ Crc8.calculate_crc8 b 9
checksum_breaks a b k a_bytes b_bytes intact low d = elim (ℕ_discrete k 9) [
  | yes last ↦ λ fits. d.here (
      subst (λ (i : ℕ). get_or a i 0 ≡ get_or b i 0) (sym last)
        (intact
          ∙ calculate_crc8_agree a b 9 (λ j lt. d.elsewhere j (omega (arith, last, lt)))
          ∙ sym fits))
  | no before ↦ λ fits.
      calculate_crc8-DifferAt a b k a_bytes b_bytes d 9 (omega (arith, before, low))
        (sym intact ∙ d.elsewhere 9 (λ e. before (sym e)) ∙ fits)
]

-- If one byte of an intact packet changes to another byte, the last one included, the server's
-- check fails with CRC8_TEST_FAILED, and the status that the client's check leaves is neither ON
-- nor OFF.
pub one_byte_refused :
    (a b : List ℕ) (k status : ℕ)
    → IsBytes a
    → IsBytes b
    → get_or a 9 0 ≡ Crc8.calculate_crc8 a 9
    → k < 10
    → DifferAt k a b
    → (ServerCrc.crc_8_check b 9 status ≡ (false, crc8_test_failed))
      × (received_data_from_stm (ClientCrc.crc_8_check b 9 (ClientCrc.get_status b)) ≡ false)
unfolding ServerCrc.crc_8_check ClientCrc.crc_8_check received_data_from_stm
one_byte_refused a b k status a_bytes b_bytes intact low d =
    let broken = checksum_breaks a b k a_bytes b_bytes intact low d in
    (
      ground (arith, broken, ServerCrc.calculate_crc8_lem b 9),
      ground (arith, broken, ClientCrc.calculate_crc8_lem b 9),
    )
