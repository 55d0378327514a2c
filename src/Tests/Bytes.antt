-- ===== src/Tests/Bytes.antt =====
-- Packets, and the theorems on their bytes at them.
use panngo.Base.{ℕ, zero, suc, IsBytes, ◌≡◌, ◌≢◌, refl, arith, List, [], ◌∷◌, get_or, set}
use panngo.Crc8
use panngo.Crc8.{calculate_crc8}
use panngo.Crc8.Detection.{DifferAt}

-- ON from the controller 0:80:e1:0:f:ff at (72, 5), and OFF.
abbrev pub the_packet : List ℕ
the_packet = 1 ∷ 0 ∷ 128 ∷ 225 ∷ 0 ∷ 15 ∷ 255 ∷ 72 ∷ 5 ∷ 207 ∷ []

abbrev pub off_packet : List ℕ
off_packet = 2 ∷ 0 ∷ 128 ∷ 225 ∷ 0 ∷ 15 ∷ 255 ∷ 72 ∷ 5 ∷ 33 ∷ []

set_elsewhere : (xs : List ℕ) (i v j : ℕ) → j ≢ i → get_or xs j 0 ≡ get_or (set xs i v) j 0
set_elsewhere [] i v j ne = refl
set_elsewhere (x ∷ xs) zero v zero ne = absurd (ne refl)
set_elsewhere (x ∷ xs) zero v (suc j) ne = refl
set_elsewhere (x ∷ xs) (suc i) v zero ne = refl
set_elsewhere (x ∷ xs) (suc i) v (suc j) ne = set_elsewhere xs i v j (λ e. ne (omega (arith, e)))

-- The first coordinate is 73 in place of 72.
abbrev pub changed_packet : List ℕ
changed_packet = set the_packet 7 73

pub packet_differs : DifferAt 7 the_packet changed_packet
packet_differs = record {
  here = λ e. absurd (omega (arith, e));
  elsewhere = λ j ne. set_elsewhere the_packet 7 73 j ne;
}

pub packet_intact : get_or the_packet 9 0 ≡ Crc8.calculate_crc8 the_packet 9
unfolding Crc8.crc_shift Crc8.crc_rounds Crc8.crc_byte Crc8.crc_loop Crc8.calculate_crc8
packet_intact = refl

pub the_packet-IsBytes : IsBytes the_packet
the_packet-IsBytes = ground arith

pub changed_packet-IsBytes : IsBytes changed_packet
changed_packet-IsBytes = ground arith

pub off_packet_intact : get_or off_packet 9 0 ≡ calculate_crc8 off_packet 9
unfolding Crc8.crc_shift Crc8.crc_rounds Crc8.crc_byte Crc8.crc_loop Crc8.calculate_crc8
off_packet_intact = refl

abbrev pub registers : List ℕ
registers = 0 ∷ 128 ∷ 225 ∷ 0 ∷ 15 ∷ 255 ∷ []
