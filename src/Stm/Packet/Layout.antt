-- ===== src/Stm/Packet/Layout.antt =====
-- The bytes of a packet, and the data they carry.
use panngo.Base.{
  ℕ, zero, suc, ◌≡◌, ◌<◌, refl, subst, sym, ap, arith, List, [], ◌∷◌, ◌++◌, length, get_or, set,
}
use panngo.Server.Packet.Store.{mac_bytes}
use panngo.Crc8.{calculate_crc8}
use panngo.Crc8.Detection.{calculate_crc8_agree}
use panngo.Stm.Packet.{PangoClientData, pack_step, pack_loop, pack_pango_buffer, fill_buffer}

-- The first `n` values of a function.
abbrev table : {A : Type 0} → ℕ → (ℕ → A) → List A
table zero f = []
table (suc n) f = f 0 ∷ table n (λ i. f (suc i))

table_lem : (n : ℕ) (xs : List ℕ) → length xs ≡ n → table n (λ i. get_or xs i 0) ≡ xs
table_lem zero [] size = refl
table_lem zero (x ∷ xs) size = absurd (omega (arith, size))
table_lem (suc n) [] size = absurd (omega (arith, size))
table_lem (suc n) (x ∷ xs) size =
    ap (λ (ys : List ℕ). x ∷ ys) (table_lem n xs (omega (arith, size)))

pack_table :
    (status x y : ℕ) (mac buffer : ℕ → ℕ)
    → pack_pango_buffer
        (record { status = status; mac_address = table 6 mac; x_coor = x; y_coor = y })
        (table 10 buffer)
      ≡ status ∷ table 6 mac ++ x ∷ y ∷ buffer 9 ∷ []
unfolding pack_pango_buffer pack_loop pack_step
pack_table status x y mac buffer = refl

-- For a MAC address of six bytes and a buffer of ten, the loop writes the nine bytes of the struct,
-- in the order of its fields, and leaves the tenth byte.
pack_pango_buffer_lem :
    (d : PangoClientData) (buffer : List ℕ)
    → length d.mac_address ≡ 6
    → length buffer ≡ 10
    → pack_pango_buffer d buffer
      ≡ d.status ∷ d.mac_address ++ d.x_coor ∷ d.y_coor ∷ get_or buffer 9 0 ∷ []
pack_pango_buffer_lem d buffer six ten =
    subst
      (λ (mac : List ℕ).
        pack_pango_buffer (record d { mac_address = mac }) buffer
        ≡ d.status ∷ mac ++ d.x_coor ∷ d.y_coor ∷ get_or buffer 9 0 ∷ [])
      (table_lem 6 d.mac_address six)
      (subst
        (λ (b : List ℕ).
          pack_pango_buffer (record d { mac_address = table 6 (λ i. get_or d.mac_address i 0) }) b
          ≡ d.status ∷ table 6 (λ i. get_or d.mac_address i 0)
            ++ d.x_coor ∷ d.y_coor ∷ get_or b 9 0 ∷ [])
        (table_lem 10 buffer ten)
        (pack_table d.status d.x_coor d.y_coor (λ i. get_or d.mac_address i 0)
          (λ i. get_or buffer i 0)))

-- The ten bytes for the data, with the checksum `c`.
abbrev pub bytes_of : PangoClientData → ℕ → List ℕ
bytes_of d c = d.status ∷ d.mac_address ++ d.x_coor ∷ d.y_coor ∷ c ∷ []

-- A packet of ten bytes: the fields at their places, and the checksum of nine bytes behind them.
pub record IsPacket (d : PangoClientData) (buff : List ℕ) : Type 0 where
  pub size : length buff ≡ 10
  pub status : get_or buff 0 0 ≡ d.status
  pub mac_address : mac_bytes buff ≡ d.mac_address
  pub x_coor : get_or buff 7 0 ≡ d.x_coor
  pub y_coor : get_or buff 8 0 ≡ d.y_coor
  pub checksum : get_or buff 9 0 ≡ calculate_crc8 buff 9

bytes_of-IsPacket :
    (d : PangoClientData) (c : ℕ)
    → length d.mac_address ≡ 6
    → c ≡ calculate_crc8 (bytes_of d c) 9
    → IsPacket d (bytes_of d c)
bytes_of-IsPacket d c six =
    subst
      (λ (mac : List ℕ).
        c ≡ calculate_crc8 (bytes_of (record d { mac_address = mac }) c) 9
        → IsPacket (record d { mac_address = mac }) (bytes_of (record d { mac_address = mac }) c))
      (table_lem 6 d.mac_address six)
      (λ crc. record {
        size = refl;
        status = refl;
        mac_address = refl;
        x_coor = refl;
        y_coor = refl;
        checksum = crc;
      })

set_checksum :
    (d : PangoClientData) (c v : ℕ)
    → length d.mac_address ≡ 6
    → set (bytes_of d c) 9 v ≡ bytes_of d v
set_checksum d c v six =
    subst
      (λ (mac : List ℕ).
        set (bytes_of (record d { mac_address = mac }) c) 9 v
        ≡ bytes_of (record d { mac_address = mac }) v)
      (table_lem 6 d.mac_address six) refl

get_or-set : (xs : List ℕ) (i v j : ℕ) → j < i → get_or (set xs i v) j 0 ≡ get_or xs j 0
get_or-set [] i v j lt = refl
get_or-set (x ∷ xs) zero v j lt = absurd (omega (arith, lt))
get_or-set (x ∷ xs) (suc i) v zero lt = refl
get_or-set (x ∷ xs) (suc i) v (suc j) lt = get_or-set xs i v j (omega (arith, lt))

same_before :
    (d : PangoClientData) (c v j : ℕ)
    → length d.mac_address ≡ 6
    → j < 9
    → get_or (bytes_of d c) j 0 ≡ get_or (bytes_of d v) j 0
same_before d c v j six lt =
    subst (λ (b : List ℕ). get_or (bytes_of d c) j 0 ≡ get_or b j 0) (set_checksum d c v six)
      (sym (get_or-set (bytes_of d c) 9 v j lt))

-- The buffer that main_PNG sends.
pub fill_buffer-IsPacket :
    (d : PangoClientData) (buffer : List ℕ)
    → length d.mac_address ≡ 6
    → length buffer ≡ 10
    → IsPacket d (fill_buffer d buffer)
unfolding fill_buffer
fill_buffer-IsPacket d buffer six ten =
    let c0 = get_or buffer 9 0 in
    let crc = calculate_crc8 (bytes_of d c0) 9 in
    rw (pack_pango_buffer_lem d buffer six ten) (
      subst (IsPacket d) (sym (set_checksum d c0 crc six)) (
        bytes_of-IsPacket d crc six (
          calculate_crc8_agree (bytes_of d c0) (bytes_of d crc) 9
            (λ j lt. same_before d c0 crc j six lt))))
