-- ===== src/Server/Packet/Memory.antt =====
-- The array `mac_address` under store_client_data_in_struct, byte by byte: sprintf writes the
-- characters of a field in order, and the NUL behind them.
pub mod Writes
pub mod Torn
pub mod Stored
use panngo.Base.{
  ℕ, zero, suc, ◌+◌, List, [], ◌∷◌, ◌++◌, ◌&&◌, Text, length, get_or, set, ltb, ◌==◌, if◌then◌else◌,
}
use panngo.Server.Packet.{mac_field}

-- sprintf of a text at an offset, as writes of a byte at an index.
unfoldable pub sprintf_writes : ℕ → Text → List (ℕ × ℕ)
sprintf_writes offset [] = (offset, 0) ∷ []
sprintf_writes offset (c ∷ cs) = (offset, c) ∷ sprintf_writes (offset + 1) cs

-- The loop, with the rounds that are left.
unfoldable pub store_writes : List ℕ → ℕ → ℕ → ℕ → List (ℕ × ℕ)
store_writes buff zero i offset = []
store_writes buff (suc left) i offset =
    let field = mac_field i (get_or buff i 0) in
    let is_mac = ltb 0 i && ltb i 7 in
    let rest = store_writes buff left (i + 1) (if is_mac then offset + length field else offset) in
    if is_mac then sprintf_writes offset field ++ rest else rest

-- The array behind all writes, and what it is before the first, between two, and behind the last.
unfoldable pub written : List (ℕ × ℕ) → List ℕ → List ℕ
written [] array = array
written ((i, b) ∷ ws) array = written ws (set array i b)

unfoldable pub moments : List (ℕ × ℕ) → List ℕ → List (List ℕ)
moments [] array = array ∷ []
moments ((i, b) ∷ ws) array = array ∷ moments ws (set array i b)
