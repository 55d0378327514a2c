-- ===== src/Server/Packet/Memory/Writes.antt =====
-- The writes of store_client_data_in_struct as a recursion on the address, and where they go.
use panngo.Base.{ℕ, ◌+◌, ◌≡◌, List, [], ◌∷◌, ◌++◌, Text, length, format_x}
use mathlib.Core.List.{append-nil}
use panngo.Server.Packet.{mac_field}
use panngo.Server.Packet.Store.{mac_bytes}
use panngo.Server.Packet.Memory.{sprintf_writes, store_writes}

abbrev pub colon : Text → Text
colon t = t ++ b':' ∷ []

abbrev pub mac_writes : ℕ → List ℕ → List (ℕ × ℕ)
mac_writes offset [] = []
mac_writes offset (b ∷ []) = sprintf_writes offset (format_x b)
mac_writes offset (b ∷ c ∷ bs) =
    sprintf_writes offset (colon (format_x b))
    ++ mac_writes (offset + length (colon (format_x b))) (c ∷ bs)

pub store_writes_lem : (buff : List ℕ) → store_writes buff 8 0 0 ≡ mac_writes 0 (mac_bytes buff)
unfolding store_writes mac_field
store_writes_lem buff = simp append-nil
