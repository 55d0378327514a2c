-- ===== src/Server/Table/Saved.antt =====
-- The time that a client's row gets when its connection is lost.
use panngo.Base.{ℕ, ◌≡◌, inl, inr, refl, arith, List, [], ◌∷◌, Text, some, text_eq_iff}
use panngo.Server.Table.{Row, Any, set_time, remove}
use panngo.Server.Table.Rows.{Has, time_of}

-- The time that was set is there.
pub set_time-time_of :
    (time : ℕ) (mac : Text) (rs : List Row)
    → Has mac rs
    → time_of mac (set_time time mac rs) ≡ some time
unfolding set_time time_of
set_time-time_of time mac [] has = absurd has
set_time-time_of time mac (r ∷ rs) (inl e) = ground (arith, text_eq_iff r.mac_adr mac, e)
set_time-time_of time mac (r ∷ rs) (inr h) =
    ground (arith, text_eq_iff r.mac_adr mac, set_time-time_of time mac rs h)

-- A removal does not care for the time.
pub remove-set_time :
    (time : ℕ) (mac : Text) (rs : List Row) → remove mac (set_time time mac rs) ≡ remove mac rs
unfolding remove set_time
remove-set_time time mac [] = refl
remove-set_time time mac (r ∷ rs) = ground (arith, remove-set_time time mac rs)

pub place-set_time :
    (time : ℕ) (mac k city : Text) (rs : List Row)
    → Any (λ r. (r.mac_adr ≡ k) × (city ≡ r.location)) (set_time time mac rs)
    → Any (λ r. (r.mac_adr ≡ k) × (city ≡ r.location)) rs
unfolding set_time
place-set_time time mac k city [] h = h
place-set_time time mac k city (r ∷ rs) (inl (own, there)) = inl (ground arith, ground arith)
place-set_time time mac k city (r ∷ rs) (inr h) = inr (place-set_time time mac k city rs h)
