-- ===== src/Server/Table/Rows.antt =====
-- Lemmas on the rows of your_table: the MAC addresses, and one row of a client among them.
use panngo.Base.{
  sym, ◌∙◌, ◌≢◌, ◌⊎◌, ℕ, ◌≡◌, List, [], ◌∷◌, ◌++◌, arith, Text, text_eq, text_eq_iff, if◌then◌else◌,
  inl, inr, Option, none, some,
}
use mathlib.Core.Option
use panngo.Server.Table.{Row, set_time, remove, Any}

-- The row for a MAC address, if the table has one.
abbrev pub Has : Text → List Row → Type 0
Has mac rs = Any (λ r. r.mac_adr ≡ mac) rs

pub Any-map :
    {A : Type 0} (P Q : A → Type 0) (xs : List A) → ((x : A) → P x → Q x) → Any P xs → Any Q xs
Any-map P Q [] f h = h
Any-map P Q (x ∷ xs) f (inl p) = inl (f x p)
Any-map P Q (x ∷ xs) f (inr h) = inr (Any-map P Q xs f h)

-- No MAC address has two rows.
abbrev pub IsUnique : List Row → Type 0
IsUnique [] = Unit
IsUnique (r ∷ rs) = ¬ Has r.mac_adr rs × IsUnique rs

pub Has-append :
    (mac : Text) (rs : List Row) (s : Row) → Has mac (rs ++ s ∷ []) → Has mac rs ⊎ (s.mac_adr ≡ mac)
Has-append mac [] s (inl e) = inr e
Has-append mac [] s (inr h) = elim h [ ]
Has-append mac (r ∷ rs) s (inl e) = inl (inl e)
Has-append mac (r ∷ rs) s (inr h) = elim (Has-append mac rs s h) [
  | inl k ↦ inl (inr k)
  | inr e ↦ inr e
]

pub IsUnique-append :
    (rs : List Row) (s : Row) → IsUnique rs → ¬ Has s.mac_adr rs → IsUnique (rs ++ s ∷ [])
IsUnique-append [] s u no_row = (λ h. h, tt)
IsUnique-append (r ∷ rs) s u no_row = (
  λ h. elim (Has-append r.mac_adr rs s h) [ inl k ↦ u.0 k | inr e ↦ no_row (inl (sym e)) ],
  IsUnique-append rs s u.1 (λ h. no_row (inr h)),
)

pub Has-set_time :
    (time : ℕ) (mac k : Text) (rs : List Row) → Has k (set_time time mac rs) → Has k rs
unfolding set_time
Has-set_time time mac k [] h = h
Has-set_time time mac k (r ∷ rs) (inl e) = ground arith
Has-set_time time mac k (r ∷ rs) (inr h) = inr (Has-set_time time mac k rs h)

pub IsUnique-set_time :
    (time : ℕ) (mac : Text) (rs : List Row) → IsUnique rs → IsUnique (set_time time mac rs)
unfolding set_time
IsUnique-set_time time mac [] u = tt
IsUnique-set_time time mac (r ∷ rs) u = ground (
  arith,
  IsUnique-set_time time mac rs u.1,
  λ (h : Has r.mac_adr (set_time time mac rs)). Has-set_time time mac r.mac_adr rs h,
)

pub Has-remove : (mac k : Text) (rs : List Row) → Has k (remove mac rs) → Has k rs
unfolding remove
Has-remove mac k [] h = h
Has-remove mac k (r ∷ rs) h = ground (arith, λ (m : Has k (remove mac rs)). Has-remove mac k rs m)

-- The rows that a change leaves.
pub Has-append_left : (mac : Text) (rs qs : List Row) → Has mac rs → Has mac (rs ++ qs)
Has-append_left mac [] qs h = elim h [ ]
Has-append_left mac (r ∷ rs) qs (inl e) = inl e
Has-append_left mac (r ∷ rs) qs (inr h) = inr (Has-append_left mac rs qs h)

pub Has-append_last :
    (mac : Text) (rs : List Row) (r : Row) → r.mac_adr ≡ mac → Has mac (rs ++ r ∷ [])
Has-append_last mac [] r e = inl e
Has-append_last mac (q ∷ rs) r e = inr (Has-append_last mac rs r e)

pub set_time-Has :
    (time : ℕ) (mac k : Text) (rs : List Row) → Has k rs → Has k (set_time time mac rs)
unfolding set_time
set_time-Has time mac k [] h = h
set_time-Has time mac k (r ∷ rs) (inl e) = ground arith
set_time-Has time mac k (r ∷ rs) (inr h) = inr (set_time-Has time mac k rs h)

pub remove-Has : (mac k : Text) (rs : List Row) → k ≢ mac → Has k rs → Has k (remove mac rs)
unfolding remove
remove-Has mac k [] other h = h
remove-Has mac k (r ∷ rs) other (inl e) = ground (arith, text_eq_iff r.mac_adr mac)
remove-Has mac k (r ∷ rs) other (inr h) = let later = remove-Has mac k rs other h in ground arith

pub not-Has-remove : (mac : Text) (rs : List Row) → ¬ Has mac (remove mac rs)
unfolding remove
not-Has-remove mac [] h = h
not-Has-remove mac (r ∷ rs) h =
    ground
      (arith, text_eq_iff r.mac_adr mac, λ (m : Has mac (remove mac rs)). not-Has-remove mac rs m)

pub IsUnique-remove : (mac : Text) (rs : List Row) → IsUnique rs → IsUnique (remove mac rs)
unfolding remove
IsUnique-remove mac [] u = tt
IsUnique-remove mac (r ∷ rs) u = ground (
  arith,
  IsUnique-remove mac rs u.1,
  λ (h : Has r.mac_adr (remove mac rs)). Has-remove mac r.mac_adr rs h,
)

-- The time that a client's row holds: the one of the first row for the MAC address.
unfoldable pub time_of : Text → List Row → Option ℕ
time_of mac [] = none
time_of mac (r ∷ rs) = if text_eq r.mac_adr mac then some r.time_used else time_of mac rs

unfoldable pub location_of : Text → List Row → Option Text
location_of mac [] = none
location_of mac (r ∷ rs) = if text_eq r.mac_adr mac then some r.location else location_of mac rs

pub time_of-set_time :
    (time : ℕ) (mac k : Text) (rs : List Row)
    → time_of k (set_time time mac rs)
      ≡ (if text_eq mac k then Option.map (λ _. time) (time_of k rs) else time_of k rs)
unfolding time_of set_time
time_of-set_time time mac k [] = ground arith
time_of-set_time time mac k (r ∷ rs) = ground (
  arith,
  text_eq_iff r.mac_adr mac,
  text_eq_iff r.mac_adr k,
  text_eq_iff mac k,
  time_of-set_time time mac k rs,
)

pub time_of-remove :
    (mac k : Text) (rs : List Row)
    → time_of k (remove mac rs) ≡ (if text_eq mac k then none else time_of k rs)
unfolding time_of remove
time_of-remove mac k [] = ground arith
time_of-remove mac k (r ∷ rs) = ground (
  arith,
  text_eq_iff r.mac_adr mac,
  text_eq_iff r.mac_adr k,
  text_eq_iff mac k,
  time_of-remove mac k rs,
)

-- In a table with no two rows for one MAC address, the time of any row of the client is that time.
pub time_of_unique :
    (mac : Text) (v : ℕ) (rs : List Row)
    → IsUnique rs
    → Any (λ r. (r.mac_adr ≡ mac) × (v ≡ r.time_used)) rs
    → time_of mac rs ≡ some v
unfolding time_of
time_of_unique mac v [] u h = elim h [ ]
time_of_unique mac v (r ∷ rs) u (inl e) = ground (arith, text_eq_iff r.mac_adr mac)
time_of_unique mac v (r ∷ rs) u (inr h) =
    let other : r.mac_adr ≢ mac = λ e. u.0 (Any-map _ _ rs (λ q hq. hq.0 ∙ sym e) h) in
    ground (arith, text_eq_iff r.mac_adr mac, time_of_unique mac v rs u.1 h)
