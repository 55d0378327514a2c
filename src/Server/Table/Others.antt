-- ===== src/Server/Table/Others.antt =====
-- What the rows of the other MAC addresses say, before and after a change.
use panngo.Base.{ℕ, ◌≡◌, ◌≢◌, ◌∙◌, refl, arith, List, [], ◌∷◌, ◌++◌, Text, text_eq_iff}
use panngo.Server.Table.{Row, set_time, remove}
use panngo.Server.Table.Rows.{time_of, location_of, time_of-set_time, time_of-remove}

pub record IsOwnChange (mac : Text) (before after : List Row) : Type 0 where
  pub times : (k : Text) → k ≢ mac → time_of k after ≡ time_of k before
  pub locations : (k : Text) → k ≢ mac → location_of k after ≡ location_of k before

pub IsOwnChange-refl : (mac : Text) (rs : List Row) → IsOwnChange mac rs rs
IsOwnChange-refl mac rs = record { times = λ k h. refl; locations = λ k h. refl }

pub IsOwnChange-trans :
    (mac : Text) (a b c : List Row)
    → IsOwnChange mac a b
    → IsOwnChange mac b c
    → IsOwnChange mac a c
IsOwnChange-trans mac a b c first second = record {
  times = λ k h. second.times k h ∙ first.times k h;
  locations = λ k h. second.locations k h ∙ first.locations k h;
}

time_of-append :
    (k : Text) (rs : List Row) (r : Row) → k ≢ r.mac_adr → time_of k (rs ++ r ∷ []) ≡ time_of k rs
unfolding time_of
time_of-append k [] r h = ground (arith, text_eq_iff r.mac_adr k)
time_of-append k (q ∷ rs) r h = ground (arith, time_of-append k rs r h)

location_of-append :
    (k : Text) (rs : List Row) (r : Row)
    → k ≢ r.mac_adr
    → location_of k (rs ++ r ∷ []) ≡ location_of k rs
unfolding location_of
location_of-append k [] r h = ground (arith, text_eq_iff r.mac_adr k)
location_of-append k (q ∷ rs) r h = ground (arith, location_of-append k rs r h)

module _ (mac : Text) where
  pub location_of-set_time :
      (k : Text) (time : ℕ) (rs : List Row)
      → location_of k (set_time time mac rs) ≡ location_of k rs
  unfolding location_of set_time
  location_of-set_time k time [] = refl
  location_of-set_time k time (r ∷ rs) = ground (arith, location_of-set_time k time rs)

  location_of-remove :
      (k : Text) (rs : List Row) → k ≢ mac → location_of k (remove mac rs) ≡ location_of k rs
  unfolding location_of remove
  location_of-remove k [] h = refl
  location_of-remove k (r ∷ rs) h =
      ground (arith, text_eq_iff r.mac_adr mac, text_eq_iff r.mac_adr k, location_of-remove k rs h)

  pub append-IsOwnChange :
      (rs : List Row) (r : Row) → r.mac_adr ≡ mac → IsOwnChange mac rs (rs ++ r ∷ [])
  append-IsOwnChange rs r e = record {
    times = λ k h. time_of-append k rs r (λ q. h (q ∙ e));
    locations = λ k h. location_of-append k rs r (λ q. h (q ∙ e));
  }

  pub set_time-IsOwnChange : (time : ℕ) (rs : List Row) → IsOwnChange mac rs (set_time time mac rs)
  set_time-IsOwnChange time rs = record {
    times = λ k h. ground (arith, time_of-set_time time mac k rs, text_eq_iff mac k);
    locations = λ k h. location_of-set_time k time rs;
  }

  pub remove-IsOwnChange : (rs : List Row) → IsOwnChange mac rs (remove mac rs)
  remove-IsOwnChange rs = record {
    times = λ k h. ground (arith, time_of-remove mac k rs, text_eq_iff mac k);
    locations = λ k h. location_of-remove k rs h;
  }
