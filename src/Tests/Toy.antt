-- ===== src/Tests/Toy.antt =====
-- A platform to evaluate the server on: two lists for the tables, natural numbers for doubles, and
-- commands that always succeed.
use panngo.Base.{
  ℕ, ◌+◌, ◌*◌, ◌-◌, ◌≡◌, ◌≢◌, inl, inr, refl, arith, List, [], ◌∷◌, Bool, Bool-cases, true, Text,
  text_eq, text_eq_iff, if◌then◌else◌,
}
use panngo.Server.Sql.{
  Statement, Query, select_client, select_time_used, select_location, select_price,
}
use panngo.Server.Table.{
  Row, PriceRow, apply_statement, apply_price, Any, Value, int, text, real, Fetch, row, refused,
  failed, done, Answers,
}
use panngo.Server.Table.Rows.{Any-map}
use panngo.Server.Thread.Start.{IsReliable}
use panngo.Server.Platform.{Platform, Laws}

pub record ToyDb : Type 0 where
  pub clients : List Row
  pub city_parking : List (PriceRow ℕ)

-- The first row of a client, if there is one.
abbrev pub find_row : (Row → Value ℕ) → Text → List Row → Fetch ℕ
find_row cell mac [] = done
find_row cell mac (r ∷ rs) =
    let rest = find_row cell mac rs in if text_eq r.mac_adr mac then row (cell r) else rest

abbrev find_price : Text → List (PriceRow ℕ) → Fetch ℕ
find_price city [] = done
find_price city (q ∷ qs) =
    let rest = find_price city qs in if text_eq q.city city then row (real q.price) else rest

abbrev toy_fetch : Query → ToyDb → Fetch ℕ
toy_fetch (select_client mac) d = find_row (λ r. text r.mac_adr) mac d.clients
toy_fetch (select_time_used mac) d = find_row (λ r. int r.time_used) mac d.clients
toy_fetch (select_location mac) d = find_row (λ r. text r.location) mac d.clients
toy_fetch (select_price city) d = find_price city d.city_parking

-- The digits in front of the point are left out, and so is the point: "0.006000" is 6000.
abbrev read_digits : ℕ → Text → ℕ
read_digits n [] = n
read_digits n (c ∷ cs) =
    read_digits (if text_eq (c ∷ []) (b'.' ∷ []) then 0 else n * 10 + (c - 48)) cs

abbrev pub toy_exec : Statement → ToyDb → Bool × ToyDb
toy_exec s d = (
  true,
  record {
    clients = apply_statement s d.clients;
    city_parking = apply_price (read_digits 0) s d.city_parking;
  },
)

abbrev pub toy : Platform
toy = record {
  F = ℕ;
  multiply = λ a b. a * b;
  of_int = λ n. n;
  to_int = λ n. n;
  Db = ToyDb;
  sqlite3_exec = toy_exec;
  sqlite3_fetch = λ q d. (toy_fetch q d, d);
}

find_row_finds :
    (cell : Row → Value ℕ) (mac : Text) (rs : List Row) (v : Value ℕ)
    → find_row cell mac rs ≡ row v
    → Any (λ r. (r.mac_adr ≡ mac) × (v ≡ cell r)) rs
find_row_finds cell mac [] v e = cc
find_row_finds cell mac (r ∷ rs) v e = elim (Bool-cases (text_eq r.mac_adr mac)) [
  | inl same ↦ inl (ground (arith, text_eq_iff r.mac_adr mac, same), ground (arith, same, e))
  | inr other ↦ inr (find_row_finds cell mac rs v (ground (arith, other, e)))
]

find_row_misses :
    (cell : Row → Value ℕ) (mac : Text) (rs : List Row)
    → find_row cell mac rs ≡ done
    → ¬ Any (λ r. r.mac_adr ≡ mac) rs
find_row_misses cell mac [] e h = h
find_row_misses cell mac (r ∷ rs) e (inl same) = ground (arith, text_eq_iff r.mac_adr mac, same, e)
find_row_misses cell mac (r ∷ rs) e (inr later) = elim (Bool-cases (text_eq r.mac_adr mac)) [
  | inl same ↦ ground (arith, same, e)
  | inr other ↦ find_row_misses cell mac rs (ground (arith, other, e)) later
]

find_price_finds :
    (city : Text) (qs : List (PriceRow ℕ)) (v : Value ℕ)
    → find_price city qs ≡ row v
    → Any (λ q. (q.city ≡ city) × (v ≡ real q.price)) qs
find_price_finds city [] v e = cc
find_price_finds city (q ∷ qs) v e = elim (Bool-cases (text_eq q.city city)) [
  | inl same ↦ inl (ground (arith, text_eq_iff q.city city, same), ground (arith, same, e))
  | inr other ↦ inr (find_price_finds city qs v (ground (arith, other, e)))
]

find_price_misses :
    (city : Text) (qs : List (PriceRow ℕ))
    → find_price city qs ≡ done
    → ¬ Any (λ q. q.city ≡ city) qs
find_price_misses city [] e h = h
find_price_misses city (q ∷ qs) e (inl same) = ground (arith, text_eq_iff q.city city, same, e)
find_price_misses city (q ∷ qs) e (inr later) = elim (Bool-cases (text_eq q.city city)) [
  | inl same ↦ ground (arith, same, e)
  | inr other ↦ find_price_misses city qs (ground (arith, other, e)) later
]

pub toy-Answers :
    (q : Query) (d : ToyDb) (f : Fetch ℕ) → toy_fetch q d ≡ f → Answers q d.clients d.city_parking f
toy-Answers q d refused e = tt
toy-Answers q d failed e = tt
toy-Answers (select_client mac) d (row v) e =
    Any-map _ _ d.clients (λ r h. h.0) (find_row_finds (λ r. text r.mac_adr) mac d.clients v e)
toy-Answers (select_time_used mac) d (row v) e =
    find_row_finds (λ r. int r.time_used) mac d.clients v e
toy-Answers (select_location mac) d (row v) e =
    find_row_finds (λ r. text r.location) mac d.clients v e
toy-Answers (select_price city) d (row v) e = find_price_finds city d.city_parking v e
toy-Answers (select_client mac) d done e = find_row_misses (λ r. text r.mac_adr) mac d.clients e
toy-Answers (select_time_used mac) d done e = find_row_misses (λ r. int r.time_used) mac d.clients e
toy-Answers (select_location mac) d done e = find_row_misses (λ r. text r.location) mac d.clients e
toy-Answers (select_price city) d done e = find_price_misses city d.city_parking e

abbrev pub toy_laws : Laws toy
toy_laws = record {
  rows = λ d. d.clients;
  prices = λ d. d.city_parking;
  to_int-of_int = λ n fits. refl;
  rows-exec = λ s d. refl;
  real_of_text = read_digits 0;
  prices-exec = λ s d. refl;
  rows-fetch = λ q d. refl;
  prices-fetch = λ q d. refl;
  fetch-Answers = λ q d. toy-Answers q d (toy_fetch q d) refl;
}

find_row_ends :
    (cell : Row → Value ℕ) (mac : Text) (rs : List Row)
    → (find_row cell mac rs ≢ refused) × (find_row cell mac rs ≢ failed)
find_row_ends cell mac [] = (cc, cc)
find_row_ends cell mac (r ∷ rs) = ground (arith, find_row_ends cell mac rs)

find_price_ends :
    (city : Text) (qs : List (PriceRow ℕ))
    → (find_price city qs ≢ refused) × (find_price city qs ≢ failed)
find_price_ends city [] = (cc, cc)
find_price_ends city (q ∷ qs) = ground (arith, find_price_ends city qs)

pub toy_fetch_ends : (q : Query) (d : ToyDb) → (toy_fetch q d ≢ refused) × (toy_fetch q d ≢ failed)
toy_fetch_ends (select_client mac) d = find_row_ends (λ r. text r.mac_adr) mac d.clients
toy_fetch_ends (select_time_used mac) d = find_row_ends (λ r. int r.time_used) mac d.clients
toy_fetch_ends (select_location mac) d = find_row_ends (λ r. text r.location) mac d.clients
toy_fetch_ends (select_price city) d = find_price_ends city d.city_parking

-- Every SELECT runs to its end.
abbrev pub toy_reliable : IsReliable toy
toy_reliable = record {
  prepared = λ q d. (toy_fetch_ends q d).0;
  stepped = λ q d. (toy_fetch_ends q d).1;
}
