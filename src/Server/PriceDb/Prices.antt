-- ===== src/Server/PriceDb/Prices.antt =====
-- The rows of city_parking after any number of builds.
use panngo.Base.{
  ℕ, zero, suc, ◌≡◌, inl, inr, refl, sym, ap, subst, arith, [], ◌∷◌, ◌++◌, Text, Bool-cases, All,
  All-append, if◌then◌else◌, text_eq,
}
use panngo.Server.Sql.{insert_price, create_prices}
use panngo.Server.Table.{PriceRow, apply_price}
use panngo.Server.Platform.{Platform, Laws}
use panngo.Server.Location.{ashkelon, jerusalem, petah_tikva, herzliya}
use panngo.Server.PriceDb.{
  ashkelon_price, jerusalem_price, petah_tikva_price, herzliya_price, sql_price_db_create, builds,
}

-- The price of a city, as the source writes it.
abbrev pub city_price : Text → Text
city_price city =
    if text_eq city ashkelon
    then ashkelon_price
    else if text_eq city jerusalem
    then jerusalem_price
    else if text_eq city petah_tikva
    then petah_tikva_price
    else herzliya_price

module _ (p : Platform) (laws : Laws p) where
  open laws use {prices, real_of_text}

  -- A row that has the price of its city.
  abbrev pub IsPriced : PriceRow p.F → Type 0
  IsPriced r = r.price ≡ real_of_text (city_price r.city)

  insert-All :
      (city price : Text) (d : p.Db)
      → price ≡ city_price city
      → All IsPriced (prices d)
      → All IsPriced (prices (p.sqlite3_exec (insert_price city price) d).1)
  unfolding apply_price
  insert-All city price d e h =
      let law = laws.prices-exec (insert_price city price) d in
      let added : PriceRow p.F = record { city = city; price = real_of_text price } in
      let after = prices (p.sqlite3_exec (insert_price city price) d).1 in
      elim (Bool-cases (p.sqlite3_exec (insert_price city price) d).0) [
        | inl ok ↦
            let grown : prices d ++ added ∷ [] ≡ after = ground (arith, law) in
            subst (All IsPriced) grown
              (All-append IsPriced (prices d) (added ∷ []) h (ap real_of_text e, tt))
        | inr fails ↦
            let same : prices d ≡ after = ground (arith, law) in subst (All IsPriced) same h
      ]

  sql_price_db_create-All :
      (d : p.Db) → All IsPriced (prices d) → All IsPriced (prices (sql_price_db_create p d))
  unfolding sql_price_db_create apply_price text_eq
  sql_price_db_create-All d h = insert-All herzliya herzliya_price _ refl (
      insert-All petah_tikva petah_tikva_price _ refl (
        insert-All jerusalem jerusalem_price _ refl
          (insert-All ashkelon ashkelon_price _ refl (subst (All IsPriced) created h))))
    where
      created : prices d ≡ prices (p.sqlite3_exec create_prices d).1
      created = ground (arith, laws.prices-exec create_prices d)

  -- However often sql_price_db_create has run on a table that was empty, and whichever of its
  -- commands have failed, every row of city_parking has the price that the source gives its city.
  builds-All : (n : ℕ) (d : p.Db) → prices d ≡ [] → All IsPriced (prices (builds p n d))
  builds-All zero d e = subst (All IsPriced) (sym e) tt
  builds-All (suc n) d e = sql_price_db_create-All (builds p n d) (builds-All n d e)
