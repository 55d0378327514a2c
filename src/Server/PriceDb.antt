-- ===== src/Server/PriceDb.antt =====
-- server/database/price_db/sql_price_db_create.c: the program that fills city_parking. It prints an
-- error that SQLite reports and goes on. `server/Makefile` runs it at every build of the target
-- `server`.
pub mod Prices
use panngo.Base.{ℕ, zero, suc, Text, codes}
use panngo.Server.Sql.{insert_price, create_prices}
use panngo.Server.Platform.{Platform}
use panngo.Server.Location.{ashkelon, jerusalem, petah_tikva, herzliya}

-- "%f" of 0.006, 0.012, 0.008 and 0.010.
abbrev pub ashkelon_price : Text
ashkelon_price = codes "0.006000"

abbrev pub jerusalem_price : Text
jerusalem_price = codes "0.012000"

abbrev pub petah_tikva_price : Text
petah_tikva_price = codes "0.008000"

abbrev pub herzliya_price : Text
herzliya_price = codes "0.010000"

module _ (p : Platform) where
  unfoldable pub sql_price_db_create : p.Db → p.Db
  sql_price_db_create d =
      let created = (p.sqlite3_exec create_prices d).1 in
      let first = (p.sqlite3_exec (insert_price ashkelon ashkelon_price) created).1 in
      let second = (p.sqlite3_exec (insert_price jerusalem jerusalem_price) first).1 in
      let third = (p.sqlite3_exec (insert_price petah_tikva petah_tikva_price) second).1 in
      (p.sqlite3_exec (insert_price herzliya herzliya_price) third).1

  -- So many builds.
  abbrev pub builds : ℕ → p.Db → p.Db
  builds zero d = d
  builds (suc n) d = sql_price_db_create (builds n d)
