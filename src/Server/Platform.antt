-- ===== src/Server/Platform.antt =====
-- What the server stands on and does not implement: `double` and SQLite. A database handle is a
-- state that every call may change; `Laws` is the documented behaviour of both.
use panngo.Base.{ℕ, ◌<◌, ◌≡◌, Bool, List, Text, if◌then◌else◌, u32_mod}
use panngo.Server.Sql.{Statement, Query}
use panngo.Server.Table.{Row, PriceRow, Fetch, Answers, apply_statement, apply_price}
use panngo.Server.Data.{PangoData, Message}

pub record Platform : Type 1 where
  pub F : Type 0
  pub multiply : F → F → F
  -- int to double, from the pattern of the int, and back.
  pub of_int : ℕ → F
  pub to_int : F → ℕ
  pub Db : Type 0
  -- sqlite3_exec; `true` is SQLITE_OK.
  pub sqlite3_exec : Statement → Db → Bool × Db
  -- sqlite3_prepare_v2, one sqlite3_step, and the column that the caller reads.
  pub sqlite3_fetch : Query → Db → Fetch F × Db

-- A statement that succeeds does what it says, one that fails does nothing (SQLite's statements are
-- atomic), a SELECT changes nothing, and what it returns is in the table. An int of 32 bits fits
-- the 53 bits of a double.
pub record Laws (p : Platform) : Type 0 where
  pub rows : p.Db → List Row
  pub prices : p.Db → List (PriceRow p.F)
  pub to_int-of_int : (n : ℕ) → n < u32_mod → p.to_int (p.of_int n) ≡ n
  pub rows-exec :
      (s : Statement) (d : p.Db)
      → rows (p.sqlite3_exec s d).1
        ≡ (if (p.sqlite3_exec s d).0 then apply_statement s (rows d) else rows d)
  pub real_of_text : Text → p.F
  pub prices-exec :
      (s : Statement) (d : p.Db)
      → prices (p.sqlite3_exec s d).1
        ≡ (if (p.sqlite3_exec s d).0 then apply_price real_of_text s (prices d) else prices d)
  pub rows-fetch : (q : Query) (d : p.Db) → rows (p.sqlite3_fetch q d).1 ≡ rows d
  pub prices-fetch : (q : Query) (d : p.Db) → prices (p.sqlite3_fetch q d).1 ≡ prices d
  pub fetch-Answers : (q : Query) (d : p.Db) → Answers q (rows d) (prices d) (p.sqlite3_fetch q d).0

-- What a client's thread works on: its own struct pango_data, the handles db_client and db_prices,
-- and what it has sent, the latest last.
pub record Session (p : Platform) : Type 0 where
  pub client : PangoData p.F
  pub db_client : p.Db
  pub db_prices : p.Db
  pub sent : List (Message p.F)
