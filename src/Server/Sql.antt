-- ===== src/Server/Sql.antt =====
-- The SQL that the server sends to SQLite. The source writes each command with sprintf into a
-- local buffer; `Statement` and `Query` name the commands with the values put in, and
-- `statement_text` and `query_text` are the texts.
pub mod Buffers
use panngo.Base.{ℕ, ◌+◌, ◌≤◌, List, ◌∷◌, [], ◌++◌, Text, codes, format_d}

-- The commands that go through sqlite3_exec.
pub data Statement : Type 0 where
  insert_client : Text → ℕ → Text → Statement
  update_time_used : ℕ → Text → Statement
  delete_client : Text → Statement
  insert_price : Text → Text → Statement
  create_clients : Statement
  create_prices : Statement

-- The commands that go through sqlite3_prepare_v2 and sqlite3_step.
pub data Query : Type 0 where
  select_client : Text → Query
  select_time_used : Text → Query
  select_location : Text → Query
  select_price : Text → Query

unfoldable pub statement_text : Statement → Text
statement_text (insert_client mac time location) =
    codes "INSERT INTO your_table (MAC_ADR , TIME_USED , LOCATION ) VALUES ('"
    ++ (mac ++ (codes "', " ++ (format_d time ++ (codes ",'" ++ (location ++ codes "');")))))
statement_text (update_time_used time mac) =
    codes "UPDATE your_table SET TIME_USED = "
    ++ (format_d time ++ (codes " WHERE MAC_ADR = '" ++ (mac ++ codes "';")))
statement_text (delete_client mac) =
    codes "DELETE FROM your_table WHERE MAC_ADR = '" ++ (mac ++ codes "';")
statement_text (insert_price city price) =
    codes "INSERT INTO city_parking (CITY , PRICE ) VALUES ('"
    ++ (city ++ (codes "', " ++ (price ++ codes ");")))
statement_text create_clients =
    codes "CREATE TABLE IF NOT EXISTS your_table (MAC_ADR TEXT, TIME_USED INT, LOCATION TEXT);"
statement_text create_prices =
    codes "CREATE TABLE IF NOT EXISTS city_parking (CITY TEXT, PRICE REAL);"

unfoldable pub query_text : Query → Text
query_text (select_client mac) =
    codes "SELECT * FROM your_table WHERE MAC_ADR = '" ++ (mac ++ codes "';")
query_text (select_time_used mac) =
    codes "SELECT TIME_USED FROM your_table WHERE MAC_ADR = '" ++ (mac ++ codes "';")
query_text (select_location mac) =
    codes "SELECT LOCATION FROM your_table WHERE MAC_ADR = '" ++ (mac ++ codes "';")
query_text (select_price city) =
    codes "SELECT * FROM city_parking WHERE CITY = '" ++ (city ++ codes "';")
