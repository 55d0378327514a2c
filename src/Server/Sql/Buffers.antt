-- ===== src/Server/Sql/Buffers.antt =====
-- The lengths of the SQL commands, and the buffers that sprintf writes them into.
use panngo.Base.{ℕ, ◌≤◌, ◌<◌, Text, arith, length, length-append, length-format_d}
use panngo.Server.Sql.{
  Statement, insert_client, update_time_used, delete_client, insert_price, create_clients,
  create_prices, Query, select_client, select_time_used, select_location, select_price,
  statement_text, query_text,
}

-- The longest texts that the server puts in: "ff:ff:ff:ff:ff:ff", and "Petah-Tikva".
abbrev pub mac_limit : ℕ
mac_limit = 17

abbrev pub location_limit : ℕ
location_limit = 11

abbrev pub Fits : Statement → Type 0
Fits (insert_client mac time location) =
    (length mac ≤ mac_limit) × (length location ≤ location_limit)
Fits (update_time_used time mac) = length mac ≤ mac_limit
Fits (delete_client mac) = length mac ≤ mac_limit
Fits (insert_price city price) = (length city ≤ location_limit) × (length price ≤ 11)
Fits create_clients = Unit
Fits create_prices = Unit

-- update_clinet_data of update_client_data, the smallest buffer, has 100 bytes; insert_query of
-- sql_price_db_create.c has 1000, and the others have 150.
abbrev pub statement_buffer : Statement → ℕ
statement_buffer (update_time_used time mac) = 100
statement_buffer (insert_price city price) = 1000
statement_buffer _ = 150

-- A command with an address of at most 17 characters, a location of at most 11, a price of at most
-- 11, and any time, is shorter than the buffer that sprintf writes it into.
pub statement_text-Fits : (s : Statement) → Fits s → length (statement_text s) < statement_buffer s
unfolding statement_text
statement_text-Fits (insert_client mac time location) h =
    simp length-append (omega (arith, length-format_d time))
statement_text-Fits (update_time_used time mac) h =
    simp length-append (omega (arith, length-format_d time))
statement_text-Fits (delete_client mac) h = simp length-append (omega arith)
statement_text-Fits (insert_price city price) h = simp length-append (omega arith)
statement_text-Fits create_clients h = omega arith
statement_text-Fits create_prices h = omega arith

abbrev pub key : Query → Text
key (select_client mac) = mac
key (select_time_used mac) = mac
key (select_location mac) = mac
key (select_price city) = city

-- A query for a key of at most 17 characters is shorter than its buffer of 150 bytes.
pub query_text_fits : (q : Query) → length (key q) ≤ mac_limit → length (query_text q) < 150
unfolding query_text
query_text_fits (select_client mac) h = simp length-append (omega arith)
query_text_fits (select_time_used mac) h = simp length-append (omega arith)
query_text_fits (select_location mac) h = simp length-append (omega arith)
query_text_fits (select_price city) h = simp length-append (omega arith)
