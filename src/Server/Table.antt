-- ===== src/Server/Table.antt =====
-- The tables that the server keeps in SQLite, and what the commands mean for them. `your_table` of
-- main_server.c is a list of rows, and `city_parking` of sql_price_db_create.c a list of prices.
pub mod Rows
pub mod Saved
pub mod Others
pub mod Tidy
pub mod Ledger
pub mod Commute
use panngo.Base.{ℕ, List, [], ◌∷◌, ◌++◌, Bool, ◌≡◌, ◌⊎◌, Text, text_eq, if◌then◌else◌}
use panngo.Server.Sql.{
  Statement, insert_client, update_time_used, delete_client, insert_price, create_clients,
  create_prices, Query, select_client, select_time_used, select_location, select_price,
}

-- A row of your_table; `time_used` is the pattern of an int.
pub record Row : Type 0 where
  pub mac_adr : Text
  pub time_used : ℕ
  pub location : Text

-- A row of city_parking; F is the type of a REAL.
pub record PriceRow (F : Type 0) : Type 0 where
  pub city : Text
  pub price : F

unfoldable pub set_time : ℕ → Text → List Row → List Row
set_time time mac [] = []
set_time time mac (r ∷ rs) =
    (if text_eq r.mac_adr mac then record r { time_used = time } else r) ∷ set_time time mac rs

unfoldable pub remove : Text → List Row → List Row
remove mac [] = []
remove mac (r ∷ rs) = let rest = remove mac rs in if text_eq r.mac_adr mac then rest else r ∷ rest

-- What a statement that succeeds does to your_table.
unfoldable pub apply_statement : Statement → List Row → List Row
apply_statement (insert_client mac time location) rs =
    rs ++ record { mac_adr = mac; time_used = time; location = location } ∷ []
apply_statement (update_time_used time mac) rs = set_time time mac rs
apply_statement (delete_client mac) rs = remove mac rs
apply_statement (insert_price city price) rs = rs
apply_statement create_clients rs = rs
apply_statement create_prices rs = rs

-- What it does to city_parking; `real` is SQLite's reading of a number.
unfoldable pub apply_price :
    {F : Type 0} → (Text → F) → Statement → List (PriceRow F) → List (PriceRow F)
apply_price real (insert_price city price) ps =
    ps ++ record { city = city; price = real price } ∷ []
apply_price real (insert_client mac time location) ps = ps
apply_price real (update_time_used time mac) ps = ps
apply_price real (delete_client mac) ps = ps
apply_price real create_clients ps = ps
apply_price real create_prices ps = ps

-- Some item satisfies `P`.
abbrev pub Any : {A : Type 0} → (A → Type 0) → List A → Type 0
Any P [] = ⊥
Any P (x ∷ xs) = P x ⊎ Any P xs

-- The cells that the server reads.
pub data Value (F : Type 0) : Type 0 where
  int : ℕ → Value F
  text : Text → Value F
  real : F → Value F

-- sqlite3_prepare_v2 and then sqlite3_step: prepare fails; SQLITE_ROW, with the cell that is read;
-- SQLITE_DONE; another result of the step.
pub data Fetch (F : Type 0) : Type 0 where
  refused : Fetch F
  row : Value F → Fetch F
  done : Fetch F
  failed : Fetch F

-- `v` is the cell that the query asks for, in a row that it selects.
abbrev pub IsAnswer : {F : Type 0} → Query → List Row → List (PriceRow F) → Value F → Type 0
IsAnswer (select_client mac) rs ps v = Any (λ r. r.mac_adr ≡ mac) rs
IsAnswer (select_time_used mac) rs ps v = Any (λ r. (r.mac_adr ≡ mac) × (v ≡ int r.time_used)) rs
IsAnswer (select_location mac) rs ps v = Any (λ r. (r.mac_adr ≡ mac) × (v ≡ text r.location)) rs
IsAnswer (select_price city) rs ps v = Any (λ q. (q.city ≡ city) × (v ≡ real q.price)) ps

-- No row is selected.
abbrev pub IsMissing : {F : Type 0} → Query → List Row → List (PriceRow F) → Type 0
IsMissing (select_price city) rs ps = ¬ Any (λ q. q.city ≡ city) ps
IsMissing (select_client mac) rs ps = ¬ Any (λ r. r.mac_adr ≡ mac) rs
IsMissing (select_time_used mac) rs ps = ¬ Any (λ r. r.mac_adr ≡ mac) rs
IsMissing (select_location mac) rs ps = ¬ Any (λ r. r.mac_adr ≡ mac) rs

-- SQLITE_ROW comes with a row that is there, SQLITE_DONE when none is; other results say nothing.
abbrev pub Answers : {F : Type 0} → Query → List Row → List (PriceRow F) → Fetch F → Type 0
Answers q rs ps refused = Unit
Answers q rs ps (row v) = IsAnswer q rs ps v
Answers q rs ps done = IsMissing q rs ps
Answers q rs ps failed = Unit
