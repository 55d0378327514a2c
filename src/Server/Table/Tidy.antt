-- ===== src/Server/Table/Tidy.antt =====
-- Changes of your_table that one client's thread may make.
use panngo.Base.{◌≡◌, sym, subst, ℕ, List, Text}
use panngo.Server.Table.{Row, set_time, remove}
use panngo.Server.Table.Rows.{IsUnique, IsUnique-set_time, IsUnique-remove}
use panngo.Server.Table.Others.{
  IsOwnChange, IsOwnChange-refl, set_time-IsOwnChange, remove-IsOwnChange,
}

-- A change that concerns the client `mac` only and gives no MAC address a second row.
pub record IsTidy (mac : Text) (before after : List Row) : Type 0 where
  pub own : IsOwnChange mac before after
  pub unique : IsUnique before → IsUnique after

pub IsTidy-refl : (mac : Text) (rs : List Row) → IsTidy mac rs rs
IsTidy-refl mac rs = record { own = IsOwnChange-refl mac rs; unique = λ u. u }

pub IsTidy-eq : (mac : Text) {a b : List Row} → b ≡ a → IsTidy mac a b
IsTidy-eq mac {a} {b} e = subst (IsTidy mac a) (sym e) (IsTidy-refl mac a)

pub IsTidy-set_time : (time : ℕ) (mac : Text) (rs : List Row) → IsTidy mac rs (set_time time mac rs)
IsTidy-set_time time mac rs = record {
  own = set_time-IsOwnChange mac time rs;
  unique = IsUnique-set_time time mac rs;
}

pub IsTidy-remove : (mac : Text) (rs : List Row) → IsTidy mac rs (remove mac rs)
IsTidy-remove mac rs = record { own = remove-IsOwnChange mac rs; unique = IsUnique-remove mac rs }
