-- ===== src/Server/Typed.antt =====
-- The C types and the buffers of struct pango_data, and your_table: what fits them.
use panngo.Base.{
  ℕ, ◌<◌, inl, inr, sym, subst, arith, List, [], ◌∷◌, Bool-cases, Text, text_eq, length, get_or,
  u32_mod, IsByte, IsBytes, All,
}
use panngo.Crc8.Detection.{byte_at-IsByte}
use panngo.Server.Sql.{Statement, Query}
use panngo.Server.Table.{Row, set_time, remove, apply_statement}
use panngo.Server.Data.{PangoData, LoopStatus, quit, stay}
use panngo.Server.Platform.{Platform, Laws, Session}
use panngo.Server.Packet.Mac.{length-mac_text}
use panngo.Server.Packet.Store.{stored}

-- A row whose columns fit the fields of a struct.
pub record IsRowTyped (r : Row) : Type 0 where
  pub mac_adr : length r.mac_adr < 18
  pub time_used : r.time_used < u32_mod
  pub location : length r.location < 12

abbrev pub AllTyped : List Row → Type 0
AllTyped rs = All IsRowTyped rs

-- The struct of a client: strings with their NUL in their arrays, and numbers of their width.
pub record IsStructTyped {F : Type 0} (c : PangoData F) : Type 0 where
  pub mac_address : length c.mac_address < 18
  pub location : length c.location < 12
  pub x_axis : IsByte c.x_axis
  pub y_axis : IsByte c.y_axis
  pub time_start_parking : c.time_start_parking < u32_mod

pub set_time-AllTyped :
    (time : ℕ) (mac : Text) (rs : List Row)
    → time < u32_mod
    → AllTyped rs
    → AllTyped (set_time time mac rs)
unfolding set_time
set_time-AllTyped time mac [] fits h = tt
set_time-AllTyped time mac (r ∷ rs) fits (here, later) =
    let rest = set_time-AllTyped time mac rs fits later in
    elim (Bool-cases (text_eq r.mac_adr mac)) [
      | inl own ↦
          rw own
            (record { mac_adr = here.mac_adr; time_used = fits; location = here.location }, rest)
      | inr other ↦ rw other (here, rest)
    ]

pub remove-AllTyped : (mac : Text) (rs : List Row) → AllTyped rs → AllTyped (remove mac rs)
unfolding remove
remove-AllTyped mac [] h = tt
remove-AllTyped mac (r ∷ rs) (here, later) =
    let rest = remove-AllTyped mac rs later in
    elim (Bool-cases (text_eq r.mac_adr mac)) [
      | inl own ↦ rw own rest
      | inr other ↦ rw other (here, rest)
    ]

pub stored-IsStructTyped :
    {F : Type 0} (buff : List ℕ) (c : PangoData F)
    → IsBytes buff
    → IsStructTyped c
    → IsStructTyped (stored buff c)
stored-IsStructTyped buff c bytes typed = record {
  mac_address = omega (
    arith,
    length-mac_text (get_or buff 1 0) (
        get_or buff 2 0
        ∷ get_or buff 3 0
        ∷ get_or buff 4 0
        ∷ get_or buff 5 0
        ∷ get_or buff 6 0
        ∷ []),
  );
  location = typed.location;
  x_axis = byte_at-IsByte buff 7 bytes;
  y_axis = byte_at-IsByte buff 8 bytes;
  time_start_parking = typed.time_start_parking;
}

-- Both ends of a switch on a result.
pub loop_status-keeps :
    {A : Type 0} (P : A → Type 0) (r : LoopStatus) (x y : A)
    → P x
    → P y
    → P (elim r [ quit ↦ x | stay ↦ y ])
loop_status-keeps P quit x y h k = h
loop_status-keeps P stay x y h k = k

module _ (p : Platform) (laws : Laws p) where
  open laws use {rows}

  -- The struct and the table of a session.
  pub record IsSessionTyped (s : Session p) : Type 0 where
    pub client : IsStructTyped s.client
    pub table : AllTyped (rows s.db_client)

  pub exec-AllTyped :
      (s : Statement) (d : p.Db)
      → (AllTyped (rows d) → AllTyped (apply_statement s (rows d)))
      → AllTyped (rows d)
      → AllTyped (rows (p.sqlite3_exec s d).1)
  exec-AllTyped s d applied h = elim (Bool-cases (p.sqlite3_exec s d).0) [
    | inl ok ↦ subst AllTyped (sym (ground (arith, laws.rows-exec s d, ok))) (applied h)
    | inr fails ↦ subst AllTyped (sym (ground (arith, laws.rows-exec s d, fails))) h
  ]

  pub fetch-AllTyped :
      (q : Query) (d : p.Db) → AllTyped (rows d) → AllTyped (rows (p.sqlite3_fetch q d).1)
  fetch-AllTyped q d h = subst AllTyped (sym (laws.rows-fetch q d)) h
