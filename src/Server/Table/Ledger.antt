-- ===== src/Server/Table/Ledger.antt =====
-- your_table without the order of its rows, which SQL leaves open: the abstract view of the table,
-- and what the server's commands do to it.
use panngo.Base.{
  ℕ, ◌≡◌, inl, inr, refl, ap, subst, List, [], ◌∷◌, Text, text_eq, Bool-cases, if◌then◌else◌,
}
use mathlib.Core.Logic.{∥∥₁_elim}
use mathlib.Core.List.{Perm, Perm-prop, Permᴰ}
use mathlib.Core.List.Perm
use mathlib.Core.List.Permᴰ
use mathlib.Core.Quot
use mathlib.Core.Quot.{Quot, Quot-set}
use panngo.Server.Sql.{
  Statement, insert_client, update_time_used, delete_client, insert_price, create_clients,
  create_prices,
}
use panngo.Server.Table.{Row, set_time, remove, apply_statement}

abbrev pub Ledger : Type 0
Ledger = Quot (Perm {A = Row})

-- The two commands that change rows, on one row.
abbrev pub timed : ℕ → Text → Row → Row
timed time mac r = if text_eq r.mac_adr mac then record r { time_used = time } else r

abbrev unless_removed : Text → Row → List Row → List Row
unless_removed mac r rest = if text_eq r.mac_adr mac then rest else r ∷ rest

set_time-Permᴰ :
    (time : ℕ) (mac : Text) {a b : List Row}
    → Permᴰ a b
    → Permᴰ (set_time time mac a) (set_time time mac b)
unfolding set_time
set_time-Permᴰ time mac Permᴰ.nil = Permᴰ.nil
set_time-Permᴰ time mac (Permᴰ.cons e d) =
    Permᴰ.cons (ap (timed time mac) e) (set_time-Permᴰ time mac d)
set_time-Permᴰ time mac (Permᴰ.swap e e') =
    Permᴰ.swap (ap (timed time mac) e) (ap (timed time mac) e')
set_time-Permᴰ time mac (Permᴰ.trans d d') =
    Permᴰ.trans (set_time-Permᴰ time mac d) (set_time-Permᴰ time mac d')

unless_removed-Permᴰ :
    (mac : Text) {a b : Row} {rs qs : List Row}
    → a ≡ b
    → Permᴰ rs qs
    → Permᴰ (unless_removed mac a rs) (unless_removed mac b qs)
unless_removed-Permᴰ mac {a} {b} {rs} {qs} e d =
    subst (λ (r : Row). Permᴰ (unless_removed mac a rs) (unless_removed mac r qs)) e
      (elim (Bool-cases (text_eq a.mac_adr mac)) [
        | inl own ↦ rw own d
        | inr other ↦ rw other (Permᴰ.cons refl d)
      ])

unless_removed-swap :
    (mac : Text) (a b : Row) (rs : List Row)
    → Permᴰ
        (unless_removed mac a (unless_removed mac b rs))
        (unless_removed mac b (unless_removed mac a rs))
unless_removed-swap mac a b rs = elim (Bool-cases (text_eq a.mac_adr mac)) [
  | inl own ↦ rw own (Permᴰ.refl (unless_removed mac b rs))
  | inr other ↦ elim (Bool-cases (text_eq b.mac_adr mac)) [
    | inl own' ↦ rw (other, own') (Permᴰ.cons refl (Permᴰ.refl rs))
    | inr other' ↦ rw (other, other') (Permᴰ.swap refl refl)
  ]
]

remove-Permᴰ : (mac : Text) {a b : List Row} → Permᴰ a b → Permᴰ (remove mac a) (remove mac b)
unfolding remove
remove-Permᴰ mac Permᴰ.nil = Permᴰ.nil
remove-Permᴰ mac (Permᴰ.cons e d) = unless_removed-Permᴰ mac e (remove-Permᴰ mac d)
remove-Permᴰ mac (Permᴰ.swap {a} {b} {a'} {b'} {l} e e') =
    Permᴰ.trans (unless_removed-swap mac a b (remove mac l))
      (unless_removed-Permᴰ mac e' (unless_removed-Permᴰ mac e (Permᴰ.refl (remove mac l))))
remove-Permᴰ mac (Permᴰ.trans d d') = Permᴰ.trans (remove-Permᴰ mac d) (remove-Permᴰ mac d')

pub apply_statement-Perm :
    (s : Statement) (a b : List Row) → Perm a b → Perm (apply_statement s a) (apply_statement s b)
unfolding apply_statement
apply_statement-Perm (insert_client mac time location) a b h =
    Perm.append_right (record { mac_adr = mac; time_used = time; location = location } ∷ []) h
apply_statement-Perm (update_time_used time mac) a b h =
    ∥∥₁_elim h Perm-prop (λ d. ∣ set_time-Permᴰ time mac d ∣₁)
apply_statement-Perm (delete_client mac) a b h = ∥∥₁_elim h Perm-prop (λ d. ∣ remove-Permᴰ mac d ∣₁)
apply_statement-Perm (insert_price city price) a b h = h
apply_statement-Perm create_clients a b h = h
apply_statement-Perm create_prices a b h = h

-- A command on the abstract table.
unfoldable pub command : Statement → Ledger → Ledger
command s =
    Quot.lift Quot-set (λ rs. Quot.mk (apply_statement s rs))
      (λ a b h. Quot.sound (apply_statement-Perm s a b h))
