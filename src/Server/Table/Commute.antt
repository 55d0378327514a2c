-- ===== src/Server/Table/Commute.antt =====
-- Two commands of sqlite3_exec that name different clients, in either order.
use panngo.Base.{ℕ, ◌≡◌, ◌≢◌, refl, sym, ap, subst, arith, List, [], ◌∷◌, ◌++◌, Text, text_eq_iff}
use mathlib.Core.List.{Perm, append_assoc}
use mathlib.Core.List.Perm
use panngo.Server.Sql.{
  Statement, insert_client, update_time_used, delete_client, insert_price, create_clients,
  create_prices,
}
use mathlib.Core.Quot
use mathlib.Core.Quot.{Quot-set}
use panngo.Server.Table.Ledger.{Ledger, timed, command}
use panngo.Server.Table.{Row, set_time, remove, apply_statement}

-- The client that a command names; the commands on other tables name none.
abbrev pub address : Statement → Text
address (insert_client mac time location) = mac
address (update_time_used time mac) = mac
address (delete_client mac) = mac
address (insert_price city price) = []
address create_clients = []
address create_prices = []

set_time-append :
    (time : ℕ) (mac : Text) (rs : List Row) (r : Row)
    → mac ≢ r.mac_adr
    → set_time time mac (rs ++ r ∷ []) ≡ set_time time mac rs ++ r ∷ []
unfolding set_time
set_time-append time mac [] r apart = ground (arith, text_eq_iff r.mac_adr mac)
set_time-append time mac (q ∷ rs) r apart =
    ap (λ (l : List Row). timed time mac q ∷ l) (set_time-append time mac rs r apart)

remove-append :
    (mac : Text) (rs : List Row) (r : Row)
    → mac ≢ r.mac_adr
    → remove mac (rs ++ r ∷ []) ≡ remove mac rs ++ r ∷ []
unfolding remove
remove-append mac [] r apart = ground (arith, text_eq_iff r.mac_adr mac)
remove-append mac (q ∷ rs) r apart = ground (arith, remove-append mac rs r apart)

set_time-set_time :
    (time time' : ℕ) (mac mac' : Text) (rs : List Row)
    → mac ≢ mac'
    → set_time time mac (set_time time' mac' rs) ≡ set_time time' mac' (set_time time mac rs)
unfolding set_time
set_time-set_time time time' mac mac' [] apart = refl
set_time-set_time time time' mac mac' (r ∷ rs) apart = ground (
  arith,
  text_eq_iff r.mac_adr mac,
  text_eq_iff r.mac_adr mac',
  set_time-set_time time time' mac mac' rs apart,
)

set_time-remove :
    (time : ℕ) (mac mac' : Text) (rs : List Row)
    → mac ≢ mac'
    → set_time time mac (remove mac' rs) ≡ remove mac' (set_time time mac rs)
unfolding set_time remove
set_time-remove time mac mac' [] apart = refl
set_time-remove time mac mac' (r ∷ rs) apart = ground (
  arith,
  text_eq_iff r.mac_adr mac,
  text_eq_iff r.mac_adr mac',
  set_time-remove time mac mac' rs apart,
)

remove-remove :
    (mac mac' : Text) (rs : List Row) → remove mac (remove mac' rs) ≡ remove mac' (remove mac rs)
unfolding remove
remove-remove mac mac' [] = refl
remove-remove mac mac' (r ∷ rs) = ground (arith, remove-remove mac mac' rs)

same : {a b : List Row} → a ≡ b → Perm a b
same {a} e = subst (λ (b : List Row). Perm a b) e (Perm.refl a)

-- Up to the order of the rows, which two insertions leave open.
pub apart-Perm :
    (s s' : Statement) (rs : List Row)
    → address s ≢ address s'
    → Perm (apply_statement s (apply_statement s' rs)) (apply_statement s' (apply_statement s rs))
unfolding apply_statement
apart-Perm (insert_client m t l) (insert_client m' t' l') rs apart =
    let r : Row = record { mac_adr = m; time_used = t; location = l } in
    let r' : Row = record { mac_adr = m'; time_used = t'; location = l' } in
    subst (λ (a : List Row). Perm a (apply_statement (insert_client m' t' l') (rs ++ r ∷ [])))
      (sym (append_assoc rs (r' ∷ []) (r ∷ [])))
      (subst (λ (b : List Row). Perm (rs ++ (r' ∷ r ∷ [])) b)
        (sym (append_assoc rs (r ∷ []) (r' ∷ []))) (Perm.append_left rs (Perm.swap r r' [])))
apart-Perm (insert_client m t l) (update_time_used t' m') rs apart =
    same (sym (set_time-append t' m' rs _ (λ e. apart (sym e))))
apart-Perm (insert_client m t l) (delete_client m') rs apart =
    same (sym (remove-append m' rs _ (λ e. apart (sym e))))
apart-Perm (update_time_used t m) (insert_client m' t' l') rs apart =
    same (set_time-append t m rs _ apart)
apart-Perm (update_time_used t m) (update_time_used t' m') rs apart =
    same (set_time-set_time t t' m m' rs apart)
apart-Perm (update_time_used t m) (delete_client m') rs apart =
    same (set_time-remove t m m' rs apart)
apart-Perm (delete_client m) (insert_client m' t' l') rs apart = same (remove-append m rs _ apart)
apart-Perm (delete_client m) (update_time_used t' m') rs apart =
    same (sym (set_time-remove t' m' m rs (λ e. apart (sym e))))
apart-Perm (delete_client m) (delete_client m') rs apart = same (remove-remove m m' rs)
apart-Perm (insert_price c p) s' rs apart = Perm.refl (apply_statement s' rs)
apart-Perm create_clients s' rs apart = Perm.refl (apply_statement s' rs)
apart-Perm create_prices s' rs apart = Perm.refl (apply_statement s' rs)
apart-Perm s (insert_price c p) rs apart = Perm.refl (apply_statement s rs)
apart-Perm s create_clients rs apart = Perm.refl (apply_statement s rs)
apart-Perm s create_prices rs apart = Perm.refl (apply_statement s rs)

-- On the table without the order of its rows.
pub command-command :
    (s s' : Statement) (q : Ledger)
    → address s ≢ address s'
    → command s (command s' q) ≡ command s' (command s q)
unfolding command
command-command s s' q apart =
    Quot.ind (λ (l : Ledger). Quot-set (command s (command s' l)) (command s' (command s l)))
      (λ rs. Quot.sound (apart-Perm s s' rs apart)) q
