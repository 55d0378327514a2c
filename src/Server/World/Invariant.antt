-- ===== src/Server/World/Invariant.antt =====
-- The threads of server/ together, when no two clients have one MAC address.
use panngo.Base.{ℕ, ◌<◌, ◌≡◌, ◌⊎◌, refl, sym, subst, ◌∙◌, ap, List, [], ◌∷◌, Text}
use panngo.Server.Table.{Row, Any}
use panngo.Server.Table.Rows.{Has, IsUnique}
use panngo.Server.Platform.{Platform, Laws, Session}
use panngo.Server.Thread.{Event}
use panngo.Server.Thread.Start.{IsReliable}
use panngo.Server.DbUpdate.{update_thread_max_num_clients}
use panngo.Server.DbUpdate.Run.{parkings, parkings-db_update_round}
use panngo.Server.World.{
  receiving, removed, move, World, attach, thread_step, structs, Tick, backup_step, Step, moves,
  update-cases, backs_up, Reach, begin, later, world_start,
}
use panngo.Server.World.Moves.{IsDeleting, IsSound, IsFrom, IsSound-spared, Sound}
use panngo.Server.World.Sections.{move-Fair}

-- The addresses are those of `parkings`.
abbrev HasParking : Text → List (Text × Text) → Type 0
HasParking mac ps = Any (λ q. q.0 ≡ mac) ps

abbrev IsUniqueParkings : List (Text × Text) → Type 0
IsUniqueParkings [] = Unit
IsUniqueParkings (q ∷ qs) = ¬ HasParking q.0 qs × IsUniqueParkings qs

Has-parkings : (mac : Text) (rs : List Row) → Has mac rs ≡ HasParking mac (parkings rs)
Has-parkings mac [] = refl
Has-parkings mac (r ∷ rs) = ap (λ (T : Type 0). (r.mac_adr ≡ mac) ⊎ T) (Has-parkings mac rs)

IsUnique-parkings : (rs : List Row) → IsUnique rs ≡ IsUniqueParkings (parkings rs)
IsUnique-parkings [] = refl
IsUnique-parkings (r ∷ rs) =
    ap (λ (T : Type 0). ¬ T × IsUnique rs) (Has-parkings r.mac_adr rs)
    ∙ ap (λ (T : Type 0). ¬ HasParking r.mac_adr (parkings rs) × T) (IsUnique-parkings rs)

pub Has-same_parkings :
    (mac : Text) (rs rs' : List Row) → parkings rs' ≡ parkings rs → Has mac rs' → Has mac rs
Has-same_parkings mac rs rs' e h =
    subst (λ (T : Type 0). T)
      (Has-parkings mac rs' ∙ ap (HasParking mac) e ∙ sym (Has-parkings mac rs)) h

IsUnique-same_parkings :
    (rs rs' : List Row) → parkings rs' ≡ parkings rs → IsUnique rs → IsUnique rs'
IsUnique-same_parkings rs rs' e u =
    subst (λ (T : Type 0). T)
      (IsUnique-parkings rs ∙ ap IsUniqueParkings (sym e) ∙ sym (IsUnique-parkings rs')) u

module _ (p : Platform) (laws : Laws p) (reliable : IsReliable p) where
  open laws use {rows}

  -- A step in which a thread takes no packet but one of its own client.
  abbrev pub IsHonest : (ℕ → Text) → {n start : ℕ} {w w' : World p} → Step p n start w w' → Type 0
  IsHonest owner {w = w} (moves i e below) =
      (w.tasks i).phase ≡ receiving → IsFrom p (owner i) e (attach p w (w.tasks i).state)
  IsHonest owner (backs_up r goes_on) = Unit

  abbrev pub AllHonest : (ℕ → Text) → {n start : ℕ} {w w' : World p} → Reach p n start w w' → Type 0
  AllHonest owner begin = Unit
  AllHonest owner (later before s) = AllHonest owner before × IsHonest owner s

  pub record Inv (n : ℕ) (owner : ℕ → Text) (w : World p) : Type 0 where
    pub unique : IsUnique (rows w.db_client)
    pub sound : (i : ℕ) → i < n → Sound p (owner i) (rows w.db_client) (w.tasks i)

  module _ (n start : ℕ) (owner : ℕ → Text)
      (apart : (i j : ℕ) → i < n → j < n → owner i ≡ owner j → i ≡ j) where
    pub thread_step-Inv :
        (w : World p) (i : ℕ) (e : Event)
        → i < n
        → ((w.tasks i).phase ≡ receiving → IsFrom p (owner i) e (attach p w (w.tasks i).state))
        → Inv n owner w
        → Inv n owner (thread_step p i e w)
    unfolding thread_step
    thread_step-Inv w i e below from inv =
        let t = attach p w (w.tasks i).state in
        let k = move p e (w.tasks i).phase t in
        let (fair, sound) =
          move-Fair p laws reliable (owner i) e (w.tasks i).phase t from (inv.sound i below) in
        record {
          unique = fair.unique inv.unique;
          sound = λ j other.
              update-cases (Sound p (owner j) (rows k.state.session.db_client)) w.tasks i k j
                (λ same.
                  subst (λ m. Sound p (owner m) (rows k.state.session.db_client) k) same sound)
                (λ differs.
                  IsSound-spared p (owner j) (rows w.db_client) (rows k.state.session.db_client)
                    (w.tasks j).phase (w.tasks j).state.session.client.mac_address
                    (w.tasks j).state.status
                    (fair.spares (owner j) (λ same. differs (sym (apart j i other below same))))
                    (inv.sound j other));
        }

    pub backup_step-Inv :
        (w : World p) (r : Tick p) → Inv n owner w → Inv n owner (backup_step p start r w)
    unfolding backup_step
    backup_step-Inv w r inv =
        let same =
          parkings-db_update_round p laws start r.now r.return_thread r.first_clock r.second_clock
            (structs p 0 update_thread_max_num_clients w.tasks) w.db_client in
        record {
          unique = IsUnique-same_parkings (rows w.db_client) _ same inv.unique;
          sound = λ i below.
              IsSound-spared p (owner i) (rows w.db_client) _ (w.tasks i).phase
                (w.tasks i).state.session.client.mac_address (w.tasks i).state.status
                (Has-same_parkings (owner i) (rows w.db_client) _ same) (inv.sound i below);
        }

    Reach-Inv :
        {w w' : World p} (r : Reach p n start w w')
        → AllHonest owner r
        → Inv n owner w
        → Inv n owner w'
    Reach-Inv begin honest inv = inv
    Reach-Inv (later {w} before (moves i e below)) honest inv =
        thread_step-Inv w i e below honest.1 (Reach-Inv before honest.0 inv)
    Reach-Inv (later {w} before (backs_up r goes_on)) honest inv =
        backup_step-Inv w r (Reach-Inv before honest.0 inv)

    pub start-Inv :
        (db_client db_prices : p.Db) (s : ℕ → Session p)
        → IsUnique (rows db_client)
        → Inv n owner (world_start p db_client db_prices s)
    start-Inv db_client db_prices s unique = record { unique = unique; sound = λ i below. tt }

    -- Threads of clients and the thread db_update, interleaved in any order of their sections, from
    -- a table with at most one row for every MAC address: if every packet that a thread finds
    -- intact has the address of its client, no two of the `n` clients have one address, and every
    -- SELECT ends in SQLITE_ROW or SQLITE_DONE, then no MAC address has two rows in any world that
    -- is reached, whichever commands fail.
    pub world-IsUnique :
        (db_client db_prices : p.Db) (s : ℕ → Session p)
        → IsUnique (rows db_client)
        → {w : World p} (r : Reach p n start (world_start p db_client db_prices s) w)
        → AllHonest owner r
        → IsUnique (rows w.db_client)
    world-IsUnique db_client db_prices s unique r honest =
        (Reach-Inv r honest (start-Inv db_client db_prices s unique)).unique

    -- In the same worlds, where no DELETE fails: once the thread of a client has ended behind
    -- remove_client_data, the client's address has no row, whatever the other threads and db_update
    -- have done since.
    pub removed_for_good :
        (db_client db_prices : p.Db) (s : ℕ → Session p)
        → IsUnique (rows db_client)
        → IsDeleting p
        → {w : World p} (r : Reach p n start (world_start p db_client db_prices s) w)
        → AllHonest owner r
        → (i : ℕ) → i < n
        → (w.tasks i).phase ≡ removed
        → ¬ Has (owner i) (rows w.db_client)
    removed_for_good db_client db_prices s unique deletes {w} r honest i below gone =
        let sound = (Reach-Inv r honest (start-Inv db_client db_prices s unique)).sound i below in
        subst
          (λ phase.
            IsSound p (owner i) (rows w.db_client) phase
              (w.tasks i).state.session.client.mac_address (w.tasks i).state.status)
          gone sound deletes
