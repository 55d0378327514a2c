-- ===== src/Server/World/Connected.antt =====
-- The flags `connected` that db_update reads, and the rows that it writes, in the server's threads
-- together.
use panngo.Base.{ℕ, ◌<◌, ◌≡◌, sym, subst, ◌∙◌, Text, true, false}
use mathlib.Core.Bool.{false≢true}
use panngo.Server.Table.Rows.{Has, IsUnique}
use panngo.Server.Platform.{Platform, Laws, Session}
use panngo.Server.Thread.{Event}
use panngo.Server.Thread.Start.{IsReliable}
use panngo.Server.DbUpdate.{update_thread_max_num_clients}
use panngo.Server.DbUpdate.Run.{parkings-db_update_round}
use panngo.Server.World.{
  receiving, move, World, attach, thread_step, update-cases, structs, Tick, backup_step, moves,
  backs_up, Reach, begin, later, world_start,
}
use panngo.Server.World.Moves.{IsFrom}
use panngo.Server.World.Sections.{move-Fair}
use panngo.Server.World.Linked.{IsLinked, IsLinked-kept}
use panngo.Server.World.Linked.Moves.{move-Linked}
use panngo.Server.World.Invariant.{
  AllHonest, Inv, thread_step-Inv, backup_step-Inv, start-Inv, Has-same_parkings,
}

module _ (p : Platform) (laws : Laws p) (reliable : IsReliable p) where
  open laws use {rows}

  record Both (n : ℕ) (owner : ℕ → Text) (w : World p) : Type 0 where
    inv : Inv p laws reliable n owner w
    linked : (i : ℕ) → i < n → IsLinked (owner i) (rows w.db_client) (w.tasks i)

  module _ (n start : ℕ) (owner : ℕ → Text)
      (apart : (i j : ℕ) → i < n → j < n → owner i ≡ owner j → i ≡ j) where
    thread_step-Both :
        (w : World p) (i : ℕ) (e : Event)
        → i < n
        → ((w.tasks i).phase ≡ receiving → IsFrom p (owner i) e (attach p w (w.tasks i).state))
        → Both n owner w
        → Both n owner (thread_step p i e w)
    unfolding thread_step
    thread_step-Both w i e below from both =
        let t = attach p w (w.tasks i).state in
        let k = move p e (w.tasks i).phase t in
        let sound = both.inv.sound i below in
        let (fair, after) = move-Fair p laws reliable (owner i) e (w.tasks i).phase t from sound in
        let h = both.linked i below in
        let own =
          move-Linked p laws reliable (owner i) e (w.tasks i).phase t sound
            (record { row = h.row; ahead = h.ahead }) in
        record {
          inv = thread_step-Inv p laws reliable n start owner apart w i e below from both.inv;
          linked = λ j other.
              update-cases (IsLinked (owner j) (rows k.state.session.db_client)) w.tasks i k j
                (λ same.
                  subst (λ m. IsLinked (owner m) (rows k.state.session.db_client) k) same own)
                (λ differs.
                  IsLinked-kept (owner j) (rows w.db_client) (rows k.state.session.db_client)
                    (w.tasks j)
                    (fair.keeps (owner j) (λ same. differs (sym (apart j i other below same))))
                    (both.linked j other));
        }

    backup_step-Both :
        (w : World p) (r : Tick p) → Both n owner w → Both n owner (backup_step p start r w)
    unfolding backup_step
    backup_step-Both w r both =
        let same =
          parkings-db_update_round p laws start r.now r.return_thread r.first_clock r.second_clock
            (structs p 0 update_thread_max_num_clients w.tasks) w.db_client in
        record {
          inv = backup_step-Inv p laws reliable n start owner apart w r both.inv;
          linked = λ i below.
              IsLinked-kept (owner i) (rows w.db_client) _ (w.tasks i)
                (Has-same_parkings (owner i) _ (rows w.db_client) (sym same)) (both.linked i below);
        }

    Reach-Both :
        {w w' : World p} (r : Reach p n start w w')
        → AllHonest p laws reliable owner r
        → Both n owner w
        → Both n owner w'
    Reach-Both begin honest both = both
    Reach-Both (later {w} before (moves i e below)) honest both =
        thread_step-Both w i e below honest.1 (Reach-Both before honest.0 both)
    Reach-Both (later {w} before (backs_up r goes_on)) honest both =
        backup_step-Both w r (Reach-Both before honest.0 both)

    -- In the same worlds, if no struct is marked as connected at first: a client that is marked as
    -- connected, for which db_update writes a time, has a row in the table, whichever commands
    -- fail.
    pub row_of_connected :
        (db_client db_prices : p.Db) (s : ℕ → Session p)
        → IsUnique (rows db_client)
        → ((i : ℕ) → (s i).client.connected ≡ false)
        → {w : World p} (r : Reach p n start (world_start p db_client db_prices s) w)
        → AllHonest p laws reliable owner r
        → (i : ℕ) → i < n
        → (w.tasks i).state.session.client.connected ≡ true
        → Has (owner i) (rows w.db_client)
    row_of_connected db_client db_prices s unique apart_first r honest i below =
        let both = Reach-Both r honest (record {
          inv = start-Inv p laws reliable n start owner apart db_client db_prices s unique;
          linked = λ j other. record {
            row = λ c. absurd (false≢true (sym (apart_first j) ∙ c));
            ahead = tt;
          };
        }) in
        (both.linked i below).row
