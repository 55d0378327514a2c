-- ===== src/Server/DbUpdate.antt =====
-- server/database/parking_time_db/: the thread that writes the time used of every connected client
-- into its row. `now` and `clock i` are the tv_sec that gettimeofday gives, the latter for the
-- client at index i.
pub mod Backup
pub mod Run
pub mod Order
pub mod Torn
use panngo.Base.{
  ℕ, zero, suc, ◌+◌, ◌-◌, ◌%◌, List, [], ◌∷◌, Bool, true, false, take, u32, u32_mod, sub32, ltb,
  ◌==◌, if◌then◌else◌,
}
use panngo.Server.Sql.{update_time_used}
use panngo.Server.Data.{PangoData}
use panngo.Server.Platform.{Platform}

abbrev pub update_thread_max_num_clients : ℕ
update_thread_max_num_clients = 10

abbrev pub number_of_seconds_between_backups : ℕ
number_of_seconds_between_backups = 5

unfoldable pub set_start_time : ℕ → ℕ
set_start_time now = u32 now

-- The absolute value of the int with this pattern.
abbrev pub magnitude : ℕ → ℕ
magnitude w = if ltb w 2147483648 then w else u32_mod - w

-- back_up_flag. C's remainder is 0 for a negative int exactly when it is 0 without the sign.
unfoldable pub time_to_backup : ℕ → ℕ → Bool
time_to_backup database_backup_start_time now =
    magnitude (sub32 (u32 now) database_backup_start_time) % number_of_seconds_between_backups == 0

module _ (p : Platform) where
  -- The loop over the clients from index `i` on. Whether an update succeeds is only printed.
  unfoldable pub update_loop : (ℕ → ℕ) → ℕ → List (PangoData p.F) → p.Db → p.Db
  update_loop clock i [] d = d
  update_loop clock i (c ∷ cs) d =
      let used = sub32 (u32 (clock i)) c.time_start_parking in
      let d' =
        if c.connected then (p.sqlite3_exec (update_time_used used c.mac_address) d).1 else d in
      update_loop clock (i + 1) cs d'

  unfoldable pub update_clients : (ℕ → ℕ) → List (PangoData p.F) → Bool → p.Db → p.Db
  unfolding update_loop
  update_clients clock clients is_backup_time d =
      if is_backup_time
      then update_loop clock 0 (take update_thread_max_num_clients clients) d
      else d

  -- The two flags and the database. One flag ends the thread, the other stops the round's second
  -- update_clients.
  pub record Flags : Type 0 where
    pub is_backup_time : Bool
    pub quit_loop_flag : Bool
    pub db_client : p.Db

  unfoldable pub return_database_update_thread :
      Bool → (ℕ → ℕ) → List (PangoData p.F) → Flags → Flags
  unfolding update_clients
  return_database_update_thread return_flag clock clients f =
      if return_flag
      then record {
        is_backup_time = false;
        quit_loop_flag = true;
        db_client = update_clients clock clients true f.db_client;
      }
      else f

  -- One round of db_update, between the lock and the unlock: the quit flag, and the database.
  unfoldable pub db_update_round :
      ℕ → ℕ → Bool → (ℕ → ℕ) → (ℕ → ℕ) → List (PangoData p.F) → p.Db → Bool × p.Db
  unfolding return_database_update_thread
  db_update_round start now return_thread first_clock second_clock clients d =
      let f = return_database_update_thread return_thread first_clock clients (record {
        is_backup_time = time_to_backup start now;
        quit_loop_flag = false;
        db_client = d;
      }) in
      (f.quit_loop_flag, update_clients second_clock clients f.is_backup_time f.db_client)

  -- What a round meets: the clock, the flag of the main thread, and the array of clients.
  pub record Round : Type 0 where
    pub now : ℕ
    pub return_thread : Bool
    pub first_clock : ℕ → ℕ
    pub second_clock : ℕ → ℕ
    pub clients : List (PangoData p.F)

  -- The thread goes on with its rounds, or it has ended.
  pub data Updating : Type 0 where
    updating : p.Db → Updating
    ended : p.Db → Updating

  -- The loop of db_update.
  unfoldable pub db_update_loop : ℕ → List Round → p.Db → Updating
  db_update_loop start [] d = updating d
  db_update_loop start (r ∷ rs) d =
      let after =
        db_update_round start r.now r.return_thread r.first_clock r.second_clock r.clients d in
      let rest = db_update_loop start rs after.1 in if after.0 then ended after.1 else rest

  -- The thread, from the clock at its start.
  unfoldable pub db_update : ℕ → List Round → p.Db → Updating
  db_update start rounds d = db_update_loop (set_start_time start) rounds d
