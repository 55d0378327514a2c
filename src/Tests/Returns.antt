-- ===== src/Tests/Returns.antt =====
-- A client whose connection was lost, and who comes back, beside the backup thread.
use panngo.Base.{
  List, some, sym, subst, ap, ◌∙◌, ℕ, zero, suc, ◌+◌, ◌-◌, ◌≡◌, ◌≢◌, ◌⊎◌, refl, arith, [], ◌∷◌,
  true, false, codes, sub32, u32, Text, text_eq, Bool,
}
use mathlib.Core.Bool.{false≢true}
use panngo.Server.Sql.{select_time_used}
use panngo.Server.Data.{quit}
use panngo.Server.Table.{Row, int, row}
use panngo.Server.Table.Rows.{IsUnique, time_of}
use panngo.Server.Platform.{Session}
use panngo.Server.Thread.{closed, received, Event, thread_start, update_client_data}
use panngo.Server.World.{
  resuming, asking, updating, removed, ended, Task, at, World, thread_step, Tick, backup_step,
  moves, backs_up, Reach, begin, later,
}
use panngo.Server.World.Ends.{IsClosed, thread_ends}
use panngo.Server.World.Isolated.Run.{AllElsewhere, lost_parking_resumes}
use panngo.Tests.Threads.{mac, session, one_row}
use panngo.Tests.Toy.{toy, toy_laws, find_row}

abbrev apart : Session toy
apart = record session { client = record (session.client) { connected = false } }

-- Thread 0 has lost its client, who parks since 1000, and thread 1 has its START_APP.
abbrev tasks : ℕ → Task toy
tasks zero = at toy updating (record (thread_start toy apart) { return_value = quit; status = 3 })
tasks (suc i) = at toy asking (record (thread_start toy apart) { status = 1 })

abbrev lost_world : World toy
lost_world = record {
  db_client = one_row;
  db_prices = one_row;
  quit_loop_flag = false;
  tasks = tasks;
}

abbrev tick : Tick toy
tick = record {
  now = 2000;
  return_thread = false;
  first_clock = λ i. 2000;
  second_clock = λ i. 2000;
}

abbrev at_time : ℕ → Event
at_time t = record { recv = received []; now = t }

-- The time is saved, thread 1 asks, and a backup is due.
abbrev saved_world : World toy
saved_world = thread_step toy 0 (at_time 1060) lost_world

abbrev asked_world : World toy
asked_world = thread_step toy 1 (at_time 1990) saved_world

abbrev returned_world : World toy
returned_world = backup_step toy 1000 tick asked_world

returned-Reach : Reach toy 2 1000 saved_world returned_world
unfolding thread_step
returned-Reach = later (later begin (moves 1 (at_time 1990) (omega arith))) (backs_up tick refl)

returned-AllElsewhere : AllElsewhere toy toy_laws mac returned-Reach
unfolding returned-Reach thread_step backup_step panngo.Server.World.structs
    panngo.Server.World.move update_client_data panngo.Server.World.ask text_eq
    native.Mathlib.Decide.ℕ_discrete panngo.Server.DbUpdate.db_update_round
    panngo.Server.DbUpdate.time_to_backup panngo.Server.Table.apply_statement
    panngo.Server.Table.set_time panngo.Server.Table.Rows.time_of
returned-AllElsewhere = (
  (tt, λ w. cc),
  (away, (away, (away, (away, (away, (away, (away, (away, (away, (away, tt)))))))))),
)
  where
    away : {m : Text} → ◌≡◌ {A = Bool} false true → mac ≢ m
    away on e = false≢true on

returned_rows :
    returned_world.db_client.clients
    ≡ record { mac_adr = mac; time_used = 60; location = codes "Ashkelon" } ∷ []
unfolding thread_step backup_step panngo.Server.World.structs panngo.Server.World.move
    update_client_data panngo.Server.World.ask text_eq native.Mathlib.Decide.ℕ_discrete
    panngo.Server.DbUpdate.db_update_round panngo.Server.DbUpdate.time_to_backup
    panngo.Server.Table.apply_statement panngo.Server.Table.set_time
    panngo.Server.Table.Rows.time_of
returned_rows = refl

returned_world_resuming : (returned_world.tasks 1).phase ≡ resuming
unfolding thread_step backup_step panngo.Server.World.structs panngo.Server.World.move
    update_client_data panngo.Server.World.ask text_eq native.Mathlib.Decide.ℕ_discrete
    panngo.Server.DbUpdate.db_update_round panngo.Server.DbUpdate.time_to_backup
    panngo.Server.Table.apply_statement panngo.Server.Table.set_time
    panngo.Server.Table.Rows.time_of
returned_world_resuming = refl

returned_world_mac : (returned_world.tasks 1).state.session.client.mac_address ≡ mac
unfolding thread_step backup_step panngo.Server.World.structs panngo.Server.World.move
    update_client_data panngo.Server.World.ask text_eq native.Mathlib.Decide.ℕ_discrete
    panngo.Server.DbUpdate.db_update_round panngo.Server.DbUpdate.time_to_backup
    panngo.Server.Table.apply_statement panngo.Server.Table.set_time
    panngo.Server.Table.Rows.time_of
returned_world_mac = refl

parked_time : time_of mac lost_world.db_client.clients ≡ some 30
unfolding text_eq time_of
parked_time = refl

returned-IsUnique : IsUnique returned_world.db_client.clients
returned-IsUnique = subst IsUnique (sym returned_rows) (λ h. h, tt)

returned_found :
    (toy.sqlite3_fetch (select_time_used mac) returned_world.db_client).0 ≡ row (int 60)
returned_found =
    ap (λ (rs : List Row). find_row (λ r. int r.time_used) mac rs) returned_rows ∙ found
  where
    found :
        find_row
          (λ r. int r.time_used)
          mac
          (record { mac_adr = mac; time_used = 60; location = codes "Ashkelon" } ∷ [])
        ≡ row (int 60)
    found = unfold text_eq in refl

lost_parking_resumes_example :
    sub32
      (u32 5100)
      ((thread_step toy 1 (at_time 5000) returned_world).tasks
        1).state.session.client.time_start_parking
    ≡ (1060 - 1000) + (5100 - 5000)
lost_parking_resumes_example =
    lost_parking_resumes toy toy_laws mac 2 1000 0 1 (at_time 1060) (at_time 5000) lost_world 30
      5100 (int 60) refl refl parked_time (λ s d. refl) returned-Reach returned-AllElsewhere
      returned-IsUnique returned_world_resuming returned_world_mac returned_found (omega arith)
      (omega arith) (omega arith) (omega arith)

abbrev gone : Event
gone = record { recv = closed; now = 2100 }

-- The connection of thread 1, which has its START_APP, is closed: it asks whether its client has a
-- row, does what follows, and leaves. Thread 0 saves its time and a backup is due meanwhile.
abbrev leaving : ℕ → World toy
leaving zero =
    backup_step toy 1000 tick (
      thread_step toy 1 gone (thread_step toy 0 (at_time 1060) (thread_step toy 1 gone lost_world)))
leaving (suc n) = thread_step toy 1 gone (leaving n)

leaving-Reach : (n : ℕ) → Reach toy 2 1000 lost_world (leaving n)
unfolding thread_step
leaving-Reach zero =
    later
      (later
        (later (later begin (moves 1 gone (omega arith))) (moves 0 (at_time 1060) (omega arith)))
        (moves 1 gone (omega arith)))
      (backs_up tick refl)
leaving-Reach (suc n) = later (leaving-Reach n) (moves 1 gone (omega arith))

leaving-IsClosed : (n : ℕ) → IsClosed toy 1 (leaving-Reach n)
unfolding leaving-Reach
leaving-IsClosed zero = (((tt, λ e. refl), λ e. absurd (omega (arith, e))), λ e. refl)
leaving-IsClosed (suc n) = (leaving-IsClosed n, λ e. refl)

thread_ends_example :
    (((leaving 6).tasks 1).phase ≡ removed) ⊎ (((leaving 6).tasks 1).phase ≡ ended)
unfolding leaving-Reach native.Mathlib.Decide.ℕ_discrete
thread_ends_example = thread_ends toy 1 (leaving-Reach 6) (leaving-IsClosed 6) (omega arith)
