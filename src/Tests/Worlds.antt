-- ===== src/Tests/Worlds.antt =====
-- Several threads of the server over the two lists.
use panngo.Base.{
  ℕ, zero, suc, ◌<◌, ◌≡◌, ◌++◌, refl, arith, [], ◌∷◌, false, Text, codes, ap, get_or, format_x,
  sprintf_at, text_eq, true,
}
use panngo.Server.Packet.Mac.{mac_text}
use panngo.Server.Table.{Row}
use panngo.Server.Platform.{Session}
use panngo.Server.Table.Rows.{Has, IsUnique}
use panngo.Server.Crc.{calculate_crc8, crc_8_check}
use panngo.Server.Packet.{store_client_data_in_struct}
use panngo.Server.Thread.{received, Event, close_app_case}
use panngo.Server.World.{
  asking, removed, move, World, thread_step, Tick, backup_step, moves, backs_up, Reach, begin,
  later, world_start,
}
use panngo.Server.World.Invariant.{AllHonest, world-IsUnique, removed_for_good}
use panngo.Server.World.Connected.{row_of_connected}
use panngo.Server.Location.{location_func}
use panngo.Server.NewClient.{process_client_data}
use panngo.Server.Packet.Bounds.{IsBounded}
use panngo.Server.Typed.{IsStructTyped}
use panngo.Server.Thread.Typed.{IsReceived}
use panngo.Server.World.Typed.Run.{AllReceived, IsWorldTyped, world-IsTyped}
use panngo.Server.World.Race.{IsPoised, two_rows}
use panngo.Tests.Bytes.{the_packet, off_packet}
use panngo.Tests.Threads.{mac, session, no_rows}
use panngo.Tests.Toy.{toy, toy_laws, toy_reliable}

abbrev pub apart_session : Session toy
apart_session = record session { client = record (session.client) { connected = false } }

-- Nobody parks, and two clients have connected.
abbrev pub two_clients : World toy
two_clients = world_start toy no_rows no_rows (λ i. apart_session)

-- The client of thread 0 is the one of `the_packet`.
abbrev owners : ℕ → Text
owners zero = mac
owners (suc i) = codes "0:80:e1:0:f:fe"

owners_differ : (i j : ℕ) → i < 2 → j < 2 → owners i ≡ owners j → i ≡ j
owners_differ zero zero i_below j_below e = refl
owners_differ zero (suc j) i_below j_below e = absurd (omega (arith, ap (λ t. get_or t 13 0) e))
owners_differ (suc i) zero i_below j_below e = absurd (omega (arith, ap (λ t. get_or t 13 0) e))
owners_differ (suc i) (suc j) i_below j_below e = omega (arith, i_below, j_below)

abbrev on_event : Event
on_event = record { recv = received the_packet; now = 1060 }

abbrev off_event : Event
off_event = record { recv = received off_packet; now = 1090 }

-- START_APP to the thread 1 of the other client.
abbrev other_event : Event
other_event = record {
  recv = received (1 ∷ 0 ∷ 128 ∷ 225 ∷ 0 ∷ 15 ∷ 254 ∷ 3 ∷ 4 ∷ 154 ∷ []);
  now = 1061;
}

abbrev pub tick : Tick toy
tick = record {
  now = 1090;
  return_thread = false;
  first_clock = λ i. 1090;
  second_clock = λ i. 1090;
}

-- Thread 0 is sent CLOSE_APP and ends, while thread 1 asks and the backup is written.
abbrev closing_world : World toy
closing_world = thread_step toy 0 off_event (
    thread_step toy 0 off_event (
      backup_step toy 1000 tick (
        thread_step toy 1 other_event
          (thread_step toy 1 other_event (thread_step toy 0 off_event two_clients)))))

closing_world-Reach : Reach toy 2 1000 two_clients closing_world
unfolding thread_step
closing_world-Reach =
    later
      (later
        (later
          (later
            (later (later begin (moves 0 off_event (omega arith)))
              (moves 1 other_event (omega arith)))
            (moves 1 other_event (omega arith)))
          (backs_up tick refl))
        (moves 0 off_event (omega arith)))
      (moves 0 off_event (omega arith))

closing_world-AllHonest : AllHonest toy toy_laws toy_reliable owners closing_world-Reach
unfolding closing_world-Reach mac_text format_x
closing_world-AllHonest = (
  (((((tt, λ h intact. refl), λ h intact. refl), λ h intact. refl), tt), λ h intact. refl),
  λ h intact. refl,
)

closing_world_removed : (closing_world.tasks 0).phase ≡ removed
unfolding thread_step move crc_8_check calculate_crc8 store_client_data_in_struct
    native.Mathlib.Decide.ℕ_discrete panngo.Crc8.crc_byte panngo.Crc8.crc_rounds
    panngo.Crc8.crc_shift backup_step close_app_case
closing_world_removed = refl

world-IsUnique_example : IsUnique closing_world.db_client.clients
world-IsUnique_example =
    world-IsUnique toy toy_laws toy_reliable 2 1000 owners owners_differ no_rows no_rows
      (λ i. apart_session) tt closing_world-Reach closing_world-AllHonest

closing_world-AllReceived : AllReceived toy toy_laws closing_world-Reach
unfolding closing_world-Reach
closing_world-AllReceived = ((((((tt, off), other), other), tt), off), off)
  where
    off : IsReceived off_event.recv
    off = (ground arith, omega arith)

    other : IsReceived other_event.recv
    other = (ground arith, omega arith)

apart_session-IsStructTyped : IsStructTyped apart_session.client
apart_session-IsStructTyped = record {
  mac_address = omega arith;
  location = omega arith;
  x_axis = omega arith;
  y_axis = omega arith;
  time_start_parking = omega arith;
}

world-IsTyped_example :
    IsWorldTyped toy toy_laws closing_world
    × ((i : ℕ) → IsBounded (closing_world.tasks i).state.session.client)
world-IsTyped_example =
    world-IsTyped toy toy_laws 2 1000 no_rows no_rows (λ i. apart_session) tt
      (λ i. apart_session-IsStructTyped) closing_world-Reach closing_world-AllReceived

removed_for_good_example : ¬ Has mac closing_world.db_client.clients
removed_for_good_example =
    removed_for_good toy toy_laws toy_reliable 2 1000 owners owners_differ no_rows no_rows
      (λ i. apart_session) tt (λ m d. refl) closing_world-Reach closing_world-AllHonest 0
      (omega arith) closing_world_removed

-- Two threads for one client that is new.
abbrev racing_world : World toy
racing_world = thread_step toy 1 on_event (thread_step toy 0 on_event two_clients)

both_ask :
    IsPoised toy toy_laws toy_reliable asking mac (racing_world.tasks 0)
    × IsPoised toy toy_laws toy_reliable asking mac (racing_world.tasks 1)
    × (¬ Has mac racing_world.db_client.clients)
unfolding thread_step move format_x sprintf_at crc_8_check calculate_crc8
    store_client_data_in_struct native.Mathlib.Decide.ℕ_discrete panngo.Crc8.crc_byte
    panngo.Crc8.crc_rounds panngo.Crc8.crc_shift
both_ask = (
  record { there = refl; own = refl; fresh = refl },
  record { there = refl; own = refl; fresh = refl },
  λ h. h,
)

two_rows_example :
    (w : World toy) × Reach toy 2 1000 racing_world w
    × (r r' : Row) × (r.mac_adr ≡ mac)
    × (r'.mac_adr ≡ mac)
    × (w.db_client.clients ≡ (racing_world.db_client.clients ++ r ∷ []) ++ r' ∷ [])
two_rows_example =
    two_rows toy toy_laws toy_reliable 2 1000 racing_world 0 1 mac on_event on_event (omega arith)
      (omega arith) (omega arith) both_ask.0 both_ask.1 both_ask.2 (λ m time l d. refl)

-- Thread 0 has started to park, and a backup was written.
abbrev pub parked_world : World toy
parked_world = backup_step toy 1000 tick (
    thread_step toy 0 on_event (
      thread_step toy 0 on_event
        (thread_step toy 0 on_event (thread_step toy 0 on_event two_clients))))

pub parked_world-Reach : Reach toy 2 1000 two_clients parked_world
unfolding thread_step
parked_world-Reach =
    later
      (later
        (later
          (later (later begin (moves 0 on_event (omega arith))) (moves 0 on_event (omega arith)))
          (moves 0 on_event (omega arith)))
        (moves 0 on_event (omega arith)))
      (backs_up tick refl)

parked_world-AllHonest : AllHonest toy toy_laws toy_reliable owners parked_world-Reach
unfolding parked_world-Reach mac_text format_x
parked_world-AllHonest =
    (((((tt, λ h intact. refl), λ h intact. refl), λ h intact. refl), λ h intact. refl), tt)

parked_world_connected : (parked_world.tasks 0).state.session.client.connected ≡ true
unfolding thread_step move crc_8_check calculate_crc8 store_client_data_in_struct
    native.Mathlib.Decide.ℕ_discrete panngo.Crc8.crc_byte panngo.Crc8.crc_rounds
    panngo.Crc8.crc_shift backup_step format_x sprintf_at text_eq process_client_data location_func
parked_world_connected = refl

row_of_connected_example : Has mac parked_world.db_client.clients
row_of_connected_example =
    row_of_connected toy toy_laws toy_reliable 2 1000 owners owners_differ no_rows no_rows
      (λ i. apart_session) tt (λ i. refl) parked_world-Reach parked_world-AllHonest 0 (omega arith)
      parked_world_connected

pub parked_world_mac : (parked_world.tasks 0).state.session.client.mac_address ≡ mac
unfolding thread_step move crc_8_check calculate_crc8 store_client_data_in_struct
    native.Mathlib.Decide.ℕ_discrete panngo.Crc8.crc_byte panngo.Crc8.crc_rounds
    panngo.Crc8.crc_shift backup_step format_x sprintf_at text_eq process_client_data location_func
parked_world_mac = refl
