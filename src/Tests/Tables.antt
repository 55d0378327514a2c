-- ===== src/Tests/Tables.antt =====
-- The tables, the backup, the accept loop and the struct at concrete data.
use panngo.Base.{
  Bool, ap, Text, get_or, if◌then◌else◌, List, arith, set, ◌≢◌, IsBytes, ℕ, ◌+◌, ◌*◌, ◌≡◌, ◌↔◌,
  refl, arith, [], ◌∷◌, ◌++◌, true, false, codes, take, replicate,
}
use panngo.Server.Data.{PangoData}
use panngo.Server.DbUpdate.{
  Round, db_update, time_to_backup, db_update_round, update_thread_max_num_clients,
}
use panngo.Server.DbUpdate.Order.{ledger, round_commutes}
use panngo.Server.DbUpdate.Run.{parkings, database, db_update_keeps}
use panngo.Server.DbUpdate.Backup.{backup_time, db_update_round_lem, time_to_backup_iff}
use panngo.Server.MainServer.{Accepted, accept_loop, overrun}
use panngo.Server.MainServer.Accept.{accept_loop_overruns}
use panngo.Server.Packet.{store_client_data_in_struct}
use panngo.Server.Packet.Keys.{stored_keys_differ}
use panngo.Server.Sql.{Statement, insert_client}
use panngo.Server.Table.Commute.{address}
use panngo.Server.Table.Rows.{time_of}
use panngo.Tests.Bytes.{the_packet, the_packet-IsBytes}
use panngo.Tests.Toy.{ToyDb, toy, toy_laws}

abbrev pub parked_client : PangoData ℕ
parked_client = record {
  status = 1;
  mac_address = codes "0:80:e1:0:f:ff";
  x_axis = 72;
  y_axis = 5;
  client_fd = 5;
  location = codes "Petah-Tikva";
  price = 8000;
  time_start_parking = 1000;
  connected = true;
}

abbrev pub empty_db : ToyDb
empty_db = record { clients = []; city_parking = [] }

time_to_backup_iff_example : (time_to_backup 1000 (1000 + (5 * 12 + 3)) ≡ true) ↔ (◌≡◌ {A = ℕ} 3 0)
time_to_backup_iff_example = time_to_backup_iff 1000 12 3 (omega arith) (omega arith)

abbrev nobody : Accepted ℕ
nobody = record { clients = replicate 10 parked_client; noticed = 0; threads = [] }

accept_loop_overruns_example :
    (b : Accepted ℕ) × (accept_loop 0 (replicate 10 7 ++ 4294967295 ∷ []) nobody ≡ overrun b)
    × (b.noticed ≡ 0)
accept_loop_overruns_example = accept_loop_overruns (replicate 10 7) 4294967295 [] nobody refl refl

abbrev pub clients_db : ToyDb
clients_db = record empty_db {
  clients =
      record { mac_adr = codes "0:80:e1:0:f:ff"; time_used = 0; location = codes "Petah-Tikva" }
      ∷ [];
}

abbrev pub seconds : ℕ → ℕ
seconds i = 1010 + i

db_update_round_lem_example :
    let mac = codes "0:80:e1:0:f:ff" in
    let held = take update_thread_max_num_clients (parked_client ∷ []) in
    let ends = db_update_round toy 1000 1010 true seconds seconds (parked_client ∷ []) clients_db in
    let goes_on =
      db_update_round toy 1000 1010 false seconds seconds (parked_client ∷ []) clients_db in
    (ends.0 ≡ true)
    × (time_of mac ends.1.clients ≡ backup_time seconds mac 0 held (time_of mac clients_db.clients))
    × (goes_on ≡ (false, if time_to_backup 1000 1010 then ends.1 else clients_db))
db_update_round_lem_example =
    db_update_round_lem toy toy_laws seconds (codes "0:80:e1:0:f:ff") (λ s d. refl) 1000 1010
      seconds (parked_client ∷ []) clients_db

-- The same packet from the controller 1:80:e1:0:f:ff.
abbrev other_packet : List ℕ
other_packet = set the_packet 1 1

other_packet-IsBytes : IsBytes other_packet
other_packet-IsBytes = ground arith

stored_keys_differ_example :
    (store_client_data_in_struct 2 the_packet parked_client).1.mac_address
    ≢ (store_client_data_in_struct 2 other_packet parked_client).1.mac_address
stored_keys_differ_example =
    stored_keys_differ 2 parked_client (λ e. absurd (omega (arith, e))) the_packet other_packet
      the_packet-IsBytes other_packet-IsBytes (λ e. cc)

-- A round without a backup, and the last one.
abbrev rounds : List (Round toy)
rounds =
    record {
      now = 1003;
      return_thread = false;
      first_clock = seconds;
      second_clock = seconds;
      clients = parked_client ∷ [];
    }
    ∷ record {
      now = 1004;
      return_thread = true;
      first_clock = seconds;
      second_clock = seconds;
      clients = parked_client ∷ [];
    }
    ∷ []

db_update_keeps_example :
    parkings (database toy toy_laws (db_update toy 1000 rounds clients_db)).clients
    ≡ parkings clients_db.clients
db_update_keeps_example = db_update_keeps toy toy_laws 1000 rounds clients_db

-- The parked client's time is written, and another one gets a row, in the last round.
abbrev last_round : ToyDb → Bool × ToyDb
last_round = db_update_round toy 1000 1004 true seconds seconds (parked_client ∷ [])

abbrev newcomer : Statement
newcomer = insert_client (codes "0:80:e1:0:f:fe") 0 (codes "Ashkelon")

newcomer_elsewhere : parked_client.connected ≡ true → address newcomer ≢ parked_client.mac_address
newcomer_elsewhere on e = absurd (omega (arith, ap (λ (t : Text). get_or t 13 0) e))

round_commutes_example :
    ((last_round clients_db).0 ≡ (last_round (toy.sqlite3_exec newcomer clients_db).1).0)
    × (ledger toy toy_laws (λ s d. refl) (toy.sqlite3_exec newcomer (last_round clients_db).1).1
        ≡ ledger toy toy_laws (λ s d. refl) (last_round (toy.sqlite3_exec newcomer clients_db).1).1)
round_commutes_example =
    round_commutes toy toy_laws (λ s d. refl) newcomer 1000 1004 true seconds seconds
      (parked_client ∷ []) clients_db (newcomer_elsewhere, tt)
