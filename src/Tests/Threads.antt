-- ===== src/Tests/Threads.antt =====
-- Threads of the server over the two lists.
use panngo.Base.{
  ◌+◌, ◌-◌, ◌≡◌, ◌≢◌, format_x, inl, inr, refl, sym, ◌∙◌, arith, [], ◌∷◌, ◌++◌, true, some, Text,
  codes, text_eq,
}
use panngo.Server.Sql.{select_time_used}
use panngo.Server.Data.{err_msg}
use panngo.Server.Table.{int, row, refused}
use panngo.Server.Table.Rows.{IsUnique, time_of}
use panngo.Server.Crc as ServerCrc
use panngo.Server.ExistingClient.{retriev_client_data}
use panngo.Server.ExistingClient.Laws.{ExistingClientResult, retriev_client_data_lem}
use panngo.Server.ExistingClient.Resume.{retriev_client_data_stays_connected}
use panngo.Server.NewClient.{process_client_data}
use panngo.Server.NewClient.Laws.{NewClientResult, process_client_data_lem}
use panngo.Server.Packet.Mac.{mac_text}
use panngo.Server.Packet.Store.{mac_bytes}
use panngo.Server.Platform.{Session}
use panngo.Server.Thread.{
  closed, received, ThreadState, thread_start, pango_client_loop, exited, waiting, pango_client,
}
use panngo.Server.Location.{location_func}
use panngo.Server.Thread.Parked.{IsWorking}
use panngo.Server.Thread.Parking.{IsSettled, park_and_leave}
use panngo.Server.Thread.Deaf.{deaf_forever}
use panngo.Server.Thread.Close.{IsBilled, close_ends, corrupt_ends}
use panngo.Server.Thread.Handle.{IsIntact, taken}
use panngo.Server.Thread.Invariant.{outcome_session, pango_client-IsUnique}
use panngo.Server.Thread.Loop.{pango_client_loop_ends}
use panngo.Server.Thread.Lost.{IsLost, pango_client_loop-IsLost}
use panngo.Server.Thread.Return.{IsReturned, reconnect_bill}
use panngo.Tests.Bytes.{
  the_packet, off_packet, changed_packet, packet_intact, off_packet_intact, packet_differs,
  the_packet-IsBytes, changed_packet-IsBytes,
}
use panngo.Tests.Toy.{toy_fetch_ends, ToyDb, toy, toy_laws, toy_reliable}
use panngo.System.Corruption.{checksum_breaks}

abbrev pub mac : Text
mac = codes "0:80:e1:0:f:ff"

-- A parking of 30 seconds in Ashkelon.
abbrev pub one_row : ToyDb
one_row = record {
  clients = record { mac_adr = mac; time_used = 30; location = codes "Ashkelon" } ∷ [];
  city_parking = record { city = codes "Ashkelon"; price = 6000 } ∷ [];
}

abbrev pub session : Session toy
session = record {
  client = record {
    status = 0;
    mac_address = mac;
    x_axis = 3;
    y_axis = 4;
    client_fd = 5;
    location = codes "Ashkelon";
    price = 6000;
    time_start_parking = 1000;
    connected = true;
  };
  db_client = one_row;
  db_prices = one_row;
  sent = [];
}

abbrev pub thread : ThreadState toy
thread = record (thread_start toy session) { status = 1 }

one_row-IsUnique : IsUnique one_row.clients
one_row-IsUnique = (λ h. h, tt)

pub the_packet-IsIntact : IsIntact the_packet
the_packet-IsIntact = packet_intact ∙ sym (ServerCrc.calculate_crc8_lem the_packet 9)

pub off_packet-IsIntact : IsIntact off_packet
off_packet-IsIntact = off_packet_intact ∙ sym (ServerCrc.calculate_crc8_lem off_packet 9)

changed_not-IsIntact : ¬ IsIntact changed_packet
changed_not-IsIntact fits =
    checksum_breaks the_packet changed_packet 7 the_packet-IsBytes changed_packet-IsBytes
      packet_intact (omega arith) packet_differs
      (fits ∙ ServerCrc.calculate_crc8_lem changed_packet 9)

close_ends_example :
    (result : Session toy) × (pango_client_loop toy thread
        (record { recv = received off_packet; now = 1060 } ∷ [])
      ≡ exited result)
    × IsBilled toy toy_laws 1060
        (taken toy (record thread { client_data_buff = off_packet })).session
        result
close_ends_example =
    close_ends toy toy_laws thread off_packet 1060 [] off_packet-IsIntact refl (omega arith)

corrupt_ends_example :
    pango_client_loop toy thread (record { recv = received changed_packet; now = 1060 } ∷ [])
    ≡ exited (record session { sent = [] ++ err_msg ∷ [] })
corrupt_ends_example = corrupt_ends toy thread changed_packet 1060 [] changed_not-IsIntact

pango_client_loop-IsLost_example :
    (result : Session toy) × (pango_client_loop toy thread
        (record { recv = closed; now = 1060 } ∷ [])
      ≡ exited result)
    × IsLost toy toy_laws 1060 session result
pango_client_loop-IsLost_example = pango_client_loop-IsLost toy toy_laws thread 1060 []

pango_client-IsUnique_example :
    IsUnique
      (outcome_session toy toy_laws toy_reliable (
        pango_client toy session
          (record { recv = received the_packet; now = 1060 } ∷ []))).db_client.clients
pango_client-IsUnique_example =
    pango_client-IsUnique toy toy_laws toy_reliable session
      (record { recv = received the_packet; now = 1060 } ∷ []) one_row-IsUnique

pango_client_loop_ends_example :
    (s : Session toy) × (pango_client_loop toy thread (
        record { recv = received the_packet; now = 1060 }
        ∷ record { recv = closed; now = 1061 }
        ∷ [])
      ≡ exited s)
pango_client_loop_ends_example =
    pango_client_loop_ends toy thread
      (record { recv = received the_packet; now = 1060 }
        ∷ record { recv = closed; now = 1061 }
        ∷ [])
      (inr (inl refl))

process_client_data_lem_example :
    NewClientResult toy toy_laws 1060 1 session (process_client_data toy 1060 1 session)
process_client_data_lem_example = process_client_data_lem toy toy_laws 1060 1 session

retriev_client_data_lem_example :
    ExistingClientResult toy toy_laws 1060 1 session (retriev_client_data toy 1060 1 session)
retriev_client_data_lem_example = retriev_client_data_lem toy toy_laws 1060 1 session

row_found : (toy.sqlite3_fetch (select_time_used mac) one_row).0 ≡ row (int 30)
unfolding text_eq
row_found = refl

row_time : time_of mac one_row.clients ≡ some 30
unfolding text_eq time_of
row_time = refl

not_refused : (toy.sqlite3_fetch (select_time_used mac) one_row).0 ≢ refused
unfolding text_eq
not_refused = λ e. cc

retriev_client_data_stays_connected_example :
    (retriev_client_data toy 1060 1 session).2.client.connected ≡ true
retriev_client_data_stays_connected_example =
    retriev_client_data_stays_connected toy toy_laws 1060 1 session not_refused

-- The connection is lost at 1060, and the client comes back with a fresh struct.
abbrev left : Session toy
left = (pango_client_loop-IsLost toy toy_laws thread 1060 []).0

abbrev again : Session toy
again = record left { client = record (session.client) { time_start_parking = 0 } }

again_mac : mac_text (mac_bytes the_packet) ≡ mac
unfolding mac_text format_x
again_mac = refl

session_left :
    pango_client_loop toy thread (record { recv = closed; now = 1060 } ∷ []) ≡ exited left
session_left = (pango_client_loop-IsLost toy toy_laws thread 1060 []).1

-- Ashkelon's price is there, and nobody parks.
abbrev pub no_rows : ToyDb
no_rows = record one_row { clients = [] }

abbrev pub new_session : Session toy
new_session = record session { db_client = no_rows }

pub toy-IsWorking : IsWorking toy
toy-IsWorking = record { succeeds = λ s d. refl; prepared = λ q d. (toy_fetch_ends q d).0 }

reconnect_bill_example :
    (result : Session toy) × (pango_client toy again (
        record { recv = received the_packet; now = 5000 }
        ∷ record { recv = received off_packet; now = 5100 }
        ∷ [])
      ≡ exited result)
    × IsReturned toy toy_laws toy-IsWorking toy_reliable mac one_row.clients
        ((1060 - 1000) + (5100 - 5000))
        again
        result
reconnect_bill_example =
    reconnect_bill toy toy_laws toy-IsWorking toy_reliable thread 1060 5000 5100 [] [] left again
      the_packet off_packet one_row-IsUnique (inl refl) session_left refl the_packet-IsIntact refl
      again_mac off_packet-IsIntact refl refl (omega arith) (omega arith) (omega arith)
      (omega arith)

park_and_leave_example :
    (result : Session toy) × (pango_client toy new_session (
        record { recv = received the_packet; now = 1000 }
        ∷ record { recv = received off_packet; now = 1060 }
        ∷ [])
      ≡ exited result)
    × IsSettled toy toy_laws toy-IsWorking 1000 1060
        (location_func 72 5 (codes "Ashkelon"))
        new_session
        result
park_and_leave_example =
    park_and_leave toy toy_laws toy-IsWorking new_session the_packet off_packet 1000 1060 []
      the_packet-IsIntact refl off_packet-IsIntact refl refl (λ h. h)

deaf_forever_example :
    (u : ThreadState toy) × (pango_client_loop toy
        (record thread { status = 255 })
        (record { recv = received off_packet; now = 1060 } ∷ [])
      ≡ waiting u)
    × (u.session ≡ session)
deaf_forever_example =
    deaf_forever toy (record thread { status = 255 })
      (record { recv = received off_packet; now = 1060 } ∷ []) refl refl refl
      ((off_packet, refl, refl, off_packet-IsIntact), tt)
