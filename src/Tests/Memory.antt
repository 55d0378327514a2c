-- ===== src/Tests/Memory.antt =====
-- The bytes of `mac_address` at concrete packets.
use panngo.Base.{
  sym, ◌∙◌, c_string, ℕ, ◌<◌, ◌≡◌, ◌⊎◌, refl, arith, List, [], ◌∷◌, ◌++◌, false, All, codes,
  format_x,
}
use panngo.Server.Data.{PangoData}
use panngo.Server.DbUpdate.{update_thread_max_num_clients}
use panngo.Server.DbUpdate.Torn.{table_after}
use panngo.Server.World.{structs, backup_step}
use panngo.Server.World.Whole.Run.{world_torn_backup}
use panngo.Tests.Threads.{mac, no_rows}
use panngo.Tests.Worlds.{tick, apart_session, parked_world, parked_world-Reach, parked_world_mac}
use panngo.Server.Packet.{store_client_data_in_struct}
use panngo.Server.Packet.Memory.{store_writes, written, moments}
use panngo.Server.Packet.Memory.Stored.{store_writes_refine}
use panngo.Server.Packet.Mac.{mac_text}
use panngo.Server.Packet.Store.{mac_bytes}
use panngo.Server.Table.{Row}
use panngo.Tests.Bytes.{the_packet, off_packet}
use panngo.Tests.Tables.{parked_client}
use panngo.Tests.Toy.{toy, toy_laws}

-- The array of the parked client.
abbrev array : List ℕ
array = codes "0:80:e1:0:f:ff" ++ 0 ∷ 0 ∷ 0 ∷ 0 ∷ []

-- In the middle of the second field.
torn_array : c_string (written ((0, b'0') ∷ (1, b':') ∷ (2, 0) ∷ []) array) ≡ codes "0:"
unfolding written c_string
torn_array = refl

store_writes_refine_example :
    All (λ w. w.0 < 18) (store_writes the_packet 8 0 0)
    × (c_string (written (store_writes the_packet 8 0 0) array)
        ≡ (store_client_data_in_struct 2 the_packet parked_client).1.mac_address)
store_writes_refine_example =
    store_writes_refine 2 the_packet array parked_client (λ e. absurd (omega (arith, e))) refl

parked_mac : mac ≡ mac_text (mac_bytes off_packet)
unfolding mac_text format_x
parked_mac = refl

array_holds : c_string array ≡ mac
unfolding c_string
array_holds = refl

-- The struct of the client that has parked, as a further packet of it is stored.
abbrev parked : PangoData ℕ
parked = (parked_world.tasks 0).state.session.client

abbrev others : List (PangoData ℕ)
others = structs toy 1 9 parked_world.tasks

structs_split : structs toy 0 update_thread_max_num_clients parked_world.tasks ≡ parked ∷ others
unfolding structs
structs_split = refl

abbrev seen : PangoData ℕ → List Row
seen =
    table_after toy toy_laws (λ s d. refl) 1000 tick.now tick.return_thread tick.first_clock
      tick.second_clock [] parked others parked_world.db_client

world_torn_backup_example :
    (seen parked ≡ (backup_step toy 1000 tick parked_world).db_client.clients)
    × All
        (λ (a : List ℕ).
          (seen (record parked { mac_address = c_string a }) ≡ seen parked)
          ⊎ (seen (record parked { mac_address = c_string a })
              ≡ seen (record parked { connected = false })))
        (moments (store_writes off_packet 8 0 0) array)
world_torn_backup_example =
    world_torn_backup toy toy_laws (λ s d. refl) 2 1000 no_rows no_rows (λ i. apart_session) tt
      parked_world-Reach tick [] parked others off_packet array structs_split
      (array_holds ∙ sym parked_world_mac) (parked_world_mac ∙ parked_mac)
