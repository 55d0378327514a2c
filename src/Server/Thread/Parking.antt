-- ===== src/Server/Thread/Parking.antt =====
-- The whole thread of a client that parks and leaves, in server/client/client_thread.c.
use panngo.Base.{
  ℕ, ◌≡◌, inl, inr, refl, sym, ap, subst, ◌∙◌, arith, List, [], ◌∷◌, ◌++◌, true, false, Text,
  text_eq_iff, get_or, u32, sub32,
}
use mathlib.Core.List.{append_assoc}
use panngo.Server.Table.{Row, set_time, remove}
use panngo.Server.Table.Rows.{Has}
use panngo.Server.Data.{Message, location_name, payment, start_app, close_app}
use panngo.Server.Platform.{Platform, Laws, Session}
use panngo.Server.Location.{location_func}
use panngo.Server.NewClient.Laws.{new_row}
use panngo.Server.Packet.Mac.{mac_text}
use panngo.Server.Packet.Store.{mac_bytes}
use panngo.Server.Thread.{
  received, Event, ThreadState, fill, thread_start, thread_round, exited, pango_client,
}
use panngo.Server.Thread.Close.{IsBilled, close_ends, update_succeeds, delete_succeeds}
use panngo.Server.Thread.Handle.{IsIntact, taken}
use panngo.Server.Thread.Loop.{loop_stays}
use panngo.Server.Thread.Parked.{IsWorking, IsPriceOf, IsParked, first_round-IsParked}

-- The row that a client got goes again, and no other.
remove-append :
    (mac : Text) (time : ℕ) (rs : List Row) (r : Row)
    → ¬ Has mac rs
    → r.mac_adr ≡ mac
    → remove mac (set_time time mac (rs ++ r ∷ [])) ≡ rs
unfolding remove set_time
remove-append mac time [] r absent own = ground (arith, text_eq_iff r.mac_adr mac, own)
remove-append mac time (q ∷ rs) r absent own = ground (
  arith,
  text_eq_iff q.mac_adr mac,
  (λ (e : q.mac_adr ≡ mac). absent (inl e)),
  remove-append mac time rs r (λ h. absent (inr h)) own,
)

module _ (p : Platform) (laws : Laws p) (working : IsWorking p) where
  open laws use {rows}

  -- The end of a parking in `city` from `a` to `b`.
  pub record IsSettled (a b : ℕ) (city : Text) (s result : Session p) : Type 0 where
    pub price : p.F
    pub from_table : IsPriceOf p laws working city s.client.price (laws.prices s.db_prices) price
    pub sent :
        let elapsed = p.of_int (sub32 (u32 b) (u32 a)) in
        result.sent ≡ s.sent ++ location_name city ∷ payment (p.multiply price elapsed) elapsed ∷ []
    pub same_rows : rows result.db_client ≡ rows s.db_client
    pub disconnected : result.client.connected ≡ false

  -- The bill of a session `v` that is the parked thread's, with the second packet taken in.
  settled :
      (a b : ℕ) (t u : ThreadState p) (v result : Session p)
      → ¬ Has t.session.client.mac_address (rows t.session.db_client)
      → IsParked p laws working a t u
      → v.client.mac_address ≡ t.session.client.mac_address
      → v.client.price ≡ u.session.client.price
      → v.client.time_start_parking ≡ u.session.client.time_start_parking
      → v.sent ≡ u.session.sent
      → v.db_client ≡ u.session.db_client
      → IsBilled p laws b v result
      → IsSettled a b (new_row p laws t.session.client).location t.session result
  settled a b t u v result absent parked same_mac same_price same_start same_sent same_db billed =
      record {
        price = u.session.client.price;
        from_table = parked.price;
        sent =
            ground (arith, billed.bill, updated)
            ∙ ap
                (λ (sent : List (Message p.F)).
                  sent ++ bill v.client.price v.client.time_start_parking ∷ [])
                (same_sent ∙ parked.sent)
            ∙ append_assoc t.session.sent (location_name city ∷ []) _
            ∙ ap (λ (m : Message p.F). t.session.sent ++ location_name city ∷ m ∷ [])
                (cc (same_price, same_start, parked.start));
        same_rows =
            ground (arith, billed.row_gone, updated, removed)
            ∙ remove-append v.client.mac_address used (rows t.session.db_client)
                (new_row p laws t.session.client)
                (λ h. absent (subst (λ (m : Text). Has m (rows t.session.db_client)) same_mac h))
                (sym same_mac);
        disconnected = billed.disconnected;
      }
    where
      city : Text
      city = (new_row p laws t.session.client).location

      used : ℕ
      used = sub32 (u32 b) v.client.time_start_parking

      bill : p.F → ℕ → Message p.F
      bill price start =
          payment (p.multiply price (p.of_int (sub32 (u32 b) start)))
            (p.of_int (sub32 (u32 b) start))

      updated : update_succeeds p b v ≡ true
      updated = working.succeeds _ _

      removed : delete_succeeds p b v ≡ true
      removed = working.succeeds _ _

      table : rows v.db_client ≡ rows t.session.db_client ++ new_row p laws t.session.client ∷ []
      table = ap rows same_db ∙ parked.table

  -- A client without a row, whose first packet is an intact START_APP at `a` and whose second one
  -- is an intact CLOSE_APP from the same MAC address at `b`, where every command succeeds and every
  -- query is prepared: its thread ends, whatever was to come. It has been sent the city of its
  -- coordinates, and then a price per second times the 32-bit seconds from `a` to `b`, and these
  -- seconds. The price is one that city_parking has for the city, or the one in its struct before.
  -- The table has the same rows as before, and the client is marked as not connected.
  pub park_and_leave :
      (s : Session p) (on_bytes off_bytes : List ℕ) (a b : ℕ) (es : List Event)
      → let first = fill on_bytes (thread_start p s).client_data_buff in
        let second = fill off_bytes first in
        IsIntact first
        → get_or first 0 0 ≡ start_app
        → IsIntact second
        → get_or second 0 0 ≡ close_app
        → mac_bytes second ≡ mac_bytes first
        → ¬ Has (mac_text (mac_bytes first)) (rows s.db_client)
        → (result : Session p) × (pango_client p s (
              record { recv = received on_bytes; now = a }
              ∷ record { recv = received off_bytes; now = b }
              ∷ es)
            ≡ exited result)
          × IsSettled a b
              (location_func (get_or first 7 0) (get_or first 8 0) s.client.location)
              s
              result
  unfolding pango_client
  park_and_leave s on_bytes off_bytes a b es first_intact starting second_intact closing same_mac
        absent =
      let (result, ends, billed) =
        close_ends p laws u off_bytes b es (subst IsIntact (sym second) second_intact)
          (ap (λ (buff : List ℕ). get_or buff 0 0) second ∙ closing)
          (λ e. ground (arith, e, parked.status)) in
      (
        result,
        loop_stays p (record { recv = received on_bytes; now = a }) start
              (record { recv = received off_bytes; now = b } ∷ es) parked.stays
            ∙ ends,
        (let end =
              settled a b (taken p full) u _ result absent parked
                (ap (λ (buff : List ℕ). mac_text (mac_bytes buff)) second ∙ ap mac_text same_mac)
                refl refl refl refl billed in
            record {
              price = end.price;
              from_table = end.from_table;
              sent = end.sent;
              same_rows = end.same_rows;
              disconnected = end.disconnected;
            }),
      )
    where
      start : ThreadState p
      start = thread_start p s

      full : ThreadState p
      full = record start { client_data_buff = fill on_bytes start.client_data_buff }

      u : ThreadState p
      u = thread_round p (record { recv = received on_bytes; now = a }) start

      parked : IsParked p laws working a (taken p full) u
      parked =
          first_round-IsParked p laws working start on_bytes a first_intact starting (omega arith)
            refl absent

      second : fill off_bytes u.client_data_buff ≡ fill off_bytes full.client_data_buff
      second = ap (fill off_bytes) parked.buffer
