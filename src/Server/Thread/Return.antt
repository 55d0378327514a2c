-- ===== src/Server/Thread/Return.antt =====
-- The thread of a client whose connection was lost, and the one with which it comes back, in
-- server/client/client_thread.c.
use panngo.Base.{
  ℕ, ◌+◌, ◌-◌, ◌≤◌, ◌<◌, ◌≡◌, refl, sym, ap, subst, ◌∙◌, arith, List, [], ◌∷◌, ◌++◌, Text, true,
  false, get_or, u32, sub32,
}
use mathlib.Core.List.{append_assoc}
use panngo.Server.Table.{Row, set_time, remove}
use panngo.Server.Table.Rows.{Has, IsUnique, IsUnique-set_time, set_time-Has}
use panngo.Server.Data.{Message, location_name, payment, start_app, close_app}
use panngo.Server.Platform.{Platform, Laws, Session}
use panngo.Server.Packet.Mac.{mac_text}
use panngo.Server.Packet.Store.{mac_bytes}
use panngo.Server.Thread.{
  closed, received, Event, ThreadState, fill, thread_start, thread_round, Outcome, exited,
  pango_client, pango_client_loop,
}
use panngo.Server.Thread.Close.{IsBilled, close_ends, update_succeeds, delete_succeeds}
use panngo.Server.Table.Saved.{set_time-time_of, remove-set_time, place-set_time}
use panngo.Server.Thread.Back.{IsBack, start_app_case-IsBack}
use panngo.Server.Thread.Found.{IsPlaceOf}
use panngo.Server.Thread.Handle.{IsIntact, taken, thread_round_starts}
use panngo.Server.Thread.Invariant.{outcome_session}
use panngo.Server.Thread.Loop.{loop_stays}
use panngo.Server.Thread.Lost.{pango_client_loop-IsLost}
use panngo.Server.Thread.Parked.{IsWorking, IsPriceOf}
use panngo.Server.Thread.Start.{IsReliable}

module _ (p : Platform) (laws : Laws p) (working : IsWorking p) (reliable : IsReliable p) where
  open laws use {rows}

  -- The end of a parking that began in the rows `rs`, went on for `seconds` in all, and whose bill
  -- goes to the session `s`.
  pub record IsReturned (mac : Text) (rs : List Row) (seconds : ℕ) (s result : Session p)
      : Type 0 where
    pub city : Text
    pub place : IsPlaceOf p laws reliable mac rs city
    pub price : p.F
    pub from_table : IsPriceOf p laws working city s.client.price (laws.prices s.db_prices) price
    pub sent :
        let elapsed = p.of_int seconds in
        result.sent ≡ s.sent ++ location_name city ∷ payment (p.multiply price elapsed) elapsed ∷ []
    pub row_gone : rows result.db_client ≡ remove mac rs
    pub disconnected : result.client.connected ≡ false

  -- A lost connection leaves the seconds so far in the row.
  lost_saves :
      (t : ThreadState p) (lost : ℕ) (es : List Event) (left : Session p)
      → pango_client_loop p t (record { recv = closed; now = lost } ∷ es) ≡ exited left
      → rows left.db_client
        ≡ set_time
            (sub32 (u32 lost) t.session.client.time_start_parking)
            t.session.client.mac_address
            (rows t.session.db_client)
  lost_saves t lost es left run =
      let (result, ends, law) = pango_client_loop-IsLost p laws t lost es in
      let saved : update_succeeds p lost t.session ≡ true = working.succeeds _ _ in
      ap (λ (o : Outcome p). rows (outcome_session p laws reliable o).db_client) (sym run ∙ ends)
      ∙ ground (arith, law.time_kept, saved)

  -- The bill of a session `v` that is the one of the client that came back, with the second packet
  -- taken in.
  settled :
      (mac : Text) (rs : List Row) (back used end seconds : ℕ) (t u : ThreadState p)
      (v result : Session p)
      → t.session.client.mac_address ≡ mac
      → rows t.session.db_client ≡ set_time used mac rs
      → IsBack p laws working reliable back used t u
      → v.client.mac_address ≡ mac
      → v.client.price ≡ u.session.client.price
      → v.client.time_start_parking ≡ u.session.client.time_start_parking
      → v.sent ≡ u.session.sent
      → v.db_client ≡ u.session.db_client
      → sub32 (u32 end) (sub32 back used) ≡ seconds
      → IsBilled p laws end v result
      → IsReturned mac rs seconds t.session result
  settled mac rs back used end seconds t u v result own saved law same_mac same_price same_start
        same_sent same_db sum billed =
      record {
        city = city;
        place = place-set_time used mac mac city rs (
            subst (λ (qs : List Row). IsPlaceOf p laws reliable mac qs city) saved
              (subst (λ (m : Text). IsPlaceOf p laws reliable m (rows t.session.db_client) city) own
                law.place));
        price = u.session.client.price;
        from_table = law.price;
        sent =
            ground (arith, billed.bill, updated)
            ∙ ap
                (λ (sent : List (Message p.F)).
                  sent ++ bill v.client.price v.client.time_start_parking ∷ [])
                (same_sent ∙ law.sent)
            ∙ append_assoc t.session.sent (location_name city ∷ []) _
            ∙ ap (λ (m : Message p.F). t.session.sent ++ location_name city ∷ m ∷ [])
                (cc (same_price, same_start, law.start, sum));
        row_gone =
            gone
            ∙ rw (same_mac, same_db, law.table, saved)
                (remove-set_time _ mac (set_time used mac rs) ∙ remove-set_time used mac rs);
        disconnected = billed.disconnected;
      }
    where
      city : Text
      city = u.session.client.location

      bill : p.F → ℕ → Message p.F
      bill price start =
          payment (p.multiply price (p.of_int (sub32 (u32 end) start)))
            (p.of_int (sub32 (u32 end) start))

      updated : update_succeeds p end v ≡ true
      updated = working.succeeds _ _

      removed : delete_succeeds p end v ≡ true
      removed = working.succeeds _ _

      gone :
          rows result.db_client
          ≡ remove v.client.mac_address (
              set_time
                (sub32 (u32 end) v.client.time_start_parking)
                v.client.mac_address
                (rows v.db_client))
      gone = ground (arith, billed.row_gone, updated, removed)

  -- The connection of a parking client is lost at `lost`, and its thread runs to its end; then a
  -- new thread, on the database that this has left, receives an intact START_APP from the same MAC
  -- address at `back` and an intact CLOSE_APP at `end`, where every command succeeds, every SELECT
  -- ends in SQLITE_ROW or SQLITE_DONE, and the client has a row and no MAC address has two. The new
  -- thread ends. For times in this order below 2 ^ 31 it has sent the place of the client's row,
  -- and then a price per second times (lost - began) + (end - back) seconds, and these seconds: the
  -- time in between is not paid for. The price is one that city_parking has for the place, or the
  -- one in the new struct before. The client's row is removed and no other one changes, and the
  -- client is marked as not connected.
  pub reconnect_bill :
      (t : ThreadState p) (lost back end : ℕ) (es es' : List Event) (left again : Session p)
      (on_bytes off_bytes : List ℕ)
      → let mac = t.session.client.mac_address in
        let began = t.session.client.time_start_parking in
        let first = fill on_bytes (thread_start p again).client_data_buff in
        let second = fill off_bytes first in
        IsUnique (rows t.session.db_client)
        → Has mac (rows t.session.db_client)
        → pango_client_loop p t (record { recv = closed; now = lost } ∷ es) ≡ exited left
        → again.db_client ≡ left.db_client
        → IsIntact first
        → get_or first 0 0 ≡ start_app
        → mac_text (mac_bytes first) ≡ mac
        → IsIntact second
        → get_or second 0 0 ≡ close_app
        → mac_bytes second ≡ mac_bytes first
        → began ≤ lost
        → lost ≤ back
        → back ≤ end
        → end < 2147483648
        → (result : Session p) × (pango_client p again (
              record { recv = received on_bytes; now = back }
              ∷ record { recv = received off_bytes; now = end }
              ∷ es')
            ≡ exited result)
          × IsReturned mac (rows t.session.db_client) ((lost - began) + (end - back)) again result
  unfolding pango_client
  reconnect_bill t lost back end es es' left again on_bytes off_bytes unique has run same_db intact
        starting own second_intact closing same_mac h1 h2 h3 h4 =
      let (result, ends, billed) =
        close_ends p laws u off_bytes end es' (subst IsIntact (sym second) second_intact)
          (ap (λ (buff : List ℕ). get_or buff 0 0) second ∙ closing)
          (λ e. ground (arith, e, law.status)) in
      (
        result,
        loop_stays p (record { recv = received on_bytes; now = back }) start
              (record { recv = received off_bytes; now = end } ∷ es') law.stays
            ∙ ends,
        (let final =
              settled mac (rows t.session.db_client) back used end
                ((lost - t.session.client.time_start_parking) + (end - back)) (taken p full) u _
                result own saved law
                (ap (λ (buff : List ℕ). mac_text (mac_bytes buff)) second
                  ∙ ap mac_text same_mac
                  ∙ own)
                refl refl refl refl (omega (arith, h1, h2, h3, h4)) billed in
            record {
              city = final.city;
              place = final.place;
              price = final.price;
              from_table = final.from_table;
              sent = final.sent;
              row_gone = final.row_gone;
              disconnected = final.disconnected;
            }),
      )
    where
      mac : Text
      mac = t.session.client.mac_address

      used : ℕ
      used = sub32 (u32 lost) t.session.client.time_start_parking

      start : ThreadState p
      start = thread_start p again

      full : ThreadState p
      full = record start { client_data_buff = fill on_bytes start.client_data_buff }

      u : ThreadState p
      u = thread_round p (record { recv = received on_bytes; now = back }) start

      saved : rows again.db_client ≡ set_time used mac (rows t.session.db_client)
      saved = ap rows same_db ∙ lost_saves t lost es left run

      law : IsBack p laws working reliable back used (taken p full) u
      law =
          subst (IsBack p laws working reliable back used (taken p full))
            (sym (thread_round_starts p start on_bytes back intact starting (omega arith)))
            (start_app_case-IsBack p laws working reliable back used (taken p full) refl starting
              (subst (λ (rs : List Row). IsUnique rs) (sym saved)
                (IsUnique-set_time used mac _ unique))
              (rw (own, saved) (set_time-Has used mac mac _ has))
              (rw (own, saved) (set_time-time_of used mac _ has)))

      second : fill off_bytes u.client_data_buff ≡ fill off_bytes full.client_data_buff
      second = ap (fill off_bytes) law.buffer
