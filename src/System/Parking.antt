-- ===== src/System/Parking.antt =====
-- A parking through the three programs: the packets of STM/PANGO_L/PNG/Src/PNG.c, two rounds of
-- client/main_client.c, and a thread of server/client/client_thread.c. TCP brings to the one side
-- what the other has sent.
use panngo.Base.{
  c_string, ℕ, ◌≡◌, ◌≢◌, inl, inr, refl, sym, ap, subst, ◌∙◌, arith, List, [], ◌∷◌, ◌++◌, Bool,
  Option, none, some, get_or, length, append-drop_whole, All, Text, codes, u32, sub32,
}
use panngo.Client.Data.{on, off}
use panngo.Client.Crc as ClientCrc
use panngo.Client.Location as ClientLocation
use panngo.Client.Main.{Round, MainState, main_loop}
use panngo.Client.Main.Parking.{
  IsWhole, IsIdle, IsStart, IsEnd, after_start, after_end, parking_rounds,
}
use panngo.Server.Crc as ServerCrc
use panngo.Server.Data.{Message, location_name, payment}
use panngo.Server.Location.{location_func}
use panngo.Server.Location.Cities.{
  IsCity, is_ashkelon, is_jerusalem, is_petah_tikva, is_herzliya, location_func-IsCity,
}
use panngo.Server.Packet.Store.{mac_bytes}
use panngo.Server.Packet.Mac.{mac_text}
use panngo.Server.Platform.{Platform, Laws, Session}
use panngo.Server.Table.{Any}
use panngo.Server.Table.Rows.{Has}
use panngo.Server.Thread.{
  received, Event, fill, thread_start, Outcome, waiting, exited, pango_client,
}
use panngo.Server.Thread.Handle.{IsIntact}
use panngo.Server.Thread.Parked.{IsWorking, IsPriceOf}
use panngo.Server.Thread.Parking.{IsSettled, park_and_leave}
use panngo.Stm.Firmware.{Step, start, run}
use panngo.Stm.Firmware.Packets.{IsAnswer, registers_mac, sent, run_packets}

-- What a thread has sent to its client.
abbrev pub messages : {p : Platform} → Outcome p → List (Message p.F)
messages (waiting t) = t.session.sent
messages (exited s) = s.sent

-- The bytes of the first message, if it is the field `location`: its string, a NUL, and whatever
-- stands behind that in the field.
abbrev pub location_bytes : {F : Type 0} → List (Message F) → List ℕ → List ℕ
location_bytes (location_name t ∷ ms) rest = t ++ 0 ∷ rest
location_bytes _ rest = []

-- The two doubles of the second message, the second one as an int.
abbrev pub bill : {F : Type 0} → (F → ℕ) → List (Message F) → Option (F × ℕ)
bill to_int (m ∷ payment price time ∷ ms) = some (price, to_int time)
bill to_int _ = none

All-lookup :
    {A : Type 0} (P : A → Type 0) (xs : List A) (a : A) → All P xs → Any (λ x. x ≡ a) xs → P a
All-lookup P [] a ps h = elim h [ ]
All-lookup P (x ∷ xs) a ps (inl e) = subst P e ps.0
All-lookup P (x ∷ xs) a ps (inr h) = All-lookup P xs a ps.1 h

-- A city is a string without a NUL, and not "ERROR".
city_reply :
    (city : Text) (rest buff : List ℕ)
    → IsCity city
    → c_string (ClientLocation.fill (city ++ 0 ∷ rest) buff) ≡ city
unfolding c_string
city_reply city rest buff (is_ashkelon e) = rw e refl
city_reply city rest buff (is_jerusalem e) = rw e refl
city_reply city rest buff (is_petah_tikva e) = rw e refl
city_reply city rest buff (is_herzliya e) = rw e refl

city_not_error : (city : Text) → IsCity city → city ≢ codes "ERROR"
city_not_error city c h = elim c [
  | is_ashkelon e ↦ absurd (omega (arith, initial (sym e ∙ h)))
  | is_jerusalem e ↦ absurd (omega (arith, initial (sym e ∙ h)))
  | is_petah_tikva e ↦ absurd (omega (arith, initial (sym e ∙ h)))
  | is_herzliya e ↦ absurd (omega (arith, initial (sym e ∙ h)))
]
  where
    initial : {a b : Text} → a ≡ b → get_or a 0 0 ≡ get_or b 0 0
    initial e = ap (λ t. get_or t 0 0) e

answer-IsIntact : (mac buff : List ℕ) → IsAnswer mac buff → IsIntact buff
answer-IsIntact mac buff answer = answer.checksum ∙ sym (ServerCrc.calculate_crc8_lem buff 9)

answer-IsWhole :
    (mac buff : List ℕ) (status : ℕ)
    → IsAnswer mac buff
    → get_or buff 0 0 ≡ status
    → IsWhole buff status
answer-IsWhole mac buff status answer asks = record {
  size = answer.size;
  asks = asks;
  intact = answer.checksum ∙ sym (ClientCrc.calculate_crc8_lem buff 9);
}

module _ (p : Platform) (laws : Laws p) (working : IsWorking p) where
  -- The client's two rounds, on the messages of a thread that has settled the parking.
  rounds_after :
      (a b : ℕ) (city : Text) (session result : Session p)
      → IsSettled p laws working a b city session result
      → IsCity city
      → session.sent ≡ []
      → (on_packet off_packet rest : List ℕ) → IsWhole on_packet on
      → IsWhole off_packet off
      → (s : MainState p.F) (r1 r2 : Round p.F) (rs : List (Round p.F)) → IsIdle s
      → IsStart on_packet (location_bytes result.sent rest) r1
      → IsEnd off_packet (bill p.to_int result.sent) r2
      → (price : p.F) × IsPriceOf p laws working city session.client.price
          (laws.prices session.db_prices)
          price
        × (main_loop s (r1 ∷ r2 ∷ rs)
            ≡ main_loop
                (after_end off_packet
                  (p.multiply price (p.of_int (sub32 (u32 b) (u32 a))))
                  (sub32 (u32 b) (u32 a))
                  (after_start on_packet (location_bytes result.sent rest) s))
                rs)
  rounds_after a b city session result settled is_city fresh on_packet off_packet rest first second
        s r1 r2 rs idle begins ends =
      (
        settled.price,
        settled.from_table,
        parking_rounds on_packet off_packet (location_bytes result.sent rest) fee seconds r1 r2 rs s
            first second idle begins (subst (λ m. IsEnd off_packet m r2) billed ends) no_error,
      )
    where
      seconds : ℕ
      seconds = sub32 (u32 b) (u32 a)

      fee : p.F
      fee = p.multiply settled.price (p.of_int seconds)

      two_messages : result.sent ≡ location_name city ∷ payment fee (p.of_int seconds) ∷ []
      two_messages =
          settled.sent
          ∙ ap
              (λ (ms : List (Message p.F)).
                ms ++ location_name city ∷ payment fee (p.of_int seconds) ∷ [])
              fresh

      billed : bill p.to_int result.sent ≡ some (fee, seconds)
      billed =
          ap (bill p.to_int) two_messages
          ∙ ap (λ (n : ℕ). some (fee, n)) (laws.to_int-of_int seconds (omega arith))

      no_error :
          c_string (ClientLocation.fill (location_bytes result.sent rest) s.location)
          ≢ codes "ERROR"
      no_error e = city_not_error city is_city (
          sym (city_reply city rest s.location is_city)
          ∙ ap
              (λ (ms : List (Message p.F)).
                c_string (ClientLocation.fill (location_bytes ms rest) s.location))
              (sym two_messages)
          ∙ e)

  -- The thread, on two packets of the controller.
  settles :
      (mac on_packet off_packet : List ℕ) (session : Session p) (a b : ℕ) (es : List Event)
      → IsAnswer mac on_packet
      → IsAnswer mac off_packet
      → get_or on_packet 0 0 ≡ on
      → get_or off_packet 0 0 ≡ off
      → ¬ Has (mac_text mac) (laws.rows session.db_client)
      → (result : Session p) × (pango_client p session (
            record { recv = received on_packet; now = a }
            ∷ record { recv = received off_packet; now = b }
            ∷ es)
          ≡ exited result)
        × IsSettled p laws working a b
            (location_func (get_or on_packet 7 0) (get_or on_packet 8 0) session.client.location)
            session
            result
  settles mac on_packet off_packet session a b es on_answer off_answer is_on is_off absent =
      let (result, ends, settled) =
        park_and_leave p laws working session on_packet off_packet a b es
          (subst IsIntact (sym first) (answer-IsIntact mac on_packet on_answer))
          (ap status first ∙ is_on)
          (subst IsIntact (sym second) (answer-IsIntact mac off_packet off_answer))
          (ap status second ∙ is_off)
          (ap mac_bytes second
            ∙ off_answer.mac_address
            ∙ sym (ap mac_bytes first ∙ on_answer.mac_address))
          (subst (λ (m : List ℕ). ¬ Has (mac_text m) (laws.rows session.db_client))
            (sym (ap mac_bytes first ∙ on_answer.mac_address)) absent) in
      (
        result,
        ends,
        subst
            (λ (q : List ℕ).
              IsSettled p laws working a b
                (location_func (get_or q 7 0) (get_or q 8 0) session.client.location) session
                result)
            first settled,
      )
    where
      status : List ℕ → ℕ
      status q = get_or q 0 0

      zeros : List ℕ
      zeros = (thread_start p session).client_data_buff

      first : fill on_packet zeros ≡ on_packet
      first = append-drop_whole on_packet zeros on_answer.size

      second : fill off_packet (fill on_packet zeros) ≡ off_packet
      second =
          append-drop_whole off_packet (fill on_packet zeros)
            (off_answer.size ∙ sym (ap length first ∙ on_answer.size))

  -- A controller sends a packet with ON and a packet with OFF in one run of its program, from its
  -- start, and two rounds of an idle client bring these two packets; the connection and the sends
  -- succeed. The server's thread for this client receives the two packets at `a` and `b`, for an
  -- address that has no row, where every command succeeds and every query is prepared, and has sent
  -- nothing before; the client's reply and its bill are what the thread has sent. Then the loop of
  -- the client goes on from an idle state again, whatever follows: it has written ON to the STM,
  -- sent the first packet, written OFF, sent the second one, printed a price per second times the
  -- 32-bit seconds from `a` to `b`, with these seconds as final_price_for_costumer divides them, a
  -- signed int, into hours, minutes and seconds, and closed the socket. The price is one that
  -- city_parking has for the city of the coordinates, or the one in the thread's struct before.
  pub parking :
      (initialized : Bool) (registers : List ℕ) (receive_it : Bool) (steps : List Step)
      (on_packet off_packet rest : List ℕ) (session : Session p) (a b : ℕ) (es : List Event)
      (s : MainState p.F) (r1 r2 : Round p.F) (rs : List (Round p.F))
      → let packets = sent (run (start initialized registers receive_it) steps) in
        let thread = pango_client p session (
          record { recv = received on_packet; now = a }
          ∷ record { recv = received off_packet; now = b }
          ∷ es) in
        let seconds = sub32 (u32 b) (u32 a) in
        let city =
          location_func (get_or on_packet 7 0) (get_or on_packet 8 0) session.client.location in
        Any (λ q. q ≡ on_packet) packets
        → Any (λ q. q ≡ off_packet) packets
        → get_or on_packet 0 0 ≡ on
        → get_or off_packet 0 0 ≡ off
        → session.sent ≡ []
        → ¬ Has (mac_text (registers_mac registers)) (laws.rows session.db_client)
        → IsIdle s
        → IsStart on_packet (location_bytes (messages thread) rest) r1
        → IsEnd off_packet (bill p.to_int (messages thread)) r2
        → (price : p.F) × IsPriceOf p laws working city session.client.price
            (laws.prices session.db_prices)
            price
          × (main_loop s (r1 ∷ r2 ∷ rs)
              ≡ main_loop
                  (after_end off_packet
                    (p.multiply price (p.of_int seconds))
                    seconds
                    (after_start on_packet (location_bytes (messages thread) rest) s))
                  rs)
  parking initialized registers receive_it steps on_packet off_packet rest session a b es s r1 r2 rs
        on_sent off_sent is_on is_off fresh absent idle begins ends =
      let mac = registers_mac registers in
      let answers = run_packets initialized registers receive_it steps in
      let on_answer = All-lookup (IsAnswer mac) _ on_packet answers on_sent in
      let off_answer = All-lookup (IsAnswer mac) _ off_packet answers off_sent in
      let (result, exits, settled) =
        settles mac on_packet off_packet session a b es on_answer off_answer is_on is_off absent in
      let city =
        location_func (get_or on_packet 7 0) (get_or on_packet 8 0) session.client.location in
      let is_city =
        location_func-IsCity (get_or on_packet 7 0) (get_or on_packet 8 0) session.client.location
          (omega (arith, on_answer.x_coor)) (omega (arith, on_answer.y_coor)) in
      let heard = ap messages exits in
      let (price, from_table, rounds) =
        rounds_after a b city session result settled is_city fresh on_packet off_packet rest
          (answer-IsWhole mac on_packet on on_answer is_on)
          (answer-IsWhole mac off_packet off off_answer is_off) s r1 r2 rs idle
          (subst (λ (ms : List (Message p.F)). IsStart on_packet (location_bytes ms rest) r1) heard
            begins)
          (subst (λ (ms : List (Message p.F)). IsEnd off_packet (bill p.to_int ms) r2) heard
            ends) in
      (
        price,
        from_table,
        rounds
            ∙ ap
                (λ (ms : List (Message p.F)).
                  main_loop
                    (after_end off_packet (p.multiply price (p.of_int (sub32 (u32 b) (u32 a))))
                      (sub32 (u32 b) (u32 a)) (after_start on_packet (location_bytes ms rest) s))
                    rs)
                (sym heard),
      )
