-- ===== src/Client/Main/Parking.antt =====
-- A whole parking in the loop of client/main_client.c: a round that starts it, and one that ends it.
use panngo.Base.{
  c_string, ℕ, ◌≡◌, ◌≢◌, inl, inr, refl, sym, ap, subst, ◌∙◌, arith, List, ◌∷◌, true, false, Option,
  some, get_or, length, codes, append-drop_whole,
}
use panngo.Client.Data.{on, off}
use panngo.Client.Display.{final_price_for_costumer}
use panngo.Client.Location.{fill}
use panngo.Client.Network.{came, send_done}
use panngo.Client.Main.{
  Round, MainState, goes_on, write_status, send_packet, print_price, close_socket, act, main_round,
  main_loop,
}
use panngo.Client.Main.Rounds.{IsIntact, IsMissed, packet}
use panngo.Client.Main.Sessions.{main_round_starts, main_round_closes}

-- A packet of ten bytes, with this status, whose checksum fits.
pub record IsWhole (buff : List ℕ) (status : ℕ) : Type 0 where
  pub size : length buff ≡ 10
  pub asks : get_or buff 0 0 ≡ status
  pub intact : IsIntact buff

module _ {F : Type 0} where
  -- A client that waits for its button: it sends ON next, and its buffer has ten bytes.
  pub record IsIdle (s : MainState F) : Type 0 where
    pub status : s.status ≡ on
    pub apart : s.connected ≡ false
    pub size : length s.data_buff ≡ 10

  -- The STM answers with this packet.
  pub record IsAnswered (buff : List ℕ) (r : Round F) : Type 0 where
    pub answered : ¬ IsMissed r
    pub bytes : r.stm_bytes ≡ buff

  -- The connection and the send succeed, and `reply` comes.
  pub record IsStart (buff reply : List ℕ) (r : Round F) : Type 0 where
    pub answer : IsAnswered buff r
    pub connecting : r.connecting ≡ record { socket = true; connect = true }
    pub packet_sent : r.packet_sent ≡ send_done
    pub reply_came : r.reply ≡ came reply

  -- The send succeeds, and the bill comes.
  pub record IsEnd (buff : List ℕ) (bill : Option (F × ℕ)) (r : Round F) : Type 0 where
    pub answer : IsAnswered buff r
    pub close_sent : r.close_sent ≡ send_done
    pub bill_came : r.bill ≡ bill

  packet_answered :
      (buff : List ℕ) (r : Round F) (s : MainState F)
      → IsAnswered buff r
      → length buff ≡ 10
      → length s.data_buff ≡ 10
      → packet r s ≡ buff
  packet_answered buff r s answer size ten =
      ap (λ bytes. fill bytes s.data_buff) answer.bytes
      ∙ append-drop_whole buff s.data_buff (size ∙ sym ten)

  main_loop_goes_on :
      (r : Round F) (rs : List (Round F)) (s t : MainState F)
      → main_round r s ≡ goes_on t
      → main_loop s (r ∷ rs) ≡ main_loop t rs
  unfolding main_loop
  main_loop_goes_on r rs s t h = ground arith

  abbrev pub after_start : List ℕ → List ℕ → MainState F → MainState F
  after_start buff reply s = record (act (send_packet buff) (act (write_status on) s)) {
    data_buff = buff;
    location = fill reply s.location;
    connected = true;
    status = off;
  }

  abbrev pub after_end : List ℕ → F → ℕ → MainState F → MainState F
  after_end buff price time s =
      record (act close_socket (
        act (print_price price (final_price_for_costumer time))
          (act (send_packet buff) (act (write_status off) s)))) {
            data_buff = buff;
            connected = false;
            status = on;
          }

  start_round :
      (buff reply : List ℕ) (r : Round F) (rs : List (Round F)) (s : MainState F)
      → IsWhole buff on
      → IsIdle s
      → IsStart buff reply r
      → c_string (fill reply s.location) ≢ codes "ERROR"
      → main_loop s (r ∷ rs) ≡ main_loop (after_start buff reply s) rs
  start_round buff reply r rs s whole idle begins no_error =
      let same = packet_answered buff r s begins.answer whole.size idle.size in
      let round =
        main_round_starts r s begins.answer.answered (inl idle.status) reply
          (subst IsIntact (sym same) whole.intact) (ap (λ q. get_or q 0 0) same ∙ whole.asks)
          idle.apart begins.connecting begins.packet_sent begins.reply_came no_error in
      main_loop_goes_on r rs s (after_start buff reply s) (cc (round, same, idle.status))

  end_round :
      (buff : List ℕ) (price : F) (time : ℕ) (r : Round F) (rs : List (Round F)) (s : MainState F)
      → IsWhole buff off
      → s.status ≡ off
      → s.connected ≡ true
      → length s.data_buff ≡ 10
      → IsEnd buff (some (price, time)) r
      → main_loop s (r ∷ rs) ≡ main_loop (after_end buff price time s) rs
  end_round buff price time r rs s whole asks connected ten ends =
      let same = packet_answered buff r s ends.answer whole.size ten in
      let round =
        main_round_closes r s ends.answer.answered (inr asks) price time
          (subst IsIntact (sym same) whole.intact) (ap (λ q. get_or q 0 0) same ∙ whole.asks)
          connected ends.close_sent ends.bill_came in
      main_loop_goes_on r rs s (after_end buff price time s) (cc (round, same, asks))

  -- x
  pub parking_rounds :
      (on_packet off_packet reply : List ℕ) (price : F) (time : ℕ) (r1 r2 : Round F)
      (rs : List (Round F)) (s : MainState F)
      → IsWhole on_packet on
      → IsWhole off_packet off
      → IsIdle s
      → IsStart on_packet reply r1
      → IsEnd off_packet (some (price, time)) r2
      → c_string (fill reply s.location) ≢ codes "ERROR"
      → main_loop s (r1 ∷ r2 ∷ rs)
        ≡ main_loop (after_end off_packet price time (after_start on_packet reply s)) rs
  parking_rounds on_packet off_packet reply price time r1 r2 rs s first second idle begins ends
        no_error =
      start_round on_packet reply r1 (r2 ∷ rs) s first idle begins no_error
      ∙ end_round off_packet price time r2 rs (after_start on_packet reply s) second refl refl
          first.size ends
