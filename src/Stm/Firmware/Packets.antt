-- ===== src/Stm/Firmware/Packets.antt =====
-- The packets that main_PNG of STM/PANGO_L/PNG/Src/PNG.c sends.
use panngo.Base.{
  ℕ, ◌<◌, ◌≡◌, ◌⊎◌, inl, inr, refl, ◌∙◌, arith, List, [], ◌∷◌, Bool, Bool-cases, ◌==◌, ◌||◌, ◌%◌,
  ap, true, false, Option, none, some, length, get_or, All, All-append,
}
use panngo.Crc8.{calculate_crc8}
use panngo.Server.Packet.Store.{mac_bytes}
use panngo.Stm.Packet.{PangoClientData, fill_buffer}
use panngo.Stm.Packet.Layout.{fill_buffer-IsPacket}
use panngo.Stm.Sensors.{get_coordinates, get_coordinates-IsOnMap, get_mac_address, mac_loop}
use panngo.Stm.Firmware.{
  error_handler, on, off, restart, Firmware, Machine, runs, stops, Hal, ask, start, transmit_packet,
  main_step, callback, interrupt, Step, main_goes_on, byte_comes, step, run,
}

-- A packet of the controller `mac`: its checksum fits, the status is ON or OFF, and the place is on
-- the map.
pub record IsAnswer (mac buff : List ℕ) : Type 0 where
  pub size : length buff ≡ 10
  pub status : (get_or buff 0 0 ≡ on) ⊎ (get_or buff 0 0 ≡ off)
  pub mac_address : mac_bytes buff ≡ mac
  pub x_coor : get_or buff 7 0 < 128
  pub y_coor : get_or buff 8 0 < 128
  pub checksum : get_or buff 9 0 ≡ calculate_crc8 buff 9

module _ (mac : List ℕ) (six : length mac ≡ 6) where
  record IsKept (s : Firmware) : Type 0 where
    mac_address : s.pango_client_data.mac_address ≡ mac
    size : length s.send_buff ≡ 10
    sent : All (IsAnswer mac) s.transmitted

  -- Outside the callback a set flag means that a status which the program knows has come.
  record IsSound (s : Firmware) : Type 0 where
    kept : IsKept s
    known :
        s.interrupt_flag ≡ on
        → (s.pango_client_data.status ≡ on)
          ⊎ ((s.pango_client_data.status ≡ off) ⊎ (s.pango_client_data.status ≡ restart))

  abbrev Sound : Machine → Type 0
  Sound (runs s) = IsSound s
  Sound (stops why s) = All (IsAnswer mac) s.transmitted

  ask-Sound : (ok : Bool) (s : Firmware) → IsSound s → Sound (ask ok s)
  unfolding ask
  ask-Sound true s sound = record {
    kept = record {
      mac_address = sound.kept.mac_address;
      size = sound.kept.size;
      sent = sound.kept.sent;
    };
    known = sound.known;
  }
  ask-Sound false s sound = sound.kept.sent

  filled-IsAnswer :
      (s : Firmware) (first second : Option ℕ) (d : PangoClientData)
      → IsSound s
      → (s.pango_client_data.status ≡ on) ⊎ (s.pango_client_data.status ≡ off)
      → get_coordinates first second s.pango_client_data ≡ some d
      → IsAnswer mac (fill_buffer d s.send_buff)
  filled-IsAnswer s first second d sound status e =
      let place = get_coordinates-IsOnMap first second s.pango_client_data d e in
      let packet =
        fill_buffer-IsPacket d s.send_buff
          (ap length (place.mac_address ∙ sound.kept.mac_address) ∙ six) sound.kept.size in
      record {
        size = packet.size;
        status = ground (arith, packet.status, place.status, status);
        mac_address = packet.mac_address ∙ (place.mac_address ∙ sound.kept.mac_address);
        x_coor = ground (arith, packet.x_coor, place.x);
        y_coor = ground (arith, packet.y_coor, place.y);
        checksum = packet.checksum;
      }

  transmit_packet-Sound :
      (hal : Hal) (s : Firmware) (d : PangoClientData)
      → IsSound s
      → s.interrupt_flag ≡ on
      → ¬ (s.pango_client_data.status ≡ restart)
      → get_coordinates hal.x_random hal.y_random s.pango_client_data ≡ some d
      → Sound (transmit_packet hal (record s { pango_client_data = d }))
  unfolding transmit_packet
  transmit_packet-Sound hal s d sound flag no_restart e =
      let place = get_coordinates-IsOnMap hal.x_random hal.y_random s.pango_client_data d e in
      let six_bytes = ap length (place.mac_address ∙ sound.kept.mac_address) ∙ six in
      let answer =
        filled-IsAnswer s hal.x_random hal.y_random d sound
          (ground (arith, sound.known flag, no_restart)) e in
      elim (Bool-cases hal.transmit) [
        | inl out ↦ rw out (
            ask-Sound hal.receive_it _ (record {
              kept = record {
                mac_address = place.mac_address ∙ sound.kept.mac_address;
                size = (fill_buffer-IsPacket d s.send_buff six_bytes sound.kept.size).size;
                sent =
                    All-append (IsAnswer mac) s.transmitted (_ ∷ []) sound.kept.sent (answer, tt);
              };
              known = λ _. ground (arith, sound.known flag, place.status);
            }))
        | inr failed ↦ rw failed sound.kept.sent
      ]

  main_step-Sound : (hal : Hal) (s : Firmware) → IsSound s → Sound (main_step hal s)
  unfolding main_step
  main_step-Sound hal s sound = elim (Bool-cases s.answering) [
    | inl busy ↦ rw busy (record {
      kept = record {
        mac_address = sound.kept.mac_address;
        size = sound.kept.size;
        sent = sound.kept.sent;
      };
      known = λ flag. cc;
    })
    | inr idle ↦ elim (Bool-cases (s.interrupt_flag == on)) [
      | inr clear ↦
          rw (idle, clear)
            (record {
              kept = record {
                mac_address = sound.kept.mac_address;
                size = sound.kept.size;
                sent = sound.kept.sent;
              };
              known = sound.known;
            })
      | inl set_flag ↦ elim (Bool-cases (s.pango_client_data.status == restart)) [
        | inl again ↦ rw (idle, set_flag, again) sound.kept.sent
        | inr go ↦
            rw (idle, set_flag, go)
              (elim (get_coordinates hal.x_random hal.y_random s.pango_client_data)
                  as (λ (r : Option PangoClientData).
                    get_coordinates hal.x_random hal.y_random s.pango_client_data ≡ r
                    → Sound (elim r as (λ (q : Option PangoClientData). Machine) [
                      | none ↦ stops error_handler s
                      | some d ↦ transmit_packet hal (record s { pango_client_data = d })
                    ])) [
                      | none ↦ λ e. sound.kept.sent
                      | some d ↦
                          λ e. transmit_packet-Sound hal s d sound (ground arith) (ground arith) e
                    ]
                refl)
      ]
    ]
  ]

  callback-Sound : (ok : Bool) (s : Firmware) → IsKept s → Sound (callback ok s)
  unfolding callback
  callback-Sound ok s kept = elim (Bool-cases (s.wrong_status % 5 == 0)) [
    | inl broken ↦ rw broken kept.sent
    | inr fine ↦
        let status = s.pango_client_data.status in
        elim (Bool-cases (status == on || status == off || status == restart)) [
          | inl known ↦
              rw (fine, known)
                (record {
                  kept = record {
                    mac_address = kept.mac_address;
                    size = kept.size;
                    sent = kept.sent;
                  };
                  known = λ _. ground (arith, known);
                })
          | inr unknown ↦
              rw (fine, unknown)
                (ask-Sound ok _ (record {
                  kept = record {
                    mac_address = kept.mac_address;
                    size = kept.size;
                    sent = kept.sent;
                  };
                  known = λ flag. ground (arith, flag);
                }))
        ]
  ]

  interrupt-Sound : (byte : ℕ) (ok : Bool) (s : Firmware) → IsSound s → Sound (interrupt byte ok s)
  unfolding interrupt
  interrupt-Sound byte ok s sound = elim (Bool-cases s.listening) [
    | inl asked ↦ rw asked (
        callback-Sound ok _ (record {
          mac_address = sound.kept.mac_address;
          size = sound.kept.size;
          sent = sound.kept.sent;
        }))
    | inr lost ↦ rw lost (record {
      kept = record {
        mac_address = sound.kept.mac_address;
        size = sound.kept.size;
        sent = sound.kept.sent;
      };
      known = sound.known;
    })
  ]

  step-Sound : (e : Step) (s : Firmware) → IsSound s → Sound (step e s)
  unfolding step
  step-Sound (main_goes_on hal) s sound = main_step-Sound hal s sound
  step-Sound (byte_comes byte ok) s sound = interrupt-Sound byte ok s sound

  run-Sound : (m : Machine) (steps : List Step) → Sound m → Sound (run m steps)
  unfolding run
  run-Sound m [] sound = sound
  run-Sound (stops why s) (e ∷ es) sound = sound
  run-Sound (runs s) (e ∷ es) sound = run-Sound (step e s) es (step-Sound e s sound)

-- The six bytes of the registers.
abbrev pub registers_mac : List ℕ → List ℕ
registers_mac registers =
    get_or registers 0 0
    ∷ get_or registers 1 0
    ∷ get_or registers 2 0
    ∷ get_or registers 3 0
    ∷ get_or registers 4 0
    ∷ get_or registers 5 0
    ∷ []

start-Sound :
    (initialized : Bool) (registers : List ℕ) (ok : Bool)
    → Sound (registers_mac registers) refl (start initialized registers ok)
unfolding start get_mac_address mac_loop
start-Sound false registers ok = tt
start-Sound true registers ok = ask-Sound (registers_mac registers) refl ok _ (record {
  kept = record { mac_address = refl; size = refl; sent = tt };
  known = λ flag. ground arith;
})

-- What went out on UART 4.
abbrev pub sent : Machine → List (List ℕ)
sent (runs s) = s.transmitted
sent (stops why s) = s.transmitted

sent_of_Sound :
    (mac : List ℕ) (six : length mac ≡ 6) (m : Machine)
    → Sound mac six m
    → All (IsAnswer mac) (sent m)
sent_of_Sound mac six (runs s) sound = sound.kept.sent
sent_of_Sound mac six (stops why s) sound = sound

-- From the start of main_PNG, in any order of its steps and of incoming bytes, and whatever the
-- peripherals bring, every packet that goes out has ten bytes: the status ON or OFF, the six bytes
-- of the registers, two coordinates below 128, and the checksum of the first nine.
pub run_packets :
    (initialized : Bool) (registers : List ℕ) (receive_it : Bool) (steps : List Step)
    → All
        (IsAnswer (registers_mac registers))
        (sent (run (start initialized registers receive_it) steps))
run_packets initialized registers receive_it steps =
    sent_of_Sound (registers_mac registers) refl _ (
      run-Sound (registers_mac registers) refl (start initialized registers receive_it) steps
        (start-Sound initialized registers receive_it))
