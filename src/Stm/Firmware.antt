-- ===== src/Stm/Firmware.antt =====
-- main_PNG and HAL_UART_RxCpltCallback of STM/PANGO_L/PNG/Src/PNG.c. The callback interrupts
-- main_PNG, and HAL_UART_Receive_IT asks for one byte and one call. A round of main_PNG with the
-- flag set is two steps, up to the new HAL_UART_Receive_IT and behind it: before that no byte is
-- asked for, so that no interrupt comes in between.
pub mod Packets
pub mod Interrupts
use panngo.Base.{
  ℕ, ◌+◌, ◌%◌, List, [], ◌∷◌, ◌++◌, Bool, true, false, Option, none, some, u8, set, replicate, ◌||◌,
  ◌==◌, if◌then◌else◌,
}
use panngo.Stm.Packet.{PangoClientData, buffer_size_to_send, fill_buffer}
use panngo.Stm.Sensors.{get_coordinates, get_mac_address}

-- enum restart_flag
abbrev pub on : ℕ
on = 1

abbrev pub off : ℕ
off = 2

abbrev pub restart : ℕ
restart = 3

-- The variables of PNG.c. `listening` is the HAL's: a byte has been asked for and has not come.
-- `answering` holds between the two steps of a round. `transmitted` is what went out on UART 4.
pub record Firmware : Type 0 where
  pub interrupt_flag : ℕ
  pub wrong_status : ℕ
  pub pango_client_data : PangoClientData
  pub send_buff : List ℕ
  pub listening : Bool
  pub answering : Bool
  pub transmitted : List (List ℕ)

-- Error_Handler(), NVIC_SystemReset() and exit(1).
pub data Halt : Type 0 where
  error_handler : Halt
  system_reset : Halt
  exit_failure : Halt

pub data Machine : Type 0 where
  runs : Firmware → Machine
  stops : Halt → Firmware → Machine

-- What the HAL's functions bring in a round: `false` and `none` where they fail.
pub record Hal : Type 0 where
  pub x_random : Option ℕ
  pub y_random : Option ℕ
  pub transmit : Bool
  pub receive_it : Bool

unfoldable pub ask : Bool → Firmware → Machine
ask receive_it s = if receive_it then runs (record s { listening = true }) else stops exit_failure s

-- The start of main_PNG.
unfoldable pub start : Bool → List ℕ → Bool → Machine
start initialized registers receive_it =
    let zeros : PangoClientData = record {
      status = 0;
      mac_address = replicate 6 0;
      x_coor = 0;
      y_coor = 0;
    } in
    let first : Firmware = record {
      interrupt_flag = off;
      wrong_status = 1;
      pango_client_data = zeros;
      send_buff = replicate buffer_size_to_send 0;
      listening = false;
      answering = false;
      transmitted = [];
    } in
    elim (get_mac_address initialized registers zeros.mac_address) [
      | none ↦ stops error_handler first
      | some mac ↦
          ask receive_it (record first { pango_client_data = record zeros { mac_address = mac } })
    ]

-- From the packing to the new HAL_UART_Receive_IT.
unfoldable pub transmit_packet : Hal → Firmware → Machine
transmit_packet hal s =
    let send_buff = fill_buffer s.pango_client_data s.send_buff in
    let filled : Firmware = record s { send_buff = send_buff } in
    if hal.transmit
    then ask hal.receive_it
        (record filled { transmitted = s.transmitted ++ send_buff ∷ []; answering = true })
    else stops system_reset filled

-- One step of the loop of main_PNG.
unfoldable pub main_step : Hal → Firmware → Machine
main_step hal s =
    if s.answering
    then runs (record s { interrupt_flag = off; answering = false })
    else if s.interrupt_flag == on
    then (if s.pango_client_data.status == restart
        then stops system_reset s
        else elim (get_coordinates hal.x_random hal.y_random s.pango_client_data) [
          | none ↦ stops error_handler s
          | some client_data ↦ transmit_packet hal (record s { pango_client_data = client_data })
        ])
    else runs s

-- The transmission from address 255 before Error_Handler() leaves no trace in the state.
unfoldable pub callback : Bool → Firmware → Machine
callback receive_it s =
    let status = s.pango_client_data.status in
    if s.wrong_status % 5 == 0
    then stops error_handler s
    else if status == on || status == off || status == restart
    then runs (record s { interrupt_flag = on })
    else ask receive_it (record s { wrong_status = u8 (s.wrong_status + 1); interrupt_flag = off })

-- A byte comes in on UART 4. If none has been asked for it is lost.
unfoldable pub interrupt : ℕ → Bool → Firmware → Machine
interrupt byte receive_it s =
    if s.listening
    then callback receive_it (record s {
      pango_client_data = record (s.pango_client_data) { status = byte };
      listening = false;
    })
    else runs s

pub data Step : Type 0 where
  main_goes_on : Hal → Step
  byte_comes : ℕ → Bool → Step

unfoldable pub step : Step → Firmware → Machine
step (main_goes_on hal) s = main_step hal s
step (byte_comes byte receive_it) s = interrupt byte receive_it s

-- The steps in the order in which they happen; nothing happens after a halt.
unfoldable pub run : Machine → List Step → Machine
run m [] = m
run (stops why s) (e ∷ es) = stops why s
run (runs s) (e ∷ es) = run (step e s) es
