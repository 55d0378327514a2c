-- ===== src/Client/Status.antt =====
-- The tests and updates of the status: received_data_from_stm and updating_status_value of
-- client/client_func.c, and client/bbb/server/connection_check/.
use panngo.Base.{
  ℕ, ◌+◌, ◌%◌, ◌≡◌, ◌⊎◌, arith, Bool, true, false, ◌&&◌, not, u8, ◌==◌, if◌then◌else◌,
}
use panngo.Client.Data.{on, off, stay_on, stay_off}

unfoldable pub received_data_from_stm : ℕ → Bool
received_data_from_stm status = if status == on then true else if status == off then true else false

-- The increment is that of a uint8_t.
unfoldable pub updating_status_value : ℕ → ℕ
updating_status_value status =
    let next = u8 (status + 1) % 3 in if next == 0 then u8 (next + 1) else next

-- `false` is NOT_CONNECTED.
unfoldable pub already_connected_to_server_check : ℕ → Bool → Bool
already_connected_to_server_check status connected =
    if status == on && not connected then false else true

-- `true` is QUIT.
unfoldable pub ready_to_quit : ℕ → Bool → Bool
ready_to_quit status connected = if status == off && connected then true else false

abbrev pub IsOnOff : ℕ → Type 0
IsOnOff status = (status ≡ on) ⊎ (status ≡ off)

-- The next status is ON or OFF, whatever the last one was, and received_data_from_stm holds of it;
-- ON and OFF take turns, and a status that a failed check has marked is sent once more.
pub updating_status_value_lem :
    (status : ℕ)
    → IsOnOff (updating_status_value status)
      × (received_data_from_stm (updating_status_value status) ≡ true)
      × (updating_status_value on ≡ off)
      × (updating_status_value off ≡ on)
      × (updating_status_value stay_on ≡ on)
      × (updating_status_value stay_off ≡ off)
unfolding updating_status_value received_data_from_stm
updating_status_value_lem status =
    (ground arith, ground arith, ground arith, ground arith, ground arith, ground arith)
