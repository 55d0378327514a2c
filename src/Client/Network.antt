-- ===== src/Client/Network.antt =====
-- client/bbb/poll_event/poll_functions.c, client/bbb/server/tcp/tcp.c, and
-- send_data_and_receive_location of client/client_func.c. What the kernel answers is an argument;
-- an int result is its pattern, and a uint8_t result is cut to a byte.
use panngo.Base.{ℕ, List, Bool, Option, none, some, u8, ltb, ◌&&◌, if◌then◌else◌}
use panngo.Client.Data.{error}
use panngo.Client.Location.{fill}

-- The result of poll, as an int: -1 for an error, 0 for a timeout, or the number of descriptors. Both
-- of the last two returns of wait_poll_event leave its `while (1)` in the first round.
unfoldable pub wait_poll_event : ℕ → ℕ
wait_poll_event result = if ltb 0 result && ltb result 2147483648 then 0 else error

-- socket and connect; `true` is success.
pub record Connecting : Type 0 where
  pub socket : Bool
  pub connect : Bool

-- `none` is exit(EXIT_FAILURE). The function returns a uint8_t.
unfoldable pub connect_to_pango_server : Connecting → Option ℕ
connect_to_pango_server c = if c.socket then some (if c.connect then u8 0 else u8 error) else none

-- send: the packet is taken, or the result is -1. A socket that is not connected, or whose connection
-- the server has ended, raises SIGPIPE, which nothing in client/ handles: it ends the process.
pub data Sending : Type 0 where
  send_done send_failed sigpipe : Sending

-- recv: -1, or the bytes that came; none came where the server has closed the connection.
pub data Reply : Type 0 where
  recv_failed : Reply
  came : List ℕ → Reply

unfoldable pub receive : Reply → List ℕ → ℕ × List ℕ
receive recv_failed location = (error, location)
receive (came bytes) location = (0, fill bytes location)

-- The int that it returns, and the array `location`, or `none` where the process has ended. Where
-- send fails recv is not called.
unfoldable pub send_data_and_receive_location : Sending → Reply → List ℕ → Option (ℕ × List ℕ)
unfolding receive
send_data_and_receive_location send_done reply location = some (receive reply location)
send_data_and_receive_location send_failed reply location = some (error, location)
send_data_and_receive_location sigpipe reply location = none

-- A uint8_t in a comparison with an int.
abbrev pub promote : ℕ → ℕ
promote byte = byte
