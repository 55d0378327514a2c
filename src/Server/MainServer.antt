-- ===== src/Server/MainServer.antt =====
-- server/main_server.c: the start of the server and its accept loop. The results of the
-- calls that main makes are arguments; a thread that is created runs by itself.
pub mod Accept
pub mod Shutdown
use panngo.Base.{
  ℕ, zero, suc, ◌+◌, ◌≡◌, List, [], ◌∷◌, ◌++◌, Bool, true, false, Option, none, some, get_or, set,
  length, u8, u32, ltb, ◌==◌, if◌then◌else◌,
}
use panngo.Server.Data.{PangoData}

abbrev pub server_max_num_clients : ℕ
server_max_num_clients = 10

-- The results of the calls before the accept loop, `true` for success.
pub record Startup : Type 0 where
  pub open_clients : Bool
  pub create_table : Bool
  pub open_prices : Bool
  pub socket : Bool
  pub bind : Bool
  pub listen : Bool

-- Where main stops before the loop: exit(EXIT_FAILURE), and whether it closed the socket first; or
-- the start of the loop.
pub data Started : Type 0 where
  exit_failure : Bool → Started
  listening : Started

unfoldable pub start_server : Startup → Started
start_server s =
    if s.open_clients
    then (if s.create_table
        then (if s.open_prices
            then (if s.socket
                then (if s.bind
                    then (if s.listen then listening else exit_failure false)
                    else exit_failure true)
                else exit_failure false)
            else exit_failure false)
        else exit_failure false)
    else exit_failure false

-- The int -1, by its pattern.
abbrev pub minus_one : ℕ
minus_one = 4294967295

-- A uint8_t that C compares with an int: its value does not change.
abbrev pub promote : ℕ → ℕ
promote byte = byte

-- What the accept loop has done: the array, the errors that it has noticed, and the clients for
-- which it has created a thread, the latest last. `overrun` is a write past the array.
pub record Accepted (F : Type 0) : Type 0 where
  pub clients : List (PangoData F)
  pub noticed : ℕ
  pub threads : List ℕ

pub data Accepting (F : Type 0) : Type 0 where
  accepting : Accepted F → Accepting F
  overrun : Accepted F → Accepting F

module _ {F : Type 0} where
  -- client[i].client_fd = …, in an array that has the slot.
  abbrev pub set_fd : List (PangoData F) → ℕ → ℕ → List (PangoData F)
  set_fd [] i fd = []
  set_fd (c ∷ cs) zero fd = record c { client_fd = fd } ∷ cs
  set_fd (c ∷ cs) (suc i) fd = c ∷ set_fd cs i fd

  -- One round: accept gives the int `result`, which the field cuts to a byte before the test.
  unfoldable pub accept_round : ℕ → ℕ → Accepted F → Accepted F
  accept_round i result a =
      let fd = u8 result in
      record {
        clients = set_fd a.clients i fd;
        noticed = if promote fd == minus_one then a.noticed + 1 else a.noticed;
        threads = a.threads ++ i ∷ [];
      }

  -- The loop `for(int i = 0; i <= SERVER_MAX_NUM_CLIENTS; ++i)` at `i`, for the results of accept to
  -- come; it waits where there is none.
  unfoldable pub accept_loop : ℕ → List ℕ → Accepted F → Accepting F
  accept_loop i [] a = accepting a
  accept_loop i (result ∷ results) a =
      let next = accept_loop (i + 1) results (accept_round i result a) in
      if ltb server_max_num_clients i
      then accepting a
      else if ltb i (length a.clients)
      then next
      else overrun a
