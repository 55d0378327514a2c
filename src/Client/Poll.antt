-- ===== src/Client/Poll.antt =====
-- init_poll_event of client/bbb/poll_event/poll_functions.c.
use panngo.Base.{ℕ}

-- struct pollfd
pub record Pollfd : Type 0 where
  pub fd : ℕ
  pub events : ℕ
  pub revents : ℕ

-- `pollin` is POLLIN of poll.h.
unfoldable pub init_poll_event : ℕ → Pollfd → ℕ → Pollfd
init_poll_event pollin fds fd = record fds { fd = fd; events = pollin }
