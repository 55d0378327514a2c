-- ===== src/Client/Uart.antt =====
-- client/stm/uart/uart.c: the set-up of the two UARTs. A termios flag word is its bits, and the
-- masks of termios.h, like the answers of open and tcgetattr, are arguments; the results of
-- cfsetispeed, cfsetospeed and tcsetattr are not looked at.
use panngo.Base.{ℕ, ◌≡◌, refl, arith, Bool, true, false, Option, none, some, ◌&&◌, ◌||◌, not}

abbrev pub Flags : Type 0
Flags = ℕ → Bool

-- `w |= mask` and `w &= ~mask`.
abbrev pub set_flags : Flags → Flags → Flags
set_flags mask w i = w i || mask i

abbrev pub clear_flags : Flags → Flags → Flags
clear_flags mask w i = w i && not (mask i)

-- The parts of struct termios that are set.
pub record Termios : Type 0 where
  pub c_iflag : Flags
  pub c_oflag : Flags
  pub c_cflag : Flags
  pub c_lflag : Flags
  pub c_ispeed : ℕ
  pub c_ospeed : ℕ

-- What termios.h defines.
pub record Masks : Type 0 where
  pub clocal : Flags
  pub cread : Flags
  pub parenb : Flags
  pub cstopb : Flags
  pub csize : Flags
  pub cs8 : Flags
  pub icanon : Flags
  pub echo : Flags
  pub echoe : Flags
  pub isig : Flags
  pub ixon : Flags
  pub ixoff : Flags
  pub ixany : Flags
  pub opost : Flags
  pub b115200 : ℕ

-- The int that open gives, and the struct if tcgetattr fills it in.
pub record Opening : Type 0 where
  pub opened : ℕ
  pub attributes : Option Termios

-- *fd, and *options, which tcsetattr is given.
pub record Uart : Type 0 where
  pub fd : ℕ
  pub options : Termios

module _ (m : Masks) where
  abbrev pub filled : Opening → Termios → Termios
  filled o options = elim o.attributes [ none ↦ options | some t ↦ t ]

  -- The assignments to *options, the same in both functions.
  unfoldable pub configure : Termios → Termios
  configure options = record {
    c_ispeed = m.b115200;
    c_ospeed = m.b115200;
    c_cflag = set_flags m.cs8 (
        clear_flags m.csize (
          clear_flags m.cstopb
            (clear_flags m.parenb (set_flags (set_flags m.clocal m.cread) options.c_cflag))));
    c_lflag =
        clear_flags (set_flags (set_flags (set_flags m.icanon m.echo) m.echoe) m.isig)
          options.c_lflag;
    c_iflag = clear_flags (set_flags (set_flags m.ixon m.ixoff) m.ixany) options.c_iflag;
    c_oflag = clear_flags m.opost options.c_oflag;
  }

  -- /dev/ttyO1. Where open fails, -1 is kept, and everything else goes on.
  unfoldable pub init_uart1 : Opening → Termios → Uart
  unfolding configure
  init_uart1 o options = record { fd = o.opened; options = configure (filled o options) }

  -- /dev/ttyO4
  unfoldable pub init_uart4 : Opening → Termios → Uart
  unfolding configure
  init_uart4 o options = record { fd = o.opened; options = configure (filled o options) }

  -- What termios.h says of its masks: CS8 is a value of the field CSIZE, and the fields of c_cflag
  -- are apart.
  pub record IsTermios : Type 0 where
    pub in_field : (i : ℕ) → m.cs8 i ≡ true → m.csize i ≡ true
    pub local_apart :
        (i : ℕ) → m.clocal i ≡ true → (m.csize i || (m.cstopb i || m.parenb i)) ≡ false
    pub read_apart : (i : ℕ) → m.cread i ≡ true → (m.csize i || (m.cstopb i || m.parenb i)) ≡ false
    pub parity_apart : (i : ℕ) → m.parenb i ≡ true → m.csize i ≡ false
    pub stop_apart : (i : ℕ) → m.cstopb i ≡ true → m.csize i ≡ false

  -- A raw line of eight bits, no parity and one stop bit at 115200 baud, whatever it was before; all
  -- other flags are those of `before`.
  pub record IsRaw (before after : Termios) : Type 0 where
    pub speed : (after.c_ispeed ≡ m.b115200) × (after.c_ospeed ≡ m.b115200)
    pub size : (i : ℕ) → m.csize i ≡ true → after.c_cflag i ≡ m.cs8 i
    pub local : (i : ℕ) → m.clocal i ≡ true → after.c_cflag i ≡ true
    pub reader : (i : ℕ) → m.cread i ≡ true → after.c_cflag i ≡ true
    pub no_parity : (i : ℕ) → m.parenb i ≡ true → after.c_cflag i ≡ false
    pub one_stop : (i : ℕ) → m.cstopb i ≡ true → after.c_cflag i ≡ false
    pub no_lines : (i : ℕ) → m.icanon i ≡ true → after.c_lflag i ≡ false
    pub no_echo : (i : ℕ) → m.echo i ≡ true → after.c_lflag i ≡ false
    pub no_signals : (i : ℕ) → m.isig i ≡ true → after.c_lflag i ≡ false
    pub no_flow_control :
        (i : ℕ) → (m.ixon i || (m.ixoff i || m.ixany i)) ≡ true → after.c_iflag i ≡ false
    pub no_output_processing : (i : ℕ) → m.opost i ≡ true → after.c_oflag i ≡ false
    pub others :
        (i : ℕ)
        → (m.csize i || (m.cstopb i || (m.parenb i || (m.clocal i || m.cread i)))) ≡ false
        → after.c_cflag i ≡ before.c_cflag i

  configure-IsRaw : IsTermios → (before : Termios) → IsRaw before (configure before)
  unfolding configure
  configure-IsRaw is before = record {
    speed = (refl, refl);
    size = λ i h. ground (arith, is.in_field i);
    local = λ i h. ground (arith, is.local_apart i h);
    reader = λ i h. ground (arith, is.read_apart i h);
    no_parity = λ i h. ground (arith, is.in_field i, is.parity_apart i h);
    one_stop = λ i h. ground (arith, is.in_field i, is.stop_apart i h);
    no_lines = λ i h. ground arith;
    no_echo = λ i h. ground arith;
    no_signals = λ i h. ground arith;
    no_flow_control = λ i h. ground arith;
    no_output_processing = λ i h. ground arith;
    others = λ i h. ground (arith, is.in_field i);
  }

  -- init_uart1 and init_uart4, where the bits of the masks of termios.h do not overlap, keep the
  -- descriptor that open gives, -1 included, and set the same options in the struct that tcgetattr
  -- has filled in, or in what it held: eight bits, no parity, one stop bit, 115200 baud, no line
  -- editing, echo, signals, flow control or output processing; the other bits of c_cflag are kept.
  init_uart-IsRaw :
      IsTermios
      → (o1 o4 : Opening) (before1 before4 : Termios)
      → ((init_uart1 o1 before1).fd ≡ o1.opened)
        × IsRaw (filled o1 before1) (init_uart1 o1 before1).options
        × ((init_uart4 o4 before4).fd ≡ o4.opened)
        × IsRaw (filled o4 before4) (init_uart4 o4 before4).options
  unfolding init_uart1 init_uart4
  init_uart-IsRaw is o1 o4 before1 before4 =
      (refl, configure-IsRaw is (filled o1 before1), refl, configure-IsRaw is (filled o4 before4))
