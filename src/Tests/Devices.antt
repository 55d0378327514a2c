-- ===== src/Tests/Devices.antt =====
-- The STM's console, and the set-up of the client's UARTs.
use panngo.Base.{ℕ, ◌≡◌, refl, arith, [], ◌∷◌, true, false, none, ◌==◌, ◌||◌}
use panngo.Client.Uart.{Flags, Masks, IsTermios, Termios, Opening, init_uart1}
use panngo.Stm.Console.{Console, returns, _read}

-- "ok" and a newline, which fills the buffer of three bytes.
abbrev typed : Console
typed = record { incoming = b'o' ∷ b'k' ∷ 10 ∷ []; outgoing = [] }

typed_read :
    _read 3 typed
    ≡ returns 3
        (b'o' ∷ b'k' ∷ 10 ∷ 0 ∷ [])
        (record { incoming = []; outgoing = b'o' ∷ b'k' ∷ 10 ∷ [] })
unfolding _read
typed_read = refl

-- One bit for every flag, and two for the character size.
abbrev bit : ℕ → Flags
bit n i = i == n

abbrev pub masks : Masks
masks = record {
  clocal = bit 11;
  cread = bit 7;
  parenb = bit 8;
  cstopb = bit 6;
  csize = λ i. bit 4 i || bit 5 i;
  cs8 = λ i. bit 4 i || bit 5 i;
  icanon = bit 1;
  echo = bit 3;
  echoe = bit 4;
  isig = bit 0;
  ixon = bit 10;
  ixoff = bit 12;
  ixany = bit 11;
  opost = bit 0;
  b115200 = 4098;
}

masks-IsTermios : IsTermios masks
masks-IsTermios = record {
  in_field = λ i h. h;
  local_apart = λ i h. ground arith;
  read_apart = λ i h. ground arith;
  parity_apart = λ i h. ground arith;
  stop_apart = λ i h. ground arith;
}

abbrev pub cooked : Termios
cooked = record {
  c_iflag = λ i. true;
  c_oflag = λ i. true;
  c_cflag = λ i. false;
  c_lflag = λ i. true;
  c_ispeed = 13;
  c_ospeed = 13;
}

-- open has failed.
abbrev pub unopened : Opening
unopened = record { opened = 4294967295; attributes = none }

-- Eight bits to a character, and no echo.
uart1_raw :
    ((init_uart1 masks unopened cooked).options.c_cflag 5 ≡ true)
    × ((init_uart1 masks unopened cooked).options.c_lflag 3 ≡ false)
unfolding init_uart1
uart1_raw = (refl, refl)
