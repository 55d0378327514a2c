-- ===== src/Client/Main/Start.antt =====
-- main of client/main_client.c from its start: the set-up of the UARTs, of the poll events and of
-- the button's thread, and then the loop.
use panngo.Base.{ℕ, List, [], false}
use panngo.Client.Data.{on}
use panngo.Client.Uart.{Masks, Opening, Termios, Uart, init_uart1, init_uart4}
use panngo.Client.Poll.{Pollfd, init_poll_event}
use panngo.Client.Main.{Round, MainState, Finished, main_loop}

-- What main finds: the answers of the kernel, and what its uninitialised variables hold.
pub record Setup : Type 0 where
  pub uart1 : Opening
  pub uart4 : Opening
  pub options : Termios
  pub options2 : Termios
  pub fds_uart1 : Pollfd
  pub fds_uart4 : Pollfd
  pub data_buff : List ℕ
  pub location : List ℕ

-- The variables before the loop, and the descriptor that start_end_func is given.
pub record Started (F : Type 0) : Type 0 where
  pub uart1 : Uart
  pub uart4 : Uart
  pub fds_uart1 : Pollfd
  pub fds_uart4 : Pollfd
  pub sig_thread_fd : ℕ
  pub state : MainState F

-- `m` has the masks of termios.h, and `pollin` is POLLIN.
module _ {F : Type 0} (m : Masks) (pollin : ℕ) where
  unfoldable pub main_start : Setup → Started F
  main_start s =
      let uart1 = init_uart1 m s.uart1 s.options in
      let uart4 = init_uart4 m s.uart4 s.options2 in
      record {
        uart1 = uart1;
        uart4 = uart4;
        fds_uart1 = init_poll_event pollin s.fds_uart1 uart1.fd;
        fds_uart4 = init_poll_event pollin s.fds_uart4 uart4.fd;
        sig_thread_fd = uart4.fd;
        state = record {
          data_buff = s.data_buff;
          status = on;
          stm_data_receive_error = 0;
          connected = false;
          location = s.location;
          exit_app = false;
          actions = [];
        };
      }

  -- The end of main, in rounds that come.
  unfoldable pub main : Setup → List (Round F) → Finished F
  unfolding main_start
  main s rounds = main_loop (main_start s).state rounds
