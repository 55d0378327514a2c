-- ===== src/Lib.antt =====
-- A model of PANNGO, a parking application of three programs, with its theorems.
--
-- An STM controller (STM/PANGO_L/PNG) answers a status byte on its UART with a packet of ten
-- bytes: ON or OFF, its MAC address, two random coordinates, and a CRC-8 checksum. The client
-- (client/), on a BeagleBone, asks the STM when a button is pressed, checks the packet, and passes
-- it on to the server unchanged: with ON it connects and is sent the city of the coordinates, with
-- OFF it is sent the bill. The server (server/) has a thread for every client, a thread that
-- writes the time of every connected client into the table your_table, and a table of prices,
-- city_parking.
--
-- Files and code:
-- Base: native numbers, lists for arrays, C strings, 8- and 32-bit words, exclusive or.
-- Crc8: calculate_crc8 of STM/PANGO_L/PNG/Src/pango_functions.c.
-- Stm/Packet, Stm/Sensors, Stm/Firmware: pack_pango_buffer; rand_uint128, get_coordinates and
-- get_mac_address; main_PNG and HAL_UART_RxCpltCallback of PNG.c. The state is the variables of
-- PNG.c and the HAL's request for a byte; a run is a sequence of steps of main_PNG and of bytes
-- that come, in any order.
-- Stm/Console: STM/PANGO_L/PNG/Src/Tools.c, on the bytes that the UART brings.
-- Client/Crc, Status, Location, Display, Network, Poll, Button, Uart: the functions of
-- client/client_func.c, client/bbb/ and client/stm/uart/uart.c. Client/Main: main of
-- client/main_client.c; a round of the loop is a function of its variables and of what the kernel
-- answers, and says whether the loop goes on, is left, or the process ends, by exit or by SIGPIPE.
-- Server/Packet, Crc, Location: the packet, its checksum and its city in
-- server/client/client_thread_func.c and server/client/new_client/new_client.c. Server/Sql,
-- Server/Table: the SQL commands, and what they mean for the two tables; Server/Table/Ledger is
-- your_table without the order of its rows. Server/Platform: the interface to SQLite and to
-- `double`. Server/NewClient, ExistingClient, Thread: new_client.c, existing_client.c,
-- client_thread.c, as functions on a session, which has the client's struct pango_data, both
-- databases, and what was sent. Server/DbUpdate, PriceDb, MainServer: server/database/ and
-- server/main_server.c.
-- Server/Packet/Memory: what store_client_data_in_struct writes, byte by byte, and the strings
-- that are seen meanwhile. Server/Typed, and the modules named Typed: the C types and the buffers
-- of all this.
-- Server/World: the threads of server/ together. A move of a client's thread goes up to and with
-- its next section on shared data, and a round of db_update is one step; a world is reached by any
-- sequence of steps.
-- System: the three programs together. Tests: concrete data, a platform of two lists, and the
-- theorems at it.
--
-- Numbers: a uint8_t is a number below 256, and wraps by `% 256`; an int, a uint32_t or the low
-- half of a time_t is its pattern below 2 ^ 32, and a difference wraps; a quotient and a remainder
-- of an int are cut towards 0. A comparison of a uint8_t with -1 is one with the pattern of -1.
--
-- Loops: those over arrays are recursions on the rounds that are left. The loops of the three
-- mains and of the threads have no bound in the code; each takes the list of what happens to it,
-- of any length, and waits where the list ends.
--
-- Parameters: SQLite and the type `double` are the record Platform. Server.Platform.Laws has what is
-- documented of them: a command that fails changes nothing, one that succeeds does what Server/Table
-- says, a query answers from its table, and an int survives the way to a double and back.
-- Server.Thread.Start.IsReliable, where it is asked for, says that every SELECT ends in SQLITE_ROW or
-- SQLITE_DONE, and Server.Thread.Parked.IsWorking that every command succeeds and every query is
-- prepared. The HAL, the clock, sockets, and poll are arguments.
--
-- Not modelled: text that is printed for the log; the addresses and ports of the sockets; sleeps;
-- what a SIGPIPE of the server's own sends does; reads of a client's struct in the middle of a
-- write by its own thread, but for those of mac_address by db_update, in Server/World/Whole, and
-- the use of the mutex before it is initialised. The HAL's drivers and start-up code under
-- STM/PANGO_L, outside PNG/, are generated.
pub mod Base
pub mod Client
pub mod Crc8
pub mod Server
pub mod Stm
pub mod System
pub mod Tests
