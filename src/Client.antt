-- ===== src/Client.antt =====
-- client/, the application of the BeagleBone: it takes packets from the STM over a UART when the
-- button is pressed and passes them on to the server.
pub mod Data
pub mod Crc
pub mod Status
pub mod Location
pub mod Display
pub mod Network
pub mod Uart
pub mod Poll
pub mod Button
pub mod Main
