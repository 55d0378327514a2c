-- ===== src/Stm.antt =====
-- The STM controller: STM/PANGO_L/PNG. It answers a status byte on its UART with a packet.
pub mod Packet
pub mod Sensors
pub mod Firmware
pub mod Console
