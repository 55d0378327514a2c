-- ===== src/Server.antt =====
-- server/: the threads of the clients, the backup thread, the table of prices, and main.
pub mod Sql
pub mod Table
pub mod Data
pub mod Platform
pub mod Crc
pub mod Packet
pub mod Location
pub mod NewClient
pub mod ExistingClient
pub mod Typed
pub mod Thread
pub mod DbUpdate
pub mod World
pub mod PriceDb
pub mod MainServer
