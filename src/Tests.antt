-- ===== src/Tests.antt =====
-- Concrete data, and the theorems at it.
mod Toy
mod Bytes
mod Threads
mod Worlds
mod Tables
mod Memory
mod Clients
mod Controllers
mod Parkings
mod Returns
mod Devices
