-- ===== src/System.antt =====
-- The three programs together: what the STM sends is what the client passes on unchanged and what
-- the server takes in. The data is that of STM/PANGO_L/PNG, client and server.
pub mod Delivery
pub mod Parking
pub mod RoundTrip
pub mod Corruption
