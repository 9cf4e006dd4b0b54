-- ===== src/Client.antt =====
-- The client library (soml/lib/client).
pub mod TextWriter
pub mod Arrival
