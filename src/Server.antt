-- ===== src/Server.antt =====
-- The server (soml/server): its databases' tables and its clients.
pub mod Database
pub mod Lines
pub mod Client
