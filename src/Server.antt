-- ===== src/Server.antt =====
-- nwep/server.py
pub mod Request
pub mod Responder
pub mod Handler
pub mod Loop
pub mod Building
pub mod Sharding
