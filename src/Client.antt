-- ===== src/Client.antt =====
-- nwep/client.py
pub mod Response
pub mod Driven
pub mod Connecting
pub mod Stream
pub mod Building
