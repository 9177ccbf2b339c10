-- ===== src/Log.antt =====
-- nwep/log.py: the trust log, its entries, and the server of its endpoints.
pub mod Entries
pub mod Tree
pub mod Serving
