-- ===== src/Examples.antt =====
-- The programs under examples: their handlers and the work that they do in each turn of a server's loop.
pub mod Node
pub mod Driven
pub mod Nwcurl
pub mod Nwkv
pub mod Nwproxy
pub mod Handlers
