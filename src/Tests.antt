-- ===== src/Tests.antt =====
-- Runs of the theorems on concrete inputs.
pub mod Silent
pub mod Quiet
pub mod Data
pub mod Clients
pub mod Servers
pub mod Managed
pub mod Reactors
pub mod Streams
pub mod Shares
pub mod Libraries
pub mod Identities
pub mod Quorums
pub mod Hosts
pub mod Programs
