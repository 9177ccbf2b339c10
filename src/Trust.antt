-- ===== src/Trust.antt =====
-- nwep/trust: the layer that only the full library has. `_require_trust` is asked with the answer of
-- `_sys.trust_available()`.
pub mod Bls
pub mod Checkpoint
pub mod Store
pub mod Anchor
pub mod Sizes
