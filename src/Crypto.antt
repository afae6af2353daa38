-- ===== src/Crypto.antt =====
-- crypto/: the group, signatures, notes and what proofs reveal.
pub mod Group
pub mod Primitives
pub mod Fr
pub mod Schnorr
pub mod Note
pub mod Coin
pub mod Revealed
pub mod Proofs
