-- ===== src/Keys.antt =====
-- pkg/crypto/keys: public keys.
pub mod PublicKey
pub mod Sorting
