-- ===== src/Crypto.antt =====
-- src/crypto: hashing, Merkle trees and signatures.
pub mod Bytes
pub mod Primitives
pub mod MlDsa
pub mod Merkle
pub mod Toy
