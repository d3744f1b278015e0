-- ===== src/V3.antt =====
-- packages/oprf/v3-grumpkin: the threshold service, which admits requests by zero-knowledge proofs.
pub mod Words
pub mod Gate
pub mod Merkle
pub mod Threshold
pub mod Challenge
pub mod ChainSync
pub mod Wire
pub mod Kdf
pub mod Dleq
pub mod Node
pub mod Server
