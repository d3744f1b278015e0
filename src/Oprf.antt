-- ===== src/Oprf.antt =====
-- packages/oprf: the service that evaluates blinded identifiers and enrolls commitments.
pub mod Dob
pub mod Store
pub mod Attestation
pub mod Voprf
pub mod Service
pub mod Register
pub mod Attester
