-- ===== src/Tests.antt =====
-- The theorems at concrete inputs, by the part of the program.
pub mod Samples
pub mod Trees
pub mod Relays
pub mod Enrollments
pub mod Evaluations
pub mod Groups
pub mod Searches
pub mod Shares
pub mod Derivations
pub mod Attesters
pub mod Proofs
pub mod Services
pub mod Registrations
