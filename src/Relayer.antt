-- ===== src/Relayer.antt =====
-- packages/relayer: the walletless relay of enrollments, signatures and withdrawals.
pub mod Errors
pub mod Requests
pub mod Handlers
pub mod SendTx
