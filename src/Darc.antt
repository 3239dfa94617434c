-- ===== src/Darc.antt =====
-- omniledger/darc: access rights, the documents that grant them, and their verification.
pub mod Rules
pub mod Identity
pub mod Request
pub mod Document
pub mod Values
pub mod Verify
pub mod Signer
mod Examples
