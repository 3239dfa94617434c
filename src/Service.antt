-- ===== src/Service.antt =====
-- omniledger/service: the ledger on top of the collection and the darcs.
pub mod Instruction
pub mod Xor
pub mod Order
pub mod Database
pub mod Contract
pub mod Changes
pub mod Block
pub mod Proof
pub mod Worker
mod Examples
