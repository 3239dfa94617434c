-- ===== src/Collection.antt =====
-- omniledger/collection: the Merkle tree of key/value records. Each file of the package is a child
-- module, and the proofs about an operation stand below it.
pub mod State
pub mod Shape
pub mod Walk
pub mod Add
pub mod Change
pub mod Get
pub mod Collect
pub mod Transaction
pub mod Proof
pub mod Update
pub mod Valid
pub mod Empty
pub mod Contents
pub mod Cloned
mod Examples
