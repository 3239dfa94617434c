-- ===== src/Lib.antt =====
-- The omniledger of student_18_byzcoin: collections (omniledger/collection), a Merkle tree of
-- key/value records with proofs, transactions and updates; the access rights (omniledger/darc): darcs,
-- with rules that give each action an expression over identities; and the ledger (omniledger/service),
-- which keeps its state in a collection and lets darcs decide who may change it.
--
-- The collection. Bytes models byteslice.go, Field field.go, Scope scope.go and flag.go, Node node.go,
-- Hash and SingleNode singlenode.go. Collection models the package's operations on a whole tree, one child
-- module for each file: State (collection.go: Collection, New, NewVerifier, Clone, GetRoot), Walk, Add
-- and Change (manipulators.go: Add, and Set, SetField and Remove), Get (getters.go, record.go,
-- navigators.go), Collect and Transaction (transaction.go), Proof (proof.go, verifiers.go) and Update
-- (update.go). Trie is the specification of the tree: a binary trie over the bits of the hashed keys.
-- Shape maps a tree to its trie, Valid has the invariant that the operations keep, and Contents is what
-- callers of a collection see that is known as a whole: a map from keys to raw values.
--
-- The darcs. Expression models darc/expression/expression.go. Of darc/darc.go and darc/struct.go,
-- Darc.Rules has the rules of a darc, Darc.Identity and Darc.Request the identities and what a request
-- hashes, Darc.Document the darc, its IDs and EvolveFrom, Darc.Values and Darc.Verify the verifications
-- (evalExpr, verifyOneEvolution, findPath, VerifyWithCB of a darc and of a request), and Darc.Signer the
-- signers, the requests that they sign, and MsgToDarc.
--
-- The ledger. Of service/transaction.go, Service.Instruction has the instructions, and Service.Xor and
-- Service.Order have sortTransactions. Service.Database models service/struct.go, Service.Contract
-- service/contracts.go, and Service.Proof service/proof.go. Of service/service.go, Service.Changes has
-- createStateChanges, verifyAndFilterTxs and the reads of the configuration, Service.Block
-- createNewBlock and CreateGenesisBlock, and Service.Worker AddTransaction and the worker that collects
-- transactions for a block. Sorting is sort.Strings and sort.Slice: any sort gives the same where
-- different elements have different keys.
--
-- State. A Go call that changes its receiver is a function to Outcome: done with the new state, fail
-- with an error and the state as it was left, or crash for a panic. A call that returns a value is a
-- function to Result, and a primitive that may panic one to Option. Pointers to parents have no field:
-- a walk up to the root is the return of the walk down. SHA-256 and the protobuf encoding of a node are
-- the parameter Hashing, of which the length of a hash is known, and that it has bytes. The events of a
-- worker are steps of a relation, in any order.
--
-- Fuel. The loop of Add, which may split a leaf again and again, has fuel for one turn for each bit of
-- a hash and one more: at the depth after the last bit no bit is left to read, which is a panic. The
-- loop of match has one turn for each bit. evalExpr has the depth of the calls of itself that the stack
-- holds: beyond it Go panics, and the model does; a rank of the darcs bounds it where delegation has no
-- circle. NewProof has fuel for the blocks that it visits. The other loops recurse on the data.
--
-- Parameters. Keys and Outside stand for the schemes of signatures and the codec of darcs, Grammar for
-- the match of an expression by goparsec, Bolt for a bucket of bbolt, Network, Chain and Skipchain for
-- the encodings of the network and the skipchain service, and ConfigCodec for that of the configuration.
--
-- Not modelled: Serialize and Deserialize of proofs, which call the protobuf library; that Set writes into
-- the slice of values that a record returned earlier still holds; nil pointers in a path, a request or a
-- list of signatures; the printing of darcs and instructions; of service.go the GetProof handler,
-- propagation, tryLoad and newService, which are calls of onet, and updateCollection and verifySkipBlock,
-- whose code is commented out; the client in api.go; the vendored libraries; the command line and the
-- Java client.
pub mod Common
pub mod Bytes
pub mod Field
pub mod Scope
pub mod Node
pub mod Hash
pub mod SingleNode
pub mod Trie
pub mod Collection
pub mod Darc
pub mod Expression
pub mod Service
pub mod Sorting
