-- ===== src/Service/Order.antt =====
-- The order of the transactions in omniledger/service/transaction.go: sorted by a salted hash, with
-- the exclusive or of all hashes for the salt. Marshal and Unmarshal of a transaction are parameters.
pub mod Fixed
use student_18_byzcoin.Bytes.{Bytes}
use student_18_byzcoin.Common.{
  wrong_type, Result, err, ok, ◌>>=◌, replicate, Option, none, some, List, [], ◌∷◌, ◌++◌,
}
use student_18_byzcoin.Hash.{Hashing, sum256}
use student_18_byzcoin.Service.Instruction.{Instruction, instruction_hash}
use student_18_byzcoin.Service.Xor.{xor_bytes}
use student_18_byzcoin.Sorting.{sort_by}

abbrev pub ClientTransaction : Type 0
ClientTransaction = List Instruction

-- network.Marshal, and network.Unmarshal, whose value may be of another type
pub record Network : Type 0 where
  pub marshal : ClientTransaction → Result Bytes
  pub unmarshal : Bytes → Result (Option ClientTransaction)

module _ ⦃H : Hashing⦄ where
  -- Instructions.Hash
  unfoldable pub written_instructions : List Instruction → Bytes
  unfolding instruction_hash
  written_instructions [] = []
  written_instructions (i ∷ is) = instruction_hash i ++ written_instructions is

  unfoldable pub instructions_hash : List Instruction → Bytes
  unfolding written_instructions
  instructions_hash is = sum256 (written_instructions is)

  -- ClientTransactions.Hash
  unfoldable pub written_transactions : List ClientTransaction → Bytes
  unfolding instructions_hash
  written_transactions [] = []
  written_transactions (t ∷ ts) = instructions_hash t ++ written_transactions ts

  unfoldable pub client_transactions_hash : List ClientTransaction → Bytes
  unfolding written_transactions
  client_transactions_hash ts = sum256 (written_transactions ts)

  -- the loop of xorTransactions, from `result`
  unfoldable pub xor_loop : Bytes → List Bytes → Bytes
  unfolding xor_bytes
  xor_loop result [] = result
  xor_loop result (t ∷ ts) = xor_loop (xor_bytes result (sum256 t)) ts

  -- xorTransactions, from sha256.Size zeros
  unfoldable pub xor_transactions : List Bytes → Bytes
  unfolding xor_loop
  xor_transactions ts = xor_loop (replicate 32 0) ts

  -- sortWithSalt
  unfoldable pub sort_with_salt : List Bytes → Bytes → List Bytes
  sort_with_salt ts salt = sort_by (λ (t : Bytes). sum256 (salt ++ t)) ts

  module _ (N : Network) where
    -- the first loop of sortTransactions
    unfoldable pub marshal_all : List ClientTransaction → Result (List Bytes)
    marshal_all [] = ok []
    marshal_all (t ∷ ts) = do b ← N.marshal t; bs ← marshal_all ts; ok (b ∷ bs)

    -- a type assertion that is tested
    abbrev pub right_type : Option ClientTransaction → Result ClientTransaction
    right_type none = err wrong_type
    right_type (some t) = ok t

    -- the second loop
    unfoldable pub unmarshal_all : List Bytes → Result (List ClientTransaction)
    unmarshal_all [] = ok []
    unmarshal_all (b ∷ bs) = do
      tmp ← N.unmarshal b
      t ← right_type tmp
      ts ← unmarshal_all bs
      ok (t ∷ ts)

    -- sortTransactions: the new order, which the source writes over the slice when all went well
    unfoldable pub sort_transactions : List ClientTransaction → Result (List ClientTransaction)
    unfolding marshal_all xor_transactions sort_with_salt unmarshal_all
    sort_transactions ts = do
      bs ← marshal_all ts
      unmarshal_all (sort_with_salt bs (xor_transactions bs))
