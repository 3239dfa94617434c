-- ===== src/Service/Changes.antt =====
-- What a leader makes of the transactions of an epoch, in omniledger/service/service.go: it drops those
-- that their darcs do not allow, and runs the contracts of the others, each transaction on a copy of
-- the collection that is kept if all went well.
pub mod Replay
pub mod Filter
use student_18_byzcoin.Bytes.{Bytes, equal}
use student_18_byzcoin.Collection.State.{Collection, get_root, clone}
use student_18_byzcoin.Common.{
  ◌==◌, if◌then◌else◌, wrong_contract, wrong_length, Result, panic, err, ok, ◌>>=◌, Outcome, done,
  fail, crash, length, ℕ, not, Option, none, some, List, [], ◌∷◌, ◌++◌,
}
use student_18_byzcoin.Darc.Document.{Darc}
use student_18_byzcoin.Darc.Identity.{Keys}
use student_18_byzcoin.Darc.Signer.{Outside, new_darc_from_proto}
use student_18_byzcoin.Darc.Verify.{request_verify}
use student_18_byzcoin.Expression.{Grammar}
use student_18_byzcoin.Hash.{Hashing}
use student_18_byzcoin.Service.Contract.{
  zero_nonce, one_nonce, genesis_reference_id, contract_config_id, contract_darc_id, ConfigCodec,
}
use student_18_byzcoin.Service.Database.{StateChange, store_in_coll, get_value_contract}
use student_18_byzcoin.Service.Instruction.{
  ObjectId, slice, Instruction, get_contract_state, to_darc_request,
}
use student_18_byzcoin.Service.Order.{ClientTransaction}

-- OmniLedgerContract: what it returned, and the collection as it left it
abbrev pub Contract : Type 0
Contract = Collection → Instruction → Collection × Result (List StateChange)

-- toObjectID
abbrev pub to_object_id : Bytes → ObjectId
to_object_id id = record { darc_id = id; instance_id = zero_nonce }

-- how a transaction ends: kept, with the collection; or dropped; each with `states`
pub data Ran : Type 0 where
  kept : Collection → List StateChange → Ran
  dropped : List StateChange → Ran
  crashed : Ran

-- what the loop over the transactions has: cdbTemp, ctsOK and states
pub record Progress : Type 0 where
  pub current : Collection
  pub accepted : List ClientTransaction
  pub states : List StateChange

-- one turn of the loop over the transactions
abbrev pub after_transaction : ClientTransaction → Progress → Ran → Result Progress
after_transaction t p crashed = panic
after_transaction t p (dropped states) = ok (record p { states = states })
after_transaction t p (kept c states) =
    ok (record { current = c; accepted = p.accepted ++ (t ∷ []); states = states })

module _ ⦃H : Hashing⦄ where
  -- the loop over the state changes of one instruction
  unfoldable pub store_changes : Collection → List StateChange → Outcome Collection
  unfolding store_in_coll
  store_changes c [] = done c
  store_changes c (t ∷ ts) = elim (store_in_coll c t) [
    | done c' ↦ store_changes c' ts
    | fail e c' ↦ fail e c'
    | crash ↦ crash
  ]

module _ ⦃H : Hashing⦄ (contracts : Bytes → Option Contract) where
  -- one turn of the loop over the instructions, with `go` the turns that follow
  unfoldable pub run_instruction :
      (Collection → List StateChange → Ran) → Instruction → Collection → List StateChange → Ran
  unfolding get_contract_state store_changes
  run_instruction go i c states = elim (get_contract_state i c) [
    | panic ↦ crashed
    | err e ↦ dropped states
    | ok (kind, state) ↦ elim (contracts kind) [
      | none ↦ dropped states
      | some f ↦
          let (c', r) = f c i in
          elim r [
            | panic ↦ crashed
            | err e ↦ dropped states
            | ok scs ↦ elim (store_changes c' scs) [
              | crash ↦ crashed
              | fail e c'' ↦ dropped states
              | done c'' ↦ go c'' (states ++ scs)
            ]
          ]
    ]
  ]

  unfoldable pub run_instructions : List Instruction → Collection → List StateChange → Ran
  unfolding run_instruction
  run_instructions [] c states = kept c states
  run_instructions (i ∷ is) c states = run_instruction (run_instructions is) i c states

  unfoldable pub run_transaction : ClientTransaction → Progress → Result Progress
  unfolding run_instructions clone
  run_transaction t p =
      clone p.current >>= λ c. after_transaction t p (run_instructions t c p.states)

  unfoldable pub run_transactions : List ClientTransaction → Progress → Result Progress
  unfolding run_transaction
  run_transactions [] p = ok p
  run_transactions (t ∷ ts) p = run_transaction t p >>= run_transactions ts

  -- createStateChanges, which returns the root of the last collection
  unfoldable pub create_state_changes :
      Collection
      → List ClientTransaction
      → Result (Bytes × List ClientTransaction × List StateChange)
  unfolding clone run_transactions get_root
  create_state_changes c cts = do
    first ← clone c
    p ← run_transactions cts (record { current = first; accepted = []; states = [] })
    ok (get_root p.current, p.accepted, p.states)

-- one turn of the loop of verifyAndFilterTxs: an error is logged
abbrev pub keep_if :
    Result (Unit {0})
    → ClientTransaction
    → Result (List ClientTransaction)
    → Result (List ClientTransaction)
keep_if panic t rest = panic
keep_if (err e) t rest = rest
keep_if (ok u) t rest = rest >>= λ ts. ok (t ∷ ts)

module _ ⦃K : Keys⦄ ⦃H : Hashing⦄ (g : Grammar) (O : Outside) where
  -- loadLatestDarc, from the collection of the skipchain
  unfoldable pub load_latest_darc : Collection → Bytes → Result Darc
  unfolding get_value_contract new_darc_from_proto
  load_latest_darc c id = get_value_contract c (slice (to_object_id id)) >>= λ (value, contract).
      if not (equal contract contract_darc_id)
      then err wrong_contract
      else new_darc_from_proto O value

  -- verifyInstruction
  unfoldable pub verify_instruction : Collection → Instruction → Result (Unit {0})
  unfolding load_latest_darc to_darc_request request_verify
  verify_instruction c i = do
    d ← load_latest_darc c i.object_id.darc_id
    request_verify g (to_darc_request i) d

  -- verifyClientTx
  unfoldable pub verify_client_tx : Collection → ClientTransaction → Result (Unit {0})
  unfolding verify_instruction
  verify_client_tx c [] = ok tt
  verify_client_tx c (i ∷ is) =
      let rest = verify_client_tx c is in verify_instruction c i >>= λ t. rest

  -- verifyAndFilterTxs
  unfoldable pub verify_and_filter_txs :
      Collection → List ClientTransaction → Result (List ClientTransaction)
  unfolding verify_client_tx
  verify_and_filter_txs c [] = ok []
  verify_and_filter_txs c (t ∷ ts) = keep_if (verify_client_tx c t) t (verify_and_filter_txs c ts)

  -- loadConfig: the genesis darc's ID is the value of the reference
  unfoldable pub load_config : ConfigCodec → Collection → Result ℕ
  unfolding get_value_contract
  load_config C c = get_value_contract c (slice genesis_reference_id) >>= λ (val, contract).
      if not (equal contract contract_config_id)
      then err wrong_contract
      else if not (length val == 32)
      then err wrong_length
      else (get_value_contract c (slice (record { darc_id = val; instance_id = one_nonce }))
          >>= λ (buf, kind).
              if not (equal kind contract_config_id)
              then err wrong_contract
              else C.decode_config buf)

  -- loadBlockInterval, with the default of 5 seconds in nanoseconds beside an error
  unfoldable pub load_block_interval : ConfigCodec → Collection → ℕ × Result (Unit {0})
  unfolding load_config
  load_block_interval C c = elim (load_config C c) [
    | panic ↦ (0, panic)
    | err e ↦ (5000000000, err e)
    | ok interval ↦ (interval, ok tt)
  ]
