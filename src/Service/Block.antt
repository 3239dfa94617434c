-- ===== src/Service/Block.antt =====
-- Blocks of omniledger/service: the header that createNewBlock stores, and the genesis block. The
-- skipchain service, the encodings and the clock are parameters of the model. The code that would
-- change the collection of a node with a new block is commented out in the source.
pub mod Commits
pub mod Interval
use student_18_byzcoin.Bytes.{Bytes}
use student_18_byzcoin.Collection.State.{Collection, new}
use student_18_byzcoin.Common.{
  ltb, ◌==◌, if◌then◌else◌, version_mismatch, no_valid_transaction, invalid_genesis_darc, Result,
  panic, err, ok, ◌>>=◌, length, replicate, ℕ, zero, suc, ◌+◌, ◌-◌, ◌*◌, ◌/◌, ◌%◌, ◌^◌, false, not,
  Option, none, some, List, [], ◌∷◌, ◌++◌,
}
use student_18_byzcoin.Darc.Document.{Darc, fields_of, get_id}
use student_18_byzcoin.Darc.Identity.{Keys}
use student_18_byzcoin.Darc.Signer.{Outside, to_proto}
use student_18_byzcoin.Darc.Verify.{verify_darc}
use student_18_byzcoin.Expression.{Grammar}
use student_18_byzcoin.Hash.{Hashing, sum256}
use student_18_byzcoin.Service.Changes.{Contract, create_state_changes, verify_and_filter_txs}
use student_18_byzcoin.Service.Contract.{
  zero_nonce, contract_config_id, contract_darc_id, block_interval_name,
}
use student_18_byzcoin.Service.Database.{StateChange, ledger_fields}
use student_18_byzcoin.Service.Order.{
  ClientTransaction, Network, client_transactions_hash, sort_transactions,
}

-- struct DataHeader
pub record DataHeader : Type 0 where
  pub collection_root : Bytes
  pub client_transaction_hash : Bytes
  pub state_changes_hash : Bytes
  pub timestamp : ℕ

-- network.Marshal of a header, protobuf.Encode of a state change, GetLatest of the skipchain, and
-- StoreSkipBlock of a block with the data
pub record Chain : Type 0 where
  pub marshal_header : DataHeader → Result Bytes
  pub encode_change : StateChange → Result Bytes
  pub latest : Result (Unit {0})
  pub store_block : Bytes → Result Bytes

-- what is written for a state change; of an error it is logged only, and nil is written
abbrev pub or_no_bytes : Result Bytes → Bytes
or_no_bytes panic = []
or_no_bytes (err e) = []
or_no_bytes (ok b) = b

module _ ⦃H : Hashing⦄ (S : Chain) where
  -- StateChanges.Hash
  unfoldable pub written_changes : List StateChange → Bytes
  written_changes [] = []
  written_changes (t ∷ ts) = or_no_bytes (S.encode_change t) ++ written_changes ts

  unfoldable pub state_changes_hash : List StateChange → Bytes
  unfolding written_changes
  state_changes_hash ts = sum256 (written_changes ts)

  -- the header of a block
  abbrev pub header_of : ℕ → Bytes × List ClientTransaction × List StateChange → DataHeader
  header_of now (root, oks, states) = record {
    collection_root = root;
    client_transaction_hash = client_transactions_hash oks;
    state_changes_hash = state_changes_hash states;
    timestamp = now;
  }

  module _ ⦃K : Keys⦄ (g : Grammar) (O : Outside) (N : Network)
      (contracts : Bytes → Option Contract) (now : ℕ) where
    -- the end of createNewBlock, from the sort on, with the header that it stored
    unfoldable pub store_sorted : Collection → List ClientTransaction → Result (DataHeader × Bytes)
    unfolding sort_transactions create_state_changes state_changes_hash client_transactions_hash
    store_sorted coll cts = sort_transactions N cts >>= λ sorted.
        create_state_changes contracts coll sorted >>= λ made.
        S.marshal_header (header_of now made) >>= λ header_bytes.
        S.store_block header_bytes >>= λ reply. ok (header_of now made, reply)

    -- createNewBlock of a skipchain ID that is null: a collection to be thrown away
    unfoldable pub create_first_block : List ClientTransaction → Result (DataHeader × Bytes)
    unfolding new store_sorted
    create_first_block cts = new ledger_fields >>= λ coll. store_sorted coll cts

    -- createNewBlock of a skipchain with the collection `coll`
    unfoldable pub create_new_block :
        Collection → List ClientTransaction → Result (DataHeader × Bytes)
    unfolding verify_and_filter_txs store_sorted
    create_new_block coll cts = S.latest >>= λ t. verify_and_filter_txs g O coll cts >>= λ valid.
        if length valid == 0 then err no_valid_transaction else store_sorted coll valid

-- struct CreateGenesisBlock
pub record GenesisRequest : Type 0 where
  pub version : ℕ
  pub genesis_darc : Darc
  pub block_interval : ℕ

-- CurrentVersion of messages.go
abbrev pub current_version : ℕ
current_version = 1

-- the loop of binary.PutUvarint into a buffer with `room` bytes left: past its end it panics
unfoldable pub put_uvarint : ℕ → ℕ → Result Bytes
put_uvarint zero x = panic
put_uvarint (suc room) x =
    let rest = put_uvarint room (x / 128) in
    if ltb x 128 then ok (x ∷ replicate room 0) else rest >>= λ bs. ok ((x % 128 + 128) ∷ bs)

-- binary.PutVarint: the sign is the lowest digit
unfoldable pub put_varint : ℕ → ℕ → Result Bytes
unfolding put_uvarint
put_varint room v = put_uvarint room (if ltb v (2 ^ 63) then 2 * v else 2 ^ 64 - 1 - 2 * v % 2 ^ 64)

-- the first transaction
unfoldable pub genesis_transaction : ⦃H : Hashing⦄ → Darc → Bytes → Bytes → ClientTransaction
unfolding get_id
genesis_transaction d darc_buf interval_buf =
    record {
      object_id = record { darc_id = get_id d; instance_id = zero_nonce };
      nonce = zero_nonce;
      index = 0;
      length_all = 1;
      spawn = some (record {
        contract_id = contract_config_id;
        args =
            record { name = contract_darc_id; value = darc_buf }
            ∷ record { name = block_interval_name; value = interval_buf }
            ∷ [];
      });
      invoke = none;
      delete = false;
      signatures = [];
    }
    ∷ []

module _ ⦃K : Keys⦄ ⦃H : Hashing⦄ (S : Chain) (g : Grammar) (O : Outside) (N : Network)
    (contracts : Bytes → Option Contract) (now : ℕ) where
  -- CreateGenesisBlock, up to the worker that it starts
  unfoldable pub create_genesis_block : GenesisRequest → Result (DataHeader × Bytes)
  unfolding to_proto verify_darc put_varint genesis_transaction create_first_block
  create_genesis_block req =
      if not (req.version == current_version)
      then err version_mismatch
      else (to_proto O req.genesis_darc >>= λ darc_buf.
          elim (verify_darc g (some req.genesis_darc)) [
            | panic ↦ panic
            | err e ↦ err invalid_genesis_darc
            | ok t ↦
                if length (fields_of req.genesis_darc).rules == 0
                then err invalid_genesis_darc
                else (put_varint 8
                      (if req.block_interval == 0 then 5000000000 else req.block_interval)
                    >>= λ interval_buf.
                        create_first_block S g O N contracts now
                          (genesis_transaction req.genesis_darc darc_buf interval_buf ∷ []))
          ])
