-- ===== src/Service/Database.antt =====
-- State changes of omniledger/service/transaction.go, and the collectionDB of struct.go, a collection
-- with a copy in a bucket of the database bbolt, whose operations are parameters of the model.
-- storeInColl takes a copy of the collection that shares its nodes, which is all that Add, Set and
-- Remove change.
pub mod Reads
pub mod Applied
pub mod AppliedAll
use student_18_byzcoin.Bytes.{Bytes}
use student_18_byzcoin.Collection.Add.{add}
use student_18_byzcoin.Collection.Change.{set_record, remove}
use student_18_byzcoin.Collection.Get.{record_values, get_record}
use student_18_byzcoin.Collection.Get.View.{found}
use student_18_byzcoin.Collection.State.{Collection, get_root, new}
use student_18_byzcoin.Common.{
  ◌==◌, if◌then◌else◌, invalid_state_action, not_bytes, nothing_stored, Result, panic, err, ok,
  ◌>>=◌, Outcome, done, fail, crash, and_then, ignoring, map_outcome, length, get_elem?, replicate,
  Option, none, some, List, [], ◌∷◌, ◌++◌,
}
use student_18_byzcoin.Field.{Value, raw, Field, data_field}
use student_18_byzcoin.Hash.{Hashing}
use student_18_byzcoin.Service.Instruction.{ObjectId, slice}

-- StateAction; a number that is none of the three is `other_action`
pub data StateAction : Type 0 where
  create_action update_action remove_action other_action : StateAction

-- struct StateChange
pub record StateChange : Type 0 where
  pub state_action : StateAction
  pub object_id : Bytes
  pub contract_id : Bytes
  pub value : Bytes

-- NewStateChange
abbrev pub new_state_change : StateAction → ObjectId → Bytes → Bytes → StateChange
new_state_change action object contract value = record {
  state_action = action;
  object_id = slice object;
  contract_id = contract;
  value = value;
}

-- StateAction.String: "Create", "Update", "Remove" and "Invalid stateChange"
unfoldable pub state_action_string : StateAction → Bytes
state_action_string create_action = 67 ∷ 114 ∷ 101 ∷ 97 ∷ 116 ∷ 101 ∷ []
state_action_string update_action = 85 ∷ 112 ∷ 100 ∷ 97 ∷ 116 ∷ 101 ∷ []
state_action_string remove_action = 82 ∷ 101 ∷ 109 ∷ 111 ∷ 118 ∷ 101 ∷ []
state_action_string other_action =
    73 ∷ 110 ∷ 118 ∷ 97 ∷ 108 ∷ 105 ∷ 100 ∷ 32 ∷ 115 ∷ 116 ∷ 97 ∷ 116 ∷ 101 ∷ 99 ∷ 104 ∷ 97 ∷ 110
    ∷ 103 ∷ 101 ∷ []

-- the two values of a record of the ledger
abbrev pub ledger_fields : List Field
ledger_fields = data_field ∷ data_field ∷ []

abbrev pub change_values : StateChange → List Value
change_values t = raw t.value ∷ raw t.contract_id ∷ []

-- a type assertion whose failure is an error, of an element that may be out of range
abbrev pub asserted : Option Value → Result Bytes
asserted none = panic
asserted (some (raw b)) = ok b
asserted (some v) = err not_bytes

-- a bucket of bbolt, of type `B`: Get gives nil for a missing key, and the cursor all pairs in order
pub record Bolt (B : Type 0) : Type 0 where
  pub get : B → Bytes → Bytes
  pub put : B → Bytes → Bytes → Result B
  pub drop : B → Bytes → Result B
  pub cursor : B → List (Bytes × Bytes)

-- struct collectionDB
pub record CollectionDb (B : Type 0) : Type 0 where
  pub bucket : B
  pub coll : Collection

-- the suffixes "sig" and "kind"
abbrev pub sig_suffix : Bytes
sig_suffix = 115 ∷ 105 ∷ 103 ∷ []

abbrev pub kind_suffix : Bytes
kind_suffix = 107 ∷ 105 ∷ 110 ∷ 100 ∷ []

-- `keykind` of Store: a slice of four more bytes than the key, and then the suffix
abbrev pub kind_key : Bytes → Bytes
kind_key key = key ++ (replicate 4 0 ++ kind_suffix)

module _ ⦃H : Hashing⦄ where
  -- storeInColl
  unfoldable pub store_in_coll : Collection → StateChange → Outcome Collection
  unfolding add set_record remove
  store_in_coll c t = elim t.state_action [
    | create_action ↦ add c t.object_id (change_values t)
    | update_action ↦ set_record c t.object_id (change_values t)
    | remove_action ↦ remove c t.object_id
    | other_action ↦ fail invalid_state_action c
  ]

  -- GetValueContract
  unfoldable pub get_value_contract : Collection → Bytes → Result (Bytes × Bytes)
  unfolding get_record record_values
  get_value_contract c key = do
    found ← get_record c key
    hashes ← record_values found
    if length hashes == 0 then err nothing_stored else do
      value ← asserted (get_elem? hashes 0)
      contract ← asserted (get_elem? hashes 1)
      ok (value, contract)

  -- RootHash
  unfoldable pub root_hash : Collection → Bytes
  unfolding get_root
  root_hash c = get_root c

  -- the deferred calls of tryHash, the last one first; an error of theirs takes the place of the result
  unfoldable pub undo : List Bytes → Collection → Result Bytes → Result (Collection × Result Bytes)
  unfolding remove
  undo [] c r = ok (c, r)
  undo (k ∷ ks) c r = elim (remove c k) [
    | done c' ↦ undo ks c' r
    | fail e c' ↦ undo ks c' (err e)
    | crash ↦ panic
  ]

  -- the loop of tryHash, with the keys added so far
  unfoldable pub try_add :
      List StateChange → List Bytes → Collection → Result (Collection × Result Bytes)
  unfolding add undo root_hash
  try_add [] added c = undo added c (ok (root_hash c))
  try_add (t ∷ ts) added c = elim (add c t.object_id (change_values t)) [
    | done c' ↦ try_add ts (t.object_id ∷ added) c'
    | fail e c' ↦ undo added c' (err e)
    | crash ↦ panic
  ]

  -- tryHash
  unfoldable pub try_hash : Collection → List StateChange → Result (Collection × Result Bytes)
  unfolding try_add
  try_hash c ts = try_add ts [] c

  module _ {B : Type 0} (bolt : Bolt B) where
    -- what Store does to the bucket, in a transaction that an error undoes
    unfoldable pub store_in_bucket : B → StateChange → Result B
    store_in_bucket b t = elim t.state_action [
      | create_action ↦
          bolt.put b t.object_id t.value >>= λ b'. bolt.put b' (kind_key t.object_id) t.contract_id
      | update_action ↦
          bolt.put b t.object_id t.value >>= λ b'. bolt.put b' (kind_key t.object_id) t.contract_id
      | remove_action ↦ bolt.drop b t.object_id >>= λ b'. bolt.drop b' (kind_key t.object_id)
      | other_action ↦ err invalid_state_action
    ]

    -- Store
    unfoldable pub store : CollectionDb B → StateChange → Outcome (CollectionDb B)
    unfolding store_in_coll store_in_bucket
    store db t =
        and_then (map_outcome (λ c. record db { coll = c }) (store_in_coll db.coll t)) (λ stored.
          elim (store_in_bucket stored.bucket t) [
            | panic ↦ crash
            | err e ↦ fail e stored
            | ok b ↦ done (record stored { bucket = b })
          ])

    -- the loop of loadAll, which drops the errors of Add
    unfoldable pub load_pairs : B → List (Bytes × Bytes) → Collection → Outcome Collection
    unfolding add
    load_pairs b [] c = done c
    load_pairs b ((k, v) ∷ pairs) c =
        ignoring (add c k (raw v ∷ raw (bolt.get b (k ++ sig_suffix)) ∷ [])) (load_pairs b pairs)

    -- newCollectionDB with loadAll, of a bucket that is there
    unfoldable pub new_collection_db : B → Outcome (CollectionDb B)
    unfolding new load_pairs
    new_collection_db b = elim (new ledger_fields) [
      | panic ↦ crash
      | err e ↦ crash
      | ok c ↦ map_outcome (λ c. record { bucket = b; coll = c }) (load_pairs b (bolt.cursor b) c)
    ]
