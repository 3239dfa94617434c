-- ===== src/Service/Instruction.antt =====
-- Instructions of omniledger/service/transaction.go: their digests, what they ask for, and the darc
-- request that they stand for. An int is its two's complement value in 64 bits.
pub mod Signed
use student_18_byzcoin.Bytes.{Bytes, equal, digest}
use student_18_byzcoin.Collection.Get.{record_values, get_record}
use student_18_byzcoin.Collection.Get.View.{found}
use student_18_byzcoin.Collection.State.{Collection}
use student_18_byzcoin.Common.{
  if◌then◌else◌, Result, panic, err, ok, ◌>>=◌, Outcome, done, fail, crash, map_outcome, length,
  get_elem?, replicate, ℕ, suc, ◌/◌, ◌%◌, ◌^◌, Bool, Option, none, some, List, [], ◌∷◌, ◌++◌, map,
}
use student_18_byzcoin.Darc.Document.{Signature}
use student_18_byzcoin.Darc.Identity.{Keys, Identity}
use student_18_byzcoin.Darc.Request.{Request, init_request, request_hash}
use student_18_byzcoin.Darc.Signer.{
  Outside, Signer, signer_identity, signer_identities, signer_sign,
}
use student_18_byzcoin.Field.{Value, raw}
use student_18_byzcoin.Hash.{Hashing, sum256}

-- struct ObjectID; a Nonce has 32 bytes
pub record ObjectId : Type 0 where
  pub darc_id : Bytes
  pub instance_id : Bytes

-- Slice
abbrev pub slice : ObjectId → Bytes
slice o = o.darc_id ++ o.instance_id

-- struct Argument
pub record Argument : Type 0 where
  pub name : Bytes
  pub value : Bytes

-- struct Spawn
pub record Spawn : Type 0 where
  pub contract_id : Bytes
  pub args : List Argument

-- struct Invoke
pub record Invoke : Type 0 where
  pub command : Bytes
  pub args : List Argument

-- struct Instruction; Delete has no fields, so `delete` tells whether it is set
pub record Instruction : Type 0 where
  pub object_id : ObjectId
  pub nonce : Bytes
  pub index : ℕ
  pub length_all : ℕ
  pub spawn : Option Spawn
  pub invoke : Option Invoke
  pub delete : Bool
  pub signatures : List Signature

-- Arguments.Search; nil and a value of no bytes are the same to the callers
unfoldable pub search_argument : List Argument → Bytes → Bytes
search_argument [] name = []
search_argument (a ∷ args) name =
    let rest = search_argument args name in if equal a.name name then a.value else rest

-- binary.LittleEndian.PutUint32 of uint32(v)
unfoldable pub put_uint32_le : ℕ → Bytes
put_uint32_le v = (v % 256) ∷ (v / 2 ^ 8 % 256) ∷ (v / 2 ^ 16 % 256) ∷ (v / 2 ^ 24 % 256) ∷ []

-- the writes of the arguments to the hash
unfoldable pub written_args : List Argument → Bytes
written_args [] = []
written_args (a ∷ args) = a.name ++ (a.value ++ written_args args)

-- the switch of Hash: the kind of instruction, and its arguments
unfoldable pub written_call : Instruction → Bytes
unfolding written_args
written_call i = elim i.spawn [
  | some s ↦ 0 ∷ (s.contract_id ++ written_args s.args)
  | none ↦ elim i.invoke [
    | some v ↦ 1 ∷ written_args v.args
    | none ↦ if i.delete then 2 ∷ [] else []
  ]
]

-- the strings "Spawn_", "Invoke_", "Delete" and "invalid"
abbrev pub spawn_prefix : Bytes
spawn_prefix = 83 ∷ 112 ∷ 97 ∷ 119 ∷ 110 ∷ 95 ∷ []

abbrev pub invoke_prefix : Bytes
invoke_prefix = 73 ∷ 110 ∷ 118 ∷ 111 ∷ 107 ∷ 101 ∷ 95 ∷ []

abbrev pub delete_action : Bytes
delete_action = 68 ∷ 101 ∷ 108 ∷ 101 ∷ 116 ∷ 101 ∷ []

abbrev pub invalid_action : Bytes
invalid_action = 105 ∷ 110 ∷ 118 ∷ 97 ∷ 108 ∷ 105 ∷ 100 ∷ []

-- Action
unfoldable pub action_of : Instruction → Bytes
action_of i = elim i.spawn [
  | some s ↦ spawn_prefix ++ s.contract_id
  | none ↦ elim i.invoke [
    | some v ↦ invoke_prefix ++ v.command
    | none ↦ if i.delete then delete_action else invalid_action
  ]
]

-- a type assertion to a byte slice, of an element that may be out of range
abbrev pub as_bytes : Option Value → Result Bytes
as_bytes (some (raw b)) = ok b
as_bytes _ = panic

-- the loop variable of ToDarcRequest after the loop
abbrev pub last_signature : Signature → List Signature → Signature
last_signature s [] = s
last_signature s (t ∷ sigs) = last_signature t sigs

-- The pointers `&sig.Signer` that the loop of ToDarcRequest keeps: they are all to the one loop variable,
-- which ends as the last signature.
abbrev pub aliased_signers : List Signature → List Identity
aliased_signers [] = []
aliased_signers (s ∷ sigs) = replicate (suc (length sigs)) (last_signature s sigs).signer

-- a signature of SignBy that was not made
abbrev pub zero_signature : Signature
zero_signature = record {
  signature = [];
  signer = record { darc = none; ed25519 = none; x509ec = none };
}

module _ ⦃H : Hashing⦄ where
  -- Instruction.Hash
  unfoldable pub instruction_hash : Instruction → Bytes
  unfolding put_uint32_le written_call
  instruction_hash i = sum256 (
      i.object_id.darc_id
      ++ (i.object_id.instance_id
          ++ (i.nonce
              ++ (put_uint32_le i.index ++ (put_uint32_le i.length_all ++ written_call i)))))

  -- GetContractState
  unfoldable pub get_contract_state : Instruction → Collection → Result (Bytes × Bytes)
  unfolding get_record record_values
  get_contract_state i c = elim i.spawn [
    | some s ↦ ok (s.contract_id, [])
    | none ↦ (do
      found ← get_record c (slice i.object_id)
      values ← record_values found
      contract ← as_bytes (get_elem? values 1)
      state ← as_bytes (get_elem? values 0)
      ok (contract, state))
  ]

  -- ToDarcRequest, which has no error
  unfoldable pub to_darc_request : Instruction → Request
  unfolding action_of instruction_hash init_request
  to_darc_request i =
      init_request i.object_id.darc_id (action_of i) (instruction_hash i)
        (aliased_signers i.signatures) (map (λ (s : Signature). s.signature) i.signatures)

  module _ ⦃K : Keys⦄ (O : Outside) where
    -- the last loop of SignBy: the signatures written before an error stay
    unfoldable pub sign_loop : Bytes → List Signer → Outcome (List Signature)
    unfolding signer_sign signer_identity
    sign_loop digest [] = done []
    sign_loop digest (s ∷ ss) =
        let rest = sign_loop digest ss in
        elim (signer_sign O s (some digest)) [
          | panic ↦ crash
          | err e ↦ fail e (replicate (suc (length ss)) zero_signature)
          | ok sig ↦ elim (signer_identity s) [
            | none ↦ crash
            | some i ↦ map_outcome (λ sigs. record { signature = sig; signer = i } ∷ sigs) rest
          ]
        ]

    -- SignBy: the digest reads the string of each identity, and that of nil panics
    unfoldable pub sign_by : Instruction → List Signer → Outcome Instruction
    unfolding to_darc_request signer_identities request_hash sign_loop
    sign_by i signers = elim (signer_identities signers) [
      | panic ↦ crash
      | err e ↦ crash
      | ok ids ↦
          map_outcome (λ sigs. record i { signatures = sigs })
            (sign_loop (request_hash (record (to_darc_request i) { identities = ids })) signers)
    ]
