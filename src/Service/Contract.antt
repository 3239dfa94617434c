-- ===== src/Service/Contract.antt =====
-- The predefined contracts of omniledger/service/contracts.go. The codec of the configuration by
-- protobuf is a parameter of the model; binary.Varint of the standard library is written out. A
-- time.Duration is its two's complement value in 64 bits.
use student_18_byzcoin.Bytes.{Bytes}
use student_18_byzcoin.Collection.State.{Collection}
use student_18_byzcoin.Common.{
  ltb, ◌==◌, if◌then◌else◌, not_implemented, only_spawn, empty_rules, zero_interval, Result, err,
  ok, ◌>>=◌, length, replicate, ℕ, ◌+◌, ◌-◌, ◌*◌, ◌/◌, ◌%◌, ◌^◌, ◌&&◌, ◌||◌, none, some, List, [],
  ◌∷◌, ◌++◌,
}
use student_18_byzcoin.Darc.Document.{fields_of}
use student_18_byzcoin.Darc.Identity.{Keys}
use student_18_byzcoin.Darc.Signer.{Outside, new_darc_from_proto}
use student_18_byzcoin.Darc.Verify.{verify_darc}
use student_18_byzcoin.Expression.{Grammar}
use student_18_byzcoin.Hash.{Hashing}
use student_18_byzcoin.Service.Database.{create_action, StateChange, new_state_change}
use student_18_byzcoin.Service.Instruction.{ObjectId, Argument, Instruction, search_argument}

-- 32 zeros, and 31 zeros with a one
abbrev pub zero_nonce : Bytes
zero_nonce = replicate 32 0

abbrev pub one_nonce : Bytes
one_nonce = replicate 31 0 ++ (1 ∷ [])

abbrev pub zero_darc : Bytes
zero_darc = replicate 32 0

abbrev pub genesis_reference_id : ObjectId
genesis_reference_id = record { darc_id = zero_darc; instance_id = zero_nonce }

-- "config" and "darc"
abbrev pub contract_config_id : Bytes
contract_config_id = 99 ∷ 111 ∷ 110 ∷ 102 ∷ 105 ∷ 103 ∷ []

abbrev pub contract_darc_id : Bytes
contract_darc_id = 100 ∷ 97 ∷ 114 ∷ 99 ∷ []

-- "block_interval"
abbrev pub block_interval_name : Bytes
block_interval_name =
    98 ∷ 108 ∷ 111 ∷ 99 ∷ 107 ∷ 95 ∷ 105 ∷ 110 ∷ 116 ∷ 101 ∷ 114 ∷ 118 ∷ 97 ∷ 108 ∷ []

-- protobuf.Encode and Decode of a Config
pub record ConfigCodec : Type 0 where
  pub encode_config : ℕ → Result Bytes
  pub decode_config : Bytes → Result ℕ

-- the loop of binary.Uvarint, from byte `i` with the value `x` so far: 0 for an overflow or no end
unfoldable pub uvarint_from : ℕ → ℕ → Bytes → ℕ
uvarint_from i x [] = 0
uvarint_from i x (b ∷ bs) =
    let rest = uvarint_from (i + 1) (x + b % 128 * 2 ^ (7 * i)) bs in
    if ltb b 128
    then (if ltb 9 i || ((i == 9) && ltb 1 b) then 0 else x + b * 2 ^ (7 * i))
    else rest

-- binary.Varint: the lowest digit is the sign
unfoldable pub varint : Bytes → ℕ
unfolding uvarint_from
varint buf = let ux = uvarint_from 0 0 buf in if ux % 2 == 0 then ux / 2 else 2 ^ 64 - 1 - ux / 2

-- the state changes of ContractConfig
abbrev pub config_changes : ObjectId → Bytes → Bytes → List StateChange
config_changes object darc_buf config_buf =
    new_state_change create_action genesis_reference_id contract_config_id object.darc_id
    ∷ new_state_change create_action object contract_darc_id darc_buf
    ∷ new_state_change create_action (record { darc_id = object.darc_id; instance_id = one_nonce })
        contract_config_id config_buf
    ∷ []

module _ ⦃K : Keys⦄ ⦃H : Hashing⦄ (g : Grammar) (O : Outside) (C : ConfigCodec) where
  -- ContractConfig, from the spawn of the instruction
  unfoldable pub spawn_config : ObjectId → List Argument → Result (List StateChange)
  unfolding search_argument new_darc_from_proto verify_darc varint
  spawn_config object args = new_darc_from_proto O (search_argument args contract_darc_id) >>= λ d.
      if length (fields_of d).rules == 0
      then err empty_rules
      else (verify_darc g (some d) >>= λ t.
          let interval = varint (search_argument args block_interval_name) in
          if interval == 0
          then err zero_interval
          else (C.encode_config interval >>= λ config_buf.
              ok (config_changes object (search_argument args contract_darc_id) config_buf)))

  unfoldable pub contract_config : Collection → Instruction → Collection × Result (List StateChange)
  unfolding spawn_config
  contract_config c i =
      (c, elim i.spawn [ none ↦ err only_spawn | some s ↦ spawn_config i.object_id s.args ])

-- ContractDarc
unfoldable pub contract_darc : Collection → Instruction → Collection × Result (List StateChange)
contract_darc c i = (c, err not_implemented)
