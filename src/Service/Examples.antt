-- ===== src/Service/Examples.antt =====
-- The theorems about the service at small inputs: an instruction to spawn, and a new ledger.
mod Orders
mod Blocks
mod Links
use student_18_byzcoin.Bytes.{Bytes, equal}
use student_18_byzcoin.Bytes.Equal.{≡→equal}
use student_18_byzcoin.Collection.Contents.{new-Represents}
use student_18_byzcoin.Collection.Shape.{Safe}
use student_18_byzcoin.Collection.State.{Collection}
use student_18_byzcoin.Common.{
  ok, ok-injective, done, replicate, All, ◌≡◌, refl, sym, ◌∙◌, true, false, none, some, List, [],
  ◌∷◌, ◌++◌, arith,
}
use student_18_byzcoin.Darc.Document.{
  Signature, Darc, darc_of, no_darcs, fields_of, id_bytes, get_base_id,
}
use student_18_byzcoin.Darc.Identity.{new_identity_ed25519, identity_string, identity_verify}
use student_18_byzcoin.Darc.Identity.Mirror.{no_keys}
use student_18_byzcoin.Darc.Request.{request_hash}
use student_18_byzcoin.Darc.Rules.{lookup}
use student_18_byzcoin.Darc.Signer.{Outside, new_signer_ed25519}
use student_18_byzcoin.Darc.Values.{no_callback}
use student_18_byzcoin.Darc.Verify.{eval_expr, request_verify_with_cb}
use student_18_byzcoin.Expression.{sum_of, no_tail, identity, Grammar}
use student_18_byzcoin.Field.{data_field}
use student_18_byzcoin.Hash.Padding.{pad, padding}
use student_18_byzcoin.Service.Block.{put_varint}
use student_18_byzcoin.Service.Block.Interval.{Kept, put_varint-Kept}
use student_18_byzcoin.Service.Changes.{store_changes}
use student_18_byzcoin.Service.Contract.{zero_nonce}
use student_18_byzcoin.Service.Database.{
  create_action, update_action, remove_action, StateChange, new_state_change, ledger_fields,
}
use student_18_byzcoin.Service.Database.Applied.{IsLedger, ledger}
use student_18_byzcoin.Service.Database.AppliedAll.{AppliedAll, store_changes-AppliedAll}
use student_18_byzcoin.Service.Instruction.{
  Instruction, spawn_prefix, action_of, to_darc_request, sign_by,
}
use student_18_byzcoin.Service.Instruction.Signed.{accepted-last, sign_by-accepted}
use student_18_byzcoin.Service.Worker.{Worker, create_queue_worker, receive}

abbrev single : Grammar
single = record { parse = λ x. some (sum_of (identity x) no_tail); ended = λ x. true }

-- "ed25519:" and the point 7
abbrev signer_string : Bytes
signer_string = 101 ∷ 100 ∷ 50 ∷ 53 ∷ 53 ∷ 49 ∷ 57 ∷ 58 ∷ 7 ∷ []

-- the digest of every darc of version 0 whose description are 24 fives
abbrev darc_id : Bytes
darc_id = replicate 8 0 ++ replicate 24 5

abbrev spawning : List Signature → Instruction
spawning sigs = record {
  object_id = record { darc_id = darc_id; instance_id = zero_nonce };
  nonce = zero_nonce;
  index = 0;
  length_all = 1;
  spawn = some (record { contract_id = 120 ∷ []; args = [] });
  invoke = none;
  delete = false;
  signatures = sigs;
}

-- a darc that lets the signer spawn
abbrev open_darc : Darc
open_darc =
    darc_of
      (record {
        version = 0;
        description = replicate 24 5;
        base = none;
        rules = record { action = spawn_prefix ++ (120 ∷ []); expr = signer_string } ∷ [];
        path_digest = [];
        signatures = [];
      })
      no_darcs

abbrev world : Outside
world = record { schnorr_sign = λ s m. ok m; encode = λ d. ok []; decode = λ b. ok open_darc }

-- what the signer signs, and a signature of it
abbrev by_seven : Signature
by_seven = record { signature = darc_id; signer = new_identity_ed25519 (7 ∷ []) }

twice_accepted :
    request_verify_with_cb single 1
      (to_darc_request (spawning (by_seven ∷ by_seven ∷ [])))
      open_darc
      no_callback
    ≡ ok tt
unfolding request_verify_with_cb to_darc_request equal padding pad no_keys
twice_accepted = refl

accepted-last_example :
    All
      (λ (t : Signature).
        identity_verify
          (new_identity_ed25519 (7 ∷ []))
          (request_hash (to_darc_request (spawning (by_seven ∷ by_seven ∷ []))))
          t.signature
        ≡ none)
      (by_seven ∷ by_seven ∷ [])
accepted-last_example =
    accepted-last single 1 (spawning (by_seven ∷ by_seven ∷ [])) by_seven (by_seven ∷ []) open_darc
      no_callback refl twice_accepted

signed_once :
    sign_by world (spawning []) (new_signer_ed25519 (7 ∷ []) (9 ∷ []) ∷ [])
    ≡ done (spawning (by_seven ∷ []))
unfolding sign_by padding pad
signed_once = refl

signer_correct :
    (msg sig : Bytes)
    → world.schnorr_sign (9 ∷ []) msg ≡ ok sig
    → no_keys.schnorr_verify (7 ∷ []) msg sig ≡ true
unfolding no_keys
signer_correct msg sig e = ≡→equal (ok-injective e)

open_base : id_bytes (get_base_id open_darc) ≡ darc_id
unfolding get_base_id padding pad
open_base = refl

open_rule : lookup (fields_of open_darc).rules (action_of (spawning [])) ≡ some signer_string
unfolding lookup equal action_of
open_rule = refl

seven_satisfies :
    eval_expr single 1 no_callback signer_string
      (identity_string (new_identity_ed25519 (7 ∷ [])) ∷ [])
    ≡ ok tt
unfolding eval_expr equal no_keys
seven_satisfies = refl

sign_by-accepted_example :
    request_verify_with_cb single 1
      (to_darc_request (spawning (by_seven ∷ [])))
      open_darc
      no_callback
    ≡ ok tt
sign_by-accepted_example =
    sign_by-accepted world (7 ∷ []) (9 ∷ []) single (spawning []) (spawning (by_seven ∷ []))
      signer_correct signed_once 1 open_darc no_callback signer_string open_base open_rule
      seven_satisfies

ledger-Safe : Safe ledger_fields
unfolding data_field
ledger-Safe = ((λ l r e. cc), ((λ l r e. cc), tt))

-- what newCollectionDB makes of an empty bucket
abbrev fresh : Collection
fresh = (new-Represents ledger_fields ledger-Safe).0

abbrev change : StateChange
change = new_state_change create_action (spawning []).object_id (120 ∷ []) (1 ∷ 2 ∷ [])

fresh-IsLedger : IsLedger fresh (λ k. none)
fresh-IsLedger =
    ledger fresh (λ k. none) (new-Represents ledger_fields ledger-Safe).3
      (new-Represents ledger_fields ledger-Safe).2 (λ k vs e. absurd (cc))

-- created, updated, removed, and updated once more, which is refused
abbrev four_changes : List StateChange
four_changes =
    change
    ∷ record change { state_action = update_action; value = 5 ∷ [] }
    ∷ record change { state_action = remove_action }
    ∷ record change { state_action = update_action }
    ∷ []

store_changes-AppliedAll_example :
    AppliedAll (λ k. none) four_changes (store_changes fresh four_changes)
store_changes-AppliedAll_example =
    store_changes-AppliedAll (λ k. k ≡ change.object_id) (λ k key p q e. p ∙ sym q) fresh
      (λ k. none) four_changes fresh-IsLedger (λ k h. absurd (h refl))
      ((refl, λ e. cc), ((refl, λ e. cc), ((refl, λ e. cc), ((refl, λ e. cc), tt))))

abbrev queued : Worker
queued = receive (spawning [] ∷ []) create_queue_worker

put_varint-Kept_example : Kept 5000000000 (put_varint 8 5000000000)
put_varint-Kept_example = put_varint-Kept 5000000000 (omega arith)
