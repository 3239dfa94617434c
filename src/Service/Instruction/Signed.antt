-- ===== src/Service/Instruction/Signed.antt =====
-- Who can sign an instruction: the request that it stands for names the last signer only.
use student_18_byzcoin.Bytes.{Bytes, digest}
use student_18_byzcoin.Common.{
  Result, panic, err, ok, done, fail, crash, map_outcome, done-injective, length, replicate, All, ℕ,
  ◌≡◌, refl, subst, true, none, some, List, [], ◌∷◌, map,
}
use student_18_byzcoin.Darc.Document.{Signature, Darc, fields_of, id_bytes, get_base_id}
use student_18_byzcoin.Darc.Identity.{
  Keys, Identity, new_identity_ed25519, identity_string, identity_verify,
}
use student_18_byzcoin.Darc.Request.{Request, init_request, get_identity_strings, request_hash}
use student_18_byzcoin.Darc.Rules.{lookup}
use student_18_byzcoin.Darc.Signer.{
  Outside, new_signer_ed25519, signer_identity, signer_identities, signer_sign,
}
use student_18_byzcoin.Darc.Signer.Accepted.{verified_point}
use student_18_byzcoin.Darc.Values.{Callback}
use student_18_byzcoin.Darc.Verify.{eval_expr, request_verify_with_cb}
use student_18_byzcoin.Darc.Verify.Accepts.{AllVerify, request_verify_with_cb-IsAcceptable}
use student_18_byzcoin.Expression.{Grammar}
use student_18_byzcoin.Hash.{Hashing}
use student_18_byzcoin.Service.Instruction.{
  Instruction, written_call, action_of, last_signature, aliased_signers, zero_signature,
  instruction_hash, to_darc_request, sign_loop, sign_by,
}

module _ ⦃H : Hashing⦄ ⦃K : Keys⦄ where
  by_last :
      (digest : Bytes) (i : Identity) (sigs : List Signature)
      → AllVerify digest (replicate (length sigs) i) (map (λ (s : Signature). s.signature) sigs)
      → All (λ (s : Signature). identity_verify i digest s.signature ≡ none) sigs
  by_last digest i [] h = tt
  by_last digest i (s ∷ sigs) h = (h.0, by_last digest i sigs h.1)

  -- A darc accepts the request of an instruction with signatures only if each signature verifies
  -- under the identity of the last signer, whoever made it.
  pub accepted-last :
      (g : Grammar) (depth : ℕ) (i : Instruction) (s : Signature) (sigs : List Signature) (d : Darc)
      (get_darc : Callback)
      → i.signatures ≡ s ∷ sigs
      → request_verify_with_cb g depth (to_darc_request i) d get_darc ≡ ok tt
      → All
          (λ (t : Signature).
            identity_verify
              (last_signature s sigs).signer
              (request_hash (to_darc_request i))
              t.signature
            ≡ none)
          (s ∷ sigs)
  unfolding to_darc_request init_request
  accepted-last g depth i s sigs d get_darc e accepted =
      let a =
        (request_verify_with_cb-IsAcceptable g depth (to_darc_request i) d get_darc).0 accepted in
      by_last (request_hash (to_darc_request i)) (last_signature s sigs).signer (s ∷ sigs) (
        subst
          (λ (l : List Signature).
            AllVerify (request_hash (to_darc_request i)) (aliased_signers l)
              (map (λ (t : Signature). t.signature) l))
          e a.verifies)

  module _ (O : Outside) (point secret : Bytes) where
    -- the request whose digest SignBy signs for one Ed25519 signer
    abbrev asked : Instruction → Request
    asked i = record (to_darc_request i) { identities = new_identity_ed25519 point ∷ [] }

    abbrev signed_with : Instruction → Bytes → Instruction
    signed_with i sig = record i {
      signatures = record { signature = sig; signer = new_identity_ed25519 point } ∷ [];
    }

    -- what SignBy writes for one signer
    signed_by_one :
        (i i' : Instruction)
        → sign_by O i (new_signer_ed25519 point secret ∷ []) ≡ done i'
        → (sig : Bytes) × (O.schnorr_sign secret (request_hash (asked i)) ≡ ok sig)
          × (signed_with i sig ≡ i')
    unfolding sign_by sign_loop signer_identities signer_identity signer_sign
    signed_by_one i i' e = go (O.schnorr_sign secret (request_hash (asked i))) e
      where
        go :
            (r : Result Bytes)
            → map_outcome
                (λ sigs. record i { signatures = sigs })
                (elim r [
                  | panic ↦ crash
                  | err x ↦ fail x (zero_signature ∷ [])
                  | ok sig ↦
                      done (record { signature = sig; signer = new_identity_ed25519 point } ∷ [])
                ])
              ≡ done i'
            → (sig : Bytes) × (r ≡ ok sig) × (signed_with i sig ≡ i')
        go panic q = cc
        go (err x) q = cc
        go (ok sig) q = (sig, refl, done-injective q)

    -- An instruction that SignBy signed for one Ed25519 signer whose signatures verify: its
    -- request is accepted by each darc whose base ID is in its object ID and that has a rule for
    -- its action, which the signer satisfies.
    pub sign_by-accepted :
        (g : Grammar) (i i' : Instruction)
        → ((msg sig : Bytes)
            → O.schnorr_sign secret msg ≡ ok sig
            → K.schnorr_verify point msg sig ≡ true)
        → sign_by O i (new_signer_ed25519 point secret ∷ []) ≡ done i'
        → (depth : ℕ) (d : Darc) (get_darc : Callback) (expr : Bytes)
        → id_bytes (get_base_id d) ≡ i.object_id.darc_id
        → lookup (fields_of d).rules (action_of i) ≡ some expr
        → eval_expr g depth get_darc expr (identity_string (new_identity_ed25519 point) ∷ [])
          ≡ ok tt
        → request_verify_with_cb g depth (to_darc_request i') d get_darc ≡ ok tt
    unfolding to_darc_request init_request get_identity_strings request_hash action_of
        instruction_hash written_call
    sign_by-accepted g i i' correct e depth d get_darc expr base rule holds =
        let (sig, made, q) = signed_by_one i i' e in
        subst
          (λ (j : Instruction).
            request_verify_with_cb g depth (to_darc_request j) d get_darc ≡ ok tt)
          q
          ((request_verify_with_cb-IsAcceptable g depth (to_darc_request (signed_with i sig)) d
              get_darc).1
            (record {
              signed = λ n. cc;
              lengths = refl;
              same_base = base;
              expr = expr;
              rule = rule;
              verifies = (verified_point O point _ sig (correct _ sig made), tt);
              satisfied = holds;
            }))
