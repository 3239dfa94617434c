-- ===== src/Darc/Signer/Accepted.antt =====
-- A request that Ed25519 signers make is one that a darc accepts.
use student_18_byzcoin.Bytes.{Bytes, digest}
use student_18_byzcoin.Common.{
  ◌==◌, no_signers, unknown_signer, not_implemented, err, ok, bind-ok, guarded-ok, ok-injective,
  length, All, ℕ, suc, ◌≡◌, refl, sym, ap, ◌∙◌, subst, true, Option, none, some, List, [], ◌∷◌,
  arith,
}
use student_18_byzcoin.Darc.Document.{Darc, fields_of, id_bytes, get_base_id}
use student_18_byzcoin.Darc.Identity.{
  Keys, Identity, type_of, new_identity_ed25519, new_identity_x509ec, identity_verify,
}
use student_18_byzcoin.Darc.Request.{Request, init_request, get_identity_strings, request_hash}
use student_18_byzcoin.Darc.Rules.{Expr, lookup}
use student_18_byzcoin.Darc.Signer.{
  Outside, SignerEd25519, Signer, signer_identity, signer_identities, signer_sign, sign_all,
  init_and_sign_request,
}
use student_18_byzcoin.Darc.Values.{Callback}
use student_18_byzcoin.Darc.Verify.{eval_expr, request_verify_with_cb}
use student_18_byzcoin.Darc.Verify.Accepts.{AllVerify, request_verify_with_cb-IsAcceptable}
use student_18_byzcoin.Expression.{Grammar}
use student_18_byzcoin.Hash.{Hashing}

module _ ⦃K : Keys⦄ (O : Outside) where
  -- an Ed25519 signer, whose signatures its own point verifies
  pub record SignsFor (s : Signer) : Type 0 where
    pub key : SignerEd25519
    pub holds : s.ed25519 ≡ some key
    pub correct :
        (msg sig : Bytes)
        → O.schnorr_sign key.secret msg ≡ ok sig
        → K.schnorr_verify key.point msg sig ≡ true

  signer_identity-some :
      (s : Signer) (k : SignerEd25519)
      → s.ed25519 ≡ some k
      → signer_identity s ≡ some (new_identity_ed25519 k.point)
  unfolding signer_identity
  signer_identity-some s k e =
      ap
        (λ (o : Option SignerEd25519). elim o [
          | some k ↦ some (new_identity_ed25519 k.point)
          | none ↦ elim s.x509ec [ some p ↦ some (new_identity_x509ec p) | none ↦ none ]
        ])
        e

  signer_sign-some :
      (s : Signer) (k : SignerEd25519) (msg : Bytes)
      → s.ed25519 ≡ some k
      → signer_sign O s (some msg) ≡ O.schnorr_sign k.secret msg
  unfolding signer_sign
  signer_sign-some s k msg e =
      ap
        (λ (o : Option SignerEd25519). elim o [
          | some k ↦ O.schnorr_sign k.secret msg
          | none ↦ elim s.x509ec [ some p ↦ err not_implemented | none ↦ err unknown_signer ]
        ])
        e

  pub verified_point :
      (point msg sig : Bytes)
      → K.schnorr_verify point msg sig ≡ true
      → identity_verify (new_identity_ed25519 point) msg sig ≡ none
  unfolding identity_verify type_of
  verified_point point msg sig e = rw e refl

  pub sign_all-AllVerify :
      (ss : List Signer) (digest : Bytes) (ids : List Identity) (sigs : List Bytes)
      → All SignsFor ss
      → signer_identities ss ≡ ok ids
      → sign_all O ss digest ≡ ok sigs
      → AllVerify digest ids sigs × (length sigs ≡ length ss) × (length ids ≡ length ss)
  unfolding signer_identities sign_all
  sign_all-AllVerify [] digest ids sigs h e q =
      rw (sym (ok-injective e)) (rw (sym (ok-injective q)) (tt, refl, refl))
  sign_all-AllVerify (s ∷ ss) digest ids sigs h e q =
      let e' = rw (signer_identity-some s h.0.key h.0.holds) at e in
      let (is, got_is, eq_ids) = bind-ok (signer_identities ss) _ e' in
      let (sig, got_sig, q') = bind-ok (signer_sign O s (some digest)) _ q in
      let (rest, got_rest, eq_sigs) = bind-ok (sign_all O ss digest) _ q' in
      let (all, l, k) = sign_all-AllVerify ss digest is rest h.1 got_is got_rest in
      let good =
        verified_point h.0.key.point digest sig
          (h.0.correct digest sig (sym (signer_sign-some s h.0.key digest h.0.holds) ∙ got_sig)) in
      rw (sym (ok-injective eq_ids))
        (rw (sym (ok-injective eq_sigs)) ((good, all), ap suc l, ap suc k))

  module _ ⦃H : Hashing⦄ (g : Grammar) where
    -- A request that InitAndSignRequest returns for Ed25519 signers is accepted by each darc of its base
    -- ID that has a rule for its action, which the signers satisfy.
    pub init_and_sign_request-accepted :
        (base action msg : Bytes) (signers : List Signer) (r : Request)
        → All SignsFor signers
        → init_and_sign_request O base action msg signers ≡ ok r
        → (depth : ℕ) (d : Darc) (get_darc : Callback) (expr : Expr)
        → id_bytes (get_base_id d) ≡ base
        → lookup (fields_of d).rules action ≡ some expr
        → eval_expr g depth get_darc expr (get_identity_strings r) ≡ ok tt
        → request_verify_with_cb g depth r d get_darc ≡ ok tt
    unfolding init_and_sign_request request_hash init_request
    init_and_sign_request-accepted base action msg signers r h e depth d get_darc expr b rule
          holds =
        let (g1, e1) = guarded-ok (length signers == 0) no_signers _ e in
        let (ids, got_ids, e2) = bind-ok (signer_identities signers) _ e1 in
        let (sigs, got_sigs, e3) =
          bind-ok (sign_all O signers (request_hash (init_request base action msg ids []))) _ e2 in
        let (all, l, k) = sign_all-AllVerify signers _ ids sigs h got_ids got_sigs in
        let made : init_request base action msg ids sigs ≡ r = ok-injective e3 in
        subst
          (λ (r : Request).
            eval_expr g depth get_darc expr (get_identity_strings r) ≡ ok tt
            → request_verify_with_cb g depth r d get_darc ≡ ok tt)
          made
          (λ holds. (request_verify_with_cb-IsAcceptable g depth _ d get_darc).1 (record {
            signed = λ n. ground (arith, g1, l, ap (λ (xs : List Bytes). length xs) n);
            lengths = l ∙ sym k;
            same_base = b;
            expr = expr;
            rule = rule;
            verifies = all;
            satisfied = holds;
          }))
          holds
