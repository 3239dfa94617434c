-- ===== src/Darc/Verify/Accepts.antt =====
-- What the verifications accept, condition by condition.
use student_18_byzcoin.Bytes.{Bytes, equal, digest}
use student_18_byzcoin.Bytes.Equal.{equal→≡, ≡→equal}
use student_18_byzcoin.Common.{
  ◌==◌, if◌then◌else◌, ≡→==, ==→≡, not-false, Error, no_signatures, nil_base_id, base_ids_differ,
  incorrect_version, unequal_lengths, base_id_mismatch, no_such_action, Result, err, ok, ◌>>=◌,
  bind-ok, guarded-ok, length, not_empty, has_some, All, ℕ, ◌+◌, ◌%◌, ◌^◌, ◌≡◌, refl, sym, ◌∙◌, ◌≢◌,
  ◌↔◌, Bool, not, Option, none, some, List, [], ◌∷◌,
}
use student_18_byzcoin.Darc.Document.{Signature, Darc, fields_of, id_bytes, get_base_id}
use student_18_byzcoin.Darc.Identity.{Keys, Identity, identity_verify}
use student_18_byzcoin.Darc.Request.{Request, get_identity_strings, request_hash}
use student_18_byzcoin.Darc.Rules.{Expr, lookup, get_evolution_expr}
use student_18_byzcoin.Darc.Values.{
  Callback, returned, verify_signatures, verify_identities, eval_expr_with_sigs,
}
use student_18_byzcoin.Darc.Verify.{
  evolution_digest, verify_one_evolution, eval_expr, request_verify_with_cb,
}
use student_18_byzcoin.Expression.{Grammar}
use student_18_byzcoin.Hash.{Hashing}

module _ ⦃K : Keys⦄ where
  -- each identity, with the signature at its place, verifies
  abbrev pub AllVerify : Bytes → List Identity → List Bytes → Type 0
  AllVerify digest [] sigs = Unit
  AllVerify digest (i ∷ is) [] = ⊥
  AllVerify digest (i ∷ is) (s ∷ sigs) =
      (identity_verify i digest s ≡ none) × AllVerify digest is sigs

  abbrev pub AllSigned : Bytes → List Signature → Type 0
  AllSigned digest = All (λ (s : Signature). identity_verify s.signer digest s.signature ≡ none)

  returned-ok :
      (o : Option Error) (rest : Result (Unit {0}))
      → ((returned o >>= λ t. rest) ≡ ok tt) ↔ ((o ≡ none) × (rest ≡ ok tt))
  returned-ok none rest = (λ e. (refl, e), λ h. h.1)
  returned-ok (some x) rest = (λ e. cc, λ h. cc h.0)

  pub verify_identities-AllVerify :
      (digest : Bytes) (is : List Identity) (sigs : List Bytes)
      → (verify_identities digest is sigs ≡ ok tt) ↔ AllVerify digest is sigs
  unfolding verify_identities
  verify_identities-AllVerify digest [] sigs = (λ e. tt, λ h. refl)
  verify_identities-AllVerify digest (i ∷ is) [] = (λ e. cc, λ h. absurd h)
  verify_identities-AllVerify digest (i ∷ is) (s ∷ sigs) =
      let (there, back) =
        returned-ok (identity_verify i digest s) (verify_identities digest is sigs) in
      let (ih, hi) = verify_identities-AllVerify digest is sigs in
      (λ e. ((there e).0, ih (there e).1), λ h. back (h.0, hi h.1))

  pub verify_signatures-AllSigned :
      (digest : Bytes) (sigs : List Signature)
      → (verify_signatures digest sigs ≡ ok tt) ↔ AllSigned digest sigs
  unfolding verify_signatures
  verify_signatures-AllSigned digest [] = (λ e. tt, λ h. refl)
  verify_signatures-AllSigned digest (s ∷ sigs) =
      let (there, back) =
        returned-ok (identity_verify s.signer digest s.signature) (verify_signatures digest sigs) in
      let (ih, hi) = verify_signatures-AllSigned digest sigs in
      (λ e. ((there e).0, ih (there e).1), λ h. back (h.0, hi h.1))

  module _ ⦃H : Hashing⦄ (g : Grammar) where
    -- the conditions of Request.VerifyWithCB
    pub record IsAcceptable (depth : ℕ) (r : Request) (d : Darc) (get_darc : Callback)
        : Type 0 where
      pub signed : r.signatures ≢ []
      pub lengths : length r.signatures ≡ length r.identities
      pub same_base : id_bytes (get_base_id d) ≡ r.base_id
      pub expr : Expr
      pub rule : lookup (fields_of d).rules r.action ≡ some expr
      pub verifies : AllVerify (request_hash r) r.identities r.signatures
      pub satisfied : eval_expr g depth get_darc expr (get_identity_strings r) ≡ ok tt

    -- Request.VerifyWithCB returns nil exactly for a request that is signed, with as many
    -- signatures as identities, whose base ID is that of the darc, whose action has a rule in the
    -- darc, all of whose signatures verify on its hash, and whose identities satisfy the
    -- expression of the rule.
    pub request_verify_with_cb-IsAcceptable :
        (depth : ℕ) (r : Request) (d : Darc) (get_darc : Callback)
        → (request_verify_with_cb g depth r d get_darc ≡ ok tt) ↔ IsAcceptable depth r d get_darc
    unfolding request_verify_with_cb
    request_verify_with_cb-IsAcceptable depth r d get_darc = (there, back)
      where
        rule_part : Option Expr → Result (Unit {0})
        rule_part o = elim o [
          | none ↦ err no_such_action
          | some expr ↦ verify_identities (request_hash r) r.identities r.signatures >>= λ t.
              eval_expr g depth get_darc expr (get_identity_strings r)
        ]

        inverted :
            (o : Option Expr)
            → rule_part o ≡ ok tt
            → (expr : Expr) × (o ≡ some expr)
              × AllVerify (request_hash r) r.identities r.signatures
              × (eval_expr g depth get_darc expr (get_identity_strings r) ≡ ok tt)
        inverted none e = cc
        inverted (some expr) e =
            let (t, v, q) =
              bind-ok (verify_identities (request_hash r) r.identities r.signatures) _ e in
            (expr, refl, (verify_identities-AllVerify _ _ _).0 (v), q)

        there :
            request_verify_with_cb g depth r d get_darc ≡ ok tt → IsAcceptable depth r d get_darc
        there e =
            let (g1, e1) = guarded-ok (length r.signatures == 0) no_signatures _ e in
            let (g2, e2) =
              guarded-ok (not (length r.signatures == length r.identities)) unequal_lengths _ e1 in
            let (g3, e3) =
              guarded-ok (not (equal (id_bytes (get_base_id d)) r.base_id)) base_id_mismatch _ e2 in
            let (expr, rule, verifies, holds) = inverted (lookup (fields_of d).rules r.action) e3 in
            record {
              signed = not_empty r.signatures g1;
              lengths = ==→≡ (not-false _ g2);
              same_base = equal→≡ (id_bytes (get_base_id d)) r.base_id (not-false _ g3);
              expr = expr;
              rule = rule;
              verifies = verifies;
              satisfied = holds;
            }

        back : IsAcceptable depth r d get_darc → request_verify_with_cb g depth r d get_darc ≡ ok tt
        back a = rw (has_some r.signatures a.signed) (
            rw (≡→== a.lengths) (
              rw (≡→equal a.same_base)
                (rw a.rule (rw ((verify_identities-AllVerify _ _ _).1 a.verifies) a.satisfied))))

    -- the conditions of verifyOneEvolution
    pub record IsEvolution (on_darc : List Bytes → Bytes → Result Bool) (later prev : Darc)
        : Type 0 where
      pub base_set : (fields_of later).base ≢ none
      pub same_base : id_bytes (get_base_id later) ≡ id_bytes (get_base_id prev)
      pub next_version : (fields_of later).version ≡ ((fields_of prev).version + 1) % 2 ^ 64
      pub permitted :
          eval_expr_with_sigs g on_darc
            (get_evolution_expr (fields_of prev).rules)
            (fields_of later).signatures
          ≡ ok tt
      pub signed : AllSigned (evolution_digest later) (fields_of later).signatures

    -- verifyOneEvolution accepts the darcs that meet the conditions, and no others.
    pub verify_one_evolution-IsEvolution :
        (on_darc : List Bytes → Bytes → Result Bool) (later prev : Darc)
        → (verify_one_evolution g on_darc later prev ≡ ok tt) ↔ IsEvolution on_darc later prev
    unfolding verify_one_evolution
    verify_one_evolution-IsEvolution on_darc later prev =
        (there (fields_of later).base refl, λ h. back (fields_of later).base refl h)
      where
        body : Result (Unit {0})
        body =
            if not (equal (id_bytes (get_base_id later)) (id_bytes (get_base_id prev)))
            then err base_ids_differ
            else if not ((fields_of later).version == ((fields_of prev).version + 1) % 2 ^ 64)
            then err incorrect_version
            else (eval_expr_with_sigs g on_darc (get_evolution_expr (fields_of prev).rules)
                  (fields_of later).signatures
                >>= λ t. verify_signatures (evolution_digest later) (fields_of later).signatures)

        there :
            (o : Option Bytes)
            → (fields_of later).base ≡ o
            → (elim o [ none ↦ err nil_base_id | some b ↦ body ]) ≡ ok tt
            → IsEvolution on_darc later prev
        there none q e = cc
        there (some b) q e =
            let (g1, e1) =
              guarded-ok (not (equal (id_bytes (get_base_id later)) (id_bytes (get_base_id prev))))
                base_ids_differ _ e in
            let (g2, e2) =
              guarded-ok
                (not ((fields_of later).version == ((fields_of prev).version + 1) % 2 ^ 64))
                incorrect_version _ e1 in
            let (t, holds, signs) =
              bind-ok
                (eval_expr_with_sigs g on_darc (get_evolution_expr (fields_of prev).rules)
                  (fields_of later).signatures)
                _ e2 in
            record {
              base_set = λ n. cc (sym q ∙ n);
              same_base = equal→≡ _ _ (not-false _ g1);
              next_version = ==→≡ (not-false _ g2);
              permitted = holds;
              signed = (verify_signatures-AllSigned _ _).0 signs;
            }

        back :
            (o : Option Bytes)
            → (fields_of later).base ≡ o
            → IsEvolution on_darc later prev
            → (elim o [ none ↦ err nil_base_id | some b ↦ body ]) ≡ ok tt
        back none q h = absurd (h.base_set q)
        back (some b) q h = rw (≡→equal h.same_base) (
            rw (≡→== h.next_version)
              (rw h.permitted ((verify_signatures-AllSigned _ _).1 h.signed)))
