-- ===== src/Darc/Values.antt =====
-- The values that the verifications of omniledger/darc/darc.go share: what an expression is for the
-- identities, and the loops over signatures. A callback that finds no darc gives nil.
-- strings.HasPrefix
use student_18_byzcoin.Bytes.{Bytes, digest}
use student_18_byzcoin.Common.{
  ◌==◌, if◌then◌else◌, Error, evaluated_false, Result, panic, err, ok, ◌>>=◌, Outcome, done, fail,
  crash, Bool, true, false, Option, none, some, List, [], ◌∷◌, map,
}
use student_18_byzcoin.Darc.Document.{Signature, Darc, fields_of}
use student_18_byzcoin.Darc.Identity.{
  Keys, Identity, darc_type, type_string, identity_string, identity_verify,
}
use student_18_byzcoin.Darc.Rules.{Expr, sign, lookup}
use student_18_byzcoin.Expression.{Grammar, evaluate, any_id}

unfoldable pub has_prefix : Bytes → Bytes → Bool
has_prefix s [] = true
has_prefix [] (c ∷ prefix) = false
has_prefix (b ∷ s) (c ∷ prefix) = let rest = has_prefix s prefix in if b == c then rest else false

abbrev pub Callback : Type 0
Callback = Bytes → Option Darc

-- the callback of Verify, and what the ValueCheckFn answers for a darc with it: nil does not verify
abbrev pub no_callback : Callback
no_callback s = none

abbrev pub refuses : List Bytes → Bytes → Result Bool
refuses ids s = ok false

-- what is left of an `error` when the state is known
abbrev pub as_outcome {ℓ} : {S : Type ℓ} → S → Result (Unit {0}) → Outcome S
as_outcome s panic = crash
as_outcome s (err e) = fail e s
as_outcome s (ok t) = done s

abbrev pub error_of {ℓ} : {S : Type ℓ} → Outcome S → Result (Unit {0})
error_of crash = panic
error_of (fail e s) = err e
error_of (done s) = ok tt

-- a nil error goes on
abbrev pub returned : Option Error → Result (Unit {0})
returned none = ok tt
returned (some e) = err e

-- the last test of evalExpr
abbrev pub verdict : Bool → Result (Unit {0})
verdict res = if res then ok tt else err evaluated_false

-- the rest of the ValueCheckFn for a darc, by what Verify returned, with the recursive call `eval`: an
-- error is an answer, and nil has no rules
abbrev pub as_answer : Result (Unit {0}) → Result Bool
as_answer panic = panic
as_answer (err e) = ok false
as_answer (ok t) = ok true

abbrev pub sign_rule : Option Expr → (Expr → Result (Unit {0})) → Result Bool
sign_rule none eval = ok false
sign_rule (some expr) eval = as_answer (eval expr)

unfoldable pub sign_answer :
    Result (Unit {0}) → Option Darc → (Expr → Result (Unit {0})) → Result Bool
unfolding lookup
sign_answer panic d eval = panic
sign_answer (err e) d eval = ok false
sign_answer (ok t) none eval = panic
sign_answer (ok t) (some d) eval = sign_rule (lookup (fields_of d).rules sign) eval

module _ ⦃K : Keys⦄ where
  -- the ValueCheckFn of evalExpr, but for the answer `on_darc` for a darc
  unfoldable pub check_value : (List Bytes → Bytes → Result Bool) → List Bytes → Bytes → Result Bool
  unfolding has_prefix any_id type_string
  check_value on_darc ids s =
      if has_prefix s (type_string darc_type) then on_darc ids s else ok (any_id ids s)

  -- the strings of the signers, in evalExprWithSigs
  unfoldable pub signer_strings : List Signature → List Bytes
  unfolding identity_string
  signer_strings sigs = map (λ (s : Signature). identity_string s.signer) sigs

  -- the last loop of verifyOneEvolution
  unfoldable pub verify_signatures : Bytes → List Signature → Result (Unit {0})
  unfolding identity_verify
  verify_signatures digest [] = ok tt
  verify_signatures digest (s ∷ sigs) =
      let rest = verify_signatures digest sigs in
      returned (identity_verify s.signer digest s.signature) >>= λ t. rest

  -- the loop of Request.VerifyWithCB
  unfoldable pub verify_identities : Bytes → List Identity → List Bytes → Result (Unit {0})
  unfolding identity_verify
  verify_identities digest [] sigs = ok tt
  verify_identities digest (i ∷ is) [] = panic
  verify_identities digest (i ∷ is) (s ∷ sigs) =
      let rest = verify_identities digest is sigs in
      returned (identity_verify i digest s) >>= λ t. rest

module _ ⦃K : Keys⦄ (g : Grammar) where
  unfoldable pub eval_expr_by :
      (List Bytes → Bytes → Result Bool) → Expr → List Bytes → Result (Unit {0})
  unfolding check_value evaluate
  eval_expr_by on_darc expr ids = evaluate (check_value on_darc ids) g expr >>= verdict

  unfoldable pub eval_expr_with_sigs :
      (List Bytes → Bytes → Result Bool) → Expr → List Signature → Result (Unit {0})
  unfolding eval_expr_by signer_strings
  eval_expr_with_sigs on_darc expr sigs = eval_expr_by on_darc expr (signer_strings sigs)
