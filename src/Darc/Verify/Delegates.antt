-- ===== src/Darc/Verify/Delegates.antt =====
-- How the depth and the identities bear on the value of an expression that names darcs.
use student_18_byzcoin.Bytes.{Bytes}
use student_18_byzcoin.Common.{
  if◌then◌else◌, Result, panic, err, ok, ◌>>=◌, ℕ, zero, suc, ◌≤◌, ◌≡◌, refl, sym, subst, ◌≢◌, Bool,
  true, false, ◌&&◌, ◌||◌, Option, none, some, List, ◌++◌, arith,
}
use student_18_byzcoin.Darc.Document.{Darc, fields_of}
use student_18_byzcoin.Darc.Identity.{Keys, darc_type, type_string}
use student_18_byzcoin.Darc.Rules.{Expr, sign, lookup}
use student_18_byzcoin.Darc.Values.{
  has_prefix, Callback, verdict, as_answer, sign_rule, sign_answer, check_value, eval_expr_by,
}
use student_18_byzcoin.Darc.Verify.{verify_darc, delegated, eval_expr}
use student_18_byzcoin.Expression.{Grammar, any_id}
use student_18_byzcoin.Expression.Evaluate.{any_id-append}
use student_18_byzcoin.Expression.Related.{Lifts, SameTruth, Implies, evaluate-Lifts}
use student_18_byzcoin.Hash.{Hashing}

module _ ⦃K : Keys⦄ ⦃H : Hashing⦄ (g : Grammar) (get_darc : Callback) where
  same_and : (a b c d : Bool) → a ≡ b → c ≡ d → (a && c) ≡ (b && d)
  same_and a b c d h k = rw (h, k) refl

  same_or : (a b c d : Bool) → a ≡ b → c ≡ d → (a || c) ≡ (b || d)
  same_or a b c d h k = rw (h, k) refl

  Implies-and : (a b c d : Bool) → Implies a b → Implies c d → Implies (a && c) (b && d)
  Implies-and a b c d h k e = ground (arith, h, k)

  Implies-or : (a b c d : Bool) → Implies a b → Implies c d → Implies (a || c) (b || d)
  Implies-or a b c d h k e = ground (arith, h, k)

  -- unless the first panics, both are the same
  abbrev pub Agrees : Result (Unit {0}) → Result (Unit {0}) → Type 0
  Agrees panic r = Unit
  Agrees (err e) r = r ≡ err e
  Agrees (ok t) r = r ≡ ok tt

  -- after no panic no panic, and after a nil error a nil error
  abbrev pub Grows : Result (Unit {0}) → Result (Unit {0}) → Type 0
  Grows panic r = Unit
  Grows (err e) r = r ≢ panic
  Grows (ok t) r = r ≡ ok tt

  Agrees-verdict :
      (r r' : Result Bool) → Lifts SameTruth r r' → Agrees (r >>= verdict) (r' >>= verdict)
  Agrees-verdict panic r' h = tt
  Agrees-verdict (err e) r' h = rw h refl
  Agrees-verdict (ok true) r' (t, e, q) = rw (e, sym q) refl
  Agrees-verdict (ok false) r' (t, e, q) = rw (e, sym q) refl

  Grows-verdict : (r r' : Result Bool) → Lifts Implies r r' → Grows (r >>= verdict) (r' >>= verdict)
  Grows-verdict panic r' h = tt
  Grows-verdict (err e) r' h = rw h (λ q. cc)
  Grows-verdict (ok true) r' (t, e, q) = rw (e, q refl) refl
  Grows-verdict (ok false) r' (true, e, q) = rw e (λ p. cc)
  Grows-verdict (ok false) r' (false, e, q) = rw e (λ p. cc)

  Agrees-answer :
      (v : Result (Unit {0})) (d : Option Darc) (eval eval' : Expr → Result (Unit {0}))
      → ((e : Expr) → Agrees (eval e) (eval' e))
      → Lifts SameTruth (sign_answer v d eval) (sign_answer v d eval')
  unfolding sign_answer
  Agrees-answer panic d eval eval' h = tt
  Agrees-answer (err e) d eval eval' h = (false, refl, refl)
  Agrees-answer (ok t) none eval eval' h = tt
  Agrees-answer (ok t) (some d) eval eval' h = go (lookup (fields_of d).rules sign)
    where
      by_call :
          (r r' : Result (Unit {0})) → Agrees r r' → Lifts SameTruth (as_answer r) (as_answer r')
      by_call panic r' a = tt
      by_call (err e) r' a = rw a (false, refl, refl)
      by_call (ok t) r' a = rw a (true, refl, refl)

      go : (o : Option Expr) → Lifts SameTruth (sign_rule o eval) (sign_rule o eval')
      go none = (false, refl, refl)
      go (some e) = by_call (eval e) (eval' e) (h e)

  Grows-answer :
      (v : Result (Unit {0})) (d : Option Darc) (eval eval' : Expr → Result (Unit {0}))
      → ((e : Expr) → Grows (eval e) (eval' e))
      → Lifts Implies (sign_answer v d eval) (sign_answer v d eval')
  unfolding sign_answer
  Grows-answer panic d eval eval' h = tt
  Grows-answer (err e) d eval eval' h = (false, refl, λ p. p)
  Grows-answer (ok t) none eval eval' h = tt
  Grows-answer (ok t) (some d) eval eval' h = go (lookup (fields_of d).rules sign)
    where
      by_call : (r r' : Result (Unit {0})) → Grows r r' → Lifts Implies (as_answer r) (as_answer r')
      by_call panic r' a = tt
      by_call (err e) panic a = absurd (a refl)
      by_call (err e) (err e') a = (false, refl, λ p. p)
      by_call (err e) (ok t) a = (true, refl, λ p. refl)
      by_call (ok t) r' a = rw a (true, refl, λ p. p)

      go : (o : Option Expr) → Lifts Implies (sign_rule o eval) (sign_rule o eval')
      go none = (false, refl, λ p. p)
      go (some e) = by_call (eval e) (eval' e) (h e)

  -- the check of a string, for any identities that go on
  check_value-Lifts :
      (R : Bool → Bool → Type 0) (on on' : List Bytes → Bytes → Result Bool)
      (ids more_ids : List Bytes) (s : Bytes)
      → R (any_id ids s) (any_id more_ids s)
      → Lifts R (on ids s) (on' more_ids s)
      → Lifts R (check_value on ids s) (check_value on' more_ids s)
  unfolding check_value
  check_value-Lifts R on on' ids more_ids s held h = go (has_prefix s (type_string darc_type))
    where
      go :
          (b : Bool)
          → Lifts R
              (if b then on ids s else ok (any_id ids s))
              (if b then on' more_ids s else ok (any_id more_ids s))
      go true = h
      go false = (_, refl, held)

  eval_expr_by-Agrees :
      (on on' : List Bytes → Bytes → Result Bool) (ids : List Bytes)
      → ((s : Bytes) → Lifts SameTruth (on ids s) (on' ids s))
      → (expr : Expr) → Agrees (eval_expr_by g on expr ids) (eval_expr_by g on' expr ids)
  unfolding eval_expr_by
  eval_expr_by-Agrees on on' ids h expr = Agrees-verdict _ _ (
      evaluate-Lifts SameTruth same_and same_or (check_value on ids) (check_value on' ids)
        (λ s. check_value-Lifts SameTruth on on' ids ids s refl (h s)) g expr)

  eval_expr_by-Grows :
      (on on' : List Bytes → Bytes → Result Bool) (ids others : List Bytes)
      → ((s : Bytes) → Lifts Implies (on ids s) (on' (ids ++ others) s))
      → (expr : Expr) → Grows (eval_expr_by g on expr ids) (eval_expr_by g on' expr (ids ++ others))
  unfolding eval_expr_by
  eval_expr_by-Grows on on' ids others h expr = Grows-verdict _ _ (
      evaluate-Lifts Implies Implies-and Implies-or (check_value on ids)
        (check_value on' (ids ++ others))
        (λ s.
          check_value-Lifts Implies on on' ids (ids ++ others) s (any_id-append ids others s) (h s))
        g expr)

  delegated-Agrees :
      (n m : ℕ) (ids : List Bytes) (s : Bytes)
      → n ≤ m
      → Lifts SameTruth (delegated g n get_darc ids s) (delegated g m get_darc ids s)
  unfolding delegated
  delegated-Agrees zero m ids s le = tt
  delegated-Agrees (suc n) zero ids s le = absurd (omega arith)
  delegated-Agrees (suc n) (suc m) ids s le =
      Agrees-answer (verify_darc g (get_darc s)) (get_darc s) _ _ (
        eval_expr_by-Agrees (delegated g n get_darc) (delegated g m get_darc) ids
          (λ t. delegated-Agrees n m ids t (omega arith)))

  delegated-Grows :
      (n : ℕ) (ids others : List Bytes) (s : Bytes)
      → Lifts Implies (delegated g n get_darc ids s) (delegated g n get_darc (ids ++ others) s)
  unfolding delegated
  delegated-Grows zero ids others s = tt
  delegated-Grows (suc n) ids others s =
      Grows-answer (verify_darc g (get_darc s)) (get_darc s) _ _ (
        eval_expr_by-Grows (delegated g n get_darc) (delegated g n get_darc) ids others
          (delegated-Grows n ids others))

  -- what evalExpr returns at some depth, it returns at any greater one
  pub eval_expr-deeper :
      (n m : ℕ) (expr : Expr) (ids : List Bytes)
      → n ≤ m
      → eval_expr g n get_darc expr ids ≢ panic
      → eval_expr g m get_darc expr ids ≡ eval_expr g n get_darc expr ids
  unfolding eval_expr
  eval_expr-deeper n m expr ids le returns =
      go _ _
        (eval_expr_by-Agrees (delegated g n get_darc) (delegated g m get_darc) ids
          (λ t. delegated-Agrees n m ids t le) expr)
        returns
    where
      go : (r r' : Result (Unit {0})) → Agrees r r' → r ≢ panic → r' ≡ r
      go panic r' h p = absurd (p refl)
      go (err e) r' h p = h
      go (ok t) r' h p = h

  -- An expression that evalExpr accepts for some identities, through whatever delegations, it
  -- accepts for these and any others.
  pub eval_expr_mono :
      (n : ℕ) (expr : Expr) (ids others : List Bytes)
      → eval_expr g n get_darc expr ids ≡ ok tt
      → eval_expr g n get_darc expr (ids ++ others) ≡ ok tt
  unfolding eval_expr
  eval_expr_mono n expr ids others holds =
      subst
        (λ (r : Result (Unit {0})).
          Grows r (eval_expr_by g (delegated g n get_darc) expr (ids ++ others)))
        holds
        (eval_expr_by-Grows (delegated g n get_darc) (delegated g n get_darc) ids others
          (delegated-Grows n ids others) expr)
