-- ===== src/Darc/Verify/Depth.antt =====
-- How deep evalExpr calls itself: no deeper than the darcs delegate, and for ever where they delegate
-- in a circle.
use student_18_byzcoin.Bytes.{Bytes}
use student_18_byzcoin.Common.{
  Result, panic, ok, ℕ, zero, suc, ◌<◌, ◌≡◌, refl, ◌≢◌, Bool, true, some, List,
}
use student_18_byzcoin.Darc.Document.{Darc, fields_of}
use student_18_byzcoin.Darc.Identity.{Keys, darc_type, type_string}
use student_18_byzcoin.Darc.Rules.{Expr, sign, lookup}
use student_18_byzcoin.Darc.Values.{has_prefix, Callback, sign_answer, check_value, eval_expr_by}
use student_18_byzcoin.Darc.Verify.{verify_darc, delegated, eval_expr}
use student_18_byzcoin.Expression.{
  Sum, sum_of, no_tail, identity, Grammar, expr_value_node, apply_sum, run_parser, evaluate,
}
use student_18_byzcoin.Expression.Names.{AllNames}
use student_18_byzcoin.Hash.{Hashing}

module _ ⦃K : Keys⦄ ⦃H : Hashing⦄ (g : Grammar) (get_darc : Callback) where
  abbrev NamesDarc : Bytes → Type 0
  NamesDarc s = has_prefix s (type_string darc_type) ≡ true

  -- every darc that the expression names is of a rank below `n`
  abbrev pub Below : (Bytes → ℕ) → ℕ → Expr → Type 0
  Below rank n expr = (t : Sum) → g.parse expr ≡ some t → AllNames (λ s. NamesDarc s → rank s < n) t

  -- A rank of the strings of darcs that every delegation lowers, where Verify panics for none.
  pub record Ranked (rank : Bytes → ℕ) : Type 0 where
    pub verifies : (s : Bytes) → verify_darc g (get_darc s) ≢ panic
    pub lower :
        (s : Bytes) (d : Darc) (expr : Expr)
        → get_darc s ≡ some d
        → lookup (fields_of d).rules sign ≡ some expr
        → Below rank (rank s) expr

  -- A darc whose "_sign" expression is its own string.
  pub record IsCircular (s : Bytes) : Type 0 where
    pub itself : Darc
    pub expr : Expr
    pub named_by : get_darc s ≡ some itself
    pub verifies : verify_darc g (some itself) ≡ ok tt
    pub rule : lookup (fields_of itself).rules sign ≡ some expr
    pub parsed : g.parse expr ≡ some (sum_of (identity s) no_tail)
    pub names : NamesDarc s

  eval_expr_by-panics :
      (on : List Bytes → Bytes → Result Bool) (ids : List Bytes) (s : Bytes) (c : IsCircular s)
      → on ids s ≡ panic
      → eval_expr_by g on c.expr ids ≡ panic
  unfolding eval_expr_by evaluate run_parser check_value apply_sum expr_value_node
  eval_expr_by-panics on ids s c e = rw c.parsed (rw c.names (rw e refl))

  delegated-panics :
      (n : ℕ) (ids : List Bytes) (s : Bytes) → IsCircular s → delegated g n get_darc ids s ≡ panic
  unfolding delegated sign_answer
  delegated-panics zero ids s c = refl
  delegated-panics (suc n) ids s c = rw c.named_by (
      rw c.verifies (
        rw c.rule (
          rw (eval_expr_by-panics (delegated g n get_darc) ids s c (delegated-panics n ids s c))
            refl)))

  -- Where the "_sign" expression of a darc that verifies is its own string, evalExpr of the
  -- expression ends at no depth, whoever signs.
  pub eval_expr-circular :
      (n : ℕ) (ids : List Bytes) (s : Bytes) (c : IsCircular s)
      → eval_expr g n get_darc c.expr ids ≡ panic
  unfolding eval_expr
  eval_expr-circular n ids s c =
      eval_expr_by-panics (delegated g n get_darc) ids s c (delegated-panics n ids s c)
