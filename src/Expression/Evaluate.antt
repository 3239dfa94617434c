-- ===== src/Expression/Evaluate.antt =====
-- `Evaluate` gives what the expression means, and more identities never make it false.
use student_18_byzcoin.Bytes.{Bytes}
use student_18_byzcoin.Common.{
  if◌then◌else◌, scanner_not_empty, failed_to_cast, Result, err, ok, ◌>>=◌, ok-injective, ◌≡◌, refl,
  sym, ap, ◌∙◌, Bool, true, false, not, ◌&&◌, ◌||◌, Option, none, some, List, [], ◌∷◌, ◌++◌, arith,
}
use student_18_byzcoin.Expression.{
  nil_node, Sum, sum_of, Tail, no_tail, and_term, or_term, Term, identity, group, Grammar, one2one,
  cast_bool, run_parser, evaluate, any_id, default_parser,
}
use student_18_byzcoin.Expression.Denotes.{denote, denote_tail, denote_term, apply_sum-denote}

pub evaluate-denote :
    (p : Bytes → Bool) (g : Grammar) (expr : Bytes)
    → evaluate (λ s. ok (p s)) g expr ≡ (
        if not (g.ended expr)
        then err scanner_not_empty
        else elim (g.parse expr) [ none ↦ err failed_to_cast | some s ↦ ok (denote p s) ])
unfolding evaluate run_parser one2one
evaluate-denote p g expr = go (g.parse expr)
  where
    go :
        (o : Option Sum)
        → ((elim o [ none ↦ ok nil_node | some s ↦ run_parser (λ s. ok (p s)) s ])
            >>= (λ v. if not (g.ended expr) then err scanner_not_empty else cast_bool v))
          ≡ (if not (g.ended expr)
              then err scanner_not_empty
              else elim o [ none ↦ err failed_to_cast | some s ↦ ok (denote p s) ])
    go none = refl
    go (some s) = rw (apply_sum-denote p s) refl

module _ (p q : Bytes → Bool) (more_true : (s : Bytes) → p s ≡ true → q s ≡ true) where
  mutual
    unfolding denote

    denote_mono : (s : Sum) → denote p s ≡ true → denote q s ≡ true
    denote_mono (sum_of v t) e =
        denote_tail_mono (denote_term p v) (denote_term q v) t (denote_term_mono v) e

    denote_tail_mono :
        (x y : Bool) (t : Tail)
        → (x ≡ true → y ≡ true)
        → denote_tail p x t ≡ true
        → denote_tail q y t ≡ true
    denote_tail_mono x y no_tail h e = h e
    denote_tail_mono x y (and_term v t) h e =
        let hv = denote_term_mono v in
        denote_tail_mono (x && denote_term p v) (y && denote_term q v) t
          (λ g. ground (arith, h, hv, g)) e
    denote_tail_mono x y (or_term v t) h e =
        let hv = denote_term_mono v in
        denote_tail_mono (x || denote_term p v) (y || denote_term q v) t
          (λ g. ground (arith, h, hv, g)) e

    denote_term_mono : (v : Term) → denote_term p v ≡ true → denote_term q v ≡ true
    denote_term_mono (identity s) e = more_true s e
    denote_term_mono (group s) e = denote_mono s e

pub any_id-append :
    (ids others : List Bytes) (s : Bytes) → any_id ids s ≡ true → any_id (ids ++ others) s ≡ true
unfolding any_id
any_id-append [] others s e = cc
any_id-append (k ∷ ids) others s e = ground (arith, any_id-append ids others s)

-- An expression that is true for some identities is true for them and any others.
default_parser_mono :
    (g : Grammar) (expr : Bytes) (ids others : List Bytes)
    → default_parser g expr ids ≡ ok true
    → default_parser g expr (ids ++ others) ≡ ok true
unfolding default_parser
default_parser_mono g expr ids others e =
    evaluate-denote (any_id (ids ++ others)) g expr
    ∙ go (g.ended expr) (g.parse expr) (sym (evaluate-denote (any_id ids) g expr) ∙ e)
  where
    go :
        (ended : Bool) (o : Option Sum)
        → ◌≡◌ {A = Result Bool}
            (if not ended
              then err scanner_not_empty
              else elim o [ none ↦ err failed_to_cast | some s ↦ ok (denote (any_id ids) s) ])
            (ok true)
        → ◌≡◌ {A = Result Bool}
            (if not ended then err scanner_not_empty else elim o [
              | none ↦ err failed_to_cast
              | some s ↦ ok (denote (any_id (ids ++ others)) s)
            ])
            (ok true)
    go false o h = cc
    go true none h = cc
    go true (some s) h = ap ok (
        denote_mono (any_id ids) (any_id (ids ++ others)) (any_id-append ids others) s
          (ok-injective h))
