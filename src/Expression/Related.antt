-- ===== src/Expression/Related.antt =====
-- Two tests of the identities whose answers are related give related values of an expression, for any
-- relation of Booleans that the two operators keep. A test may panic.
use student_18_byzcoin.Bytes.{Bytes}
use student_18_byzcoin.Common.{
  if◌then◌else◌, scanner_not_empty, Result, panic, err, ok, ◌>>=◌, ◌≡◌, refl, Bool, true, false,
  not, ◌&&◌, ◌||◌, Option, none, some,
}
use student_18_byzcoin.Expression.{
  ParsecNode, nil_node, truth, ParsecNodes, no_nodes, Sum, sum_of, Tail, no_tail, and_term, or_term,
  Term, identity, group, Grammar, sum_loop, sum_node, expr_node, one2one, many2many, cast_bool,
  expr_value_node, apply_sum, apply_tail, apply_value, run_parser, evaluate,
}

-- the second call ends as the first, with a related value; nothing after a panic
abbrev pub Lifts {ℓ} : {S : Type ℓ} {T : Type ℓ} → (S → T → Type ℓ) → Result S → Result T → Type ℓ
Lifts R panic r = Unit
Lifts R (err e) r = r ≡ err e
Lifts {T = T} R (ok s) r = (t : T) × (r ≡ ok t) × R s t

pub >>=-Lifts :
    {S T U V : Type 0} (R : S → T → Type 0) (Q : U → V → Type 0) (m : Result S) (m' : Result T)
    (k : S → Result U) (k' : T → Result V)
    → Lifts R m m'
    → ((s : S) (t : T) → R s t → Lifts Q (k s) (k' t))
    → Lifts Q (m >>= k) (m' >>= k')
>>=-Lifts R Q panic m' k k' h rest = tt
>>=-Lifts R Q (err e) m' k k' h rest = rw h refl
>>=-Lifts R Q (ok s) m' k k' (t, e, r) rest = rw e (rest s t r)

abbrev pub SameTruth : Bool → Bool → Type 0
SameTruth b c = b ≡ c

abbrev pub Implies : Bool → Bool → Type 0
Implies b c = b ≡ true → c ≡ true

module _ (R : Bool → Bool → Type 0)
    (keeps_and : (a b c d : Bool) → R a b → R c d → R (a && c) (b && d))
    (keeps_or : (a b c d : Bool) → R a b → R c d → R (a || c) (b || d)) (f f' : Bytes → Result Bool)
    (related : (s : Bytes) → Lifts R (f s) (f' s)) where
  abbrev Nodes : ParsecNode → ParsecNode → Type 0
  Nodes n n' = (b : Bool) × (b' : Bool) × (n ≡ truth b) × (n' ≡ truth b') × R b b'

  abbrev Tails : ParsecNodes → ParsecNodes → Type 0
  Tails ns ns' = (v v' : Bool) → R v v' → Lifts Nodes (sum_loop v ns) (sum_loop v' ns')

  mutual
    unfolding apply_sum sum_node expr_node one2one many2many expr_value_node sum_loop

    apply_sum-Lifts : (s : Sum) → Lifts Nodes (apply_sum f s) (apply_sum f' s)
    apply_sum-Lifts (sum_of v t) =
        >>=-Lifts Nodes Nodes (apply_value f v) (apply_value f' v) _ _ (apply_value-Lifts v)
          (λ n n' (b, b', e, e', r).
            >>=-Lifts Tails Nodes (apply_tail f t) (apply_tail f' t) _ _ (apply_tail-Lifts t)
              (λ ts ts' h. rw (e, e') (h b b' r)))

    apply_tail-Lifts : (t : Tail) → Lifts Tails (apply_tail f t) (apply_tail f' t)
    apply_tail-Lifts no_tail = (no_nodes, refl, λ v v' r. (truth v', refl, (v, v', refl, refl, r)))
    apply_tail-Lifts (and_term v t) =
        >>=-Lifts Nodes Tails (apply_value f v) (apply_value f' v) _ _ (apply_value-Lifts v)
          (λ n n' (b, b', e, e', r).
            >>=-Lifts Tails Tails (apply_tail f t) (apply_tail f' t) _ _ (apply_tail-Lifts t)
              (λ ts ts' h.
                (_, refl, λ w w' q. rw (e, e') (h (w && b) (w' && b') (keeps_and w w' b b' q r)))))
    apply_tail-Lifts (or_term v t) =
        >>=-Lifts Nodes Tails (apply_value f v) (apply_value f' v) _ _ (apply_value-Lifts v)
          (λ n n' (b, b', e, e', r).
            >>=-Lifts Tails Tails (apply_tail f t) (apply_tail f' t) _ _ (apply_tail-Lifts t)
              (λ ts ts' h.
                (_, refl, λ w w' q. rw (e, e') (h (w || b) (w' || b') (keeps_or w w' b b' q r)))))

    apply_value-Lifts : (v : Term) → Lifts Nodes (apply_value f v) (apply_value f' v)
    apply_value-Lifts (identity s) =
        >>=-Lifts R Nodes (f s) (f' s) _ _ (related s)
          (λ b b' r. (truth b', refl, (b, b', refl, refl, r)))
    apply_value-Lifts (group s) =
        >>=-Lifts Nodes Nodes (apply_sum f s) (apply_sum f' s) _ _ (apply_sum-Lifts s)
          (λ n n' (b, b', e, e', r). rw (e, e') (truth b', refl, (b, b', refl, refl, r)))

  pub evaluate-Lifts :
      (g : Grammar) (expr : Bytes) → Lifts R (evaluate f g expr) (evaluate f' g expr)
  unfolding evaluate run_parser one2one
  evaluate-Lifts g expr = go (g.parse expr) (g.ended expr)
    where
      last_test :
          (ended : Bool) (n n' : ParsecNode)
          → Nodes n n'
          → Lifts R
              (if not ended then err scanner_not_empty else cast_bool n)
              (if not ended then err scanner_not_empty else cast_bool n')
      last_test false n n' h = refl
      last_test true n n' (b, b', e, e', r) = rw (e, e') (b', refl, r)

      go :
          (o : Option Sum) (ended : Bool)
          → Lifts R
              ((elim o [ none ↦ ok nil_node | some s ↦ run_parser f s ])
                >>= (λ v. if not ended then err scanner_not_empty else cast_bool v))
              ((elim o [ none ↦ ok nil_node | some s ↦ run_parser f' s ])
                >>= (λ v. if not ended then err scanner_not_empty else cast_bool v))
      go none false = refl
      go none true = refl
      go (some s) ended =
          >>=-Lifts Nodes R (run_parser f s) (run_parser f' s) _ _
            (>>=-Lifts Nodes Nodes (apply_sum f s) (apply_sum f' s) _ _ (apply_sum-Lifts s)
              (λ n n' h. (n', refl, h)))
            (last_test ended)
