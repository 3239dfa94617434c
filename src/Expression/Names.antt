-- ===== src/Expression/Names.antt =====
-- Evaluate does not panic where the test of the identities answers for each one that the text names.
use student_18_byzcoin.Bytes.{Bytes}
use student_18_byzcoin.Common.{
  if◌then◌else◌, scanner_not_empty, Result, panic, err, ok, ◌>>=◌, ◌≡◌, refl, ◌≢◌, Bool, true,
  false, not, ◌&&◌, ◌||◌, Option, none, some, [], ◌∷◌,
}
use student_18_byzcoin.Expression.{
  and_name, or_name, nil_node, truth, terminal, many, ParsecNodes, no_nodes, more, Sum, sum_of,
  Tail, no_tail, and_term, or_term, Term, identity, group, Grammar, sum_loop, sum_node, expr_node,
  one2one, many2many, cast_bool, expr_value_node, apply_sum, apply_tail, apply_value, run_parser,
  evaluate,
}

module _ (P : Bytes → Type 0) where
  unfoldable mutual
    pub AllNames : Sum → Type 0
    AllNames (sum_of v t) = AllTerm v × AllTail t

    pub AllTail : Tail → Type 0
    AllTail no_tail = Unit
    AllTail (and_term v t) = AllTerm v × AllTail t
    AllTail (or_term v t) = AllTerm v × AllTail t

    pub AllTerm : Term → Type 0
    AllTerm (identity s) = P s
    AllTerm (group s) = AllNames s

module _ (P Q : Bytes → Type 0) (f : (s : Bytes) → P s → Q s) where
  mutual
    unfolding AllNames

    pub AllNames-map : (s : Sum) → AllNames P s → AllNames Q s
    AllNames-map (sum_of v t) h = (AllTerm-map v h.0, AllTail-map t h.1)

    AllTail-map : (t : Tail) → AllTail P t → AllTail Q t
    AllTail-map no_tail h = tt
    AllTail-map (and_term v t) h = (AllTerm-map v h.0, AllTail-map t h.1)
    AllTail-map (or_term v t) h = (AllTerm-map v h.0, AllTail-map t h.1)

    AllTerm-map : (v : Term) → AllTerm P v → AllTerm Q v
    AllTerm-map (identity s) h = f s h
    AllTerm-map (group s) h = AllNames-map s h

module _ (f : Bytes → Result Bool) where
  -- the test answers
  abbrev pub Answers : Bytes → Type 0
  Answers s = (b : Bool) × (f s ≡ ok b)

  mutual
    unfolding AllNames apply_sum sum_node expr_node one2one many2many expr_value_node sum_loop

    apply_sum-returns : (s : Sum) → AllNames Answers s → (b : Bool) × (apply_sum f s ≡ ok (truth b))
    apply_sum-returns (sum_of v t) h =
        let (b, e) = apply_value-returns v h.0 in
        let (ns, q, loops) = apply_tail-returns t h.1 in let (c, r) = loops b in (c, rw (e, q) r)

    apply_tail-returns :
        (t : Tail)
        → AllTail Answers t
        → (ns : ParsecNodes) × (apply_tail f t ≡ ok ns)
          × ((v : Bool) → (b : Bool) × (sum_loop v ns ≡ ok (truth b)))
    apply_tail-returns no_tail h = (no_nodes, refl, λ v. (v, refl))
    apply_tail-returns (and_term v t) h =
        let (b, e) = apply_value-returns v h.0 in
        let (ns, q, loops) = apply_tail-returns t h.1 in
        (
          more (many (more (terminal and_name (38 ∷ [])) (more (truth b) no_nodes))) ns,
          rw (e, q) refl,
          λ w. loops (w && b),
        )
    apply_tail-returns (or_term v t) h =
        let (b, e) = apply_value-returns v h.0 in
        let (ns, q, loops) = apply_tail-returns t h.1 in
        (
          more (many (more (terminal or_name (124 ∷ [])) (more (truth b) no_nodes))) ns,
          rw (e, q) refl,
          λ w. loops (w || b),
        )

    apply_value-returns :
        (v : Term) → AllTerm Answers v → (b : Bool) × (apply_value f v ≡ ok (truth b))
    apply_value-returns (identity s) (b, e) = (b, rw e refl)
    apply_value-returns (group s) h = let (b, e) = apply_sum-returns s h in (b, rw e refl)

  pub evaluate-returns :
      (g : Grammar) (expr : Bytes)
      → ((s : Sum) → g.parse expr ≡ some s → AllNames Answers s)
      → evaluate f g expr ≢ panic
  unfolding evaluate run_parser one2one
  evaluate-returns g expr h = go (g.parse expr) (g.ended expr) h
    where
      go :
          (o : Option Sum) (ended : Bool)
          → ((s : Sum) → o ≡ some s → AllNames Answers s)
          → ((elim o [ none ↦ ok nil_node | some s ↦ run_parser f s ])
              >>= (λ v. if not ended then err scanner_not_empty else cast_bool v))
            ≢ panic
      go none false h e = cc
      go none true h e = cc
      go (some s) false h e = let (b, q) = apply_sum-returns s (h s refl) in cc (rw q at e)
      go (some s) true h e = let (b, q) = apply_sum-returns s (h s refl) in cc (rw q at e)
