-- ===== src/Expression/Denotes.antt =====
-- What an expression means: its operators take the value so far and the next one, from left to right,
-- whichever they are.
use student_18_byzcoin.Bytes.{Bytes}
use student_18_byzcoin.Common.{Result, panic, err, ok, ◌>>=◌, ◌≡◌, refl, Bool, ◌&&◌, ◌||◌, [], ◌∷◌}
use student_18_byzcoin.Expression.{
  TokenName, and_name, or_name, ParsecNode, truth, terminal, many, ParsecNodes, no_nodes, more, Sum,
  sum_of, Tail, no_tail, and_term, or_term, Term, identity, group, combine, sum_loop, sum_node,
  expr_node, one2one, many2many, expr_value_node, apply_sum, apply_tail, apply_value,
}

module _ (p : Bytes → Bool) where
  unfoldable mutual
    pub denote : Sum → Bool
    denote (sum_of v t) = denote_tail (denote_term v) t

    pub denote_tail : Bool → Tail → Bool
    denote_tail val no_tail = val
    denote_tail val (and_term v t) = denote_tail (val && denote_term v) t
    denote_tail val (or_term v t) = denote_tail (val || denote_term v) t

    pub denote_term : Term → Bool
    denote_term (identity s) = p s
    denote_term (group s) = denote s

  abbrev fn : Bytes → Result Bool
  fn s = ok (p s)

  -- the nodes of the tail, folded from a value
  abbrev folds : Bool → Result ParsecNodes → Result ParsecNode
  folds val r = r >>= sum_loop val

  next_node :
      (name : TokenName) (text : Bytes) (val n : Bool) (r : Result ParsecNodes)
      (result : Result ParsecNode)
      → folds (combine name val n) r ≡ result
      → folds val
          (r >>= (λ ts. ok (more (many (more (terminal name text) (more (truth n) no_nodes))) ts)))
        ≡ result
  unfolding sum_loop
  next_node name text val n (ok ts) result e = e
  next_node name text val n (err x) result e = e
  next_node name text val n panic result e = e

  mutual
    unfolding apply_sum sum_node expr_node one2one many2many expr_value_node sum_loop denote

    pub apply_sum-denote : (s : Sum) → apply_sum fn s ≡ ok (truth (denote s))
    apply_sum-denote (sum_of v t) =
        rw (apply_value-denote v) (by_nodes (apply_tail fn t) (apply_tail-denote (denote_term v) t))
      where
        by_nodes :
            (r : Result ParsecNodes)
            → folds (denote_term v) r ≡ ok (truth (denote_tail (denote_term v) t))
            → (r >>= (λ ts. sum_node (more (truth (denote_term v)) (more (many ts) no_nodes))))
              ≡ ok (truth (denote_tail (denote_term v) t))
        by_nodes (ok ts) e = e
        by_nodes (err x) e = cc
        by_nodes panic e = cc

    pub apply_tail-denote :
        (val : Bool) (t : Tail) → folds val (apply_tail fn t) ≡ ok (truth (denote_tail val t))
    apply_tail-denote val no_tail = refl
    apply_tail-denote val (and_term v t) = rw (apply_value-denote v) (
        next_node and_name (38 ∷ []) val (denote_term v) (apply_tail fn t) _
          (apply_tail-denote (val && denote_term v) t))
    apply_tail-denote val (or_term v t) = rw (apply_value-denote v) (
        next_node or_name (124 ∷ []) val (denote_term v) (apply_tail fn t) _
          (apply_tail-denote (val || denote_term v) t))

    pub apply_value-denote : (v : Term) → apply_value fn v ≡ ok (truth (denote_term v))
    apply_value-denote (identity s) = refl
    apply_value-denote (group s) = rw (apply_sum-denote s) refl
