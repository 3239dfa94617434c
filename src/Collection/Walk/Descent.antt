-- ===== src/Collection/Walk/Descent.antt =====
-- The walk of `Set` and `Remove` on nodes is a walk on tries.
use student_18_byzcoin.Bytes.{Bytes, bit}
use student_18_byzcoin.Collection.Shape.{
  shape_leaf, shape, WellFormed, Simulates, shape-inner, known-shape,
}
use student_18_byzcoin.Collection.Walk.{hides_child, walk}
use student_18_byzcoin.Collection.Walk.Simulates.{UpSimulates, turn-Simulates}
use student_18_byzcoin.Common.{
  Bool-cases, unknown_subtree, Outcome, fail, ℕ, suc, ◌≡◌, refl, ap, ◌∙◌, inl, inr, Bool, true,
  false, ◌||◌, List, [], ◌∷◌, arith,
}
use student_18_byzcoin.Field.{Field}
use student_18_byzcoin.Node.{Content, Node, leaf, inner, Backup, content}
use student_18_byzcoin.Trie.{Trie, fork, hidden?, change_at}

-- A known leaf changes as the trie at its place does.
abbrev pub LeafSimulates :
    List Field → (Content → Backup → Outcome Node) → (Trie → Outcome Trie) → Type 0
LeafSimulates fields at_leaf at =
    (c : Content) (b : Backup)
    → WellFormed fields (leaf c b)
    → c.known ≡ true
    → Simulates fields (at_leaf c b) (at (shape (leaf c b)))

module _ (fields : List Field) (path : Bytes) (at_leaf : Content → Backup → Outcome Node)
    (at : Trie → Outcome Trie) (up : ℕ → Node → Outcome Node) (join : ℕ → Trie → Trie → Trie)
    (leaves : LeafSimulates fields at_leaf at)
    (ups : (depth : ℕ) → UpSimulates fields (up depth) (join depth)) where
  change_at-shape_leaf :
      (depth : ℕ) (known : Bool) (key : Bytes) (vs : List Bytes)
      → change_at path at join depth (shape_leaf known key vs) ≡ at (shape_leaf known key vs)
  unfolding change_at
  change_at-shape_leaf depth false key vs = refl
  change_at-shape_leaf depth true [] vs = refl
  change_at-shape_leaf depth true (x ∷ key) vs = refl

  leaf-Simulates :
      (depth : ℕ) (c : Content) (b : Backup)
      → WellFormed fields (leaf c b)
      → c.known ≡ true
      → Simulates fields
          (walk path at_leaf up depth (leaf c b))
          (change_at path at join depth (shape (leaf c b)))
  unfolding walk shape
  leaf-Simulates depth c b w k =
      rw (change_at-shape_leaf depth c.known c.key c.values) (leaves c b w k)

  inner-Simulates :
      (depth : ℕ) (c : Content) (b : Backup) (l r : Node)
      → WellFormed fields (inner c b l r)
      → ((content l).known ≡ true
          → Simulates fields
              (walk path at_leaf up (suc depth) l)
              (change_at path at join (suc depth) (shape l)))
      → ((content r).known ≡ true
          → Simulates fields
              (walk path at_leaf up (suc depth) r)
              (change_at path at join (suc depth) (shape r)))
      → Simulates fields
          (walk path at_leaf up depth (inner c b l r))
          (change_at path at join depth (fork (shape l) (shape r)))
  unfolding walk change_at
  inner-Simulates depth c b l r w hl hr =
      let q : (hidden? (shape l) || hidden? (shape r)) ≡ hides_child l r =
        rw (known-shape fields l w.2, known-shape fields r w.3) refl in
      elim (Bool-cases (hides_child l r)) [
        | inl h ↦
            rw (h, q ∙ h)
              (record {
                shapes = ap (fail unknown_subtree) (shape-inner c b l r);
                well_formed = w;
                known = w.0;
              })
        | inr h ↦
            rw (h, q ∙ h)
              (turn-Simulates fields (up depth) (join depth) (ups depth) (bit path depth) c b l r _
                _ _ _ w h (hl (ground (arith, h))) (hr (ground (arith, h))))
      ]

  -- From a known node of a well-formed tree the walk changes the trie as `change_at` does, on every
  -- branch.
  pub walk-Simulates :
      (depth : ℕ) (n : Node)
      → WellFormed fields n
      → (content n).known ≡ true
      → Simulates fields (walk path at_leaf up depth n) (change_at path at join depth (shape n))
  walk-Simulates depth (leaf c b) w k = leaf-Simulates depth c b w k
  walk-Simulates depth (inner c b l r) w k = rw (shape-inner c b l r) (
      inner-Simulates depth c b l r w (walk-Simulates (suc depth) l w.2)
        (walk-Simulates (suc depth) r w.3))
