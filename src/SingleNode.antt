-- ===== src/SingleNode.antt =====
-- omniledger/collection/singlenode.go: the values and the label of one node.
use student_18_byzcoin.Bytes.{Bytes, zero_digest}
use student_18_byzcoin.Common.{
  if◌then◌else◌, updating_unknown_node, unknown_children, ok, err, panic, Outcome, done, fail,
  crash, map_outcome, length, replicate, suc, true, false, not, ◌||◌, List, [], ◌∷◌, map,
}
use student_18_byzcoin.Field.{Field}
use student_18_byzcoin.Hash.{ToHash, Hashing, hash}
use student_18_byzcoin.Node.{Node, leaf, inner, content, write, backup_of}

abbrev pub leaf_to_hash : Bytes → List Bytes → ToHash
leaf_to_hash key values = record {
  is_leaf = true;
  key = key;
  values = values;
  left_label = zero_digest;
  right_label = zero_digest;
}

abbrev pub inner_to_hash : List Bytes → Bytes → Bytes → ToHash
inner_to_hash values left right = record {
  is_leaf = false;
  key = [];
  values = values;
  left_label = left;
  right_label = right;
}

-- one more value at the front of what the loop has written
abbrev pub cons_value : Bytes → Outcome (List Bytes) → Outcome (List Bytes)
cons_value v = map_outcome (λ vs. v ∷ vs)

-- The loop of `update` over the fields. The slice is made first, so a `Parent` that fails leaves
-- nil in its place and in those that follow. A child with too few values is an index out of range.
unfoldable pub parent_values : List Field → List Bytes → List Bytes → Outcome (List Bytes)
parent_values [] ls rs = done []
parent_values (f ∷ fs) (l ∷ ls) (r ∷ rs) = elim (f.parent l r) [
  | ok v ↦ cons_value v (parent_values fs ls rs)
  | err e ↦ fail e (replicate (suc (length fs)) [])
  | panic ↦ crash
]
parent_values (f ∷ fs) _ _ = crash

module _ ⦃H : Hashing⦄ where
  -- node.generateHash
  abbrev pub generate_hash : Node → Bytes
  generate_hash (leaf c b) = hash (leaf_to_hash c.key c.values)
  generate_hash (inner c b l r) = hash (inner_to_hash c.values (content l).label (content r).label)

  -- node.label = node.generateHash()
  abbrev pub relabel : Node → Node
  relabel n = write (λ c. record c { label = generate_hash n }) n

  -- Collection.update, of a node whose children are told apart
  unfoldable pub update : List Field → Node → Outcome Node
  unfolding parent_values
  update fields (leaf c b) =
      if c.known then done (relabel (leaf c b)) else fail updating_unknown_node (leaf c b)
  update fields (inner c b l r) =
      if not c.known
      then fail updating_unknown_node (inner c b l r)
      else if not (content l).known || not (content r).known
      then fail unknown_children (inner c b l r)
      else elim (parent_values fields (content l).values (content r).values) [
        | done vs ↦ done (relabel (inner (record c { values = vs }) b l r))
        | fail e vs ↦ fail e (inner (record c { values = vs }) b l r)
        | crash ↦ crash
      ]

  -- the node as `setPlaceholder` hands it to `update`: its children are cut off
  abbrev pub as_placeholder : List Field → Node → Node
  as_placeholder fields n =
      leaf
        (record (content n) {
          known = true;
          key = [];
          values = map (λ (f : Field). f.placeholder) fields;
        })
        (backup_of n)

  -- Collection.setPlaceholder
  unfoldable pub set_placeholder : List Field → Node → Outcome Node
  unfolding update
  set_placeholder fields n = update fields (as_placeholder fields n)
