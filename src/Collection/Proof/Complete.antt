-- ===== src/Collection/Proof/Complete.antt =====
-- The proof that a collection gives for a key is consistent.
use student_18_byzcoin.Bytes.{Bytes, bit, zero_digest}
use student_18_byzcoin.Bytes.Equal.{≡→equal}
use student_18_byzcoin.Collection.Proof.{
  Dump, dump_node, dump_leaf, Step, Proof, steps_at, dump_consistent, steps_consistent, consistent,
  get_proof,
}
use student_18_byzcoin.Collection.Proof.Steps.{Labelled}
use student_18_byzcoin.Collection.State.{Collection}
use student_18_byzcoin.Collection.Walk.{hides_child}
use student_18_byzcoin.Common.{
  ◌==◌, if◌then◌else◌, not-false, empty_key, unknown_subtree, Result, panic, ok, ◌>>=◌, bind-ok,
  guarded-ok, ok-injective, length, ℕ, suc, ◌≡◌, refl, sym, ap, subst, Bool, true, false, not,
  Option, none, some, List, [], ◌∷◌, arith,
}
use student_18_byzcoin.Hash.{Hashing, sum256}
use student_18_byzcoin.Node.{Content, Node, leaf, inner, Backup, content, leaf?}

module _ ⦃H : Hashing⦄ where
  -- No inner node has two children with labels of zeros only, which would make its dump that of a leaf.
  abbrev pub Marked : Node → Type 0
  Marked (leaf c b) = Unit
  Marked (inner c b l r) = (dump_leaf (dump_node (inner c b l r)) ≡ false) × Marked l × Marked r

  dump_node-consistent :
      (n : Node)
      → Labelled n
      → Marked n
      → (content n).known ≡ true
      → dump_consistent (dump_node n) ≡ true
  unfolding dump_consistent dump_node
  dump_node-consistent (leaf c b) h m k =
      let no_children : dump_leaf (dump_node (leaf c b)) ≡ true =
        unfold dump_leaf in (rw (≡→equal (refl {a = zero_digest})) refl) in
      rw no_children (≡→equal (h k))
  dump_node-consistent (inner c b l r) h m k = rw m.0 (≡→equal h.0)

  label-dump_node : (n : Node) → (dump_node n).label ≡ (content n).label
  unfolding dump_node
  label-dump_node (leaf c b) = refl
  label-dump_node (inner c b l r) = refl

  -- the turn of the loop of Consistent for a step with the labels of the cursor
  step-consistent :
      (path : Bytes) (depth : ℕ) (cursor : Dump) (s : Step) (ss : List Step) (x : Bool)
      → cursor.left ≡ s.left.label
      → cursor.right ≡ s.right.label
      → dump_consistent s.left ≡ true
      → dump_consistent s.right ≡ true
      → bit path depth ≡ some x
      → steps_consistent path (suc depth) (if x then s.right else s.left) ss ≡ some true
      → steps_consistent path depth cursor (s ∷ ss) ≡ some true
  unfolding steps_consistent
  step-consistent path depth cursor s ss true l r dl dr b h =
      rw (≡→equal l) (rw (≡→equal r) (rw dl (rw dr (rw b h))))
  step-consistent path depth cursor s ss false l r dl dr b h =
      rw (≡→equal l) (rw (≡→equal r) (rw dl (rw dr (rw b h))))

  -- the step of Getter.Proof below a node, by the side it goes to, with the steps of the child
  abbrev one_step : Node → Node → Result (List Step) → Result (List Step)
  one_step l r below =
      below >>= λ rest. ok (record { left = dump_node l; right = dump_node r } ∷ rest)

  abbrev steps_of_child : Bytes → ℕ → Node → Result (List Step)
  steps_of_child path depth n = if leaf? n then ok [] else steps_at path depth n

  steps_at-inverse :
      (path : Bytes) (depth : ℕ) (c : Content) (b : Backup) (l r : Node) (ss : List Step)
      → steps_at path depth (inner c b l r) ≡ ok ss
      → (x : Bool) × (rest : List Step) × (bit path depth ≡ some x)
        × ((content l).known ≡ true)
        × ((content r).known ≡ true)
        × (steps_of_child path (suc depth) (if x then r else l) ≡ ok rest)
        × (ss ≡ record { left = dump_node l; right = dump_node r } ∷ rest)
  unfolding steps_at
  steps_at-inverse path depth c b l r ss e =
      let (known, e1) = guarded-ok (hides_child l r) unknown_subtree _ e in
      by_bit known (bit path depth) e1
    where
      after :
          (x : Bool)
          → hides_child l r ≡ false
          → one_step l r (steps_of_child path (suc depth) (if x then r else l)) ≡ ok ss
          → (rest : List Step) × ((content l).known ≡ true)
            × ((content r).known ≡ true)
            × (steps_of_child path (suc depth) (if x then r else l) ≡ ok rest)
            × (ss ≡ record { left = dump_node l; right = dump_node r } ∷ rest)
      after x known q =
          let (rest, is, made) =
            bind-ok (steps_of_child path (suc depth) (if x then r else l)) _ q in
          (rest, ground (arith, known), ground (arith, known), is, sym (ok-injective made))

      by_bit :
          hides_child l r ≡ false
          → (o : Option Bool)
          → (elim o [
            | none ↦ panic
            | some true ↦ one_step l r (steps_of_child path (suc depth) r)
            | some false ↦ one_step l r (steps_of_child path (suc depth) l)
          ])
            ≡ ok ss
          → (x : Bool) × (rest : List Step) × (o ≡ some x)
            × ((content l).known ≡ true)
            × ((content r).known ≡ true)
            × (steps_of_child path (suc depth) (if x then r else l) ≡ ok rest)
            × (ss ≡ record { left = dump_node l; right = dump_node r } ∷ rest)
      by_bit known none q = cc
      by_bit known (some true) q =
          let (rest, kl, kr, is, made) = after true known q in (true, rest, refl, kl, kr, is, made)
      by_bit known (some false) q =
          let (rest, kl, kr, is, made) = after false known q in
          (false, rest, refl, kl, kr, is, made)

  -- the steps from a node are consistent with its dump
  steps_at-consistent :
      (path : Bytes) (depth : ℕ) (n : Node) (ss : List Step)
      → Labelled n
      → Marked n
      → steps_of_child path depth n ≡ ok ss
      → steps_consistent path depth (dump_node n) ss ≡ some true
  steps_at-consistent path depth (leaf c b) ss h m e =
      subst (λ (xs : List Step). steps_consistent path depth (dump_node (leaf c b)) xs ≡ some true)
        (ok-injective e)
        (unfold steps_consistent dump_leaf dump_node in
          (rw (≡→equal (refl {a = zero_digest})) refl))
  steps_at-consistent path depth (inner c b l r) ss h m e =
      let (x, rest, b', kl, kr, is, made) = steps_at-inverse path depth c b l r ss e in
      subst
        (λ (xs : List Step). steps_consistent path depth (dump_node (inner c b l r)) xs ≡ some true)
        (sym made)
        (step-consistent path depth (dump_node (inner c b l r)) _ rest x
          (unfold dump_node in sym (label-dump_node l))
          (unfold dump_node in sym (label-dump_node r)) (dump_node-consistent l h.1 m.1 kl)
          (dump_node-consistent r h.2 m.2 kr) b'
          (below x is (λ ss q. steps_at-consistent path (suc depth) r ss h.2 m.2 q)
            (λ ss q. steps_at-consistent path (suc depth) l ss h.1 m.1 q)))
    where
      below :
          (x : Bool) {rest : List Step}
          → steps_of_child path (suc depth) (if x then r else l) ≡ ok rest
          → ((ss : List Step)
              → steps_of_child path (suc depth) r ≡ ok ss
              → steps_consistent path (suc depth) (dump_node r) ss ≡ some true)
          → ((ss : List Step)
              → steps_of_child path (suc depth) l ≡ ok ss
              → steps_consistent path (suc depth) (dump_node l) ss ≡ some true)
          → steps_consistent path (suc depth) (if x then dump_node r else dump_node l) rest
            ≡ some true
      below true q right left = right _ q
      below false q right left = left _ q

  steps-not_empty :
      (path : Bytes) (n : Node) (ss : List Step)
      → steps_at path 0 n ≡ ok ss
      → (length ss == 0) ≡ false
  unfolding steps_at-inverse
  steps-not_empty path (leaf c b) ss e = absurd (unfold steps_at in cc)
  steps-not_empty path (inner c b l r) ss e =
      let (x, rest, b', kl, kr, is, made) = steps_at-inverse path 0 c b l r ss e in
      rw made (ground arith)

  steps-from_root :
      (path : Bytes) (n : Node) (ss : List Step)
      → steps_at path 0 n ≡ ok ss
      → steps_of_child path 0 n ≡ ok ss
  steps-from_root path (leaf c b) ss e = absurd (unfold steps_at in cc)
  steps-from_root path (inner c b l r) ss e = e

  shown-consistent :
      (c : Collection) (key : Bytes) (ss : List Step)
      → Labelled c.root
      → Marked c.root
      → (content c.root).known ≡ true
      → steps_at (sum256 key) 0 c.root ≡ ok ss
      → consistent (record { key = key; root = dump_node c.root; steps = ss; fields = c.fields })
        ≡ some true
  unfolding consistent
  shown-consistent c key ss h m known made = rw (steps-not_empty (sum256 key) c.root ss made) (
      rw (dump_node-consistent c.root h m known) (
        steps_at-consistent (sum256 key) 0 c.root ss h m
          (steps-from_root (sum256 key) c.root ss made)))

  -- A proof that a collection gives for a key is consistent, and its root is the dump of the root
  -- of the tree, if every known node has the hash of its parts for a label, and no inner node has
  -- two children whose labels are all zeros.
  pub get_proof-consistent :
      (c : Collection) (key : Bytes) (p : Proof)
      → Labelled c.root
      → Marked c.root
      → get_proof c key ≡ ok p
      → (consistent p ≡ some true) × (p.root ≡ dump_node c.root)
  unfolding get_proof
  get_proof-consistent c key p h m e =
      let (named, e1) = guarded-ok (length key == 0) empty_key _ e in
      let (known, e2) = guarded-ok (not (content c.root).known) unknown_subtree _ e1 in
      let (ss, made, e3) = bind-ok (steps_at (sum256 key) 0 c.root) _ e2 in
      let q = ok-injective e3 in
      (
        subst (λ (x : Proof). consistent x ≡ some true) q
            (shown-consistent c key ss h m (not-false _ known) made),
        ap (λ (x : Proof). x.root) (sym q),
      )
