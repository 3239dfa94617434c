-- ===== src/Collection/Proof/Steps.antt =====
-- The steps of a consistent proof end in the leaf that a search of the tree comes to.
use mathlib.Core.Bool.{false≢true}
use student_18_byzcoin.Bytes.{Bytes, equal, bit, zero_digest}
use student_18_byzcoin.Bytes.Equal.{equal→≡}
use student_18_byzcoin.Collection.Get.{get_at}
use student_18_byzcoin.Collection.Proof.{
  Dump, dump_leaf, Step, last_dump, dump_to_hash, dump_consistent, steps_consistent,
}
use student_18_byzcoin.Collection.Proof.Hashed.{Broken, hashed_alike}
use student_18_byzcoin.Common.{
  if◌then◌else◌, Bool-cases, ok, ok-injective, ℕ, suc, ◌≡◌, refl, sym, ap, ◌∙◌, subst, ◌⊎◌, inl,
  inr, Bool, true, false, not, ◌||◌, Option, none, some, List, [], ◌∷◌, arith,
}
use student_18_byzcoin.Hash.{ToHash, Hashing, hash}
use student_18_byzcoin.Node.{Content, Node, leaf, inner, Backup, content}
use student_18_byzcoin.SingleNode.{leaf_to_hash, inner_to_hash}

module _ ⦃H : Hashing⦄ where
  -- Every node that is known has the hash of its parts for a label.
  abbrev pub Labelled : Node → Type 0
  Labelled (leaf c b) = (c.known ≡ true) → c.label ≡ hash (leaf_to_hash c.key c.values)
  Labelled (inner c b l r) =
      (c.label ≡ hash (inner_to_hash c.values (content l).label (content r).label))
      × Labelled l
      × Labelled r

  -- the dump that the steps end in
  abbrev pub final : Bytes → ℕ → Dump → List Step → Option Dump
  final path depth d [] = some d
  final path depth d (s ∷ ss) = last_dump path depth (s ∷ ss)

  final-right :
      (path : Bytes) (depth : ℕ) (s : Step) (ss : List Step)
      → bit path depth ≡ some true
      → last_dump path depth (s ∷ ss) ≡ final path (suc depth) s.right ss
  unfolding last_dump
  final-right path depth s [] b = rw b refl
  final-right path depth s (t ∷ ss) b = refl

  final-left :
      (path : Bytes) (depth : ℕ) (s : Step) (ss : List Step)
      → bit path depth ≡ some false
      → last_dump path depth (s ∷ ss) ≡ final path (suc depth) s.left ss
  unfolding last_dump
  final-left path depth s [] b = rw b refl
  final-left path depth s (t ∷ ss) b = refl

  -- one step of a consistent proof
  record StepHolds (path : Bytes) (depth : ℕ) (d : Dump) (s : Step) (ss : List Step) : Type 0 where
    left_label : d.left ≡ s.left.label
    right_label : d.right ≡ s.right.label
    left_consistent : dump_consistent s.left ≡ true
    right_consistent : dump_consistent s.right ≡ true
    rest :
        ((bit path depth ≡ some true) × (steps_consistent path (suc depth) s.right ss ≡ some true))
        ⊎ ((bit path depth ≡ some false)
            × (steps_consistent path (suc depth) s.left ss ≡ some true))

  step_rest :
      (o : Option Bool) (x y : Option Bool)
      → ◌≡◌ {A = Option Bool} (elim o [ none ↦ none | some true ↦ x | some false ↦ y ]) (some true)
      → ((o ≡ some true) × (x ≡ some true)) ⊎ ((o ≡ some false) × (y ≡ some true))
  step_rest none x y e = cc
  step_rest (some true) x y e = inl (refl, e)
  step_rest (some false) x y e = inr (refl, e)

  step-holds :
      (path : Bytes) (depth : ℕ) (d : Dump) (s : Step) (ss : List Step)
      → steps_consistent path depth d (s ∷ ss) ≡ some true
      → StepHolds path depth d s ss
  unfolding steps_consistent
  step-holds path depth d s ss e =
      elim (Bool-cases (not (equal d.left s.left.label) || not (equal d.right s.right.label))) [
        | inl h ↦ absurd (cc (rw h at e))
        | inr h ↦
            elim (Bool-cases (not (dump_consistent s.left) || not (dump_consistent s.right))) [
              | inl g ↦ absurd (cc (rw (h, g) at e))
              | inr g ↦ record {
                left_label = equal→≡ d.left s.left.label (ground (arith, h));
                right_label = equal→≡ d.right s.right.label (ground (arith, h));
                left_consistent = ground (arith, g);
                right_consistent = ground (arith, g);
                rest = step_rest (bit path depth) _ _ (rw (h, g) at e);
              }
            ]
      ]

  consistent-label : (d : Dump) → dump_consistent d ≡ true → d.label ≡ hash (dump_to_hash d)
  unfolding dump_consistent
  consistent-label d h = equal→≡ d.label (hash (dump_to_hash d)) h

  -- a dump with the label of a leaf holds its key and values, and has no children
  leaf_dump :
      (d : Dump) (key : Bytes) (values : List Bytes)
      → dump_to_hash d ≡ leaf_to_hash key values
      → (d.left ≡ zero_digest) × (key ≡ d.key) × (values ≡ d.values)
  leaf_dump d key values e = elim (Bool-cases (dump_leaf d)) [
    | inr h ↦ absurd (false≢true (ap (λ (t : ToHash). t.is_leaf) (rw h at e)))
    | inl h ↦
        let q : leaf_to_hash d.key d.values ≡ leaf_to_hash key values = rw h at e in
        (
          unfold dump_leaf in equal→≡ d.left zero_digest (ground (arith, h)),
          sym (ap (λ (t : ToHash). t.key) q),
          sym (ap (λ (t : ToHash). t.values) q),
        )
  ]

  -- a dump with the label of an inner node holds the labels of its children
  inner_dump :
      (d : Dump) (values : List Bytes) (left right : Bytes)
      → dump_to_hash d ≡ inner_to_hash values left right
      → (dump_leaf d ≡ false) × (d.left ≡ left) × (d.right ≡ right)
  inner_dump d values left right e = elim (Bool-cases (dump_leaf d)) [
    | inl h ↦ absurd (false≢true (sym (ap (λ (t : ToHash). t.is_leaf) (rw h at e))))
    | inr h ↦
        let q : inner_to_hash d.values d.left d.right ≡ inner_to_hash values left right =
          rw h at e in
        (h, ap (λ (t : ToHash). t.left_label) q, ap (λ (t : ToHash). t.right_label) q)
  ]

  -- what a proof shows of a leaf
  abbrev pub Shows : Bytes → ℕ → Dump → List Step → Content → Type 0
  Shows path depth d ss c =
      (e : Dump) × (final path depth d ss ≡ some e) × (c.key ≡ e.key) × (c.values ≡ e.values)

  at_leaf :
      (path : Bytes) (depth : ℕ) (d : Dump) (ss : List Step) (c : Content)
      → dump_to_hash d ≡ leaf_to_hash c.key c.values
      → steps_consistent path depth d ss ≡ some true
      → Broken ⊎ Shows path depth d ss c
  at_leaf path depth d [] c e h =
      let (z, k, v) = leaf_dump d c.key c.values e in inr (d, refl, k, v)
  at_leaf path depth d (s ∷ ss) c e h =
      let (z, k, v) = leaf_dump d c.key c.values e in
      let w = step-holds path depth d s ss h in
      inl (
        inr (
          dump_to_hash s.left,
          sym (consistent-label s.left w.left_consistent) ∙ sym w.left_label ∙ z,
        ))

  inner_alike :
      (k : Content) (b : Backup) (l r : Node) (d : Dump)
      → Labelled (inner k b l r)
      → d.label ≡ k.label
      → dump_consistent d ≡ true
      → Broken
        ⊎ ((dump_leaf d ≡ false) × (d.left ≡ (content l).label) × (d.right ≡ (content r).label))
  inner_alike k b l r d lab e con =
      elim (hashed_alike (dump_to_hash d)
        (inner_to_hash k.values (content l).label (content r).label)
        (sym (consistent-label d con) ∙ e ∙ lab.0)) [
          | inl broken ↦ inl broken
          | inr alike ↦ inr (inner_dump d k.values (content l).label (content r).label alike)
        ]

  get_at-child :
      (path : Bytes) (k : Content) (b : Backup) (l r : Node) (depth : ℕ) (c : Content) (step : Bool)
      → bit path depth ≡ some step
      → get_at path depth (inner k b l r) ≡ ok c
      → get_at path (suc depth) (if step then r else l) ≡ ok c
  unfolding get_at
  get_at-child path k b l r depth c step bq g = elim (Bool-cases k.known) [
    | inr u ↦ absurd (cc (simp u at g))
    | inl u ↦ by_step u step bq
  ]
    where
      by_step :
          k.known ≡ true
          → (x : Bool) → bit path depth ≡ some x
          → get_at path (suc depth) (if x then r else l) ≡ ok c
      by_step u true q = simp (u, q) at g
      by_step u false q = simp (u, q) at g

  through :
      (path : Bytes) (depth : ℕ) (d : Dump) (s : Step) (ss : List Step) (c : Content) (next : Dump)
      → last_dump path depth (s ∷ ss) ≡ final path (suc depth) next ss
      → Broken ⊎ Shows path (suc depth) next ss c
      → Broken ⊎ Shows path depth d (s ∷ ss) c
  through path depth d s ss c next q (inl broken) = inl broken
  through path depth d s ss c next q (inr (e, f, kk, kv)) = inr (e, q ∙ f, kk, kv)

  -- From a node with the label of the dump, the steps end in the leaf that a search comes to.
  pub steps_sound :
      (path : Bytes) (n : Node) (depth : ℕ) (d : Dump) (ss : List Step) (c : Content)
      → Labelled n
      → d.label ≡ (content n).label
      → dump_consistent d ≡ true
      → steps_consistent path depth d ss ≡ some true
      → get_at path depth n ≡ ok c
      → Broken ⊎ Shows path depth d ss c
  unfolding get_at
  steps_sound path (leaf k b) depth d ss c lab e con h g = elim (Bool-cases k.known) [
    | inr u ↦ absurd (cc (simp u at g))
    | inl u ↦
        let q : k ≡ c = ok-injective (simp u at g) in
        elim (hashed_alike (dump_to_hash d) (leaf_to_hash k.key k.values)
          (sym (consistent-label d con) ∙ e ∙ lab u)) [
            | inl broken ↦ inl broken
            | inr alike ↦
                subst (λ x. Broken ⊎ Shows path depth d ss x) q (at_leaf path depth d ss k alike h)
          ]
  ]
  steps_sound path (inner k b l r) depth d [] c lab e con h g =
      elim (inner_alike k b l r d lab e con) [
        | inl broken ↦ inl broken
        | inr (no_leaf, left, right) ↦
            let z : some (dump_leaf d) ≡ some true = unfold steps_consistent in h in
            let y : dump_leaf d ≡ true = cc in absurd (false≢true (sym no_leaf ∙ y))
      ]
  steps_sound path (inner k b l r) depth d (s ∷ ss) c lab e con h g =
      let w = step-holds path depth d s ss h in
      elim (inner_alike k b l r d lab e con) [
        | inl broken ↦ inl broken
        | inr (no_leaf, left, right) ↦ elim w.rest [
          | inl (bq, rest) ↦ through path depth d s ss c s.right (final-right path depth s ss bq) (
              steps_sound path r (suc depth) s.right ss c lab.2 (sym w.right_label ∙ right)
                w.right_consistent rest (get_at-child path k b l r depth c true bq g))
          | inr (bq, rest) ↦ through path depth d s ss c s.left (final-left path depth s ss bq) (
              steps_sound path l (suc depth) s.left ss c lab.1 (sym w.left_label ∙ left)
                w.left_consistent rest (get_at-child path k b l r depth c false bq g))
        ]
      ]
