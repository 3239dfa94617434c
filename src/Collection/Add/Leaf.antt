-- ===== src/Collection/Add/Leaf.antt =====
-- The end of the walk of `Add`: a placeholder takes the record, a leaf with another key is split.
use student_18_byzcoin.Bytes.{Bytes}
use student_18_byzcoin.Collection.Add.{moved_leaf, split, fill}
use student_18_byzcoin.Collection.Shape.{shape_leaf, shape, WellFormed, Simulates}
use student_18_byzcoin.Collection.Walk.{backup_if}
use student_18_byzcoin.Common.{
  if◌then◌else◌, Outcome, done, crash, and_then, length, length-map, ℕ, ◌≡◌, refl, ap, ◌∙◌, subst,
  ◌≢◌, Bool, true, false, Option, none, some, List, [], ◌∷◌, map,
}
use student_18_byzcoin.Field.{Field}
use student_18_byzcoin.Hash.{Hashing, hash}
use student_18_byzcoin.Node.{
  Content, Node, leaf, inner, Backup, unsaved, new_content, content, backup,
}
use student_18_byzcoin.SingleNode.{leaf_to_hash}
use student_18_byzcoin.Trie.{Trie, vacant, entry, fork}

pub shape_leaf-entry :
    (key : Bytes) (vs : List Bytes) → key ≢ [] → shape_leaf true key vs ≡ entry key vs
shape_leaf-entry [] vs h = absurd (h refl)
shape_leaf-entry (k ∷ key) vs h = refl

pub backup_if-leaf :
    (ongoing : Bool) (c : Content) (b : Backup)
    → (b' : Backup) × (backup_if ongoing (leaf c b) ≡ leaf c b')
unfolding backup
backup_if-leaf true c b = (_, refl)
backup_if-leaf false c b = (b, refl)

module _ ⦃H : Hashing⦄ (ongoing : Bool) (fields : List Field) where
  module _ (key : Bytes) (raws : List Bytes) (named : key ≢ [])
      (sized : length raws ≡ length fields) where
    filled :
        (c : Content) (b : Backup)
        → c.known ≡ true
        → (d : Content) × (b' : Backup) × (fill ongoing fields key raws (leaf c b)
            ≡ done (leaf d b'))
          × (d.known ≡ true)
          × (d.key ≡ key)
          × (d.values ≡ raws)
    unfolding fill
    filled c b k =
        let (b', e) = backup_if-leaf ongoing c b in
        (
          record c { label = hash (leaf_to_hash key raws); key = key; values = raws },
          b',
          simp (e, k),
          k,
          refl,
          refl,
        )

    pub fill-Simulates :
        (c : Content) (b : Backup)
        → c.known ≡ true
        → Simulates fields (fill ongoing fields key raws (leaf c b)) (done (entry key raws))
    unfolding shape
    fill-Simulates c b k =
        let (d, b', e, dk, dn, dv) = filled c b k in
        record {
          shapes = rw e (ap done (simp (dk, dn, dv) (shape_leaf-entry key raws named)));
          well_formed = rw e (λ _. ap length dv ∙ sized);
          known = rw e dk;
        }

  -- the placeholder beside the record that moves down
  abbrev vacant_content : Content
  vacant_content = record new_content {
    known = true;
    values = map (λ (f : Field). f.placeholder) fields;
    label = hash (leaf_to_hash [] (map (λ (f : Field). f.placeholder) fields));
  }

  abbrev split_node : Bool → Content → Backup → Content → Node
  split_node true k b c = inner k b (leaf vacant_content unsaved) (moved_leaf c)
  split_node false k b c = inner k b (moved_leaf c) (leaf vacant_content unsaved)

  split_done :
      (step : Bool) (c : Content) (b : Backup)
      → (b' : Backup) × (split ongoing fields (some step) c b
          ≡ done (split_node step (record c { key = [] }) b' c))
  unfolding split
  split_done true c b = let (b', e) = backup_if-leaf ongoing c b in (b', simp e)
  split_done false c b = let (b', e) = backup_if-leaf ongoing c b in (b', simp e)

  vacant_content-WellFormed : WellFormed fields (leaf vacant_content unsaved)
  vacant_content-WellFormed _ = length-map (λ (f : Field). f.placeholder) fields

  split_node-WellFormed :
      (step : Bool) (c : Content) (b : Backup)
      → c.known ≡ true
      → length c.values ≡ length fields
      → WellFormed fields (split_node step (record c { key = [] }) b c)
  split_node-WellFormed true c b k l = (k, l, vacant_content-WellFormed, λ _. l)
  split_node-WellFormed false c b k l = (k, l, (λ _. l), vacant_content-WellFormed)

  shape-split_node :
      (step : Bool) (c : Content) (b : Backup) (x : ℕ) (xs : Bytes)
      → c.key ≡ x ∷ xs
      → shape (split_node step (record c { key = [] }) b c)
        ≡ (if step then fork vacant (entry c.key c.values) else fork (entry c.key c.values) vacant)
  unfolding shape
  shape-split_node true c b x xs e = simp e
  shape-split_node false c b x xs e = simp e

  -- The turns that follow do on every known node what the trie's do.
  abbrev pub GoSimulates : (Node → Outcome Node) → (Trie → Outcome Trie) → Type 0
  GoSimulates go go' =
      (n : Node)
      → WellFormed fields n
      → (content n).known ≡ true
      → Simulates fields (go n) (go' (shape n))

  pub split-Simulates :
      (go : Node → Outcome Node) (go' : Trie → Outcome Trie) (o : Option Bool) (c : Content)
      (b : Backup) (x : ℕ) (xs : Bytes)
      → GoSimulates go go'
      → c.key ≡ x ∷ xs
      → c.known ≡ true
      → length c.values ≡ length fields
      → Simulates fields (and_then (split ongoing fields o c b) go) (elim o [
        | none ↦ crash
        | some true ↦ go' (fork vacant (entry c.key c.values))
        | some false ↦ go' (fork (entry c.key c.values) vacant)
      ])
  split-Simulates go go' none c b x xs s e k l =
      unfold split in record { shapes = refl; well_formed = tt; known = tt }
  split-Simulates go go' (some true) c b x xs s e k l =
      let (b', d) = split_done true c b in
      rw d (
        subst (λ t. Simulates fields (go (split_node true (record c { key = [] }) b' c)) (go' t))
          (shape-split_node true c b' x xs e) (s _ (split_node-WellFormed true c b' k l) k))
  split-Simulates go go' (some false) c b x xs s e k l =
      let (b', d) = split_done false c b in
      rw d (
        subst (λ t. Simulates fields (go (split_node false (record c { key = [] }) b' c)) (go' t))
          (shape-split_node false c b' x xs e) (s _ (split_node-WellFormed false c b' k l) k))
