-- ===== src/Collection/Add/Refines.antt =====
-- `Add` on nodes inserts into the trie, on every branch.
use student_18_byzcoin.Bytes.{Bytes, equal, bit}
use student_18_byzcoin.Collection.Add.{split, fill, arrive, add_at}
use student_18_byzcoin.Collection.Add.Leaf.{fill-Simulates, GoSimulates, split-Simulates}
use student_18_byzcoin.Collection.Shape.{
  shape_leaf, shape, WellFormed, Safe, Simulates, shape-inner, known-shape,
}
use student_18_byzcoin.Collection.Walk.{hides_child, ascend}
use student_18_byzcoin.Collection.Walk.Simulates.{turn-Simulates, ascend-Simulates}
use student_18_byzcoin.Common.{
  ◌==◌, if◌then◌else◌, Bool-cases, key_collision, Outcome, fail, crash, and_then, length, ℕ, zero,
  suc, ◌≡◌, refl, sym, ap, ◌∙◌, ◌≢◌, inl, inr, Bool, true, false, ◌||◌, List, [], ◌∷◌, arith,
}
use student_18_byzcoin.Field.{Field}
use student_18_byzcoin.Hash.{Hashing, sum256}
use student_18_byzcoin.Node.{Content, Node, leaf, inner, Backup, content}
use student_18_byzcoin.Trie.{Trie, vacant, entry, fork, hidden?, enter, insert_at}

module _ ⦃H : Hashing⦄ (ongoing : Bool) (fields : List Field) (safe : Safe fields) (key : Bytes)
    (raws : List Bytes) (named : key ≢ []) (sized : length raws ≡ length fields) where
  arrive-vacant :
      (go : Node → Outcome Node) (depth : ℕ) (c : Content) (b : Backup)
      → c.key ≡ []
      → arrive ongoing fields key raws go depth (leaf c b) ≡ fill ongoing fields key raws (leaf c b)
  unfolding arrive
  arrive-vacant go depth c b e = simp e

  arrive-taken :
      (go : Node → Outcome Node) (depth : ℕ) (c : Content) (b : Backup) (x : ℕ) (xs : Bytes)
      → c.key ≡ x ∷ xs
      → arrive ongoing fields key raws go depth (leaf c b) ≡ (
          if equal key c.key
          then fail key_collision (leaf c b)
          else and_then (split ongoing fields (bit (sum256 c.key) depth) c b) go)
  unfolding arrive
  arrive-taken go depth c b x xs e =
      let q : (length c.key == 0) ≡ false = ground (arith, ap length e) in rw q refl

  shape-vacant :
      (c : Content) (b : Backup) → c.known ≡ true → c.key ≡ [] → shape (leaf c b) ≡ vacant
  unfolding shape
  shape-vacant c b k e = simp (k, e)

  shape-taken :
      (c : Content) (b : Backup) (x : ℕ) (xs : Bytes)
      → c.known ≡ true
      → c.key ≡ x ∷ xs
      → shape (leaf c b) ≡ entry c.key c.values
  unfolding shape
  shape-taken c b x xs k e = simp (k, e)

  taken-Simulates :
      (go : Node → Outcome Node) (go' : Trie → Outcome Trie) (depth : ℕ) (c : Content) (b : Backup)
      (x : ℕ) (xs : Bytes)
      → GoSimulates ongoing fields go go'
      → WellFormed fields (leaf c b)
      → c.known ≡ true
      → c.key ≡ x ∷ xs
      → Simulates fields
          (arrive ongoing fields key raws go depth (leaf c b))
          (enter key raws go' depth (entry c.key c.values))
  taken-Simulates go go' depth c b x xs s w k e = rw (arrive-taken go depth c b x xs e) (
      unfold enter in
      elim (Bool-cases (equal key c.key)) [
        | inl same_key ↦ rw same_key (record {
          shapes = ap (fail key_collision) (shape-taken c b x xs k e);
          well_formed = w;
          known = k;
        })
        | inr other ↦
            rw other (
              split-Simulates ongoing fields go go' (bit (sum256 c.key) depth) c b x xs s e k (w k))
      ])

  arrive-Simulates :
      (go : Node → Outcome Node) (go' : Trie → Outcome Trie) (depth : ℕ) (n : Node)
      → GoSimulates ongoing fields go go'
      → WellFormed fields n
      → (content n).known ≡ true
      → Simulates fields
          (arrive ongoing fields key raws go depth n)
          (enter key raws go' depth (shape n))
  arrive-Simulates go go' depth (inner c b l r) s w k =
      unfold arrive enter shape in s (inner c b l r) w k
  arrive-Simulates go go' depth (leaf c b) s w k = by_key c.key refl
    where
      by_key :
          (k0 : Bytes)
          → c.key ≡ k0
          → Simulates fields
              (arrive ongoing fields key raws go depth (leaf c b))
              (enter key raws go' depth (shape (leaf c b)))
      by_key [] e =
          rw (arrive-vacant go depth c b e, shape-vacant c b k e)
            (unfold enter in fill-Simulates ongoing fields key raws named sized c b k)
      by_key (x ∷ xs) e =
          rw (shape-taken c b x xs k e) (taken-Simulates go go' depth c b x xs s w k e)

  insert_at-leaf :
      (fuel depth : ℕ) (known : Bool) (k : Bytes) (vs : List Bytes)
      → insert_at key raws (suc fuel) depth (shape_leaf known k vs) ≡ crash
  unfolding insert_at
  insert_at-leaf fuel depth false k vs = refl
  insert_at-leaf fuel depth true [] vs = refl
  insert_at-leaf fuel depth true (x ∷ k) vs = refl

  add_turn-Simulates :
      (fuel depth : ℕ) (c : Content) (b : Backup) (l r : Node)
      → GoSimulates ongoing fields
          (add_at ongoing fields key raws fuel (suc depth))
          (insert_at key raws fuel (suc depth))
      → WellFormed fields (inner c b l r)
      → Simulates fields
          (add_at ongoing fields key raws (suc fuel) depth (inner c b l r))
          (insert_at key raws (suc fuel) depth (fork (shape l) (shape r)))
  add_turn-Simulates fuel depth c b l r go w =
      let q : (hidden? (shape l) || hidden? (shape r)) ≡ hides_child l r =
        rw (known-shape fields l w.2, known-shape fields r w.3) refl in
      elim (Bool-cases (hides_child l r)) [
        | inl h ↦
            unfold add_at insert_at shape in
            rw (h, q ∙ h) (record { shapes = refl; well_formed = w; known = w.0 })
        | inr h ↦
            unfold add_at insert_at shape in
            rw (h, q ∙ h)
              (turn-Simulates fields (ascend ongoing fields) fork
                (ascend-Simulates ongoing fields safe) (bit (sum256 key) depth) c b l r _ _ _ _ w h
                (arrive-Simulates _ _ (suc depth) l go w.2 (ground (arith, h)))
                (arrive-Simulates _ _ (suc depth) r go w.3 (ground (arith, h))))
      ]

  -- From a known node of a well-formed tree, with fields whose Parent does not panic, a key that
  -- is not empty and one raw value for each field, the loop of Add inserts the record into the
  -- trie that the tree stands for, or fails or panics as the insertion does, whatever the fuel,
  -- and leaves a well-formed node that is known.
  pub add_at-Simulates :
      (fuel depth : ℕ) (n : Node)
      → WellFormed fields n
      → (content n).known ≡ true
      → Simulates fields
          (add_at ongoing fields key raws fuel depth n)
          (insert_at key raws fuel depth (shape n))
  add_at-Simulates zero depth n w k =
      unfold add_at insert_at in record { shapes = refl; well_formed = tt; known = tt }
  add_at-Simulates (suc fuel) depth (leaf c b) w k =
      unfold add_at shape in
      record {
        shapes = sym (insert_at-leaf fuel depth c.known c.key c.values);
        well_formed = tt;
        known = tt;
      }
  add_at-Simulates (suc fuel) depth (inner c b l r) w k =
      rw (shape-inner c b l r)
        (add_turn-Simulates fuel depth c b l r (add_at-Simulates fuel (suc depth)) w)
