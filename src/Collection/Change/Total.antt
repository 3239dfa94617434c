-- ===== src/Collection/Change/Total.antt =====
-- Set and Remove on a tree that is known as a whole: they leave it so, and do not panic.
use student_18_byzcoin.Bytes.{Bytes}
use student_18_byzcoin.Collection.Add.Total.{fork-inner, collected}
use student_18_byzcoin.Collection.Change.{
  write_values, set_leaf, remove_leaf, remove_up, set_record, remove,
}
use student_18_byzcoin.Collection.Change.Fail.{set_entry_total}
use student_18_byzcoin.Collection.Change.Leaf.{
  set_entry, remove_entry, set_leaf-Simulates, remove_leaf-Simulates,
}
use student_18_byzcoin.Collection.Change.Reads.{set_entry-Leaves, remove_entry-Leaves}
use student_18_byzcoin.Collection.Change.Up.{remove_up-Simulates}
use student_18_byzcoin.Collection.Collect.{collect_unless_ongoing}
use student_18_byzcoin.Collection.Collect.Keeps.{
  collect_unless_ongoing-all, collect_unless_ongoing-fail,
}
use student_18_byzcoin.Collection.Shape.{shape_leaf, shape, WellFormed, Simulates}
use student_18_byzcoin.Collection.State.{Collection, with_root}
use student_18_byzcoin.Collection.Valid.{IsValid}
use student_18_byzcoin.Collection.Walk.{ascend, walk_root}
use student_18_byzcoin.Collection.Walk.Descent.{LeafSimulates, walk-Simulates}
use student_18_byzcoin.Collection.Walk.Simulates.{UpSimulates, ascend-Simulates}
use student_18_byzcoin.Common.{
  ◌==◌, Error, unknown_subtree, ok, Outcome, done, fail, crash, and_then, map_outcome,
  map_outcome-done, map_outcome-fail, and_then-done, and_then-fail, length, ℕ, ◌≡◌, refl, sym, ap,
  ◌∙◌, subst, ◌≢◌, inl, inr, Bool, true, false, List, [], ◌∷◌, arith,
}
use student_18_byzcoin.Field.{Value, Field}
use student_18_byzcoin.Hash.{Hashing, sum256}
use student_18_byzcoin.Node.{Content, Node, leaf, inner, Backup}
use student_18_byzcoin.Trie.{Trie, fork, change_at, at_entry, merge}
use student_18_byzcoin.Trie.Change.{Leaves}
use student_18_byzcoin.Trie.Fail.{change-fail}
use student_18_byzcoin.Trie.Full.{Full, Full-merge}
use student_18_byzcoin.Trie.Full.Change.{change-Full, change-known}
use student_18_byzcoin.Trie.Rooted.{Rooted}
use student_18_byzcoin.Trie.Shallow.{Shallow, Shallow-merge}
use student_18_byzcoin.Trie.Total.Change.{AllValues, change-Shallow, change-Rooted, change-total}

-- the records of a well-formed tree have a value for each field
shape_leaf-sized :
    (n : ℕ) (known : Bool) (k : Bytes) (vs : List Bytes)
    → (known ≡ true → length vs ≡ n)
    → AllValues (λ vs. length vs ≡ n) (shape_leaf known k vs)
shape_leaf-sized n false k vs h = tt
shape_leaf-sized n true [] vs h = tt
shape_leaf-sized n true (x ∷ k) vs h = h refl

shape-sized :
    (fields : List Field) (n : Node)
    → WellFormed fields n
    → AllValues (λ vs. length vs ≡ length fields) (shape n)
unfolding shape
shape-sized fields (leaf c b) h = shape_leaf-sized (length fields) c.known c.key c.values h
shape-sized fields (inner c b l r) h = (shape-sized fields l h.2, shape-sized fields r h.3)

-- a tree that is known as a whole, and whose forks stand where a hash has a bit
pub record Whole (t : Trie) : Type 0 where
  pub full : Full t
  pub shallow : Shallow 0 t
  pub rooted : Rooted t

-- how a change of `c` ends
abbrev pub StaysWhole : Collection → Outcome Collection → Type 0
StaysWhole c (done c') = Whole (shape c'.root) × (c'.fields ≡ c.fields)
StaysWhole c (fail x c') = (x ≢ unknown_subtree) × Whole (shape c'.root) × (c'.fields ≡ c.fields)
StaysWhole c crash = ⊥

module _ ⦃H : Hashing⦄ (c : Collection) (valid : IsValid c) (whole : Whole (shape c.root))
    (key : Bytes) (at_leaf : Content → Backup → Outcome Node) (f : List Bytes → Outcome Trie)
    (leaves : Leaves key f) (total : (vs : List Bytes) (t : Trie) (x : Error) → f vs ≢ fail x t)
    (up : ℕ → Node → Outcome Node) (join : ℕ → Trie → Trie → Trie)
    (joins-Full : (depth : ℕ) (l r : Trie) → Full (fork l r) → Full (join depth l r))
    (joins-Shallow : (depth : ℕ) (l r : Trie)
      → Shallow depth (fork l r)
      → Shallow depth (join depth l r))
    (join_root : (l r : Trie) → join 0 l r ≡ fork l r)
    (at_leaf-Simulates : LeafSimulates c.fields at_leaf (at_entry key f))
    (ups : (depth : ℕ) → UpSimulates c.fields (up depth) (join depth)) where
  walk_root-Simulates :
      Simulates c.fields
        (walk_root (sum256 key) at_leaf up c.root)
        (change_at (sum256 key) (at_entry key f) join 0 (shape c.root))
  unfolding walk_root
  walk_root-Simulates =
      let (l, r, q) = whole.rooted in
      let (n, b, nl, nr, p) = fork-inner c.root l r q in
      let w : WellFormed c.fields (inner n b nl nr) = subst (WellFormed c.fields) p valid.tree in
      subst
        (λ (m : Node).
          Simulates c.fields (walk_root (sum256 key) at_leaf up m)
            (change_at (sum256 key) (at_entry key f) join 0 (shape m)))
        (sym p)
        (rw w.0 (
          walk-Simulates c.fields (sum256 key) at_leaf (at_entry key f) up join at_leaf-Simulates
            ups 0 (inner n b nl nr) w w.0))

  abbrev walk_collection : Outcome Collection
  walk_collection =
      and_then (map_outcome (with_root c) (walk_root (sum256 key) at_leaf up c.root))
        collect_unless_ongoing

  changed-Whole :
      (n : Node)
      → change_at (sum256 key) (at_entry key f) join 0 (shape c.root) ≡ done (shape n)
      → Whole (shape n)
  changed-Whole n e = record {
    full = change-Full key f leaves join joins-Full 0 (shape c.root) (shape n) whole.full e;
    shallow =
        change-Shallow key f join leaves joins-Shallow 0 (shape c.root) (shape n) whole.full
          whole.shallow e;
    rooted = change-Rooted key f join (shape c.root) (shape n) join_root whole.full whole.rooted e;
  }

  walked-Whole :
      (c' : Collection) → walk_collection ≡ done c' → Whole (shape c'.root) × (c'.fields ≡ c.fields)
  walked-Whole c' e =
      let (d, ed, ef) = and_then-done _ collect_unless_ongoing e in
      let (n, en, ew) =
        map_outcome-done (with_root c) (walk_root (sum256 key) at_leaf up c.root) ed in
      let q : c' ≡ with_root c n =
        collect_unless_ongoing-all (with_root c n) c' valid.everything (rw ew ef) in
      (
        subst (λ (x : Collection). Whole (shape x.root)) (sym q)
            (changed-Whole n (sym walk_root-Simulates.shapes ∙ ap (map_outcome shape) en)),
        ap (λ (x : Collection). x.fields) q,
      )

  refused-Whole :
      (c' : Collection) (x : Error)
      → walk_collection ≡ fail x c'
      → (x ≢ unknown_subtree) × Whole (shape c'.root) × (c'.fields ≡ c.fields)
  refused-Whole c' x e = elim (and_then-fail _ collect_unless_ongoing e) [
    | inr (d, ed, ef) ↦ absurd (collect_unless_ongoing-fail d c' x ef)
    | inl ed ↦
        let (n, en, ew) =
          map_outcome-fail (with_root c) (walk_root (sum256 key) at_leaf up c.root) ed in
        let made : change_at (sum256 key) (at_entry key f) join 0 (shape c.root)
            ≡ fail x (shape n) =
          sym walk_root-Simulates.shapes ∙ ap (map_outcome shape) en in
        let g = change-fail key f total join 0 (shape c.root) (shape n) x made in
        (
          λ u.
              change-known key f leaves join joins-Full 0 (shape c.root) (shape n) total whole.full
                (made ∙ ap (λ y. fail y (shape n)) u),
          subst (λ (d : Collection). Whole (shape d.root)) ew (subst Whole (sym g.same_trie) whole),
          ap (λ (d : Collection). d.fields) (sym ew),
        )
  ]

  walk_total :
      ((vs : List Bytes) → length vs ≡ length c.fields → f vs ≢ crash) → walk_collection ≢ crash
  walk_total ends e = go (walk_root (sum256 key) at_leaf up c.root) refl e
    where
      go :
          (o : Outcome Node)
          → walk_root (sum256 key) at_leaf up c.root ≡ o
          → and_then (map_outcome (with_root c) o) collect_unless_ongoing ≢ crash
      go crash q z =
          change-total key f join (λ vs. length vs ≡ length c.fields) ends 0 (shape c.root)
            (shape-sized c.fields c.root valid.tree) whole.full whole.shallow
            (sym walk_root-Simulates.shapes ∙ ap (map_outcome shape) q)
      go (fail x n) q z = cc
      go (done n) q z =
          let w = changed-Whole n (sym walk_root-Simulates.shapes ∙ ap (map_outcome shape) q) in
          collected c n valid w.shallow w.rooted z

  pub walk-StaysWhole :
      ((vs : List Bytes) → length vs ≡ length c.fields → f vs ≢ crash)
      → StaysWhole c walk_collection
  walk-StaysWhole ends = go walk_collection refl
    where
      go : (o : Outcome Collection) → walk_collection ≡ o → StaysWhole c o
      go (done c') e = walked-Whole c' e
      go (fail x c') e = refused-Whole c' x e
      go crash e = walk_total ends e

module _ ⦃H : Hashing⦄ where
  pub remove-StaysWhole :
      (c : Collection) (key : Bytes)
      → IsValid c
      → Whole (shape c.root)
      → key ≢ []
      → StaysWhole c (remove c key)
  unfolding remove merge
  remove-StaysWhole c key valid w named =
      walk-StaysWhole c valid w key (remove_leaf c.ongoing c.fields key) remove_entry
        (remove_entry-Leaves key) (λ old t y q. cc) (remove_up c.ongoing c.fields) merge Full-merge
        Shallow-merge (λ l r. refl) (remove_leaf-Simulates c.ongoing c.fields key named)
        (remove_up-Simulates c.ongoing c.fields valid.safe) (λ vs sized e. cc)

  -- Set of values that are written over any values of a record
  pub set_record-StaysWhole :
      (c : Collection) (key : Bytes) (vs : List Value)
      → IsValid c
      → Whole (shape c.root)
      → key ≢ []
      → length vs ≡ length c.fields
      → ((old : List Bytes)
          → length old ≡ length c.fields
          → (ys : List Bytes) × (write_values c.fields vs old ≡ ok ys))
      → StaysWhole c (set_record c key vs)
  unfolding set_record
  set_record-StaysWhole c key vs valid w named sized writes =
      let q : (length vs == length c.fields) ≡ true = ground (arith, sized) in
      rw q (
        walk-StaysWhole c valid w key (set_leaf c.ongoing c.fields key vs)
          (set_entry c.fields key vs) (set_entry-Leaves c.fields key vs)
          (set_entry_total c.fields key vs) (λ depth. ascend c.ongoing c.fields) (λ depth. fork)
          (λ depth l r h. h) (λ depth l r h. h) (λ l r. refl)
          (set_leaf-Simulates c.ongoing c.fields key named vs)
          (λ depth. ascend-Simulates c.ongoing c.fields valid.safe)
          (λ old old_sized e.
            let (ys, made) = writes old old_sized in cc (rw (set_entry, made) at e)))
