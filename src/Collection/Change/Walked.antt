-- ===== src/Collection/Change/Walked.antt =====
-- A change of one record, whatever it is, as the callers of the walk see it.
use student_18_byzcoin.Bytes.{Bytes, equal}
use student_18_byzcoin.Collection.Collect.{collect_unless_ongoing}
use student_18_byzcoin.Collection.Collect.Keeps.{collect_unless_ongoing-all}
use student_18_byzcoin.Collection.Get.{get_record}
use student_18_byzcoin.Collection.Get.View.{found}
use student_18_byzcoin.Collection.Shape.{shape, WellFormed, Simulates}
use student_18_byzcoin.Collection.State.{Collection, with_root}
use student_18_byzcoin.Collection.Valid.{IsValid, with_root-IsValid, get_record-view}
use student_18_byzcoin.Collection.Walk.{walk_root}
use student_18_byzcoin.Collection.Walk.Descent.{LeafSimulates, walk-Simulates}
use student_18_byzcoin.Collection.Walk.Simulates.{UpSimulates}
use student_18_byzcoin.Common.{
  if◌then◌else◌, Bool-cases, ok, Outcome, done, and_then, map_outcome, map_outcome-done,
  and_then-done, ℕ, ◌≡◌, refl, sym, ap, ◌∙◌, subst, ◌≢◌, inl, inr, some, List, [],
}
use student_18_byzcoin.Hash.{Hashing, sum256}
use student_18_byzcoin.Node.{Content, Node, leaf, inner, Backup}
use student_18_byzcoin.Trie.{Trie, change_at, at_entry}
use student_18_byzcoin.Trie.Change.{Leaves, Changed, change-Placed, change-Changed}
use student_18_byzcoin.Trie.Find.{view_of}
use student_18_byzcoin.Trie.Join.{IsJoin}

module _ ⦃H : Hashing⦄ (c : Collection) (valid : IsValid c) (key : Bytes)
    (at_leaf : Content → Backup → Outcome Node) (f : List Bytes → Outcome Trie)
    (leaves : Leaves key f) (up : ℕ → Node → Outcome Node) (join : ℕ → Trie → Trie → Trie)
    (joins : IsJoin join) (at_leaf-Simulates : LeafSimulates c.fields at_leaf (at_entry key f))
    (ups : (depth : ℕ) → UpSimulates c.fields (up depth) (join depth)) where
  walked :
      (n n' : Node)
      → WellFormed c.fields n
      → walk_root (sum256 key) at_leaf up n ≡ done n'
      → Simulates c.fields (done n') (change_at (sum256 key) (at_entry key f) join 0 (shape n))
  unfolding walk_root
  walked (leaf k b) n' w e = elim (Bool-cases k.known) [
    | inl h ↦ absurd (cc (simp h at e))
    | inr h ↦ absurd (cc (simp h at e))
  ]
  walked (inner k b l r) n' w e =
      subst
        (λ o.
          Simulates c.fields o
            (change_at (sum256 key) (at_entry key f) join 0 (shape (inner k b l r))))
        (simp w.0 at e)
        (walk-Simulates c.fields (sum256 key) at_leaf (at_entry key f) up join at_leaf-Simulates ups
          0 (inner k b l r) w w.0)

  -- the collection after a walk that ended well: `root` is the tree that it left
  record Walked (c' : Collection) : Type 0 where
    root : Node
    collection : c' ≡ with_root c root
    still_valid : IsValid (with_root c root)
    changed : Changed key f 0 (shape c.root) (shape root)

  Walked-collection :
      (c' : Collection)
      → and_then
          (map_outcome (with_root c) (walk_root (sum256 key) at_leaf up c.root))
          collect_unless_ongoing
        ≡ done c'
      → Walked c'
  Walked-collection c' e =
      let (d, ed, ef) = and_then-done _ collect_unless_ongoing e in
      let (n, en, ew) =
        map_outcome-done (with_root c) (walk_root (sum256 key) at_leaf up c.root) ed in
      let s = walked c.root n valid.tree en in
      record {
        root = n;
        collection = collect_unless_ongoing-all (with_root c n) c' valid.everything (rw ew ef);
        still_valid = with_root-IsValid c n valid s.well_formed (
            change-Placed key f leaves join joins 0 (shape c.root) (shape n) valid.placed
              (sym s.shapes));
        changed =
            change-Changed key f leaves join joins 0 (shape c.root) (shape n) valid.placed
              (sym s.shapes);
      }

  Walked-reads :
      (c' : Collection) (k : Bytes)
      → Walked c'
      → key ≢ []
      → k ≢ []
      → (old : List Bytes) × (left : Trie) × (get_record c key ≡ found c.fields key (ok (some old)))
        × (f old ≡ done left)
        × (get_record c' k
            ≡ (if equal key k then found c.fields k (view_of key (ok left)) else get_record c k))
  Walked-reads c' k w key_named named =
      let g = w.changed in
      (
        g.old,
        g.left,
        get_record-view c key valid key_named ∙ ap (found c.fields key) g.before,
        g.made,
        ap (λ (d : Collection). get_record d k) w.collection
            ∙ get_record-view (with_root c w.root) k w.still_valid named
            ∙ ap (found c.fields k) (g.after k)
            ∙ (elim (Bool-cases (equal key k)) [
              | inl h ↦ rw h refl
              | inr h ↦ rw h (sym (get_record-view c k valid named))
            ]),
      )

  abbrev pub walk_collection : Outcome Collection
  walk_collection =
      and_then (map_outcome (with_root c) (walk_root (sum256 key) at_leaf up c.root))
        collect_unless_ongoing

  pub Walked-IsValid : (c' : Collection) → walk_collection ≡ done c' → IsValid c'
  Walked-IsValid c' e =
      let w = Walked-collection c' e in subst IsValid (sym w.collection) w.still_valid

  pub Walked-get :
      (c' : Collection) (k : Bytes)
      → walk_collection ≡ done c'
      → key ≢ []
      → k ≢ []
      → (old : List Bytes) × (left : Trie) × (get_record c key ≡ found c.fields key (ok (some old)))
        × (f old ≡ done left)
        × (get_record c' k
            ≡ (if equal key k then found c.fields k (view_of key (ok left)) else get_record c k))
  Walked-get c' k e = Walked-reads c' k (Walked-collection c' e)
