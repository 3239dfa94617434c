-- ===== src/Collection/Change/Fail.antt =====
-- A `Set` or a `Remove` that returns an error.
use student_18_byzcoin.Bytes.{Bytes}
use student_18_byzcoin.Collection.Change.{
  write_values, set_leaf, remove_leaf, remove_up, set_record, remove,
}
use student_18_byzcoin.Collection.Change.Leaf.{
  set_entry, remove_entry, set_leaf-Simulates, remove_leaf-Simulates,
}
use student_18_byzcoin.Collection.Change.Up.{remove_up-Simulates}
use student_18_byzcoin.Collection.Collect.{collect_unless_ongoing}
use student_18_byzcoin.Collection.Collect.Keeps.{collect_unless_ongoing-fail}
use student_18_byzcoin.Collection.Get.{get_record}
use student_18_byzcoin.Collection.Get.View.{found}
use student_18_byzcoin.Collection.Shape.{shape, WellFormed, Simulates}
use student_18_byzcoin.Collection.State.{Collection, with_root}
use student_18_byzcoin.Collection.Valid.{IsValid, with_root-IsValid, get_record-view}
use student_18_byzcoin.Collection.Walk.{ascend, walk_root}
use student_18_byzcoin.Collection.Walk.Descent.{LeafSimulates, walk-Simulates}
use student_18_byzcoin.Collection.Walk.Simulates.{UpSimulates, ascend-Simulates}
use student_18_byzcoin.Common.{
  ◌==◌, Bool-cases, Error, unknown_subtree, key_not_found, Result, ok, err, panic, Outcome, done,
  fail, crash, and_then, map_outcome, map_outcome-fail, and_then-fail, length, ℕ, ◌≡◌, refl, sym,
  ap, ◌∙◌, subst, ◌≢◌, ◌⊎◌, inl, inr, none, List, [],
}
use student_18_byzcoin.Field.{Value, Field}
use student_18_byzcoin.Hash.{Hashing, sum256}
use student_18_byzcoin.Node.{Content, Node, leaf, inner, Backup}
use student_18_byzcoin.Trie.{Trie, entry, fork, change_at, at_entry, merge, Placed}
use student_18_byzcoin.Trie.Fail.{change-fail}
use student_18_byzcoin.Trie.Find.{view}

module _ ⦃H : Hashing⦄ where
  -- why `Set` and `Remove` return the error, as a search of the collection would tell
  abbrev pub ChangeReason : Collection → Bytes → Error → Type 0
  ChangeReason c key x =
      (x ≡ unknown_subtree)
      ⊎ ((x ≡ key_not_found) × (get_record c key ≡ found c.fields key (ok none)))

module _ ⦃H : Hashing⦄ (c : Collection) (valid : IsValid c) (key : Bytes) (named : key ≢ [])
    (at_leaf : Content → Backup → Outcome Node) (f : List Bytes → Outcome Trie)
    (total : (vs : List Bytes) (t : Trie) (x : Error) → f vs ≢ fail x t)
    (up : ℕ → Node → Outcome Node) (join : ℕ → Trie → Trie → Trie)
    (at_leaf-Simulates : LeafSimulates c.fields at_leaf (at_entry key f))
    (ups : (depth : ℕ) → UpSimulates c.fields (up depth) (join depth)) where
  -- the tree after a walk that failed
  record Refused (n : Node) (x : Error) : Type 0 where
    same_trie : shape n ≡ shape c.root
    tree : WellFormed c.fields n
    reason : ChangeReason c key x

  Refused-at :
      (n n' : Node) (x : Error)
      → c.root ≡ n
      → walk_root (sum256 key) at_leaf up n ≡ fail x n'
      → Refused n' x
  unfolding walk_root
  Refused-at (leaf k b) n' x q e = elim (Bool-cases k.known) [
    | inl h ↦ absurd (cc (simp h at e))
    | inr h ↦
        let e1 : fail unknown_subtree (leaf k b) ≡ fail x n' = simp h at e in
        let same_node : c.root ≡ n' = cc in
        record {
          same_trie = ap shape (sym same_node);
          tree = subst (WellFormed c.fields) same_node valid.tree;
          reason = inl cc;
        }
  ]
  Refused-at (inner k b l r) n' x q e =
      let w : WellFormed c.fields (inner k b l r) = subst (WellFormed c.fields) q valid.tree in
      let s : Simulates c.fields (fail x n')
          (change_at (sum256 key) (at_entry key f) join 0 (shape (inner k b l r))) =
        subst
          (λ o.
            Simulates c.fields o
              (change_at (sum256 key) (at_entry key f) join 0 (shape (inner k b l r))))
          (simp w.0 at e)
          (walk-Simulates c.fields (sum256 key) at_leaf (at_entry key f) up join at_leaf-Simulates
            ups 0 (inner k b l r) w w.0) in
      let g = change-fail key f total join 0 (shape (inner k b l r)) (shape n') x (sym s.shapes) in
      record {
        same_trie = g.same_trie ∙ ap shape (sym q);
        tree = s.well_formed;
        reason = elim g.why [
          | inl u ↦ inl u
          | inr (u, w0) ↦ inr (
            u,
            get_record-view c key valid named
                ∙ ap (found c.fields key) (ap (λ m. view key 0 (shape m)) q ∙ w0),
          )
        ];
      }

  Refused-IsValid : (n : Node) (x : Error) → Refused n x → IsValid (with_root c n)
  Refused-IsValid n x r =
      with_root-IsValid c n valid r.tree (subst (Placed 0) (sym r.same_trie) valid.placed)

  pub refused :
      (c' : Collection) (x : Error) (k : Bytes)
      → and_then
          (map_outcome (with_root c) (walk_root (sum256 key) at_leaf up c.root))
          collect_unless_ongoing
        ≡ fail x c'
      → k ≢ []
      → IsValid c' × (get_record c' k ≡ get_record c k) × ChangeReason c key x
  refused c' x k e k_named = elim (and_then-fail _ collect_unless_ongoing e) [
    | inr (d, ed, ef) ↦ absurd (collect_unless_ongoing-fail d c' x ef)
    | inl ed ↦
        let (n, en, ew) =
          map_outcome-fail (with_root c) (walk_root (sum256 key) at_leaf up c.root) ed in
        let r = Refused-at c.root n x refl en in
        let v = Refused-IsValid n x r in
        (
          subst IsValid ew v,
          ap (λ (d : Collection). get_record d k) (sym ew)
              ∙ get_record-view (with_root c n) k v k_named
              ∙ ap (λ t. found c.fields k (view k 0 t)) r.same_trie
              ∙ sym (get_record-view c k valid k_named),
          r.reason,
        )
  ]

module _ ⦃H : Hashing⦄ where
  pub set_entry_total :
      (fields : List Field) (key : Bytes) (vs : List Value) (old : List Bytes) (t : Trie)
      (x : Error)
      → set_entry fields key vs old ≢ fail x t
  set_entry_total fields key vs old t x e = go (write_values fields vs old) e
    where
      go :
          (o : Result (List Bytes))
          → ◌≢◌ {A = Outcome Trie}
              (elim o [ ok ys ↦ done (entry key ys) | err y ↦ crash | panic ↦ crash ])
              (fail x t)
      go (ok ys) q = cc
      go (err y) q = cc
      go panic q = cc

  -- A Set of a key that is not empty that returns an error on a valid collection leaves it valid,
  -- and what a search for any key that is not empty finds; the walk came to a subtree that is not
  -- known, or a search for the key finds no record.
  pub get-set_record_fail :
      (c : Collection) (key : Bytes) (vs : List Value) (c' : Collection) (x : Error) (k : Bytes)
      → IsValid c
      → key ≢ []
      → k ≢ []
      → set_record c key vs ≡ fail x c'
      → IsValid c' × (get_record c' k ≡ get_record c k) × ChangeReason c key x
  unfolding set_record
  get-set_record_fail c key vs c' x k valid named k_named e =
      elim (Bool-cases (length vs == length c.fields)) [
        | inr h ↦ absurd (cc (simp h at e))
        | inl h ↦
            refused c valid key named (set_leaf c.ongoing c.fields key vs)
              (set_entry c.fields key vs) (set_entry_total c.fields key vs)
              (λ depth. ascend c.ongoing c.fields) (λ depth. fork)
              (set_leaf-Simulates c.ongoing c.fields key named vs)
              (λ depth. ascend-Simulates c.ongoing c.fields valid.safe) c' x k (simp h at e) k_named
      ]

  -- A Remove of a key that is not empty that returns an error on a valid collection leaves it
  -- valid, and what a search for any key that is not empty finds; the walk came to a subtree that
  -- is not known, or a search for the key finds no record.
  pub get-remove_fail :
      (c : Collection) (key : Bytes) (c' : Collection) (x : Error) (k : Bytes)
      → IsValid c
      → key ≢ []
      → k ≢ []
      → remove c key ≡ fail x c'
      → IsValid c' × (get_record c' k ≡ get_record c k) × ChangeReason c key x
  unfolding remove
  get-remove_fail c key c' x k valid named k_named e =
      refused c valid key named (remove_leaf c.ongoing c.fields key) remove_entry (λ old t y q. cc)
        (remove_up c.ongoing c.fields) merge (remove_leaf-Simulates c.ongoing c.fields key named)
        (remove_up-Simulates c.ongoing c.fields valid.safe) c' x k e k_named
