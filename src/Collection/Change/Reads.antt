-- ===== src/Collection/Change/Reads.antt =====
-- What callers of `Set`, `SetField` and `Remove` rely on.
use student_18_byzcoin.Bytes.{Bytes, equal}
use student_18_byzcoin.Bytes.Equal.{equal_refl}
use student_18_byzcoin.Collection.Change.{
  write_values, set_leaf, remove_leaf, remove_up, set_record, remove,
}
use student_18_byzcoin.Collection.Change.Leaf.{
  set_entry, remove_entry, set_leaf-Simulates, remove_leaf-Simulates,
}
use student_18_byzcoin.Collection.Change.Up.{remove_up-Simulates}
use student_18_byzcoin.Collection.Change.Walked.{Walked-IsValid, Walked-get}
use student_18_byzcoin.Collection.Collect.{collect_unless_ongoing}
use student_18_byzcoin.Collection.Get.{get_record}
use student_18_byzcoin.Collection.Get.View.{found}
use student_18_byzcoin.Collection.State.{Collection, with_root}
use student_18_byzcoin.Collection.Valid.{IsValid}
use student_18_byzcoin.Collection.Walk.{ascend, walk_root}
use student_18_byzcoin.Collection.Walk.Simulates.{ascend-Simulates}
use student_18_byzcoin.Common.{
  ◌==◌, if◌then◌else◌, Bool-cases, Result, ok, err, panic, Outcome, done, crash, and_then,
  map_outcome, done-injective, length, ◌≡◌, refl, sym, ap, ◌∙◌, subst, ◌≢◌, ◌⊎◌, inl, inr, Bool,
  none, some, List, [],
}
use student_18_byzcoin.Field.{Value, Field}
use student_18_byzcoin.Hash.{Hashing, sum256}
use student_18_byzcoin.Trie.{Trie, vacant, entry, fork, merge}
use student_18_byzcoin.Trie.Change.{Leaves}
use student_18_byzcoin.Trie.Find.{view_of}
use student_18_byzcoin.Trie.Join.{fork-IsJoin, merge-IsJoin}

module _ ⦃H : Hashing⦄ where
  pub set_entry-Leaves :
      (fields : List Field) (key : Bytes) (vs : List Value) → Leaves key (set_entry fields key vs)
  set_entry-Leaves fields key vs old u e = go (write_values fields vs old) e
    where
      go :
          (o : Result (List Bytes))
          → ◌≡◌ {A = Outcome Trie}
              (elim o [ ok ys ↦ done (entry key ys) | err e ↦ crash | panic ↦ crash ])
              (done u)
          → (u ≡ vacant) ⊎ ((ys : List Bytes) × (u ≡ entry key ys))
      go (ok ys) q = inr (ys, sym (done-injective q))
      go (err x) q = cc
      go panic q = cc

  pub remove_entry-Leaves : (key : Bytes) → Leaves key remove_entry
  remove_entry-Leaves key old u e = inl (sym (done-injective e))

  set_walk :
      (c : Collection) (key : Bytes) (vs : List Value) (c' : Collection)
      → set_record c key vs ≡ done c'
      → and_then
          (map_outcome (with_root c) (
            walk_root
              (sum256 key)
              (set_leaf c.ongoing c.fields key vs)
              (λ depth. ascend c.ongoing c.fields)
              c.root))
          collect_unless_ongoing
        ≡ done c'
  unfolding set_record
  set_walk c key vs c' e = elim (Bool-cases (length vs == length c.fields)) [
    | inl h ↦ simp h at e
    | inr h ↦ cc (simp h at e)
  ]

  set_entry-done :
      (fields : List Field) (key : Bytes) (vs : List Value) (old : List Bytes) (left : Trie)
      → set_entry fields key vs old ≡ done left
      → (ys : List Bytes) × (write_values fields vs old ≡ ok ys) × (left ≡ entry key ys)
  set_entry-done fields key vs old left e = go (write_values fields vs old) refl e
    where
      go :
          (o : Result (List Bytes))
          → write_values fields vs old ≡ o
          → ◌≡◌ {A = Outcome Trie}
              (elim o [ ok ys ↦ done (entry key ys) | err e ↦ crash | panic ↦ crash ])
              (done left)
          → (ys : List Bytes) × (write_values fields vs old ≡ ok ys) × (left ≡ entry key ys)
      go (ok ys) h q = (ys, h, sym (done-injective q))
      go (err x) h q = cc
      go panic h q = cc

  pub set_record-IsValid :
      (c : Collection) (key : Bytes) (vs : List Value) (c' : Collection)
      → IsValid c
      → key ≢ []
      → set_record c key vs ≡ done c'
      → IsValid c'
  set_record-IsValid c key vs c' valid named e =
      Walked-IsValid c valid key (set_leaf c.ongoing c.fields key vs) (set_entry c.fields key vs)
        (set_entry-Leaves c.fields key vs) (λ depth. ascend c.ongoing c.fields) (λ depth. fork)
        fork-IsJoin (set_leaf-Simulates c.ongoing c.fields key named vs)
        (λ depth. ascend-Simulates c.ongoing c.fields valid.safe) c' (set_walk c key vs c' e)

  -- A Remove of a key that is not empty that returns nil keeps a valid collection valid, inside a
  -- transaction and outside.
  pub remove-IsValid :
      (c : Collection) (key : Bytes) (c' : Collection)
      → IsValid c
      → key ≢ []
      → remove c key ≡ done c'
      → IsValid c'
  unfolding remove
  remove-IsValid c key c' valid named e =
      Walked-IsValid c valid key (remove_leaf c.ongoing c.fields key) remove_entry
        (remove_entry-Leaves key) (remove_up c.ongoing c.fields) merge merge-IsJoin
        (remove_leaf-Simulates c.ongoing c.fields key named)
        (remove_up-Simulates c.ongoing c.fields valid.safe) c' e

  -- After a Set of a key that is not empty that returns nil on a valid collection, inside a
  -- transaction and outside: the key was in the collection with some values, and a search for a
  -- key that is not empty finds them as Set writes over them if it is the key that was set, and
  -- ends as it did before if it is another.
  pub get-set_record :
      (c : Collection) (key : Bytes) (vs : List Value) (c' : Collection) (k : Bytes)
      → IsValid c
      → key ≢ []
      → k ≢ []
      → set_record c key vs ≡ done c'
      → (old : List Bytes) × (ys : List Bytes) × (get_record c key
          ≡ found c.fields key (ok (some old)))
        × (write_values c.fields vs old ≡ ok ys)
        × (get_record c' k
            ≡ (if equal key k then found c.fields k (ok (some ys)) else get_record c k))
  get-set_record c key vs c' k valid named k_named e =
      let (old, left, before, made, after) =
        Walked-get c valid key (set_leaf c.ongoing c.fields key vs) (set_entry c.fields key vs)
          (set_entry-Leaves c.fields key vs) (λ depth. ascend c.ongoing c.fields) (λ depth. fork)
          fork-IsJoin (set_leaf-Simulates c.ongoing c.fields key named vs)
          (λ depth. ascend-Simulates c.ongoing c.fields valid.safe) c' k (set_walk c key vs c' e)
          named k_named in
      let (ys, w, q) = set_entry-done c.fields key vs old left made in
      let view_ys : view_of key (ok left) ≡ ok (some ys) =
        ap (λ t. view_of key (ok t)) q
        ∙ ap (λ (x : Bool). ok (if x then some ys else none)) (equal_refl key) in
      (
        old,
        ys,
        before,
        w,
        subst (λ z. get_record c' k ≡ (if equal key k then found c.fields k z else get_record c k))
            view_ys after,
      )

  -- After a Remove of a key that is not empty that returns nil on a valid collection, inside a
  -- transaction and outside: the key was in the collection with some values, and a search for a
  -- key that is not empty finds no record if it is the key that was removed, and ends as it did
  -- before if it is another.
  pub get-remove :
      (c : Collection) (key : Bytes) (c' : Collection) (k : Bytes)
      → IsValid c
      → key ≢ []
      → k ≢ []
      → remove c key ≡ done c'
      → (old : List Bytes) × (get_record c key ≡ found c.fields key (ok (some old)))
        × (get_record c' k ≡ (if equal key k then found c.fields k (ok none) else get_record c k))
  unfolding remove
  get-remove c key c' k valid named k_named e =
      let (old, left, before, made, after) =
        Walked-get c valid key (remove_leaf c.ongoing c.fields key) remove_entry
          (remove_entry-Leaves key) (remove_up c.ongoing c.fields) merge merge-IsJoin
          (remove_leaf-Simulates c.ongoing c.fields key named)
          (remove_up-Simulates c.ongoing c.fields valid.safe) c' k e named k_named in
      let gone : view_of key (ok left) ≡ ok none =
        ap (λ t. view_of key (ok t)) (sym (done-injective made)) in
      (old, before, after ∙ rw gone refl)
