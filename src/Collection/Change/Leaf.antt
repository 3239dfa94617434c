-- ===== src/Collection/Change/Leaf.antt =====
-- What `Set` and `Remove` do at the leaf, and `Remove` on the way back up, as changes of the trie.
use student_18_byzcoin.Bytes.{Bytes, equal}
use student_18_byzcoin.Bytes.Equal.{equal→≡}
use student_18_byzcoin.Collection.Add.Leaf.{shape_leaf-entry, backup_if-leaf}
use student_18_byzcoin.Collection.Change.{write_values, set_leaf, remove_leaf}
use student_18_byzcoin.Collection.Shape.{shape_leaf, shape, Simulates}
use student_18_byzcoin.Collection.Walk.{backup_if}
use student_18_byzcoin.Collection.Walk.Descent.{LeafSimulates}
use student_18_byzcoin.Common.{
  if◌then◌else◌, Bool-cases, key_not_found, Result, ok, err, panic, bind-ok, ok-injective, Outcome,
  done, fail, crash, ignoring, length, length-map, suc, ◌≡◌, refl, sym, ap, ◌∙◌, ◌≢◌, inl, inr,
  Bool, true, false, List, [], ◌∷◌, arith,
}
use student_18_byzcoin.Field.{Value, same_value, Field}
use student_18_byzcoin.Hash.{Hashing, hash}
use student_18_byzcoin.Node.{Content, leaf, Backup, write}
use student_18_byzcoin.SingleNode.{leaf_to_hash, update, set_placeholder}
use student_18_byzcoin.Trie.{Trie, vacant, entry, at_entry}

-- `Set` on the values of the record
abbrev pub set_entry : List Field → Bytes → List Value → List Bytes → Outcome Trie
set_entry fields key vs old = elim (write_values fields vs old) [
  | ok ys ↦ done (entry key ys)
  | err e ↦ crash
  | panic ↦ crash
]

-- `Remove` leaves no record
abbrev pub remove_entry : List Bytes → Outcome Trie
remove_entry old = done vacant

pub length-write_values :
    (fields : List Field) (vs : List Value) (xs ys : List Bytes)
    → length xs ≡ length fields
    → write_values fields vs xs ≡ ok ys
    → length ys ≡ length fields
unfolding write_values
length-write_values [] vs xs ys h e = ap length (sym (ok-injective e)) ∙ h
length-write_values (f ∷ fs) [] xs ys h e = cc
length-write_values (f ∷ fs) (v ∷ vs) [] ys h e = absurd (omega arith)
length-write_values (f ∷ fs) (same_value ∷ vs) (x ∷ xs) ys h e =
    let (zs, ez, e1) = bind-ok (write_values fs vs xs) _ e in
    ap length (sym (ok-injective e1)) ∙ ap suc (length-write_values fs vs xs zs (omega arith) ez)
length-write_values (f ∷ fs) (v ∷ vs) (x ∷ xs) ys h e =
    let (y, ey, e0) = bind-ok (f.encode v) _ e in
    let (zs, ez, e1) = bind-ok (write_values fs vs xs) _ e0 in
    ap length (sym (ok-injective e1)) ∙ ap suc (length-write_values fs vs xs zs (omega arith) ez)

module _ ⦃H : Hashing⦄ (ongoing : Bool) (fields : List Field) (key : Bytes) (named : key ≢ []) where
  equal-named : (c : Content) → c.key ≡ [] → equal c.key key ≡ false
  equal-named c e = elim (Bool-cases (equal c.key key)) [
    | inl h ↦ absurd (named (sym (equal→≡ c.key key h) ∙ e))
    | inr h ↦ h
  ]

  -- the record at a known leaf, by its key
  at_entry-leaf :
      (f : List Bytes → Outcome Trie) (c : Content) (b : Backup)
      → c.known ≡ true
      → at_entry key f (shape (leaf c b))
        ≡ (if equal c.key key then f c.values else fail key_not_found (shape (leaf c b)))
  unfolding at_entry shape
  at_entry-leaf f c b k = by_key c.key refl
    where
      by_key :
          (k0 : Bytes)
          → c.key ≡ k0
          → at_entry key f (shape_leaf c.known c.key c.values) ≡ (
              if equal c.key key
              then f c.values
              else fail key_not_found (shape_leaf c.known c.key c.values))
      by_key [] e = let h = equal-named c e in rw h (simp (k, e))
      by_key (x ∷ xs) e = simp (k, e)

  rewritten :
      (ys : List Bytes) (c : Content) (b : Backup)
      → c.known ≡ true
      → (d : Content) × (b' : Backup) × (ignoring
            (update fields (write (λ k. record k { values = ys }) (backup_if ongoing (leaf c b))))
            done
          ≡ done (leaf d b'))
        × (d.known ≡ true)
        × (d.key ≡ c.key)
        × (d.values ≡ ys)
  unfolding update
  rewritten ys c b k =
      let (b', e) = backup_if-leaf ongoing c b in
      (
        record c { label = hash (leaf_to_hash c.key ys); values = ys },
        b',
        simp (e, k),
        k,
        refl,
        refl,
      )

  written :
      (vs : List Value) (c : Content) (b : Backup) (o : Result (List Bytes))
      → c.known ≡ true
      → c.key ≡ key
      → ((ys : List Bytes) → o ≡ ok ys → length ys ≡ length fields)
      → Simulates fields
          (elim o [
            | err e ↦ crash
            | panic ↦ crash
            | ok ys ↦
                ignoring
                  (update fields
                    (write (λ k. record k { values = ys }) (backup_if ongoing (leaf c b))))
                  done
          ])
          (elim o [ ok ys ↦ done (entry key ys) | err e ↦ crash | panic ↦ crash ])
  unfolding shape
  written vs c b (err e) k q s = record { shapes = refl; well_formed = tt; known = tt }
  written vs c b panic k q s = record { shapes = refl; well_formed = tt; known = tt }
  written vs c b (ok ys) k q s =
      let (d, b', e, dk, dn, dv) = rewritten ys c b k in
      rw e (record {
        shapes = ap done (simp (dk, dn, dv, q) (shape_leaf-entry key ys named));
        well_formed = λ _. ap length dv ∙ s ys refl;
        known = dk;
      })

  pub set_leaf-Simulates :
      (vs : List Value)
      → LeafSimulates fields
          (set_leaf ongoing fields key vs)
          (at_entry key (set_entry fields key vs))
  unfolding set_leaf
  set_leaf-Simulates vs c b w k =
      rw (at_entry-leaf (set_entry fields key vs) c b k) (elim (Bool-cases (equal c.key key)) [
        | inr h ↦ rw h (record { shapes = refl; well_formed = w; known = k })
        | inl h ↦ rw h (
            written vs c b (write_values fields vs c.values) k (equal→≡ c.key key h)
              (λ ys. length-write_values fields vs c.values ys (w k)))
      ])

  pub remove_leaf-Simulates :
      LeafSimulates fields (remove_leaf ongoing fields key) (at_entry key remove_entry)
  unfolding remove_leaf
  remove_leaf-Simulates c b w k =
      rw (at_entry-leaf remove_entry c b k) (elim (Bool-cases (equal c.key key)) [
        | inr h ↦ rw h (record { shapes = refl; well_formed = w; known = k })
        | inl h ↦ rw h (
            unfold set_placeholder update in
            record {
              shapes = unfold shape in refl;
              well_formed = λ _. length-map (λ (f : Field). f.placeholder) fields;
              known = refl;
            })
      ])
