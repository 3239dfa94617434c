-- ===== src/Collection/Add/Fail.antt =====
-- An `Add` that returns an error.
use mathlib.Core.Bool.{false≢true}
use student_18_byzcoin.Bytes.{Bytes}
use student_18_byzcoin.Collection.Add.{add_at, add_root, add}
use student_18_byzcoin.Collection.Add.Reads.{length-encode_all}
use student_18_byzcoin.Collection.Add.Refines.{add_at-Simulates}
use student_18_byzcoin.Collection.Collect.{collect_unless_ongoing}
use student_18_byzcoin.Collection.Collect.Keeps.{collect_unless_ongoing-fail}
use student_18_byzcoin.Collection.Get.{get_record}
use student_18_byzcoin.Collection.Get.View.{found}
use student_18_byzcoin.Collection.Shape.{shape, WellFormed, Simulates, known-shape}
use student_18_byzcoin.Collection.State.{Collection, with_root, encode_all}
use student_18_byzcoin.Collection.Valid.{IsValid, with_root-IsValid, get_record-view}
use student_18_byzcoin.Common.{
  ◌==◌, Bool-cases, Error, empty_key, unknown_subtree, key_collision, Result, panic, err, ok,
  Outcome, fail, crash, and_then, map_outcome, map_outcome-fail, and_then-fail, length, ◌+◌, ◌*◌,
  ◌≡◌, refl, sym, ap, ◌∙◌, subst, ◌≢◌, ◌⊎◌, inl, inr, true, false, not, some, List, [], ◌∷◌, arith,
}
use student_18_byzcoin.Field.{Value}
use student_18_byzcoin.Hash.{Hashing, sum256}
use student_18_byzcoin.Node.{Node, content}
use student_18_byzcoin.Trie.{hidden?, insert_at, Placed}
use student_18_byzcoin.Trie.Fail.{insert-fail}
use student_18_byzcoin.Trie.Find.{view}
use student_18_byzcoin.Trie.Full.{Full, Full-hidden, insert-known}

module _ ⦃H : Hashing⦄ where
  -- why `Add` returns the error, as a search of the collection would tell
  abbrev pub AddReason : Collection → Bytes → Error → Type 0
  AddReason c key x =
      ((x ≡ empty_key) × (key ≡ []))
      ⊎ (x ≡ unknown_subtree)
      ⊎ ((x ≡ key_collision)
          × ((old : List Bytes) × (get_record c key ≡ found c.fields key (ok (some old)))))

  -- the collection after an `Add` that failed
  record Refused (c : Collection) (key : Bytes) (c' : Collection) (x : Error) : Type 0 where
    root : Node
    collection : c' ≡ with_root c root
    same_trie : shape root ≡ shape c.root
    tree : WellFormed c.fields root
    reason : AddReason c key x
    known_all : Full (shape c.root) → x ≢ unknown_subtree

  unchanged :
      (c : Collection) (key : Bytes) (x : Error)
      → IsValid c
      → x ≡ empty_key
      → key ≡ []
      → Refused c key c x
  unchanged c key x v q e = record {
    root = c.root;
    collection = refl;
    same_trie = refl;
    tree = v.tree;
    reason = inl (q, e);
    known_all = λ h w. cc;
  }

  not_inserted :
      (c : Collection) (key : Bytes) (raws : List Bytes) (n : Node) (x : Error)
      → IsValid c
      → key ≢ []
      → length raws ≡ length c.fields
      → (content c.root).known ≡ true
      → add_at c.ongoing c.fields key raws (8 * length (sum256 key) + 1) 0 c.root ≡ fail x n
      → Refused c key (with_root c n) x
  not_inserted c key raws n x v named sized k e =
      let s : Simulates c.fields (fail x n)
          (insert_at key raws (8 * length (sum256 key) + 1) 0 (shape c.root)) =
        subst
          (λ o.
            Simulates c.fields o
              (insert_at key raws (8 * length (sum256 key) + 1) 0 (shape c.root)))
          e (add_at-Simulates c.ongoing c.fields v.safe key raws named sized _ 0 c.root v.tree k) in
      let f =
        insert-fail key raws (8 * length (sum256 key) + 1) 0 (shape c.root) (shape n) x
          (sym s.shapes) in
      record {
        root = n;
        collection = refl;
        same_trie = f.same_trie;
        tree = s.well_formed;
        reason = elim f.why [
          | inl q ↦ inr (inl q)
          | inr (q, (old, w)) ↦
              inr (inr (q, (old, get_record-view c key v named ∙ ap (found c.fields key) w)))
        ];
        known_all = λ h q.
            insert-known key raws (8 * length (sum256 key) + 1) 0 (shape c.root) (shape n) h
              (sym s.shapes ∙ ap (λ y. fail y (shape n)) q);
      }

  Refused-root :
      (c : Collection) (key : Bytes) (raws : List Bytes) (n : Node) (x : Error)
      → IsValid c
      → key ≢ []
      → length raws ≡ length c.fields
      → add_root c.ongoing c.fields key raws c.root ≡ fail x n
      → Refused c key (with_root c n) x
  unfolding add_root
  Refused-root c key raws n x v named sized e = elim (Bool-cases (content c.root).known) [
    | inl h ↦ not_inserted c key raws n x v named sized h (simp h at e)
    | inr h ↦
        let e1 : fail unknown_subtree c.root ≡ fail x n = simp h at e in
        let q : c.root ≡ n = cc in
        record {
          root = n;
          collection = refl;
          same_trie = ap shape (sym q);
          tree = subst (WellFormed c.fields) q v.tree;
          reason = inr (inl cc);
          known_all = λ g w.
              let z : hidden? (shape c.root) ≡ true =
                known-shape c.fields c.root v.tree ∙ ap not h in
              false≢true (sym (Full-hidden (shape c.root) g) ∙ z);
        }
  ]

  refused :
      (c : Collection) (key : Bytes) (vs : List Value) (c' : Collection) (x : Error)
      → IsValid c
      → add c key vs ≡ fail x c'
      → Refused c key c' x
  unfolding add
  refused c key vs c' x v e = by_key key refl
    where
      encoded :
          key ≢ []
          → (o : Result (List Bytes)) → encode_all c.fields vs ≡ o
          → ◌≡◌ {A = Outcome Collection}
              (elim o [
                | err y ↦ crash
                | panic ↦ crash
                | ok raws ↦
                    and_then
                      (map_outcome (with_root c) (add_root c.ongoing c.fields key raws c.root))
                      collect_unless_ongoing
              ])
              (fail x c')
          → Refused c key c' x
      encoded named (err y) q z = absurd (cc)
      encoded named panic q z = absurd (cc)
      encoded named (ok raws) q z = elim (and_then-fail _ collect_unless_ongoing z) [
        | inr (d, ed, ef) ↦ absurd (collect_unless_ongoing-fail d c' x ef)
        | inl ed ↦
            let (n, en, ew) =
              map_outcome-fail (with_root c) (add_root c.ongoing c.fields key raws c.root) ed in
            subst (λ d. Refused c key d x) ew
              (Refused-root c key raws n x v named (length-encode_all c.fields vs raws q) en)
      ]

      by_key : (k : Bytes) → key ≡ k → Refused c key c' x
      by_key [] q =
          let e1 : fail empty_key c ≡ fail x c' = rw (ap length q) at e in
          subst (λ d. Refused c key d x) (cc) (unchanged c key x v (cc) q)
      by_key (k ∷ ks) q =
          let some_key : (length key == 0) ≡ false = ground (arith, ap length q) in
          elim (Bool-cases (length vs == length c.fields)) [
            | inr g ↦ absurd (cc (simp (some_key, g) at e))
            | inl g ↦
                encoded (λ z. ground (arith, ap length q, ap length z)) (encode_all c.fields vs)
                  refl (simp (some_key, g) at e)
          ]

  Refused-IsValid :
      (c : Collection) (key : Bytes) (c' : Collection) (x : Error)
      → IsValid c
      → (r : Refused c key c' x) → IsValid (with_root c r.root)
  Refused-IsValid c key c' x v r =
      with_root-IsValid c r.root v r.tree (subst (Placed 0) (sym r.same_trie) v.placed)

  -- no error of `Add` on a tree that is known as a whole speaks of unknown subtrees
  pub add_fail-shape :
      (c : Collection) (key : Bytes) (vs : List Value) (c' : Collection) (x : Error)
      → IsValid c
      → Full (shape c.root)
      → add c key vs ≡ fail x c'
      → (x ≢ unknown_subtree) × (shape c'.root ≡ shape c.root) × (c'.fields ≡ c.fields)
  add_fail-shape c key vs c' x v h e =
      let r = refused c key vs c' x v e in
      (
        r.known_all h,
        ap (λ (d : Collection). shape d.root) r.collection ∙ r.same_trie,
        ap (λ (d : Collection). d.fields) r.collection,
      )

  -- An `Add` that returns an error leaves a valid collection valid.
  pub add_fail-IsValid :
      (c : Collection) (key : Bytes) (vs : List Value) (c' : Collection) (x : Error)
      → IsValid c
      → add c key vs ≡ fail x c'
      → IsValid c'
  add_fail-IsValid c key vs c' x v e =
      let r = refused c key vs c' x v e in
      subst IsValid (sym r.collection) (Refused-IsValid c key c' x v r)

  -- An Add that returns an error on a valid collection leaves what a search for any key that is
  -- not empty finds, and the error tells why: the key is empty, or the walk came to a subtree
  -- that is not known, or a search for the key finds a record of it.
  pub get-add_fail :
      (c : Collection) (key : Bytes) (vs : List Value) (c' : Collection) (x : Error) (k : Bytes)
      → IsValid c
      → k ≢ []
      → add c key vs ≡ fail x c'
      → (get_record c' k ≡ get_record c k) × AddReason c key x
  get-add_fail c key vs c' x k v named e =
      let r = refused c key vs c' x v e in
      (
        ap (λ (d : Collection). get_record d k) r.collection
            ∙ get_record-view (with_root c r.root) k (Refused-IsValid c key c' x v r) named
            ∙ ap (λ t. found c.fields k (view k 0 t)) r.same_trie
            ∙ sym (get_record-view c k v named),
        r.reason,
      )
