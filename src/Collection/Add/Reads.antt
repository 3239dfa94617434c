-- ===== src/Collection/Add/Reads.antt =====
-- `Add` as its callers see it.
use student_18_byzcoin.Bytes.{Bytes, equal}
use student_18_byzcoin.Collection.Add.{add_at, add_root, add}
use student_18_byzcoin.Collection.Add.Refines.{add_at-Simulates}
use student_18_byzcoin.Collection.Collect.{collect_unless_ongoing}
use student_18_byzcoin.Collection.Collect.Keeps.{collect_unless_ongoing-all}
use student_18_byzcoin.Collection.Get.{get_record}
use student_18_byzcoin.Collection.Get.View.{found}
use student_18_byzcoin.Collection.Shape.{shape, Simulates}
use student_18_byzcoin.Collection.State.{Collection, with_root, encode_all}
use student_18_byzcoin.Collection.Valid.{IsValid, with_root-IsValid, get_record-view}
use student_18_byzcoin.Common.{
  ◌==◌, if◌then◌else◌, Bool-cases, Result, panic, err, ok, bind-ok, ok-injective, Outcome, done,
  crash, and_then, map_outcome, map_outcome-done, and_then-done, length, suc, ◌+◌, ◌*◌, ◌≡◌, refl,
  sym, ap, ◌∙◌, subst, ◌≢◌, inl, inr, Bool, true, none, some, List, [], ◌∷◌, arith,
}
use student_18_byzcoin.Field.{Value, Field}
use student_18_byzcoin.Hash.{Hashing, sum256}
use student_18_byzcoin.Node.{Node, content}
use student_18_byzcoin.Trie.{insert_at, Placed}
use student_18_byzcoin.Trie.Find.{view-insert}
use student_18_byzcoin.Trie.Full.{Full, insert-Full, insert-absent}
use student_18_byzcoin.Trie.Place.{insert-Placed}

module _ ⦃H : Hashing⦄ where
  -- the parts of an `Add` that returns nil
  pub record Added (c : Collection) (key : Bytes) (vs : List Value) (c' : Collection) : Type 0 where
    pub named : key ≢ []
    pub raws : List Bytes
    pub encoded : encode_all c.fields vs ≡ ok raws
    pub known : (content c.root).known ≡ true
    pub root : Node
    pub inserted :
        add_at c.ongoing c.fields key raws (8 * length (sum256 key) + 1) 0 c.root ≡ done root
    pub collected : collect_unless_ongoing (with_root c root) ≡ done c'

  add_root-inverse :
      (ongoing : Bool) (fields : List Field) (key : Bytes) (raws : List Bytes) (n n' : Node)
      → add_root ongoing fields key raws n ≡ done n'
      → ((content n).known ≡ true)
        × (add_at ongoing fields key raws (8 * length (sum256 key) + 1) 0 n ≡ done n')
  unfolding add_root
  add_root-inverse ongoing fields key raws n n' e = elim (Bool-cases (content n).known) [
    | inr h ↦ cc (simp h at e)
    | inl h ↦ (h, simp h at e)
  ]

  pub add-inverse :
      (c : Collection) (key : Bytes) (vs : List Value) (c' : Collection)
      → add c key vs ≡ done c'
      → Added c key vs c'
  unfolding add
  add-inverse c key vs c' e = elim (Bool-cases (length key == 0)) [
    | inl h ↦ cc (simp h at e)
    | inr h ↦ elim (Bool-cases (length vs == length c.fields)) [
      | inr g ↦ cc (simp (h, g) at e)
      | inl g ↦
          go (λ z. absurd (ground (arith, h, ap length z))) (encode_all c.fields vs) refl
            (simp (h, g) at e)
    ]
  ]
    where
      go :
          key ≢ []
          → (o : Result (List Bytes)) → encode_all c.fields vs ≡ o
          → ◌≡◌ {A = Outcome Collection}
              (elim o [
                | err x ↦ crash
                | panic ↦ crash
                | ok raws ↦
                    and_then
                      (map_outcome (with_root c) (add_root c.ongoing c.fields key raws c.root))
                      collect_unless_ongoing
              ])
              (done c')
          → Added c key vs c'
      go named (err x) q y = absurd (cc)
      go named panic q y = absurd (cc)
      go named (ok raws) q y =
          let (d, ed, ef) = and_then-done _ collect_unless_ongoing y in
          let (n, en, ew) =
            map_outcome-done (with_root c) (add_root c.ongoing c.fields key raws c.root) ed in
          let (k, ea) = add_root-inverse c.ongoing c.fields key raws c.root n en in
          record {
            named = named;
            raws = raws;
            encoded = q;
            known = k;
            root = n;
            inserted = ea;
            collected = rw ew ef;
          }

  pub length-encode_all :
      (fields : List Field) (vs : List Value) (raws : List Bytes)
      → encode_all fields vs ≡ ok raws
      → length raws ≡ length fields
  unfolding encode_all
  length-encode_all [] vs raws e = ground arith
  length-encode_all (f ∷ fs) [] raws e = cc
  length-encode_all (f ∷ fs) (v ∷ vs) raws e =
      let (x, ex, e1) = bind-ok (f.encode v) _ e in
      let (xs, exs, e2) = bind-ok (encode_all fs vs) _ e1 in
      ap length (sym (ok-injective e2)) ∙ ap suc (length-encode_all fs vs xs exs)

  Added-Simulates :
      (c : Collection) (key : Bytes) (vs : List Value) (c' : Collection)
      → IsValid c
      → (a : Added c key vs c')
      → Simulates c.fields
          (done a.root)
          (insert_at key a.raws (8 * length (sum256 key) + 1) 0 (shape c.root))
  Added-Simulates c key vs c' v a =
      subst
        (λ o.
          Simulates c.fields o
            (insert_at key a.raws (8 * length (sum256 key) + 1) 0 (shape c.root)))
        a.inserted
        (add_at-Simulates c.ongoing c.fields v.safe key a.raws a.named
          (length-encode_all c.fields vs a.raws a.encoded) _ 0 c.root v.tree a.known)

  Added-Placed :
      (c : Collection) (key : Bytes) (vs : List Value) (c' : Collection)
      → IsValid c
      → (a : Added c key vs c') → Placed 0 (shape a.root)
  Added-Placed c key vs c' v a =
      insert-Placed key a.raws (8 * length (sum256 key) + 1) 0 (shape c.root) (shape a.root)
        v.placed (sym (Added-Simulates c key vs c' v a).shapes)

  Added-root :
      (c : Collection) (key : Bytes) (vs : List Value) (c' : Collection)
      → IsValid c
      → (a : Added c key vs c') → c' ≡ with_root c a.root
  Added-root c key vs c' v a =
      collect_unless_ongoing-all (with_root c a.root) c' v.everything a.collected

  -- an `Add` that ends well inserts into the trie
  pub add-inserted :
      (c : Collection) (key : Bytes) (vs : List Value) (c' : Collection)
      → IsValid c
      → add c key vs ≡ done c'
      → (raws : List Bytes) × (insert_at key raws (8 * length (sum256 key) + 1) 0 (shape c.root)
          ≡ done (shape c'.root))
  add-inserted c key vs c' v e =
      let a = add-inverse c key vs c' e in
      (
        a.raws,
        sym (Added-Simulates c key vs c' v a).shapes
            ∙ ap (λ (d : Collection). done (shape d.root)) (sym (Added-root c key vs c' v a)),
      )

  -- an `Add` on a tree that is known as a whole was of an absent key, and the tree is known still
  pub add-Full :
      (c : Collection) (key : Bytes) (vs : List Value) (c' : Collection)
      → IsValid c
      → Full (shape c.root)
      → add c key vs ≡ done c'
      → (get_record c key ≡ found c.fields key (ok none))
        × Full (shape c'.root)
        × (c'.fields ≡ c.fields)
  add-Full c key vs c' v h e =
      let a = add-inverse c key vs c' e in
      let s = sym (Added-Simulates c key vs c' v a).shapes in
      let fuel = 8 * length (sum256 key) + 1 in
      (
        get_record-view c key v a.named
            ∙ ap (found c.fields key)
                (insert-absent key a.raws fuel 0 (shape c.root) (shape a.root) s),
        subst (λ (d : Collection). Full (shape d.root)) (sym (Added-root c key vs c' v a))
            (insert-Full key a.raws fuel 0 (shape c.root) (shape a.root) h s),
        ap (λ (d : Collection). d.fields) (Added-root c key vs c' v a),
      )

  -- An Add that returns nil keeps a valid collection valid, inside a transaction and outside.
  pub add-IsValid :
      (c : Collection) (key : Bytes) (vs : List Value) (c' : Collection)
      → IsValid c
      → add c key vs ≡ done c'
      → IsValid c'
  add-IsValid c key vs c' v e =
      let a = add-inverse c key vs c' e in
      rw (Added-root c key vs c' v a) (
        with_root-IsValid c a.root v (Added-Simulates c key vs c' v a).well_formed
          (Added-Placed c key vs c' v a))

  -- After an Add that returns nil on a valid collection, inside a transaction and outside, a
  -- search for a key that is not empty finds the encoded values if it is the key that was added,
  -- and ends as it did before if it is another.
  pub get-add :
      (c : Collection) (key : Bytes) (vs : List Value) (c' : Collection) (raws : List Bytes)
      (k : Bytes)
      → IsValid c
      → encode_all c.fields vs ≡ ok raws
      → add c key vs ≡ done c'
      → k ≢ []
      → get_record c' k
        ≡ (if equal key k then found c.fields k (ok (some raws)) else get_record c k)
  get-add c key vs c' raws k v q e named =
      let a = add-inverse c key vs c' e in
      let s = Added-Simulates c key vs c' v a in
      let w = with_root-IsValid c a.root v s.well_formed (Added-Placed c key vs c' v a) in
      let same_raws : a.raws ≡ raws = ok-injective (sym a.encoded ∙ q) in
      let reads = view-insert key a.raws k _ 0 (shape c.root) (shape a.root) (sym s.shapes) in
      ap (λ (d : Collection). get_record d k) (Added-root c key vs c' v a)
      ∙ get_record-view (with_root c a.root) k w named
      ∙ ap (found c.fields k) reads
      ∙ (elim (Bool-cases (equal key k)) [
        | inl h ↦ rw h (rw same_raws refl)
        | inr h ↦ rw h (sym (get_record-view c k v named))
      ])
