-- ===== src/Collection/Add/Total.antt =====
-- `Add` does not panic on a tree that is known as a whole.
use student_18_byzcoin.Bytes.{Bytes}
use student_18_byzcoin.Collection.Add.{add_root, add}
use student_18_byzcoin.Collection.Add.Reads.{length-encode_all}
use student_18_byzcoin.Collection.Add.Refines.{add_at-Simulates}
use student_18_byzcoin.Collection.Collect.{collect_unless_ongoing}
use student_18_byzcoin.Collection.Collect.Total.{collect_unless_ongoing_total}
use student_18_byzcoin.Collection.Shape.{shape_leaf, shape, WellFormed, shape-inner}
use student_18_byzcoin.Collection.State.{Collection, with_root, encode_all}
use student_18_byzcoin.Collection.Valid.{IsValid}
use student_18_byzcoin.Common.{
  ◌==◌, Result, panic, err, ok, Outcome, done, fail, crash, and_then, map_outcome, length, ◌+◌, ◌*◌,
  ◌≡◌, refl, sym, ap, ◌∙◌, subst, ◌≢◌, Bool, true, false, List, [], ◌∷◌, arith,
}
use student_18_byzcoin.Field.{Value}
use student_18_byzcoin.Hash.{Hashing, sum256}
use student_18_byzcoin.Node.{Content, Node, leaf, inner, Backup, content}
use student_18_byzcoin.Trie.{Trie, fork, insert_at, AllKeys, Placed}
use student_18_byzcoin.Trie.Full.{Full}
use student_18_byzcoin.Trie.Rooted.{Rooted, insert-Rooted, AllKeys-imp}
use student_18_byzcoin.Trie.Shallow.{Shallow, insert-Shallow}
use student_18_byzcoin.Trie.Total.{Apart, Near}
use student_18_byzcoin.Trie.Total.Insert.{insert-crash}

shape_leaf-fork :
    (known : Bool) (k : Bytes) (vs : List Bytes) (l r : Trie) → shape_leaf known k vs ≢ fork l r
shape_leaf-fork false k vs l r e = cc
shape_leaf-fork true [] vs l r e = cc
shape_leaf-fork true (x ∷ k) vs l r e = cc

-- a node whose trie is a fork has children
pub fork-inner :
    (n : Node) (l r : Trie)
    → shape n ≡ fork l r
    → (c : Content) × (b : Backup) × (nl : Node) × (nr : Node) × (n ≡ inner c b nl nr)
unfolding shape
fork-inner (leaf c b) l r e = absurd (shape_leaf-fork c.known c.key c.values l r e)
fork-inner (inner c b nl nr) l r e = (c, b, nl, nr, refl)

shape_leaf-named :
    (known : Bool) (k : Bytes) (vs : List Bytes) → AllKeys (λ x. x ≢ []) (shape_leaf known k vs)
shape_leaf-named false k vs = tt
shape_leaf-named true [] vs = tt
shape_leaf-named true (x ∷ k) vs = λ e. cc

-- no record has the empty key
pub keys_named : (n : Node) → AllKeys (λ x. x ≢ []) (shape n)
unfolding shape
keys_named (leaf c b) = shape_leaf-named c.known c.key c.values
keys_named (inner c b l r) = (keys_named l, keys_named r)

module _ ⦃H : Hashing⦄ where
  -- what `Add` relies on to end
  pub record Ready (c : Collection) (key : Bytes) : Type 0 where
    pub full : Full (shape c.root)
    pub shallow : Shallow 0 (shape c.root)
    pub rooted : Rooted (shape c.root)
    pub apart : AllKeys (Apart key []) (shape c.root)

  keys-Near : (key : Bytes) (t : Trie) → AllKeys (Apart key []) t → AllKeys (Near key [] 0) t
  keys-Near key t a =
      AllKeys-imp (Apart key []) (Near key [] 0) t
        (λ k h. ((λ i lt. absurd (omega (arith, lt))), h)) a

  map_outcome-crash : (f : Node → Trie) (o : Outcome Node) → map_outcome f o ≢ crash → o ≢ crash
  map_outcome-crash f (done n) h e = cc
  map_outcome-crash f (fail x n) h e = cc
  map_outcome-crash f crash h e = h refl

  inserts :
      (c : Collection) (key : Bytes) (raws : List Bytes)
      → IsValid c
      → Ready c key
      → insert_at key raws (8 * length (sum256 key) + 1) 0 (shape c.root) ≢ crash
  inserts c key raws v r =
      let (l, t, q) = r.rooted in
      let fuel : 8 * length (sum256 key) + 1 ≡ 257 = omega (arith, H.sum256_length key) in
      rw (q, fuel)
        (insert-crash key raws 257 0 l t refl (subst Full q r.full) (subst (Shallow 0) q r.shallow)
          (subst (Placed 0) q v.placed)
          (keys-Near key (fork l t) (subst (AllKeys (Apart key [])) q r.apart)))

  root_known : (c : Collection) → IsValid c → Rooted (shape c.root) → (content c.root).known ≡ true
  root_known c v r =
      let (n, b, nl, nr, q) = fork-inner c.root r.0 r.1 r.2 in
      let w : WellFormed c.fields (inner n b nl nr) = subst (WellFormed c.fields) q v.tree in
      ap (λ m. (content m).known) q ∙ w.0

  -- the tree that an `Add` left, known as a whole and shallow
  pub add-Ready :
      (c : Collection) (key : Bytes) (raws : List Bytes) (n : Node)
      → Ready c key
      → insert_at key raws (8 * length (sum256 key) + 1) 0 (shape c.root) ≡ done (shape n)
      → Shallow 0 (shape n) × Rooted (shape n)
  add-Ready c key raws n r e = (
    insert-Shallow key raws (8 * length (sum256 key) + 1) 0 (shape c.root) (shape n) r.shallow e,
    insert-Rooted key raws (8 * length (sum256 key) + 1) 0 (shape c.root) (shape n) e,
  )

  pub collected :
      (c : Collection) (n : Node)
      → IsValid c
      → Shallow 0 (shape n)
      → Rooted (shape n)
      → collect_unless_ongoing (with_root c n) ≢ crash
  collected c n v low r =
      let (k, b, nl, nr, q) = fork-inner n r.0 r.1 r.2 in
      collect_unless_ongoing_total (with_root c n) k b nl nr q v.everything
        (subst (Shallow 0) (ap shape q ∙ shape-inner k b nl nr) low)

  -- the walk and the collection after it
  walk_collects :
      (c : Collection) (key : Bytes) (raws : List Bytes) (o : Outcome Node)
      → IsValid c
      → Ready c key
      → map_outcome shape o ≡ insert_at key raws (8 * length (sum256 key) + 1) 0 (shape c.root)
      → and_then (map_outcome (with_root c) o) collect_unless_ongoing ≢ crash
  walk_collects c key raws crash v r s e = inserts c key raws v r (sym s)
  walk_collects c key raws (fail x n) v r s e = cc
  walk_collects c key raws (done n) v r s e =
      let (low, root) = add-Ready c key raws n r (sym s) in collected c n v low root e

  pub add_total :
      (c : Collection) (key : Bytes) (vs : List Value) (raws : List Bytes)
      → IsValid c
      → Ready c key
      → key ≢ []
      → length vs ≡ length c.fields
      → encode_all c.fields vs ≡ ok raws
      → add c key vs ≢ crash
  unfolding add add_root
  add_total c key vs raws v r named sized q e =
      by_encoding (encode_all c.fields vs) q (simp (some_key key named, some_sized) at e)
    where
      some_key : (k : Bytes) → k ≢ [] → (length k == 0) ≡ false
      some_key [] h = absurd (h refl)
      some_key (x ∷ xs) h = ground arith

      some_sized : (length vs == length c.fields) ≡ true
      some_sized = ground (arith, sized)

      by_encoding :
          (o : Result (List Bytes))
          → o ≡ ok raws
          → ◌≢◌ {A = Outcome Collection}
              (elim o [
                | err y ↦ crash
                | panic ↦ crash
                | ok ys ↦
                    and_then
                      (map_outcome (with_root c) (add_root c.ongoing c.fields key ys c.root))
                      collect_unless_ongoing
              ])
              crash
      by_encoding (err y) p z = cc
      by_encoding panic p z = cc
      by_encoding (ok ys) p z =
          let k = root_known c v r.rooted in
          let sized_ys : length ys ≡ length c.fields =
            length-encode_all c.fields vs ys (q ∙ sym p) in
          walk_collects c key ys (add_root c.ongoing c.fields key ys c.root) v r
            (simp k
              (add_at-Simulates c.ongoing c.fields v.safe key ys named sized_ys _ 0 c.root v.tree
                k).shapes)
            z
