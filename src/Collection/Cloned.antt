-- ===== src/Collection/Cloned.antt =====
-- What a `Clone` has in common with its original.
use mathlib.Core.Path.{ap₂}
use student_18_byzcoin.Bytes.{Bytes}
use student_18_byzcoin.Collection.Get.{get_record}
use student_18_byzcoin.Collection.Get.View.{found}
use student_18_byzcoin.Collection.Shape.{shape, WellFormed}
use student_18_byzcoin.Collection.State.{Collection, copy_node, clone}
use student_18_byzcoin.Collection.Valid.{IsValid, get_record-view}
use student_18_byzcoin.Common.{
  Bool-cases, ok, ok-injective, ◌≡◌, refl, sym, ap, ◌∙◌, subst, ◌≢◌, inl, inr, false, List, [],
}
use student_18_byzcoin.Field.{Field}
use student_18_byzcoin.Hash.{Hashing}
use student_18_byzcoin.Node.{Node, leaf, inner}
use student_18_byzcoin.Scope.{scope_clone}
use student_18_byzcoin.Trie.{fork, Placed}
use student_18_byzcoin.Trie.Find.{view}

copy_node-shape : (n : Node) → shape (copy_node n) ≡ shape n
unfolding copy_node shape
copy_node-shape (leaf c b) = refl
copy_node-shape (inner c b l r) = ap₂ fork (copy_node-shape l) (copy_node-shape r)

copy_node-WellFormed :
    (fields : List Field) (n : Node) → WellFormed fields n → WellFormed fields (copy_node n)
unfolding copy_node
copy_node-WellFormed fields (leaf c b) w = w
copy_node-WellFormed fields (inner c b l r) w =
    (w.0, w.1, copy_node-WellFormed fields l w.2, copy_node-WellFormed fields r w.3)

module _ ⦃H : Hashing⦄ where
  abbrev copied : Collection → Collection
  copied c = record {
    root = copy_node c.root;
    fields = c.fields;
    scope = scope_clone c.scope;
    auto_collect = c.auto_collect;
    ongoing = false;
    transaction_id = 0;
  }

  copied-IsValid : (c : Collection) → IsValid c → IsValid (copied c)
  unfolding scope_clone
  copied-IsValid c v = record {
    tree = copy_node-WellFormed c.fields c.root v.tree;
    placed = subst (Placed 0) (sym (copy_node-shape c.root)) v.placed;
    safe = v.safe;
    everything = v.everything;
  }

  -- A Clone that does not panic, of a valid collection, is valid, and a search of it for a key
  -- that is not empty ends as in the original.
  pub get-clone :
      (c c' : Collection) (k : Bytes)
      → IsValid c
      → k ≢ []
      → clone c ≡ ok c'
      → IsValid c' × (get_record c' k ≡ get_record c k)
  unfolding clone
  get-clone c c' k v named e = elim (Bool-cases c.ongoing) [
    | inl h ↦ absurd (cc (simp h at e))
    | inr h ↦
        let q : copied c ≡ c' = ok-injective (simp h at e) in
        let w = copied-IsValid c v in
        (
          subst IsValid q w,
          ap (λ (d : Collection). get_record d k) (sym q)
              ∙ get_record-view (copied c) k w named
              ∙ ap (λ t. found c.fields k (view k 0 t)) (copy_node-shape c.root)
              ∙ sym (get_record-view c k v named),
        )
  ]
