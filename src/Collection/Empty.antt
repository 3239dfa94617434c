-- ===== src/Collection/Empty.antt =====
-- The collection that `New` makes.
use student_18_byzcoin.Bytes.{Bytes, bit}
use student_18_byzcoin.Collection.Get.{get_record}
use student_18_byzcoin.Collection.Get.View.{found}
use student_18_byzcoin.Collection.Shape.{shape, Safe, parent_values_total, Refreshed, refresh}
use student_18_byzcoin.Collection.State.{Collection, new}
use student_18_byzcoin.Collection.Valid.{IsValid, get_record-view}
use student_18_byzcoin.Common.{
  Result, panic, ok, Outcome, done, fail, crash, ignoring, length, get_elem?-some, length-map, ◌/◌,
  ◌≡◌, refl, ap, ◌∙◌, ◌≢◌, Bool, true, false, Option, none, some, List, [], map, arith,
}
use student_18_byzcoin.Field.{Field}
use student_18_byzcoin.Hash.{Hashing, sum256, hash}
use student_18_byzcoin.Node.{Content, Node, leaf, inner, unsaved, new_content}
use student_18_byzcoin.Scope.{scope_all}
use student_18_byzcoin.SingleNode.{leaf_to_hash, update, set_placeholder}
use student_18_byzcoin.Trie.{vacant, fork, find_at}
use student_18_byzcoin.Trie.Find.{view_of, view}
use student_18_byzcoin.Trie.Full.{Full}
use student_18_byzcoin.Trie.Rooted.{Rooted}
use student_18_byzcoin.Trie.Shallow.{Shallow}

module _ ⦃H : Hashing⦄ (fields : List Field) where
  abbrev empty_content : Content
  empty_content = record new_content {
    known = true;
    values = map (λ (f : Field). f.placeholder) fields;
    label = hash (leaf_to_hash [] (map (λ (f : Field). f.placeholder) fields));
  }

  abbrev empty_child : Node
  empty_child = leaf empty_content unsaved

  abbrev root_content : Content
  root_content = record new_content { known = true }

  root-done :
      Safe fields
      → (c : Content) × (ignoring
            (update fields (inner root_content unsaved empty_child empty_child))
            (λ n. done n)
          ≡ done (inner c unsaved empty_child empty_child))
        × Refreshed fields root_content c
  unfolding update
  root-done s =
      let l : length empty_content.values ≡ length fields =
        length-map (λ (f : Field). f.placeholder) fields in
      refresh fields root_content unsaved empty_child empty_child _ refl
        (parent_values_total fields empty_content.values empty_content.values s l l)

  -- where `New` ends, with the content of its root
  abbrev made : Content → Collection
  made c = record {
    root = inner c unsaved empty_child empty_child;
    fields = fields;
    scope = scope_all;
    auto_collect = record { value = true };
    ongoing = false;
    transaction_id = 0;
  }

  abbrev finish : Outcome Node → Result Collection
  finish o = elim o [
    | fail e n ↦ panic
    | crash ↦ panic
    | done root ↦ ok (record {
      root = root;
      fields = fields;
      scope = scope_all;
      auto_collect = record { value = true };
      ongoing = false;
      transaction_id = 0;
    })
  ]

  new-done :
      (c : Content)
      → ignoring (update fields (inner root_content unsaved empty_child empty_child)) (λ n. done n)
        ≡ done (inner c unsaved empty_child empty_child)
      → new fields ≡ ok (made c)
  unfolding new set_placeholder update
  new-done c e = ap finish e

  made-IsValid : (c : Content) → Safe fields → Refreshed fields root_content c → IsValid (made c)
  unfolding shape
  made-IsValid c s f =
      let l : length empty_content.values ≡ length fields =
        length-map (λ (f : Field). f.placeholder) fields in
      record {
        tree = (f.known, f.sized, (λ _. l), λ _. l);
        placed = (tt, tt, tt, tt);
        safe = s;
        everything = refl;
      }

  first_bit : (k : Bytes) → bit (sum256 k) 0 ≢ none
  unfolding bit
  first_bit k e =
      let (b, at) = get_elem?-some (sum256 k) (0 / 8) (omega (arith, H.sum256_length k)) in
      ground (arith, at, e)

  nothing : (k : Bytes) → view k 0 (fork vacant vacant) ≡ ok none
  unfolding view find_at
  nothing k = go (bit (sum256 k) 0) (first_bit k)
    where
      go :
          (o : Option Bool)
          → o ≢ none
          → view_of k (elim o [ none ↦ panic | some true ↦ ok vacant | some false ↦ ok vacant ])
            ≡ ok none
      go none h = absurd (h refl)
      go (some true) h = refl
      go (some false) h = refl

  pub new_parts :
      Safe fields
      → (c : Collection) × (new fields ≡ ok c)
        × IsValid c
        × Full (shape c.root)
        × Shallow 0 (shape c.root)
        × Rooted (shape c.root)
        × (c.fields ≡ fields)
        × ((k : Bytes) → k ≢ [] → get_record c k ≡ found fields k (ok none))
  unfolding shape
  new_parts s =
      let (c, e, f) = root-done s in
      let v = made-IsValid c s f in
      (
        made c,
        new-done c e,
        v,
        (tt, tt),
        (ground arith, tt, tt),
        (vacant, vacant, refl),
        refl,
        λ k named. get_record-view (made c) k v named ∙ ap (found fields k) (nothing k),
      )
