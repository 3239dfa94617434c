-- ===== src/Collection/Valid.antt =====
-- What every operation relies on and keeps: a well-formed tree with each
-- record on the path of its key, fields whose `Parent` does not panic,
-- and a scope that is everything, as `New` sets it.
use student_18_byzcoin.Bytes.{Bytes}
use student_18_byzcoin.Collection.Get.{get_record}
use student_18_byzcoin.Collection.Get.View.{found, get_at-view}
use student_18_byzcoin.Collection.Shape.{shape, WellFormed, Safe}
use student_18_byzcoin.Collection.State.{Collection, with_root}
use student_18_byzcoin.Common.{◌==◌, length, suc, ◌≡◌, refl, ◌≢◌, false, [], ◌∷◌, arith}
use student_18_byzcoin.Hash.{Hashing}
use student_18_byzcoin.Node.{Node}
use student_18_byzcoin.Scope.{scope_all}
use student_18_byzcoin.Trie.{Placed}
use student_18_byzcoin.Trie.Find.{view}

module _ ⦃H : Hashing⦄ where
  pub record IsValid (c : Collection) : Type 0 where
    pub tree : WellFormed c.fields c.root
    pub placed : Placed 0 (shape c.root)
    pub safe : Safe c.fields
    pub everything : c.scope ≡ scope_all

  pub with_root-IsValid :
      (c : Collection) (n : Node)
      → IsValid c
      → WellFormed c.fields n
      → Placed 0 (shape n)
      → IsValid (with_root c n)
  with_root-IsValid c n v w p = record {
    tree = w;
    placed = p;
    safe = v.safe;
    everything = v.everything;
  }

  -- what a search for a key gives, read off the trie
  pub get_record-view :
      (c : Collection) (k : Bytes)
      → IsValid c
      → k ≢ []
      → get_record c k ≡ found c.fields k (view k 0 (shape c.root))
  unfolding get_record
  get_record-view c [] v named = absurd (named refl)
  get_record-view c (x ∷ k) v named =
      let some_key : (suc (length k) == 0) ≡ false = ground arith in
      rw some_key (get_at-view c.fields (x ∷ k) named c.root 0 v.tree)
