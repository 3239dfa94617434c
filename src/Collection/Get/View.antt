-- ===== src/Collection/Get/View.antt =====
-- `Get` reads the trie.
use student_18_byzcoin.Bytes.{Bytes, equal, bit}
use student_18_byzcoin.Bytes.Equal.{equal→≡}
use student_18_byzcoin.Collection.Get.{Record, record_key_mismatch, get_at, record_at}
use student_18_byzcoin.Collection.Shape.{shape_leaf, shape, WellFormed, shape-inner}
use student_18_byzcoin.Common.{
  if◌then◌else◌, Bool-cases, unknown_subtree, Result, ok, err, panic, ◌>>=◌, ℕ, suc, ◌≡◌, refl, sym,
  ap, ◌∙◌, ◌≢◌, inl, inr, Bool, true, false, not, Option, none, some, List, [], ◌∷◌,
}
use student_18_byzcoin.Field.{Field}
use student_18_byzcoin.Hash.{Hashing, sum256}
use student_18_byzcoin.Node.{Content, Node, leaf, inner, Backup}
use student_18_byzcoin.Trie.{entry, fork, find_at}
use student_18_byzcoin.Trie.Find.{view_of, view, view-fork}

-- the record of a search for `key`, from what the trie holds under it
abbrev pub found : List Field → Bytes → Result (Option (List Bytes)) → Result Record
found fields key (ok (some vs)) =
    ok (record { fields = fields; field = 0; query = []; matches = true; key = key; values = vs })
found fields key (ok none) = ok (record_key_mismatch fields key)
found fields key (err e) = err e
found fields key panic = panic

module _ ⦃H : Hashing⦄ (fields : List Field) (key : Bytes) (named : key ≢ []) where
  abbrev record_of : Result Content → Result Record
  record_of r = r >>= (λ c. ok (record_at fields key c))

  found-entry :
      (c : Content) (x : ℕ) (xs : Bytes)
      → c.key ≡ x ∷ xs
      → ok (record_at fields key c) ≡ found fields key (view_of key (ok (entry c.key c.values)))
  found-entry c x xs e = elim (Bool-cases (equal c.key key)) [
    | inl hit ↦ rw hit (
        ap ok (λ i. record {
          fields = fields;
          field = 0;
          query = [];
          matches = true;
          key = equal→≡ c.key key hit i;
          values = c.values;
        }))
    | inr miss ↦ rw miss refl
  ]

  equal-nil : equal [] key ≡ false
  equal-nil = elim (Bool-cases (equal [] key)) [
    | inl h ↦ absurd (named (sym (equal→≡ [] key h)))
    | inr h ↦ h
  ]

  get_at-leaf :
      (c : Content) (b : Backup) (depth : ℕ) (k0 : Bytes)
      → c.key ≡ k0
      → record_of (get_at (sum256 key) depth (leaf c b))
        ≡ found fields key (view key depth (shape (leaf c b)))
  unfolding get_at view shape find_at
  get_at-leaf c b depth k0 e = elim (Bool-cases c.known) [
    | inr h ↦ simp h
    | inl h ↦ simp h (by_key k0 e)
  ]
    where
      by_key :
          (k : Bytes)
          → c.key ≡ k
          → ◌≡◌ {A = Result Record} (ok (record_at fields key c)) (
              found fields key
                (view_of key (find_at (sum256 key) depth (shape_leaf true c.key c.values))))
      by_key [] e0 = simp (e0, equal-nil)
      by_key (x ∷ xs) e0 = found-entry c x xs e0 ∙ simp e0

  by_step :
      (o : Option Bool) (c : Content) (l r : Node) (depth : ℕ)
      → c.known ≡ true
      → bit (sum256 key) depth ≡ o
      → record_of (get_at (sum256 key) (suc depth) l)
        ≡ found fields key (view key (suc depth) (shape l))
      → record_of (get_at (sum256 key) (suc depth) r)
        ≡ found fields key (view key (suc depth) (shape r))
      → record_of (
          if not c.known then err unknown_subtree else elim o [
            | none ↦ panic
            | some true ↦ get_at (sum256 key) (suc depth) r
            | some false ↦ get_at (sum256 key) (suc depth) l
          ])
        ≡ found fields key (view key depth (fork (shape l) (shape r)))
  by_step none c l r depth k e hl hr = simp (k, view-fork, e)
  by_step (some true) c l r depth k e hl hr = simp (k, view-fork, e) hr
  by_step (some false) c l r depth k e hl hr = simp (k, view-fork, e) hl

  -- A search on the nodes gives the record that the trie has under the key.
  pub get_at-view :
      (n : Node) (depth : ℕ)
      → WellFormed fields n
      → record_of (get_at (sum256 key) depth n) ≡ found fields key (view key depth (shape n))
  unfolding get_at
  get_at-view (leaf c b) depth w = get_at-leaf c b depth c.key refl
  get_at-view (inner c b l r) depth w = rw (shape-inner c b l r) (
      by_step (bit (sum256 key) depth) c l r depth w.0 refl (get_at-view l (suc depth) w.2)
        (get_at-view r (suc depth) w.3))
