-- ===== src/Collection/Contents/Removed.antt =====
-- Remove from a collection that is known as a whole.
use student_18_byzcoin.Bytes.{Bytes, equal}
use student_18_byzcoin.Collection.Change.{remove}
use student_18_byzcoin.Collection.Change.Fail.{get-remove_fail}
use student_18_byzcoin.Collection.Change.Reads.{remove-IsValid, get-remove}
use student_18_byzcoin.Collection.Change.Total.{Whole, StaysWhole, remove-StaysWhole}
use student_18_byzcoin.Collection.Contents.{
  Contents, put_values, Represents, found-some, found-none, found-if,
}
use student_18_byzcoin.Collection.Get.View.{found}
use student_18_byzcoin.Collection.Shape.{shape}
use student_18_byzcoin.Collection.State.{Collection}
use student_18_byzcoin.Common.{
  if◌then◌else◌, Error, key_not_found, ok, Outcome, done, fail, crash, ◌≡◌, refl, sym, ap, ◌∙◌, ◌≢◌,
  inl, inr, none, some, List, [],
}
use student_18_byzcoin.Field.{Field}
use student_18_byzcoin.Hash.{Hashing}

module _ ⦃H : Hashing⦄ where
  -- `Remove` of a key that is not empty from the collection that represents `m`: it takes the key out
  -- of `m`, or fails where `m` has none and leaves `m`.
  abbrev pub RemovesFrom : List Field → Contents → Bytes → Outcome Collection → Type 0
  RemovesFrom fields m key (done d) =
      ((old : List Bytes) × (m key ≡ some old))
      × Represents d (put_values key none m)
      × (d.fields ≡ fields)
  RemovesFrom fields m key (fail x d) =
      (x ≡ key_not_found) × (m key ≡ none) × Represents d m × (d.fields ≡ fields)
  RemovesFrom fields m key crash = ⊥

  pub all_known : (c : Collection) (m : Contents) → Represents c m → Whole (shape c.root)
  all_known c m r = record { full = r.full; shallow = r.shallow; rooted = r.rooted }

  removed :
      (c c' : Collection) (m : Contents) (key : Bytes)
      → Represents c m
      → key ≢ []
      → remove c key ≡ done c'
      → StaysWhole c (done c')
      → RemovesFrom c.fields m key (done c')
  removed c c' m key r named e (w, same_fields) =
      let (old, before, after) = get-remove c key c' key r.valid named named e in
      (
        (old, found-some c.fields key (m key) old (sym (r.reads key named) ∙ before)),
        record {
          valid = remove-IsValid c key c' r.valid named e;
          full = w.full;
          shallow = w.shallow;
          rooted = w.rooted;
          reads = λ k k_named.
              let (o, b, a) = get-remove c key c' k r.valid named k_named e in
              a
              ∙ ap (λ x. if equal key k then found c.fields k (ok none) else x) (r.reads k k_named)
              ∙ found-if c.fields k (equal key k) none (m k)
              ∙ ap (λ (fs : List Field). found fs k (ok (put_values key none m k)))
                  (sym same_fields);
        },
        same_fields,
      )

  not_removed :
      (c c' : Collection) (m : Contents) (key : Bytes) (x : Error)
      → Represents c m
      → key ≢ []
      → remove c key ≡ fail x c'
      → StaysWhole c (fail x c')
      → RemovesFrom c.fields m key (fail x c')
  not_removed c c' m key x r named e (known, w, same_fields) =
      let (valid, same_read, why) = get-remove_fail c key c' x key r.valid named named e in
      let (is, absent) : (x ≡ key_not_found) × (m key ≡ none) = elim why [
        | inl u ↦ absurd (known u)
        | inr (u, q) ↦ (u, found-none c.fields key (m key) (sym (r.reads key named) ∙ q))
      ] in
      (
        is,
        absent,
        record {
          valid = valid;
          full = w.full;
          shallow = w.shallow;
          rooted = w.rooted;
          reads = λ k k_named.
              (get-remove_fail c key c' x k r.valid named k_named e).1
              ∙ r.reads k k_named
              ∙ ap (λ (fs : List Field). found fs k (ok (m k))) (sym same_fields);
        },
        same_fields,
      )

  -- On a collection that is known as a whole and represents a map, a Remove of a key that is not
  -- empty does not panic. It returns nil, and then the map had the key and the collection
  -- represents the map without it, or it returns the error that the key was not found, and then
  -- the map has nothing under the key and the collection represents it still.
  pub remove-RemovesFrom :
      (c : Collection) (m : Contents) (key : Bytes)
      → Represents c m
      → key ≢ []
      → RemovesFrom c.fields m key (remove c key)
  remove-RemovesFrom c m key r named =
      go (remove c key) refl (remove-StaysWhole c key r.valid (all_known c m r) named)
    where
      go :
          (o : Outcome Collection)
          → remove c key ≡ o
          → StaysWhole c o
          → RemovesFrom c.fields m key o
      go (done c') e w = removed c c' m key r named e w
      go (fail x c') e w = not_removed c c' m key x r named e w
      go crash e w = w
