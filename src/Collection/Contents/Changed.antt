-- ===== src/Collection/Contents/Changed.antt =====
-- Set on a collection that is known as a whole.
use mathlib.Core.Option.{some-injective}
use student_18_byzcoin.Bytes.{Bytes, equal}
use student_18_byzcoin.Collection.Change.{write_values, set_record}
use student_18_byzcoin.Collection.Change.Fail.{get-set_record_fail}
use student_18_byzcoin.Collection.Change.Reads.{set_record-IsValid, get-set_record}
use student_18_byzcoin.Collection.Change.Total.{StaysWhole, set_record-StaysWhole}
use student_18_byzcoin.Collection.Contents.{
  Contents, put_values, Represents, found-some, found-none, found-if,
}
use student_18_byzcoin.Collection.Contents.Removed.{all_known}
use student_18_byzcoin.Collection.Get.View.{found}
use student_18_byzcoin.Collection.State.{Collection}
use student_18_byzcoin.Common.{
  if◌then◌else◌, Error, key_not_found, ok, ok-injective, Outcome, done, fail, crash, length, ◌≡◌,
  refl, sym, ap, ◌∙◌, ◌≢◌, inl, inr, none, some, List, [],
}
use student_18_byzcoin.Field.{Value, Field}
use student_18_byzcoin.Hash.{Hashing}

module _ ⦃H : Hashing⦄ where
  -- `Set` of a key that is not empty on the collection that represents `m`: it writes over the values
  -- that `m` has, or fails where `m` has none and leaves `m`.
  abbrev pub SetsIn : List Field → List Value → Contents → Bytes → Outcome Collection → Type 0
  SetsIn fields vs m key (done d) =
      (old : List Bytes) × (ys : List Bytes) × (m key ≡ some old)
      × (write_values fields vs old ≡ ok ys)
      × Represents d (put_values key (some ys) m)
      × (d.fields ≡ fields)
  SetsIn fields vs m key (fail x d) =
      (x ≡ key_not_found) × (m key ≡ none) × Represents d m × (d.fields ≡ fields)
  SetsIn fields vs m key crash = ⊥

  changed :
      (c c' : Collection) (m : Contents) (key : Bytes) (vs : List Value)
      → Represents c m
      → key ≢ []
      → set_record c key vs ≡ done c'
      → StaysWhole c (done c')
      → SetsIn c.fields vs m key (done c')
  changed c c' m key vs r named e (w, same_fields) =
      let (old, ys, before, made, after) = get-set_record c key vs c' key r.valid named named e in
      let had : m key ≡ some old =
        found-some c.fields key (m key) old (sym (r.reads key named) ∙ before) in
      (
        old,
        ys,
        had,
        made,
        record {
          valid = set_record-IsValid c key vs c' r.valid named e;
          full = w.full;
          shallow = w.shallow;
          rooted = w.rooted;
          reads = λ k k_named.
              let (o, zs, b, q, a) = get-set_record c key vs c' k r.valid named k_named e in
              let same_old : some o ≡ some old =
                sym (found-some c.fields key (m key) o (sym (r.reads key named) ∙ b)) ∙ had in
              let same_new : ok zs ≡ ok ys =
                sym q ∙ ap (write_values c.fields vs) (some-injective _ _ same_old) ∙ made in
              a
              ∙ ap (λ x. if equal key k then found c.fields k (ok (some zs)) else x)
                  (r.reads k k_named)
              ∙ found-if c.fields k (equal key k) (some zs) (m k)
              ∙ ap (λ xs. found c.fields k (ok (if equal key k then some xs else m k)))
                  (ok-injective same_new)
              ∙ ap (λ (fs : List Field). found fs k (ok (put_values key (some ys) m k)))
                  (sym same_fields);
        },
        same_fields,
      )

  not_changed :
      (c c' : Collection) (m : Contents) (key : Bytes) (vs : List Value) (x : Error)
      → Represents c m
      → key ≢ []
      → set_record c key vs ≡ fail x c'
      → StaysWhole c (fail x c')
      → SetsIn c.fields vs m key (fail x c')
  not_changed c c' m key vs x r named e (known, w, same_fields) =
      let (valid, same_read, why) = get-set_record_fail c key vs c' x key r.valid named named e in
      let (is, absent) : (x ≡ key_not_found) × (m key ≡ none) = elim why [
        | inl u ↦ absurd (known u)
        | inr (u, q) ↦ (u, found-none c.fields key (m key) (sym (r.reads key named) ∙ q))
      ] in
      (
        is,
        absent,
        record {
          valid = valid;
          full = w.full;
          shallow = w.shallow;
          rooted = w.rooted;
          reads = λ k k_named.
              (get-set_record_fail c key vs c' x k r.valid named k_named e).1
              ∙ r.reads k k_named
              ∙ ap (λ (fs : List Field). found fs k (ok (m k))) (sym same_fields);
        },
        same_fields,
      )

  pub set_record-SetsIn :
      (c : Collection) (m : Contents) (key : Bytes) (vs : List Value)
      → Represents c m
      → key ≢ []
      → length vs ≡ length c.fields
      → ((old : List Bytes)
          → length old ≡ length c.fields
          → (ys : List Bytes) × (write_values c.fields vs old ≡ ok ys))
      → SetsIn c.fields vs m key (set_record c key vs)
  set_record-SetsIn c m key vs r named sized writes =
      go (set_record c key vs) refl
        (set_record-StaysWhole c key vs r.valid (all_known c m r) named sized writes)
    where
      go :
          (o : Outcome Collection)
          → set_record c key vs ≡ o
          → StaysWhole c o
          → SetsIn c.fields vs m key o
      go (done c') e w = changed c c' m key vs r named e w
      go (fail x c') e w = not_changed c c' m key vs x r named e w
      go crash e w = w
