-- ===== src/Collection/Contents.antt =====
-- What a collection that is known as a whole promises: it is a map from keys to raw values.
pub mod Removed
pub mod Changed
use mathlib.Core.Bool.{false≢true}
use student_18_byzcoin.Bytes.{Bytes, equal}
use student_18_byzcoin.Collection.Add.{add}
use student_18_byzcoin.Collection.Add.Fail.{add_fail-shape, add_fail-IsValid, get-add_fail}
use student_18_byzcoin.Collection.Add.Reads.{add-inserted, add-Full, add-IsValid, get-add}
use student_18_byzcoin.Collection.Add.Total.{keys_named, Ready, add_total}
use student_18_byzcoin.Collection.Empty.{new_parts}
use student_18_byzcoin.Collection.Get.{Record, get_record}
use student_18_byzcoin.Collection.Get.View.{found}
use student_18_byzcoin.Collection.Shape.{shape, Safe}
use student_18_byzcoin.Collection.State.{Collection, encode_all, new}
use student_18_byzcoin.Collection.Valid.{IsValid, get_record-view}
use student_18_byzcoin.Common.{
  if◌then◌else◌, Error, key_collision, ok, ok-injective, Outcome, done, fail, crash, length, ◌+◌,
  ◌*◌, ◌≡◌, refl, sym, ap, ◌∙◌, subst, ◌≢◌, inl, inr, Bool, true, false, Option, none, some, List,
  [],
}
use student_18_byzcoin.Field.{Value, Field}
use student_18_byzcoin.Hash.{Hashing, sum256}
use student_18_byzcoin.Trie.{AllKeys}
use student_18_byzcoin.Trie.Full.{Full}
use student_18_byzcoin.Trie.Rooted.{Rooted, insert-Rooted, AllKeys-map, Found, keys-Found}
use student_18_byzcoin.Trie.Shallow.{Shallow, insert-Shallow}
use student_18_byzcoin.Trie.Total.{Apart}

abbrev pub Contents : Type 0
Contents = Bytes → Option (List Bytes)

-- the map with one key changed
abbrev pub put_values : Bytes → Option (List Bytes) → Contents → Contents
put_values key vs m = λ k. if equal key k then vs else m k

module _ ⦃H : Hashing⦄ where
  pub record Represents (c : Collection) (m : Contents) : Type 0 where
    pub valid : IsValid c
    pub full : Full (shape c.root)
    pub shallow : Shallow 0 (shape c.root)
    pub rooted : Rooted (shape c.root)
    pub reads : (k : Bytes) → k ≢ [] → get_record c k ≡ found c.fields k (ok (m k))

  -- what a search finds tells what the map has
  pub found-some :
      (fields : List Field) (key : Bytes) (o : Option (List Bytes)) (vs : List Bytes)
      → found fields key (ok o) ≡ found fields key (ok (some vs))
      → o ≡ some vs
  found-some fields key (some xs) vs e = ap (λ (r : Record). some r.values) (ok-injective e)
  found-some fields key none vs e =
      absurd (false≢true (ap (λ (r : Record). r.matches) (ok-injective e)))

  pub found-none :
      (fields : List Field) (key : Bytes) (o : Option (List Bytes))
      → found fields key (ok o) ≡ found fields key (ok none)
      → o ≡ none
  found-none fields key none e = refl
  found-none fields key (some xs) e =
      absurd (false≢true (sym (ap (λ (r : Record). r.matches) (ok-injective e))))

  pub found-if :
      (fields : List Field) (k : Bytes) (b : Bool) (x y : Option (List Bytes))
      → (if b then found fields k (ok x) else found fields k (ok y))
        ≡ found fields k (ok (if b then x else y))
  found-if fields k true x y = refl
  found-if fields k false x y = refl

  -- If no Parent of a field panics, New does not either, and its collection represents the map
  -- with nothing in it.
  pub new-Represents :
      (fields : List Field)
      → Safe fields
      → (c : Collection) × (new fields ≡ ok c) × (c.fields ≡ fields) × Represents c (λ k. none)
  new-Represents fields s =
      let (c, e, v, full, low, root, q, reads) = new_parts fields s in
      (
        c,
        e,
        q,
        record {
          valid = v;
          full = full;
          shallow = low;
          rooted = root;
          reads = λ k named. reads k named ∙ ap (λ (fs : List Field). found fs k (ok none)) (sym q);
        },
      )

  -- `Add` of a key that is not empty on the collection that represents `m`: it puts the encoded values
  -- under the key where `m` has none, and otherwise fails with a key collision and leaves `m`.
  abbrev pub AddsTo : Contents → Bytes → List Bytes → Outcome Collection → Type 0
  AddsTo m key raws (done d) = (m key ≡ none) × Represents d (put_values key (some raws) m)
  AddsTo m key raws (fail x d) =
      (x ≡ key_collision) × ((old : List Bytes) × (m key ≡ some old)) × Represents d m
  AddsTo m key raws crash = ⊥

  added-Represents :
      (c c' : Collection) (m : Contents) (key : Bytes) (vs : List Value) (raws : List Bytes)
      → Represents c m
      → key ≢ []
      → encode_all c.fields vs ≡ ok raws
      → add c key vs ≡ done c'
      → AddsTo m key raws (done c')
  added-Represents c c' m key vs raws r named q e =
      let (absent, full, same_fields) = add-Full c key vs c' r.valid r.full e in
      let (ys, inserted) = add-inserted c key vs c' r.valid e in
      let fuel = 8 * length (sum256 key) + 1 in
      (
        found-none c.fields key (m key) (sym (r.reads key named) ∙ absent),
        record {
          valid = add-IsValid c key vs c' r.valid e;
          full = full;
          shallow = insert-Shallow key ys fuel 0 (shape c.root) (shape c'.root) r.shallow inserted;
          rooted = insert-Rooted key ys fuel 0 (shape c.root) (shape c'.root) inserted;
          reads = λ k k_named.
              get-add c key vs c' raws k r.valid q e k_named
              ∙ ap (λ x. if equal key k then found c.fields k (ok (some raws)) else x)
                  (r.reads k k_named)
              ∙ found-if c.fields k (equal key k) (some raws) (m k)
              ∙ ap (λ (fs : List Field). found fs k (ok (put_values key (some raws) m k)))
                  (sym same_fields);
        },
      )

  refused-Represents :
      (c c' : Collection) (m : Contents) (key : Bytes) (vs : List Value) (raws : List Bytes)
      (x : Error)
      → Represents c m
      → key ≢ []
      → add c key vs ≡ fail x c'
      → AddsTo m key raws (fail x c')
  refused-Represents c c' m key vs raws x r named e =
      let (known_all, same_trie, same_fields) = add_fail-shape c key vs c' x r.valid r.full e in
      let (same_read, why) = get-add_fail c key vs c' x key r.valid named e in
      let here : (x ≡ key_collision) × ((old : List Bytes) × (m key ≡ some old)) = elim why [
        | inl (q, w) ↦ absurd (named w)
        | inr (inl q) ↦ absurd (known_all q)
        | inr (inr (q, (old, w))) ↦
            (q, (old, found-some c.fields key (m key) old (sym (r.reads key named) ∙ w)))
      ] in
      (
        here.0,
        here.1,
        record {
          valid = add_fail-IsValid c key vs c' x r.valid e;
          full = subst Full (sym same_trie) r.full;
          shallow = subst (Shallow 0) (sym same_trie) r.shallow;
          rooted = subst Rooted (sym same_trie) r.rooted;
          reads = λ k k_named.
              (get-add_fail c key vs c' x k r.valid k_named e).0
              ∙ r.reads k k_named
              ∙ ap (λ (fs : List Field). found fs k (ok (m k))) (sym same_fields);
        },
      )

  -- the keys of the tree are keys of the map
  keys-Apart :
      (c : Collection) (m : Contents) (key : Bytes)
      → Represents c m
      → ((k : Bytes) → m k ≢ none → sum256 k ≡ sum256 key → k ≡ key)
      → AllKeys (Apart key []) (shape c.root)
  keys-Apart c m key r apart =
      AllKeys-map (λ k. k ≢ []) (Found 0 (shape c.root)) (Apart key []) (shape c.root)
        (λ k named f. apart k (has_value k named f)) (keys_named c.root)
        (keys-Found 0 (shape c.root) r.valid.placed)
    where
      has_value : (k : Bytes) → k ≢ [] → Found 0 (shape c.root) k → m k ≢ none
      has_value k named f e =
          let q : m k ≡ some f.0 = found-some c.fields k (m k) f.0 (
            sym (r.reads k named)
            ∙ get_record-view c k r.valid named
            ∙ ap (found c.fields k) f.1) in
          cc

  -- On a collection that is known as a whole and represents a map, an Add of a key that is not
  -- empty, of as many values as fields, which the fields encode, does not panic unless another
  -- key of the map has the same hash. It returns nil, and then the map had nothing under the key
  -- and the collection represents the map with the encoded values there, or it returns the error
  -- of a key collision, and then the map has the key and the collection represents it still.
  pub add-AddsTo :
      (c : Collection) (m : Contents) (key : Bytes) (vs : List Value) (raws : List Bytes)
      → Represents c m
      → key ≢ []
      → length vs ≡ length c.fields
      → encode_all c.fields vs ≡ ok raws
      → ((k : Bytes) → m k ≢ none → sum256 k ≡ sum256 key → k ≡ key)
      → AddsTo m key raws (add c key vs)
  add-AddsTo c m key vs raws r named sized q apart = go (add c key vs) refl
    where
      ready : Ready c key
      ready = record {
        full = r.full;
        shallow = r.shallow;
        rooted = r.rooted;
        apart = keys-Apart c m key r apart;
      }

      go : (o : Outcome Collection) → add c key vs ≡ o → AddsTo m key raws o
      go (done c') e = added-Represents c c' m key vs raws r named q e
      go (fail x c') e = refused-Represents c c' m key vs raws x r named e
      go crash e = add_total c key vs raws r.valid ready named sized q e
