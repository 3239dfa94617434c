-- ===== src/Collection/Update/Isolation.antt =====
-- `Apply` of an update touches the keys that its proofs declare, and no other.
use mathlib.Core.Bool.{false≢true}
use student_18_byzcoin.Bytes.{Bytes, equal}
use student_18_byzcoin.Bytes.Equal.{equal→≡}
use student_18_byzcoin.Collection.Add.{add}
use student_18_byzcoin.Collection.Add.Fail.{add_fail-IsValid, get-add_fail}
use student_18_byzcoin.Collection.Add.Reads.{add-inverse, add-IsValid, get-add}
use student_18_byzcoin.Collection.Change.{only_field, set_record, set_field, remove}
use student_18_byzcoin.Collection.Change.Fail.{get-set_record_fail, get-remove_fail}
use student_18_byzcoin.Collection.Change.Reads.{
  set_record-IsValid, remove-IsValid, get-set_record, get-remove,
}
use student_18_byzcoin.Collection.Get.{Record, get_record}
use student_18_byzcoin.Collection.Shape.{After}
use student_18_byzcoin.Collection.State.{Collection}
use student_18_byzcoin.Collection.Update.{
  Writing, finished, calls_get, calls_add, calls_set, calls_set_field, calls_remove, has, proxy_get,
  declared, proxy_add, proxy_set, proxy_set_field, proxy_remove, run_apply,
}
use student_18_byzcoin.Collection.Valid.{IsValid}
use student_18_byzcoin.Common.{
  leb, Bool-cases, Error, Result, panic, err, ok, Outcome, done, fail, crash, length, ℕ, ◌≡◌, refl,
  sym, ap, ◌∙◌, subst, ◌≢◌, inl, inr, true, false, Option, none, some, List, [],
}
use student_18_byzcoin.Field.{Value}
use student_18_byzcoin.Hash.{Hashing}

module _ ⦃H : Hashing⦄ where
  declared-differs :
      (paths : List Bytes) (key k : Bytes)
      → has paths key ≡ true
      → has paths k ≡ false
      → equal key k ≡ false
  declared-differs paths key k h g = elim (Bool-cases (equal key k)) [
    | inr q ↦ q
    | inl q ↦ absurd (false≢true (sym g ∙ ap (has paths) (sym (equal→≡ key k q)) ∙ h))
  ]

  declared-named :
      (paths : List Bytes) (key : Bytes) → has paths key ≡ true → has paths [] ≡ false → key ≢ []
  declared-named paths key h g e = false≢true (sym g ∙ ap (has paths) (sym e) ∙ h)

  module _ (paths : List Bytes) (k : Bytes) (k_named : k ≢ []) (undeclared : has paths k ≡ false)
      (no_empty : has paths [] ≡ false) where
    -- the collection is still valid, and a search for `k` ends as it did
    abbrev Keeps : Collection → Collection → Type 0
    Keeps c d = IsValid d × (get_record d k ≡ get_record c k)

    declared-Keeps :
        (c : Collection) (key : Bytes) (o : Outcome Collection)
        → (has paths key ≡ true → key ≢ [] → equal key k ≡ false → After (Keeps c) o)
        → After (Keeps c) (declared paths key o)
    unfolding declared
    declared-Keeps c key o h = elim (Bool-cases (has paths key)) [
      | inr q ↦ rw q tt
      | inl q ↦
          rw q
            (h q (declared-named paths key q no_empty) (declared-differs paths key k q undeclared))
    ]

    add-Keeps :
        (c : Collection) (key : Bytes) (vs : List Value)
        → IsValid c
        → equal key k ≡ false
        → After (Keeps c) (add c key vs)
    add-Keeps c key vs v q = go (add c key vs) refl
      where
        go : (o : Outcome Collection) → add c key vs ≡ o → After (Keeps c) o
        go crash e = tt
        go (fail x d) e =
            (add_fail-IsValid c key vs d x v e, (get-add_fail c key vs d x k v k_named e).0)
        go (done d) e =
            let a = add-inverse c key vs d e in
            (
              add-IsValid c key vs d v e,
              get-add c key vs d a.raws k v a.encoded e k_named ∙ rw q refl,
            )

    set_record-Keeps :
        (c : Collection) (key : Bytes) (vs : List Value)
        → IsValid c
        → key ≢ []
        → equal key k ≡ false
        → After (Keeps c) (set_record c key vs)
    set_record-Keeps c key vs v named q = go (set_record c key vs) refl
      where
        go : (o : Outcome Collection) → set_record c key vs ≡ o → After (Keeps c) o
        go crash e = tt
        go (fail x d) e =
            let (w, same_record, why) = get-set_record_fail c key vs d x k v named k_named e in
            (w, same_record)
        go (done d) e =
            let (old, ys, before, written, after) = get-set_record c key vs d k v named k_named e in
            (set_record-IsValid c key vs d v named e, after ∙ rw q refl)

    set_field-Keeps :
        (c : Collection) (key : Bytes) (field : ℕ) (value : Value)
        → IsValid c
        → key ≢ []
        → equal key k ≡ false
        → After (Keeps c) (set_field c key field value)
    unfolding set_field
    set_field-Keeps c key field value v named q = elim (Bool-cases (leb (length c.fields) field)) [
      | inl h ↦ rw h tt
      | inr h ↦ rw h (set_record-Keeps c key (only_field (length c.fields) field value) v named q)
    ]

    remove-Keeps :
        (c : Collection) (key : Bytes)
        → IsValid c
        → key ≢ []
        → equal key k ≡ false
        → After (Keeps c) (remove c key)
    remove-Keeps c key v named q = go (remove c key) refl
      where
        go : (o : Outcome Collection) → remove c key ≡ o → After (Keeps c) o
        go crash e = tt
        go (fail x d) e =
            let (w, same_record, why) = get-remove_fail c key d x k v named k_named e in
            (w, same_record)
        go (done d) e =
            let (old, before, after) = get-remove c key d k v named k_named e in
            (remove-IsValid c key d v named e, after ∙ rw q refl)

    -- the caller's next calls, after one that keeps the collection
    then-Keeps :
        (c : Collection) (o : Outcome Collection)
        (rest : Collection → Option Error → Outcome Collection)
        → After (Keeps c) o
        → ((d : Collection) (r : Option Error) → IsValid d → After (Keeps d) (rest d r))
        → After
            (Keeps c)
            (elim o [ done d ↦ rest d none | fail e d ↦ rest d (some e) | crash ↦ crash ])
    then-Keeps c crash rest h ih = tt
    then-Keeps c (done d) rest (v, q) ih = go (rest d none) (ih d none v)
      where
        go : (o : Outcome Collection) → After (Keeps d) o → After (Keeps c) o
        go crash h = tt
        go (done x) h = (h.0, h.1 ∙ q)
        go (fail e x) h = (h.0, h.1 ∙ q)
    then-Keeps c (fail e d) rest (v, q) ih = go (rest d (some e)) (ih d (some e) v)
      where
        go : (o : Outcome Collection) → After (Keeps d) o → After (Keeps c) o
        go crash h = tt
        go (done x) h = (h.0, h.1 ∙ q)
        go (fail e x) h = (h.0, h.1 ∙ q)

    After-get-Keeps :
        (c : Collection) (r : Result Record) (rest : Record → Outcome Collection)
        → ((x : Record) → After (Keeps c) (rest x))
        → After (Keeps c) (elim r [ ok x ↦ rest x | err e ↦ crash | panic ↦ crash ])
    After-get-Keeps c (ok x) rest h = h x
    After-get-Keeps c (err e) rest h = tt
    After-get-Keeps c panic rest h = tt

    run_apply-Keeps :
        (c : Collection) (w : Writing) → IsValid c → After (Keeps c) (run_apply paths c w)
    unfolding run_apply proxy_add proxy_set proxy_set_field proxy_remove
    run_apply-Keeps c finished v = (v, refl)
    run_apply-Keeps c (calls_get key next) v =
        After-get-Keeps c (proxy_get paths c key) (λ x. run_apply paths c (next x))
          (λ x. run_apply-Keeps c (next x) v)
    run_apply-Keeps c (calls_add key vs next) v =
        then-Keeps c _ (λ d r. run_apply paths d (next r))
          (declared-Keeps c key _ (λ h named q. add-Keeps c key vs v q))
          (λ d r. run_apply-Keeps d (next r))
    run_apply-Keeps c (calls_set key vs next) v =
        then-Keeps c _ (λ d r. run_apply paths d (next r))
          (declared-Keeps c key _ (λ h named q. set_record-Keeps c key vs v named q))
          (λ d r. run_apply-Keeps d (next r))
    run_apply-Keeps c (calls_set_field key field value next) v =
        then-Keeps c _ (λ d r. run_apply paths d (next r))
          (declared-Keeps c key _ (λ h named q. set_field-Keeps c key field value v named q))
          (λ d r. run_apply-Keeps d (next r))
    run_apply-Keeps c (calls_remove key next) v =
        then-Keeps c _ (λ d r. run_apply paths d (next r))
          (declared-Keeps c key _ (λ h named q. remove-Keeps c key v named q))
          (λ d r. run_apply-Keeps d (next r))

  -- Whatever calls the Apply of a caller makes through the proxy of a valid collection, and
  -- whatever errors it goes on after: if they end without a panic, the collection is valid again,
  -- and a search for a key that is not empty and that no proof declared ends as it did before.
  -- The empty key is not to be declared.
  pub run_apply-isolated :
      (paths : List Bytes) (c : Collection) (w : Writing) (d : Collection) (k : Bytes)
      → IsValid c
      → k ≢ []
      → has paths k ≡ false
      → has paths [] ≡ false
      → run_apply paths c w ≡ done d
      → IsValid d × (get_record d k ≡ get_record c k)
  run_apply-isolated paths c w d k v named undeclared no_empty e =
      subst (After (λ d. IsValid d × (get_record d k ≡ get_record c k))) e
        (run_apply-Keeps paths k named undeclared no_empty c w v)
