-- ===== src/Service/Database/Applied.antt =====
-- storeInColl as a change of a map.
use mathlib.Core.Option.{some-injective}
use student_18_byzcoin.Bytes.{Bytes, equal}
use student_18_byzcoin.Collection.Add.{add}
use student_18_byzcoin.Collection.Add.Fail.{add_fail-shape}
use student_18_byzcoin.Collection.Add.Reads.{add-Full}
use student_18_byzcoin.Collection.Change.{write_values, set_record, remove}
use student_18_byzcoin.Collection.Contents.{Contents, put_values, Represents, AddsTo, add-AddsTo}
use student_18_byzcoin.Collection.Contents.Changed.{SetsIn, set_record-SetsIn}
use student_18_byzcoin.Collection.Contents.Removed.{RemovesFrom, remove-RemovesFrom}
use student_18_byzcoin.Collection.State.{Collection, encode_all}
use student_18_byzcoin.Common.{
  Bool-cases, Error, key_collision, key_not_found, invalid_state_action, ok, ok-injective, Outcome,
  done, fail, crash, length, ◌≡◌, refl, sym, ap, ◌∙◌, subst, ◌≢◌, inl, inr, Option, none, some,
  List, [], ◌∷◌, arith,
}
use student_18_byzcoin.Field.{Field, data_encode, data_field}
use student_18_byzcoin.Hash.{Hashing, sum256}
use student_18_byzcoin.Service.Database.{
  StateAction, create_action, update_action, remove_action, other_action, StateChange,
  ledger_fields, change_values, store_in_coll, get_value_contract,
}
use student_18_byzcoin.Service.Database.Reads.{ledger_answer, get_value_contract-answer, encoded}

-- the map after a state change that went well
abbrev pub changed_by : StateChange → Contents → Contents
changed_by t m = elim t.state_action [
  | remove_action ↦ put_values t.object_id none m
  | _ ↦ put_values t.object_id (some (t.value ∷ t.contract_id ∷ [])) m
]

-- what the map has under the key of a change that went well, and of one that did not
abbrev pub Fits : StateAction → Option (List Bytes) → Type 0
Fits create_action o = o ≡ none
Fits update_action o = (old : List Bytes) × (o ≡ some old)
Fits remove_action o = (old : List Bytes) × (o ≡ some old)
Fits other_action o = ⊥

abbrev pub Refuses : StateAction → Error → Option (List Bytes) → Type 0
Refuses create_action x o = (x ≡ key_collision) × ((old : List Bytes) × (o ≡ some old))
Refuses update_action x o = (x ≡ key_not_found) × (o ≡ none)
Refuses remove_action x o = (x ≡ key_not_found) × (o ≡ none)
Refuses other_action x o = x ≡ invalid_state_action

module _ ⦃H : Hashing⦄ where
  -- each value of the map is that of a record, and its contract
  abbrev pub Pairs : Contents → Type 0
  Pairs m = (k : Bytes) (vs : List Bytes) → m k ≡ some vs → length vs ≡ 2

  Pairs-put :
      (m : Contents) (key : Bytes) (o : Option (List Bytes))
      → ((vs : List Bytes) → o ≡ some vs → length vs ≡ 2)
      → Pairs m
      → Pairs (put_values key o m)
  Pairs-put m key o h p k vs e = elim (Bool-cases (equal key k)) [
    | inl q ↦ h vs (rw q at e)
    | inr q ↦ p k vs (rw q at e)
  ]

  -- a collection of the two fields of the ledger that represents a map, with what it answers
  pub record IsLedger (c : Collection) (m : Contents) : Type 0 where
    pub represents : Represents c m
    pub two_fields : c.fields ≡ ledger_fields
    pub pairs : Pairs m
    pub answers : (k : Bytes) → k ≢ [] → get_value_contract c k ≡ ledger_answer (m k)

  pub ledger :
      (c : Collection) (m : Contents)
      → Represents c m
      → c.fields ≡ ledger_fields
      → Pairs m
      → IsLedger c m
  ledger c m r e p = record {
    pairs = p;
    represents = r;
    two_fields = e;
    answers = λ k named. get_value_contract-answer c m k r e named;
  }

  abbrev pub Applied : Contents → StateChange → Outcome Collection → Type 0
  Applied m t (done d) = Fits t.state_action (m t.object_id) × IsLedger d (changed_by t m)
  Applied m t (fail x d) = Refuses t.state_action x (m t.object_id) × IsLedger d m
  Applied m t crash = ⊥

  Pairs-stored :
      (m : Contents) (key v k : Bytes) → Pairs m → Pairs (put_values key (some (v ∷ k ∷ [])) m)
  Pairs-stored m key v k p =
      Pairs-put m key _ (λ vs e. ap (λ (xs : List Bytes). length xs) (sym (some-injective _ _ e))) p

  writes_over :
      (t : StateChange) (old : List Bytes)
      → length old ≡ length ledger_fields
      → write_values ledger_fields (change_values t) old ≡ ok (t.value ∷ t.contract_id ∷ [])
  unfolding write_values data_field data_encode
  writes_over t [] sized = absurd (omega (arith, sized))
  writes_over t (x ∷ []) sized = absurd (omega (arith, sized))
  writes_over t (x ∷ y ∷ []) sized = refl
  writes_over t (x ∷ y ∷ z ∷ old) sized = absurd (omega (arith, sized))

  added :
      (c : Collection) (m : Contents) (t : StateChange) (o : Outcome Collection)
      → IsLedger c m
      → add c t.object_id (change_values t) ≡ o
      → AddsTo m t.object_id (t.value ∷ t.contract_id ∷ []) o
      → Applied m (record t { state_action = create_action }) o
  added c m t (done d) r q (absent, r') =
      let (was, full, same_fields) =
        add-Full c t.object_id (change_values t) d r.represents.valid r.represents.full q in
      (
        absent,
        ledger d _ r' (same_fields ∙ r.two_fields)
            (Pairs-stored m t.object_id t.value t.contract_id r.pairs),
      )
  added c m t (fail x d) r q (which, old, r') =
      let (known_all, same_trie, same_fields) =
        add_fail-shape c t.object_id (change_values t) d x r.represents.valid r.represents.full q in
      ((which, old), ledger d m r' (same_fields ∙ r.two_fields) r.pairs)
  added c m t crash r q h = h

  updated :
      (c : Collection) (m : Contents) (t : StateChange) (o : Outcome Collection)
      → IsLedger c m
      → SetsIn ledger_fields (change_values t) m t.object_id o
      → Applied m (record t { state_action = update_action }) o
  updated c m t (done d) r (old, ys, had, written, r', e) =
      let sized : length old ≡ length ledger_fields = r.pairs t.object_id old had in
      let same_values : ys ≡ t.value ∷ t.contract_id ∷ [] =
        ok-injective (sym written ∙ writes_over t old sized) in
      (
        (old, had),
        ledger d _
            (subst (λ (vs : List Bytes). Represents d (put_values t.object_id (some vs) m))
              same_values r')
            e (Pairs-stored m t.object_id t.value t.contract_id r.pairs),
      )
  updated c m t (fail x d) r (which, absent, r', e) = ((which, absent), ledger d m r' e r.pairs)
  updated c m t crash r h = h

  erased :
      (c : Collection) (m : Contents) (t : StateChange) (o : Outcome Collection)
      → IsLedger c m
      → RemovesFrom ledger_fields m t.object_id o
      → Applied m (record t { state_action = remove_action }) o
  erased c m t (done d) r (had, r', e) =
      (had, ledger d _ r' e (Pairs-put m t.object_id none (λ vs q. absurd cc) r.pairs))
  erased c m t (fail x d) r (which, absent, r', e) = ((which, absent), ledger d m r' e r.pairs)
  erased c m t crash r h = h

  pub store_in_coll-Applied :
      (c : Collection) (m : Contents) (t : StateChange)
      → IsLedger c m
      → t.object_id ≢ []
      → ((k : Bytes) → m k ≢ none → sum256 k ≡ sum256 t.object_id → k ≡ t.object_id)
      → Applied m t (store_in_coll c t)
  unfolding store_in_coll
  store_in_coll-Applied c m t r named apart = by_action t.state_action refl
    where
      sized : length (change_values t) ≡ length c.fields
      sized = sym (ap (λ (fs : List Field). length fs) r.two_fields)

      writes :
          (old : List Bytes)
          → length old ≡ length c.fields
          → (ys : List Bytes) × (write_values c.fields (change_values t) old ≡ ok ys)
      writes old p = (
        t.value ∷ t.contract_id ∷ [],
        ap (λ (fs : List Field). write_values fs (change_values t) old) r.two_fields
            ∙ writes_over t old (p ∙ ap (λ (fs : List Field). length fs) r.two_fields),
      )

      by_action :
          (a : StateAction)
          → t.state_action ≡ a
          → Applied m
              (record t { state_action = a })
              (store_in_coll c (record t { state_action = a }))
      by_action create_action e = added c m t (add c t.object_id (change_values t)) r refl (
          add-AddsTo c m t.object_id (change_values t) (t.value ∷ t.contract_id ∷ []) r.represents
            named sized
            (ap (λ (fs : List Field). encode_all fs (change_values t)) r.two_fields ∙ encoded t)
            apart)
      by_action update_action e = updated c m t (set_record c t.object_id (change_values t)) r (
          subst
            (λ (fs : List Field).
              SetsIn fs (change_values t) m t.object_id
                (set_record c t.object_id (change_values t)))
            r.two_fields
            (set_record-SetsIn c m t.object_id (change_values t) r.represents named sized writes))
      by_action remove_action e = erased c m t (remove c t.object_id) r (
          subst (λ (fs : List Field). RemovesFrom fs m t.object_id (remove c t.object_id))
            r.two_fields (remove-RemovesFrom c m t.object_id r.represents named))
      by_action other_action e = (refl, r)
