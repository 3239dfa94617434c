-- ===== src/Service/Database/AppliedAll.antt =====
-- The state changes of one instruction, one after another, as changes of a map.
use student_18_byzcoin.Bytes.{Bytes, equal}
use student_18_byzcoin.Bytes.Equal.{equal→≡}
use student_18_byzcoin.Collection.Contents.{Contents, put_values}
use student_18_byzcoin.Collection.State.{Collection}
use student_18_byzcoin.Common.{
  Bool-cases, Outcome, done, fail, crash, All, ◌≡◌, refl, ap, subst, ◌≢◌, inl, inr, Option, none,
  List, [], ◌∷◌, ◌++◌,
}
use student_18_byzcoin.Hash.{Hashing, sum256}
use student_18_byzcoin.Service.Changes.{store_changes}
use student_18_byzcoin.Service.Database.{
  StateAction, create_action, update_action, remove_action, other_action, StateChange,
  store_in_coll,
}
use student_18_byzcoin.Service.Database.Applied.{
  changed_by, Refuses, IsLedger, Applied, store_in_coll-Applied,
}

abbrev pub changed_all : List StateChange → Contents → Contents
changed_all [] m = m
changed_all (t ∷ ts) m = changed_all ts (changed_by t m)

module _ ⦃H : Hashing⦄ where
  -- Either all changes went well, or those before the one that is refused.
  abbrev pub AppliedAll : Contents → List StateChange → Outcome Collection → Type 0
  AppliedAll m ts (done d) = IsLedger d (changed_all ts m)
  AppliedAll m ts (fail x d) =
      (before : List StateChange) × (t : StateChange) × (after : List StateChange) × (ts
        ≡ before ++ (t ∷ after))
      × Refuses t.state_action x (changed_all before m t.object_id)
      × IsLedger d (changed_all before m)
  AppliedAll m ts crash = ⊥

  module _ (P : Bytes → Type 0)
      (apart : (k key : Bytes) → P k → P key → sum256 k ≡ sum256 key → k ≡ key) where
    abbrev KeysIn : Contents → Type 0
    KeysIn m = (k : Bytes) → m k ≢ none → P k

    put-KeysIn :
        (m : Contents) (key : Bytes) (o : Option (List Bytes))
        → P key
        → KeysIn m
        → KeysIn (put_values key o m)
    put-KeysIn m key o here h k e = elim (Bool-cases (equal key k)) [
      | inl q ↦ subst P (equal→≡ key k q) here
      | inr q ↦ h k (λ w. e (rw q w))
    ]

    changed_by-KeysIn :
        (m : Contents) (t : StateChange) → P t.object_id → KeysIn m → KeysIn (changed_by t m)
    changed_by-KeysIn m t here h = go t.state_action
      where
        go : (a : StateAction) → KeysIn (changed_by (record t { state_action = a }) m)
        go create_action = put-KeysIn m t.object_id _ here h
        go update_action = put-KeysIn m t.object_id _ here h
        go remove_action = put-KeysIn m t.object_id _ here h
        go other_action = put-KeysIn m t.object_id _ here h

    -- The loop of createStateChanges over the state changes of an instruction, on a collection of
    -- the two fields of the ledger that is known as a whole and represents a map of pairs, with
    -- keys that are not empty and of which no two have one hash, does not panic. Either no change
    -- is refused, and the collection represents the map that all of them make of the first; or
    -- one is, since it creates a key that is there, updates or removes one that is not, or has no
    -- valid action, and then the loop returns its error, and the collection represents the map
    -- that the changes before it make. GetValueContract answers for every key that is not empty
    -- from the map.
    pub store_changes-AppliedAll :
        (c : Collection) (m : Contents) (ts : List StateChange)
        → IsLedger c m
        → KeysIn m
        → All (λ (t : StateChange). P t.object_id × (t.object_id ≢ [])) ts
        → AppliedAll m ts (store_changes c ts)
    unfolding store_changes
    store_changes-AppliedAll c m [] r keys h = r
    store_changes-AppliedAll c m (t ∷ ts) r keys h =
        go (store_in_coll c t)
          (store_in_coll-Applied c m t r h.0.1
            (λ k had e. apart k t.object_id (keys k had) h.0.0 e))
          (λ d r'.
            store_changes-AppliedAll d (changed_by t m) ts r' (changed_by-KeysIn m t h.0.0 keys)
              h.1)
      where
        later :
            (o : Outcome Collection) → AppliedAll (changed_by t m) ts o → AppliedAll m (t ∷ ts) o
        later (done d) a = a
        later (fail x d) (before, u, after, e, refused, r') =
            (t ∷ before, u, after, ap (λ (us : List StateChange). t ∷ us) e, refused, r')
        later crash a = a

        go :
            (o : Outcome Collection)
            → Applied m t o
            → ((d : Collection)
                → IsLedger d (changed_by t m)
                → AppliedAll (changed_by t m) ts (store_changes d ts))
            → AppliedAll m
                (t ∷ ts)
                (elim o [ done d ↦ store_changes d ts | fail e d ↦ fail e d | crash ↦ crash ])
        go (done d) a ih = later (store_changes d ts) (ih d a.1)
        go (fail x d) a ih = ([], t, ts, refl, a.0, a.1)
        go crash a ih = a
