-- ===== src/Service/Database/Reads.antt =====
-- What GetValueContract reads of a collection that represents a map.
use student_18_byzcoin.Bytes.{Bytes}
use student_18_byzcoin.Collection.Contents.{Contents, Represents}
use student_18_byzcoin.Collection.Get.{decode_all, record_values, get_record}
use student_18_byzcoin.Collection.Get.View.{found}
use student_18_byzcoin.Collection.State.{Collection, encode_all}
use student_18_byzcoin.Common.{
  ◌==◌, no_match, wrong_number_of_values, Result, err, ok, length, ℕ, suc, ◌≡◌, refl, ap, ◌∙◌, ◌≢◌,
  false, Option, none, some, List, [], ◌∷◌, arith,
}
use student_18_byzcoin.Field.{Field, data_encode, data_decode, data_field}
use student_18_byzcoin.Hash.{Hashing}
use student_18_byzcoin.Service.Database.{
  StateChange, ledger_fields, change_values, get_value_contract,
}

-- what a ledger answers for a key of the map that its collection represents
abbrev pub ledger_answer : Option (List Bytes) → Result (Bytes × Bytes)
ledger_answer none = err no_match
ledger_answer (some []) = err wrong_number_of_values
ledger_answer (some (v ∷ [])) = err wrong_number_of_values
ledger_answer (some (v ∷ k ∷ [])) = ok (v, k)
ledger_answer (some (v ∷ k ∷ w ∷ vs)) = err wrong_number_of_values

module _ ⦃H : Hashing⦄ where
  too_many : (n : ℕ) → (suc (suc (suc n)) == 2) ≡ false
  too_many n = ground arith

  get_value_contract-found :
      (c : Collection) (k : Bytes) (o : Option (List Bytes))
      → get_record c k ≡ found ledger_fields k (ok o)
      → get_value_contract c k ≡ ledger_answer o
  unfolding get_value_contract record_values data_field data_decode decode_all
  get_value_contract-found c k none e = rw e refl
  get_value_contract-found c k (some []) e = rw e refl
  get_value_contract-found c k (some (v ∷ [])) e = rw e refl
  get_value_contract-found c k (some (v ∷ w ∷ [])) e = rw e refl
  get_value_contract-found c k (some (v ∷ w ∷ x ∷ vs)) e = rw e (rw (too_many (length vs)) refl)

  -- A ledger's collection that represents a map answers for each key that is not empty from the map.
  pub get_value_contract-answer :
      (c : Collection) (m : Contents) (k : Bytes)
      → Represents c m
      → c.fields ≡ ledger_fields
      → k ≢ []
      → get_value_contract c k ≡ ledger_answer (m k)
  get_value_contract-answer c m k r e named =
      get_value_contract-found c k (m k)
        (r.reads k named ∙ ap (λ (fs : List Field). found fs k (ok (m k))) e)

  pub encoded :
      (t : StateChange)
      → encode_all ledger_fields (change_values t) ≡ ok (t.value ∷ t.contract_id ∷ [])
  unfolding encode_all data_field data_encode
  encoded t = refl
