-- ===== src/Collection/Update.antt =====
-- omniledger/collection/update.go: changes that a caller describes, with the proofs of the records
-- that they touch. The caller's methods `Check` and `Apply` are code of the caller: what they do
-- with the proxy is a `Reading` and a `Writing`, the calls in their order, each with what follows it.
pub mod Isolation
use student_18_byzcoin.Bytes.{Bytes, equal}
use student_18_byzcoin.Collection.Add.{add}
use student_18_byzcoin.Collection.Change.{set_record, set_field, remove}
use student_18_byzcoin.Collection.Get.{Record, get_record}
use student_18_byzcoin.Collection.Proof.{Proof, verify}
use student_18_byzcoin.Collection.State.{Collection}
use student_18_byzcoin.Collection.Transaction.{begin, end}
use student_18_byzcoin.Common.{
  ◌==◌, if◌then◌else◌, Error, proof_invalid, update_check_failed, Result, panic, err, ok, Outcome,
  done, fail, crash, and_then, ℕ, Bool, true, false, not, ◌||◌, Option, none, some, List, [], ◌∷◌,
  map,
}
use student_18_byzcoin.Field.{Value}
use student_18_byzcoin.Hash.{Hashing, sum256}
use student_18_byzcoin.Node.{content}

-- the calls of `Check`, which has a ReadOnly
pub data Reading : Type 0 where
  answer : Bool → Reading
  asks : Bytes → (Record → Reading) → Reading

-- the calls of `Apply`, which has a ReadWrite; `none` is a nil error
pub data Writing : Type 0 where
  finished : Writing
  calls_get : Bytes → (Record → Writing) → Writing
  calls_add : Bytes → List Value → (Option Error → Writing) → Writing
  calls_set : Bytes → List Value → (Option Error → Writing) → Writing
  calls_set_field : Bytes → ℕ → Value → (Option Error → Writing) → Writing
  calls_remove : Bytes → (Option Error → Writing) → Writing

-- interface userUpdate
pub record UserUpdate : Type 0 where
  pub records : List Proof
  pub check : Reading
  pub apply : Writing

-- struct Update: `paths` are the keys of the map in its proxy
pub record Update : Type 0 where
  pub transaction : ℕ
  pub update : UserUpdate
  pub paths : List Bytes

-- the zero Record, which `proxy.Get` returns where `Record` has an error
abbrev pub no_record : Record
no_record = record { fields = []; field = 0; query = []; matches = false; key = []; values = [] }

any_equal : List Bytes → Bytes → Bool
any_equal [] path = false
any_equal (p ∷ ps) path = equal p path || any_equal ps path

-- the argument of Apply, of the two types that it accepts
pub data Applicable : Type 0 where
  prepared : Update → Applicable
  unprepared : UserUpdate → Applicable

module _ ⦃H : Hashing⦄ where
  -- Collection.proxy
  unfoldable pub proxy_paths : List Bytes → List Bytes
  proxy_paths keys = map (λ (k : Bytes). sum256 k) keys

  -- proxy.has
  unfoldable pub has : List Bytes → Bytes → Bool
  unfolding any_equal
  has paths key = any_equal paths (sum256 key)

  -- proxy.Get
  unfoldable pub proxy_get : List Bytes → Collection → Bytes → Result Record
  unfolding has get_record
  proxy_get paths c key =
      if not (has paths key)
      then panic
      else elim (get_record c key) [ ok r ↦ ok r | err e ↦ ok no_record | panic ↦ panic ]

  -- proxy.Add, Set, SetField and Remove: a key that no proof declared is a panic
  unfoldable pub declared : List Bytes → Bytes → Outcome Collection → Outcome Collection
  unfolding has
  declared paths key o = if not (has paths key) then crash else o

  unfoldable pub proxy_add : List Bytes → Collection → Bytes → List Value → Outcome Collection
  unfolding declared add
  proxy_add paths c key vs = declared paths key (add c key vs)

  unfoldable pub proxy_set : List Bytes → Collection → Bytes → List Value → Outcome Collection
  unfolding declared set_record
  proxy_set paths c key vs = declared paths key (set_record c key vs)

  unfoldable pub proxy_set_field : List Bytes → Collection → Bytes → ℕ → Value → Outcome Collection
  unfolding declared set_field
  proxy_set_field paths c key field v = declared paths key (set_field c key field v)

  unfoldable pub proxy_remove : List Bytes → Collection → Bytes → Outcome Collection
  unfolding declared remove
  proxy_remove paths c key = declared paths key (remove c key)

  -- `Check` on the collection behind the proxy
  unfoldable pub run_check : List Bytes → Collection → Reading → Result Bool
  unfolding proxy_get
  run_check paths c (answer b) = ok b
  run_check paths c (asks key k) = elim (proxy_get paths c key) [
    | ok r ↦ run_check paths c (k r)
    | err e ↦ err e
    | panic ↦ panic
  ]

  -- `Apply` on the collection behind the proxy: the caller may go on after an error
  unfoldable pub run_apply : List Bytes → Collection → Writing → Outcome Collection
  unfolding proxy_get proxy_add proxy_set proxy_set_field proxy_remove
  run_apply paths c finished = done c
  run_apply paths c (calls_get key k) = elim (proxy_get paths c key) [
    | ok r ↦ run_apply paths c (k r)
    | err e ↦ crash
    | panic ↦ crash
  ]
  run_apply paths c (calls_add key vs k) = elim (proxy_add paths c key vs) [
    | done d ↦ run_apply paths d (k none)
    | fail e d ↦ run_apply paths d (k (some e))
    | crash ↦ crash
  ]
  run_apply paths c (calls_set key vs k) = elim (proxy_set paths c key vs) [
    | done d ↦ run_apply paths d (k none)
    | fail e d ↦ run_apply paths d (k (some e))
    | crash ↦ crash
  ]
  run_apply paths c (calls_set_field key field v k) = elim (proxy_set_field paths c key field v) [
    | done d ↦ run_apply paths d (k none)
    | fail e d ↦ run_apply paths d (k (some e))
    | crash ↦ crash
  ]
  run_apply paths c (calls_remove key k) = elim (proxy_remove paths c key) [
    | done d ↦ run_apply paths d (k none)
    | fail e d ↦ run_apply paths d (k (some e))
    | crash ↦ crash
  ]

  -- the loop of Prepare: each proof is verified, and what it shows stays in the tree
  unfoldable pub verify_all : Collection → List Proof → Outcome Collection
  unfolding verify
  verify_all c [] = done c
  verify_all c (p ∷ ps) = elim (verify c p) [
    | panic ↦ crash
    | err e ↦ crash
    | ok (false, d) ↦ fail proof_invalid d
    | ok (true, d) ↦ verify_all d ps
  ]

  -- the Update that Prepare returns beside a nil error
  abbrev pub update_of : UserUpdate → Collection → Update
  update_of u c = record {
    transaction = c.transaction_id;
    update = u;
    paths = proxy_paths (map (λ (p : Proof). p.key) u.records);
  }

  -- Prepare, with the collection as it is left; the Update{} beside an error is `none`
  unfoldable pub prepare : Collection → UserUpdate → Outcome (Collection × Option Update)
  unfolding verify_all
  prepare c u = if (content c.root).inconsistent then crash else elim (verify_all c u.records) [
    | crash ↦ crash
    | fail e d ↦ fail e (d, none)
    | done d ↦ done (d, some (update_of u d))
  ]

  -- Collection.applyUpdate
  unfoldable pub apply_update : Collection → Update → Outcome Collection
  unfolding run_check run_apply begin end
  apply_update c u =
      if not (u.transaction == c.transaction_id)
      then crash
      else elim (run_check u.paths c u.update.check) [
        | panic ↦ crash
        | err e ↦ crash
        | ok false ↦ fail update_check_failed c
        | ok true ↦ if c.ongoing then run_apply u.paths c u.update.apply else elim (begin c) [
          | ok d ↦ and_then (run_apply u.paths d u.update.apply) end
          | err e ↦ crash
          | panic ↦ crash
        ]
      ]

  -- Collection.applyUserUpdate
  unfoldable pub apply_user_update : Collection → UserUpdate → Outcome Collection
  unfolding prepare apply_update
  apply_user_update c u = elim (prepare c u) [
    | crash ↦ crash
    | fail e (d, o) ↦ fail e d
    | done (d, none) ↦ crash
    | done (d, some p) ↦ apply_update d p
  ]

  -- Collection.Apply
  unfoldable pub apply : Collection → Applicable → Outcome Collection
  unfolding apply_update apply_user_update
  apply c (prepared u) = apply_update c u
  apply c (unprepared u) = apply_user_update c u
