-- ===== src/Common/Calls.antt =====
-- How a Go call ends: it returns a value, it returns an error, or it panics.
use mathlib.Core.Path.{◌≡◌, refl, ap, ◌∙◌}
use mathlib.Core.Logic.{◌⊎◌, inl, inr}
use mathlib.Core.Option.{Option, none, some}
use mathlib.Core.Bool.{Bool, true, false}
use student_18_byzcoin.Common.Tests.{if◌then◌else◌}

-- One constructor for each error string of the packages modelled.
pub data Error : Type 0 where
  not_navigable wrong_buffer_length query_exceeds_parent : Error
  updating_unknown_node unknown_children : Error
  empty_key unknown_subtree key_collision key_not_found : Error
  no_query field_out_of_range no_match wrong_number_of_values : Error
  no_steps proof_invalid update_check_failed : Error
  scanner_not_empty failed_to_cast : Error
  action_exists action_missing default_action : Error
  darc_signature unknown_identity invalid_signature : Error
  empty_evolution nil_darc no_signatures base_not_found path_digest_mismatch empty_path : Error
  nil_base_id base_ids_differ incorrect_version evaluated_false : Error
  unequal_lengths base_id_mismatch no_such_action no_signers darc_ids_differ : Error
  empty_message sign_with_darc unknown_signer not_implemented no_private_key : Error
  decode_failed invalid_state_action wrong_type : Error
  not_bytes nothing_stored wrong_contract wrong_length : Error
  only_spawn empty_rules zero_interval config_encode_failed : Error
  version_mismatch unknown_skipchain no_transactions no_valid_transaction no_latest_block : Error
  wrong_proof wrong_proof_root wrong_skipchain missing_block invalid_genesis_darc : Error

pub data Result {ℓ} (A : Type ℓ) : Type ℓ where
  panic : Result A
  err : Error → Result A
  ok : A → Result A

-- the rest of a body, which runs only after a value
infixl 5 ◌>>=◌
abbrev pub ◌>>=◌ {ℓ κ} : {S : Type ℓ} {T : Type κ} → Result S → (S → Result T) → Result T
panic >>= rest = panic
err e >>= rest = err e
ok s >>= rest = rest s

-- a run-time panic of a primitive
abbrev pub or_panic {ℓ} : {A : Type ℓ} → Option A → Result A
or_panic none = panic
or_panic (some a) = ok a

-- A chain of calls that returned a value: the first returned one, and the rest ran on it.
pub bind-ok {ℓ κ} :
    {S : Type ℓ} {T : Type κ} (first : Result S) (rest : S → Result T) {t : T}
    → (first >>= rest) ≡ ok t
    → (s : S) × (first ≡ ok s) × (rest s ≡ ok t)
bind-ok panic rest q = cc
bind-ok (err x) rest q = cc
bind-ok (ok s) rest q = (s, refl, q)

-- ... and the other way: the rest runs on the value
pub ok-bind {ℓ κ} :
    {S : Type ℓ} {T : Type κ} (first : Result S) (rest : S → Result T) {s : S} {r : Result T}
    → first ≡ ok s
    → rest s ≡ r
    → (first >>= rest) ≡ r
ok-bind first rest e q = ap (λ x. x >>= rest) e ∙ q

-- a guard before the rest of a body was passed
pub guarded-ok {ℓ} :
    {T : Type ℓ} (b : Bool) (e : Error) (rest : Result T) {t : T}
    → (if b then err e else rest) ≡ ok t
    → (b ≡ false) × (rest ≡ ok t)
guarded-ok true e rest q = cc
guarded-ok false e rest q = (refl, q)

pub ok-injective {ℓ} : {A : Type ℓ} {a b : A} → ◌≡◌ {A = Result A} (ok a) (ok b) → a ≡ b
ok-injective e = cc

-- A call that changes a state `S` in place and returns an `error`. What was written before an error
-- stays written, so `fail` holds the state too. Nothing recovers from a panic.
pub data Outcome {ℓ} (S : Type ℓ) : Type ℓ where
  done : S → Outcome S
  fail : Error → S → Outcome S
  crash : Outcome S

module _ {ℓ} {S : Type ℓ} where
  -- the rest of a body after `if err != nil { return err }`
  abbrev pub and_then : Outcome S → (S → Outcome S) → Outcome S
  and_then (done s) f = f s
  and_then (fail e s) f = fail e s
  and_then crash f = crash

  -- a call whose `error` the caller drops
  abbrev pub ignoring : Outcome S → (S → Outcome S) → Outcome S
  ignoring (done s) f = f s
  ignoring (fail e s) f = f s
  ignoring crash f = crash

  abbrev pub map_outcome {κ} : {T : Type κ} → (S → T) → Outcome S → Outcome T
  map_outcome f (done s) = done (f s)
  map_outcome f (fail e s) = fail e (f s)
  map_outcome f crash = crash

pub done-injective {ℓ} : {S : Type ℓ} {a b : S} → ◌≡◌ {A = Outcome S} (done a) (done b) → a ≡ b
done-injective e = cc

-- A call mapped to a success was a success.
pub map_outcome-done {ℓ κ} :
    {S : Type ℓ} {T : Type κ} (f : S → T) (o : Outcome S) {t : T}
    → map_outcome f o ≡ done t
    → (s : S) × (o ≡ done s) × (f s ≡ t)
map_outcome-done f (done s) e = (s, refl, cc)
map_outcome-done f (fail x s) e = cc
map_outcome-done f crash e = cc

pub map_outcome-fail {ℓ κ} :
    {S : Type ℓ} {T : Type κ} (f : S → T) (o : Outcome S) {x : Error} {t : T}
    → map_outcome f o ≡ fail x t
    → (s : S) × (o ≡ fail x s) × (f s ≡ t)
map_outcome-fail f (done s) e = cc
map_outcome-fail f (fail y s) e = (s, cc, cc)
map_outcome-fail f crash e = cc

pub and_then-done {ℓ} :
    {S : Type ℓ} (o : Outcome S) (f : S → Outcome S) {b : S}
    → and_then o f ≡ done b
    → (a : S) × (o ≡ done a) × (f a ≡ done b)
and_then-done (done a) f e = (a, refl, e)
and_then-done (fail x a) f e = cc
and_then-done crash f e = cc

-- An error comes from the first call, or from the second after the first.
pub and_then-fail {ℓ} :
    {S : Type ℓ} (o : Outcome S) (f : S → Outcome S) {x : Error} {b : S}
    → and_then o f ≡ fail x b
    → (o ≡ fail x b) ⊎ ((a : S) × (o ≡ done a) × (f a ≡ fail x b))
and_then-fail (done a) f e = inr (a, refl, e)
and_then-fail (fail y a) f e = inl e
and_then-fail crash f e = cc
