-- ===== src/Darc/Verify/History.antt =====
-- The path of a verified darc is its whole history.
use student_18_byzcoin.Bytes.{Bytes}
use student_18_byzcoin.Collection.Get.View.{found}
use student_18_byzcoin.Common.{
  ◌==◌, if◌then◌else◌, no_signatures, nil_base_id, Result, panic, err, ok, ◌>>=◌, bind-ok, Outcome,
  done, fail, done-injective, and_then-done, length, ℕ, zero, suc, ◌+◌, ◌%◌, ◌^◌, ◌≡◌, refl, sym,
  ◌∙◌, subst, ◌≢◌, Bool, true, false, Option, none, some, List, arith,
}
use student_18_byzcoin.Darc.Document.{
  Darc, DarcPath, no_darcs, older, fields_of, path_of, id_bytes, get_base_id, last_of,
}
use student_18_byzcoin.Darc.Identity.{Keys}
use student_18_byzcoin.Darc.Values.{Callback, as_outcome}
use student_18_byzcoin.Darc.Verify.{
  find_path, verify_one_evolution, verify_path, verify_last, verify_with_cb,
}
use student_18_byzcoin.Darc.Verify.Accepts.{verify_one_evolution-IsEvolution}
use student_18_byzcoin.Expression.{Grammar}
use student_18_byzcoin.Hash.{Hashing}

abbrev pub path_length : DarcPath → ℕ
path_length no_darcs = 0
path_length (older d p) = suc (path_length p)

abbrev pub AllDarcs : (Darc → Type 0) → DarcPath → Type 0
AllDarcs P no_darcs = Unit
AllDarcs P (older d p) = P d × AllDarcs P p

abbrev pub IsGenesis : DarcPath → Type 0
IsGenesis no_darcs = ⊥
IsGenesis (older d p) = (fields_of d).version ≡ 0

module _ ⦃K : Keys⦄ ⦃H : Hashing⦄ (g : Grammar) where
  -- the base ID of a darc
  abbrev HasBase : Bytes → Darc → Type 0
  HasBase id d = id_bytes (get_base_id d) ≡ id

  next_version : (k v w : ℕ) → v ≡ k % 2 ^ 64 → w ≡ (v + 1) % 2 ^ 64 → w ≡ (k + 1) % 2 ^ 64
  next_version k v w h e = omega arith

  verify_path-later :
      (on_darc : List Bytes → Bytes → Result Bool) (k : ℕ) (id : Bytes) (prev : Darc) (p : DarcPath)
      → (fields_of prev).version ≡ k % 2 ^ 64
      → HasBase id prev
      → verify_path g on_darc (some prev) p ≡ ok tt
      → ((fields_of (last_of prev p)).version ≡ (k + path_length p) % 2 ^ 64)
        × HasBase id (last_of prev p)
        × AllDarcs (HasBase id) p
  unfolding verify_path
  verify_path-later on_darc k id prev no_darcs v b e = (omega (arith, v), b, tt)
  verify_path-later on_darc k id prev (older d p) v b e =
      let (t, first, rest) = bind-ok (verify_one_evolution g on_darc d prev) _ e in
      let step = (verify_one_evolution-IsEvolution g on_darc d prev).0 first in
      let base : HasBase id d = step.same_base ∙ b in
      let (w, last_base, all) =
        verify_path-later on_darc (k + 1) id d p
          (next_version k (fields_of prev).version (fields_of d).version v step.next_version) base
          rest in
      (omega (arith, w), last_base, (base, all))

  unguarded :
      (version : ℕ) (d : Darc) (o : Outcome Darc) {d' : Darc}
      → version ≢ 0
      → (if version == 0 then done d else o) ≡ done d'
      → o ≡ done d'
  unguarded version d o later e = ground (arith, later, e)

  unsigned_refused :
      (b : Bool) (d : Darc) (o : Outcome Darc) {d' : Darc}
      → (if b then fail no_signatures d else o) ≡ done d'
      → (b ≡ false) × (o ≡ done d')
  unsigned_refused true d o e = cc
  unsigned_refused false d o e = (refl, e)

  as_outcome-done :
      (d : Darc) (r : Result (Unit {0})) {d' : Darc}
      → as_outcome d r ≡ done d'
      → (r ≡ ok tt) × (d ≡ d')
  as_outcome-done d panic e = cc
  as_outcome-done d (err x) e = cc
  as_outcome-done d (ok t) e = (refl, done-injective e)

  first_version :
      (version : ℕ) (base : Option Bytes) (rest : Result (Unit {0}))
      → (if version == 0 then rest else elim base [ none ↦ err nil_base_id | some b ↦ panic ])
        ≡ ok tt
      → (version ≡ 0) × (rest ≡ ok tt)
  first_version zero base rest e = (refl, e)
  first_version (suc v) none rest e = ground (arith, e)
  first_version (suc v) (some b) rest e = ground (arith, e)

  history :
      (on_darc : List Bytes → Bytes → Result Bool) (d : Darc) (p : DarcPath)
      → (verify_path g on_darc none p >>= λ t. verify_last g on_darc d p) ≡ ok tt
      → ((fields_of d).version ≡ path_length p % 2 ^ 64)
        × IsGenesis p
        × AllDarcs (HasBase (id_bytes (get_base_id d))) p
  unfolding verify_path
  history on_darc d no_darcs e = cc
  history on_darc d (older q p) e =
      let (t, path_verified, last) = bind-ok (verify_path g on_darc none (older q p)) _ e in
      let (first, rest) = first_version (fields_of q).version (fields_of q).base _ path_verified in
      let (v, b, all) =
        verify_path-later on_darc 0 (id_bytes (get_base_id q)) q p (omega (arith, first)) refl
          rest in
      let step = (verify_one_evolution-IsEvolution g on_darc d (last_of q p)).0 last in
      let base : id_bytes (get_base_id q) ≡ id_bytes (get_base_id d) = sym (step.same_base ∙ b) in
      (
        omega (arith, v, step.next_version),
        first,
        subst (λ (id : Bytes). AllDarcs (HasBase id) (older q p)) base (refl, all),
      )

  -- A darc whose version is not 0 and that VerifyWithCB accepts: its version is the number of
  -- darcs of its path, but for the wrap-around, the path begins with a darc of version 0, and all
  -- darcs of the path have its base ID.
  pub verify_with_cb-history :
      (get_darc : Callback) (on_darc : List Bytes → Bytes → Result Bool) (d d' : Darc)
      → (fields_of d).version ≢ 0
      → verify_with_cb g get_darc on_darc d ≡ done d'
      → ((fields_of d').version ≡ path_length (path_of d') % 2 ^ 64)
        × IsGenesis (path_of d')
        × AllDarcs (HasBase (id_bytes (get_base_id d'))) (path_of d')
  unfolding verify_with_cb
  verify_with_cb-history get_darc on_darc d d' later e =
      let e1 = unguarded (fields_of d).version d _ later e in
      let (f, q) = unsigned_refused (length (fields_of d).signatures == 0) d _ e1 in
      let (found, path_found, accepted) = and_then-done (find_path get_darc d) _ q in
      let (verified, same_darc) = as_outcome-done found _ accepted in
      subst
        (λ (x : Darc).
          ((fields_of x).version ≡ path_length (path_of x) % 2 ^ 64)
          × IsGenesis (path_of x)
          × AllDarcs (HasBase (id_bytes (get_base_id x))) (path_of x))
        same_darc (history on_darc found (path_of found) verified)
