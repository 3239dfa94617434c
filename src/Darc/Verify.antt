-- ===== src/Darc/Verify.antt =====
-- The verifications of omniledger/darc/darc.go: of an expression, of one evolution, of a darc with its
-- path, and of a request. `evalExpr` calls itself through the darcs that an expression names, as deep
-- as they delegate: the depth that the stack holds is the fuel, and a call beyond it a panic.
pub mod Accepts
pub mod History
pub mod Depth
pub mod Delegates
use student_18_byzcoin.Bytes.{Bytes, equal}
use student_18_byzcoin.Common.{
  ltb, ◌==◌, if◌then◌else◌, nil_darc, no_signatures, base_not_found, path_digest_mismatch,
  empty_path, nil_base_id, base_ids_differ, incorrect_version, unequal_lengths, base_id_mismatch,
  no_such_action, Result, panic, err, ok, ◌>>=◌, Outcome, done, fail, and_then, length, ℕ, zero,
  suc, ◌+◌, ◌%◌, ◌^◌, Bool, not, Option, none, some, List, [], map,
}
use student_18_byzcoin.Darc.Document.{
  Signature, Darc, DarcPath, no_darcs, older, fields_of, path_of, with_path, path_empty, id_bytes,
  get_id, get_base_id, darcs_msg, hash_all, last_of,
}
use student_18_byzcoin.Darc.Identity.{Keys, new_identity_darc, identity_string}
use student_18_byzcoin.Darc.Request.{
  Request, init_request, get_identity_strings, request_hash, darc_hash,
}
use student_18_byzcoin.Darc.Rules.{Expr, evolve, lookup, get_evolution_expr}
use student_18_byzcoin.Darc.Values.{
  Callback, no_callback, refuses, as_outcome, error_of, sign_answer, verify_signatures,
  verify_identities, eval_expr_by, eval_expr_with_sigs,
}
use student_18_byzcoin.Expression.{Grammar}
use student_18_byzcoin.Hash.{Hashing}

-- the loop of findPath
unfoldable pub path_below : ℕ → DarcPath → DarcPath
path_below version no_darcs = no_darcs
path_below version (older p ps) =
    let rest = path_below version ps in
    if ltb (fields_of p).version version then older p rest else no_darcs

module _ ⦃K : Keys⦄ ⦃H : Hashing⦄ where
  -- the request that the signers of a darc signed
  abbrev pub evolution_digest : Darc → Bytes
  evolution_digest d =
      darc_hash
        (init_request (id_bytes (get_base_id d)) evolve []
          (map (λ (s : Signature). s.signer) (fields_of d).signatures) [])
        (get_id d)

  -- findPath
  unfoldable pub find_path : Callback → Darc → Outcome Darc
  unfolding get_base_id identity_string path_below hash_all darcs_msg
  find_path get_darc d =
      if not (path_empty (path_of d))
      then done d
      else elim (get_darc (identity_string (new_identity_darc (id_bytes (get_base_id d))))) [
        | none ↦ fail base_not_found d
        | some latest ↦
            let path = path_below (fields_of d).version (path_of latest) in
            if not (equal (hash_all (darcs_msg path)) (fields_of d).path_digest)
            then fail path_digest_mismatch d
            else if path_empty path
            then fail empty_path d
            else done (with_path d path)
      ]

module _ ⦃K : Keys⦄ ⦃H : Hashing⦄ (g : Grammar) where
  -- verifyOneEvolution
  unfoldable pub verify_one_evolution :
      (List Bytes → Bytes → Result Bool) → Darc → Darc → Result (Unit {0})
  unfolding get_base_id eval_expr_with_sigs verify_signatures darc_hash get_id
  verify_one_evolution on_darc later prev = elim (fields_of later).base [
    | none ↦ err nil_base_id
    | some b ↦
        if not (equal (id_bytes (get_base_id later)) (id_bytes (get_base_id prev)))
        then err base_ids_differ
        else if not ((fields_of later).version == ((fields_of prev).version + 1) % 2 ^ 64)
        then err incorrect_version
        else (eval_expr_with_sigs g on_darc (get_evolution_expr (fields_of prev).rules)
              (fields_of later).signatures
            >>= λ t. verify_signatures (evolution_digest later) (fields_of later).signatures)
  ]

  -- the loop of VerifyWithCB: the first darc of version 0 is not verified, and any other first
  -- darc has no previous one
  unfoldable pub verify_path :
      (List Bytes → Bytes → Result Bool) → Option Darc → DarcPath → Result (Unit {0})
  unfolding verify_one_evolution
  verify_path on_darc prev no_darcs = ok tt
  verify_path on_darc none (older curr p) =
      let rest = verify_path on_darc (some curr) p in
      if (fields_of curr).version == 0
      then rest
      else elim (fields_of curr).base [ none ↦ err nil_base_id | some b ↦ panic ]
  verify_path on_darc (some prev) (older curr p) =
      let rest = verify_path on_darc (some curr) p in
      verify_one_evolution on_darc curr prev >>= λ t. rest

  -- the end of VerifyWithCB: the last of an empty path is out of range
  abbrev pub verify_last : (List Bytes → Bytes → Result Bool) → Darc → DarcPath → Result (Unit {0})
  verify_last on_darc d no_darcs = panic
  verify_last on_darc d (older p ps) = verify_one_evolution on_darc d (last_of p ps)

  -- VerifyWithCB of a darc that is not nil. It keeps the path that it found.
  unfoldable pub verify_with_cb :
      Callback → (List Bytes → Bytes → Result Bool) → Darc → Outcome Darc
  unfolding find_path verify_path verify_one_evolution
  verify_with_cb get_darc on_darc d =
      if (fields_of d).version == 0
      then done d
      else if length (fields_of d).signatures == 0
      then fail no_signatures d
      else and_then (find_path get_darc d) (λ d'.
        as_outcome d'
          (verify_path on_darc none (path_of d') >>= λ t. verify_last on_darc d' (path_of d')))

  -- Verify
  unfoldable pub verify_darc : Option Darc → Result (Unit {0})
  unfolding verify_with_cb
  verify_darc none = err nil_darc
  verify_darc (some d) = error_of (verify_with_cb no_callback refuses d)

  -- the answer of the ValueCheckFn of evalExpr for a darc
  unfoldable pub delegated : ℕ → Callback → List Bytes → Bytes → Result Bool
  unfolding verify_darc eval_expr_by
  delegated zero get_darc ids s = panic
  delegated (suc depth) get_darc ids s =
      sign_answer (verify_darc (get_darc s)) (get_darc s)
        (λ expr. eval_expr_by g (delegated depth get_darc) expr ids)

  -- evalExpr
  unfoldable pub eval_expr : ℕ → Callback → Expr → List Bytes → Result (Unit {0})
  unfolding delegated eval_expr_by
  eval_expr depth get_darc expr ids = eval_expr_by g (delegated depth get_darc) expr ids

  -- Request.VerifyWithCB
  unfoldable pub request_verify_with_cb : ℕ → Request → Darc → Callback → Result (Unit {0})
  unfolding get_base_id lookup verify_identities request_hash eval_expr get_identity_strings
  request_verify_with_cb depth r d get_darc =
      if length r.signatures == 0
      then err no_signatures
      else if not (length r.signatures == length r.identities)
      then err unequal_lengths
      else if not (equal (id_bytes (get_base_id d)) r.base_id)
      then err base_id_mismatch
      else elim (lookup (fields_of d).rules r.action) [
        | none ↦ err no_such_action
        | some expr ↦ verify_identities (request_hash r) r.identities r.signatures >>= λ t.
            eval_expr depth get_darc expr (get_identity_strings r)
      ]

  -- Request.Verify, whose callback gives nil: one level is enough
  unfoldable pub request_verify : Request → Darc → Result (Unit {0})
  unfolding request_verify_with_cb
  request_verify r d = request_verify_with_cb 1 r d no_callback
