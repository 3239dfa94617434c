-- ===== src/Darc/Examples/Chains.antt =====
-- The theorems about darcs at a darc of version 0 and its evolution, by one signer. The grammar takes
-- each text for one identity, and a signature is what was signed.
use student_18_byzcoin.Bytes.{Bytes, equal}
use student_18_byzcoin.Bytes.Equal.{≡→equal}
use student_18_byzcoin.Common.{
  Result, ok, ok-injective, Outcome, done, fail, crash, ◌%◌, ◌^◌, ◌≡◌, refl, ◌↔◌, true, none, some,
  [], ◌∷◌, arith,
}
use student_18_byzcoin.Darc.Document.{
  Darc, darc_of, no_darcs, older, fields_of, path_of, id_bytes, new_darc, copy, get_id, get_base_id,
  evolve_from,
}
use student_18_byzcoin.Darc.Document.Ids.{get_id-Reordered}
use student_18_byzcoin.Darc.Identity.{new_identity_ed25519}
use student_18_byzcoin.Darc.Identity.Mirror.{no_keys}
use student_18_byzcoin.Darc.Request.{Request, init_request, get_identity_strings}
use student_18_byzcoin.Darc.Rules.{Rules, evolve, sign, lookup, get_evolution_expr}
use student_18_byzcoin.Darc.Signer.{
  Outside, Signer, new_signer_ed25519, make_evolve_request, msg_to_darc,
}
use student_18_byzcoin.Darc.Signer.Accepted.{SignsFor}
use student_18_byzcoin.Darc.Signer.Evolution.{evolution-accepted}
use student_18_byzcoin.Darc.Values.{no_callback, refuses, eval_expr_by}
use student_18_byzcoin.Darc.Verify.{verify_one_evolution, verify_with_cb, request_verify_with_cb}
use student_18_byzcoin.Darc.Verify.Accepts.{IsAcceptable, request_verify_with_cb-IsAcceptable}
use student_18_byzcoin.Darc.Verify.History.{
  path_length, AllDarcs, IsGenesis, verify_with_cb-history,
}
use student_18_byzcoin.Expression.{sum_of, no_tail, identity, Grammar}
use student_18_byzcoin.Hash.Padding.{pad, padding}
use student_18_byzcoin.Sorting.{bytes_less, sort_by}
use student_18_byzcoin.Sorting.Permuted.{swap}

abbrev single : Grammar
single = record { parse = λ x. some (sum_of (identity x) no_tail); ended = λ x. true }

-- "ed25519:" and the point 7
abbrev signer_string : Bytes
signer_string = 101 ∷ 100 ∷ 50 ∷ 53 ∷ 53 ∷ 49 ∷ 57 ∷ 58 ∷ 7 ∷ []

abbrev first_rules : Rules
first_rules =
    record { action = evolve; expr = signer_string }
    ∷ record { action = sign; expr = signer_string }
    ∷ []

abbrev first_darc : Darc
first_darc =
    darc_of
      (record {
        version = 0;
        description = 5 ∷ [];
        base = none;
        rules = first_rules;
        path_digest = [];
        signatures = [];
      })
      no_darcs

abbrev one_signer : Signer
one_signer = new_signer_ed25519 (7 ∷ []) (9 ∷ [])

abbrev evolved_by : Outcome Darc → Darc
evolved_by (done d) = d
evolved_by (fail e d) = d
evolved_by crash = first_darc

-- the evolution of the first darc, with other rules
abbrev second_darc : Darc
second_darc = evolved_by (evolve_from (new_darc first_rules (6 ∷ [])) (older first_darc no_darcs))

abbrev world : Outside
world = record {
  schnorr_sign = λ s m. ok m;
  encode = λ d. ok [];
  decode = λ b. ok (copy second_darc);
}

one_signer-SignsFor : SignsFor world one_signer
unfolding equal no_keys
one_signer-SignsFor = record {
  key = record { point = 7 ∷ []; secret = 9 ∷ [] };
  holds = refl;
  correct = λ msg sig e. ≡→equal (ok-injective e);
}

get_id-Reordered_example :
    get_id first_darc
    ≡ get_id (
        darc_of
          (record (fields_of first_darc) {
            rules =
                record { action = sign; expr = signer_string }
                ∷ record { action = evolve; expr = signer_string }
                ∷ [];
          })
          no_darcs)
unfolding lookup equal
get_id-Reordered_example =
    get_id-Reordered (fields_of first_darc) no_darcs _ (refl, (refl, tt)) (swap _ _ [])

-- the request of the signer for the second darc, and its bytes
abbrev made : Result (Request × Bytes) → Request × Bytes
made (ok x) = x
made r = (init_request [] [] [] [] [], [])

abbrev evolve_request : Request
evolve_request = (made (make_evolve_request world second_darc (one_signer ∷ []))).0

second_done :
    evolve_from (new_darc first_rules (6 ∷ [])) (older first_darc no_darcs) ≡ done second_darc
unfolding evolve_from new_darc padding
second_done = refl

evolve_requested : make_evolve_request world second_darc (one_signer ∷ []) ≡ ok (evolve_request, [])
unfolding make_evolve_request evolve_from
evolve_requested = refl

second_permitted :
    eval_expr_by single refuses signer_string (get_identity_strings evolve_request) ≡ ok tt
unfolding eval_expr_by get_identity_strings make_evolve_request init_request equal no_keys
second_permitted = refl

evolution-accepted_example :
    (d' : Darc) × (msg_to_darc world evolve_request [] (older first_darc no_darcs) ≡ ok d')
    × (get_id d' ≡ get_id second_darc)
    × (verify_one_evolution single refuses d' first_darc ≡ ok tt)
unfolding lookup equal get_evolution_expr
evolution-accepted_example =
    evolution-accepted world single (new_darc first_rules (6 ∷ [])) first_darc no_darcs second_darc
      (one_signer ∷ []) evolve_request [] refuses second_done (ground arith)
      (one_signer-SignsFor, tt) evolve_requested refl second_permitted

-- the second darc, signed
abbrev got : Result Darc → Darc
got (ok d) = d
got r = first_darc

abbrev signed_darc : Darc
signed_darc = got (msg_to_darc world evolve_request [] (older first_darc no_darcs))

signed_verified : verify_with_cb single no_callback refuses signed_darc ≡ done signed_darc
unfolding verify_with_cb msg_to_darc equal copy evolve_from new_darc padding pad sort_by bytes_less
    make_evolve_request init_request get_evolution_expr no_keys
signed_verified = refl

signed_later : (fields_of signed_darc).version ≡ 1
unfolding evolve_from msg_to_darc equal copy new_darc padding pad sort_by bytes_less
    make_evolve_request init_request
signed_later = refl

verify_with_cb-history_example :
    ((fields_of signed_darc).version ≡ path_length (path_of signed_darc) % 2 ^ 64)
    × IsGenesis (path_of signed_darc)
    × AllDarcs
        (λ (d : Darc). id_bytes (get_base_id d) ≡ id_bytes (get_base_id signed_darc))
        (path_of signed_darc)
unfolding verify_with_cb
verify_with_cb-history_example =
    verify_with_cb-history single no_callback refuses signed_darc signed_darc
      (λ e. omega (arith, signed_later, e)) signed_verified

-- a request of the signer to the first darc
abbrev sign_request : Request
sign_request =
    init_request (get_id first_darc) sign (1 ∷ []) (new_identity_ed25519 (7 ∷ []) ∷ []) ([] ∷ [])

request_verify_with_cb-IsAcceptable_example :
    (request_verify_with_cb single 1 sign_request first_darc no_callback ≡ ok tt)
    ↔ IsAcceptable single 1 sign_request first_darc no_callback
request_verify_with_cb-IsAcceptable_example =
    request_verify_with_cb-IsAcceptable single 1 sign_request first_darc no_callback
