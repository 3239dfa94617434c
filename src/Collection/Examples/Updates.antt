-- ===== src/Collection/Examples/Updates.antt =====
-- The theorems about updates at a small collection.
use student_18_byzcoin.Bytes.{equal, bit, set_bit}
use student_18_byzcoin.Collection.Collect.{out_of_scope, collect_unless_ongoing}
use student_18_byzcoin.Collection.Examples.{sample, sample-IsValid, left_by, padding}
use student_18_byzcoin.Collection.Get.{get_record}
use student_18_byzcoin.Collection.State.{Collection}
use student_18_byzcoin.Collection.Update.{
  Writing, finished, calls_set, calls_remove, proxy_paths, has, run_apply,
}
use student_18_byzcoin.Collection.Update.Isolation.{run_apply-isolated}
use student_18_byzcoin.Collection.Valid.{IsValid}
use student_18_byzcoin.Common.{done, ◌≡◌, refl, [], ◌∷◌}
use student_18_byzcoin.Field.{raw, data_field}
use student_18_byzcoin.Hash.Padding.{pad, padding}

-- `Set` and `Remove` of a record that a proof declared
abbrev calls : Writing
calls = calls_set (200 ∷ []) (raw (7 ∷ []) ∷ []) (λ r. calls_remove (200 ∷ []) (λ q. finished))

abbrev after_calls : Collection
after_calls = left_by sample (run_apply (proxy_paths ((200 ∷ []) ∷ [])) sample calls)

calls_done : run_apply (proxy_paths ((200 ∷ []) ∷ [])) sample calls ≡ done after_calls
unfolding run_apply proxy_paths equal padding pad bit data_field collect_unless_ongoing set_bit
    out_of_scope
calls_done = refl

run_apply-isolated_example :
    IsValid after_calls × (get_record after_calls (5 ∷ []) ≡ get_record sample (5 ∷ []))
unfolding has proxy_paths padding pad equal
run_apply-isolated_example =
    run_apply-isolated (proxy_paths ((200 ∷ []) ∷ [])) sample calls after_calls (5 ∷ [])
      sample-IsValid (λ e. cc) refl refl calls_done
