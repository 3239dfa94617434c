-- ===== src/Collection/Examples/Clones.antt =====
-- The theorem about clones at a small collection.
use student_18_byzcoin.Collection.Cloned.{get-clone}
use student_18_byzcoin.Collection.Examples.{sample, sample-IsValid, padding}
use student_18_byzcoin.Collection.Get.{get_record}
use student_18_byzcoin.Collection.State.{Collection, clone}
use student_18_byzcoin.Collection.Valid.{IsValid}
use student_18_byzcoin.Common.{Result, ok, ◌≡◌, refl, [], ◌∷◌}

abbrev clone_of : Result Collection → Collection
clone_of (ok c) = c
clone_of _ = sample

clone_ok : clone sample ≡ ok (clone_of (clone sample))
unfolding clone
clone_ok = refl

get-clone_example :
    IsValid (clone_of (clone sample))
    × (get_record (clone_of (clone sample)) (200 ∷ []) ≡ get_record sample (200 ∷ []))
get-clone_example =
    get-clone sample (clone_of (clone sample)) (200 ∷ []) sample-IsValid (λ e. cc) clone_ok
