-- ===== src/Darc/Examples.antt =====
-- The theorems about rules and identities at a small map.
mod Chains
mod Delegations
use student_18_byzcoin.Bytes.{Bytes}
use student_18_byzcoin.Common.{◌≡◌, refl, ◌≢◌, true, List, [], ◌∷◌, arith}
use student_18_byzcoin.Darc.Identity.{
  new_identity_darc, new_identity_x509ec, identity_string, identity_equal,
}
use student_18_byzcoin.Darc.Identity.Mirror.{no_keys}
use student_18_byzcoin.Darc.Identity.Strings.{identity_string-darc}
use student_18_byzcoin.Darc.Rules.{Action, Rules, evolve, sign}
use student_18_byzcoin.Darc.Rules.Protected.{Edit, adds, updates, deletes}

abbrev sample : Rules
sample = record { action = evolve; expr = 49 ∷ [] } ∷ record { action = sign; expr = 50 ∷ [] } ∷ []

abbrev spawn : Action
spawn = 115 ∷ []

abbrev edits : List Edit
edits = updates sign [] ∷ adds spawn (51 ∷ []) ∷ deletes evolve ∷ deletes spawn ∷ []

identity_string-darc_example :
    (◌≡◌ {A = Bytes} (18 ∷ 255 ∷ []) (18 ∷ 255 ∷ []))
    × (identity_equal (new_identity_darc (18 ∷ 255 ∷ [])) (new_identity_darc (18 ∷ 255 ∷ []))
        ≡ true)
    × (identity_string (new_identity_x509ec (7 ∷ []))
        ≢ identity_string (new_identity_darc (18 ∷ 255 ∷ [])))
identity_string-darc_example =
    identity_string-darc (18 ∷ 255 ∷ []) (18 ∷ 255 ∷ []) (7 ∷ []) (ground arith, (ground arith, tt))
      (ground arith, (ground arith, tt)) refl
