-- ===== src/Bytes/Examples.antt =====
-- The theorems about bits at small slices.
use student_18_byzcoin.Bytes.{match}
use student_18_byzcoin.Bytes.Match.{SameBits, match_iff}
use student_18_byzcoin.Common.{◌≡◌, ◌↔◌, true, some, [], ◌∷◌, arith}

match_iff_example : (match (133 ∷ []) (135 ∷ []) 6 ≡ some true) ↔ SameBits (133 ∷ []) (135 ∷ []) 0 6
match_iff_example = match_iff (133 ∷ []) (135 ∷ []) 6 (ground arith, tt) (ground arith, tt)
