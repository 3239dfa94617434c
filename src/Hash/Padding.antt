-- ===== src/Hash/Padding.antt =====
-- A function with the sizes of SHA-256, for tests: it pads its input, and cuts it, to 32 bytes.
use student_18_byzcoin.Bytes.{Bytes, IsBytes}
use student_18_byzcoin.Common.{
  if◌then◌else◌, length, ℕ, zero, suc, ◌%◌, ◌≡◌, refl, ap, [], ◌∷◌, arith,
}
use student_18_byzcoin.Hash.{Hashing}

unfoldable pub pad : ℕ → Bytes → Bytes
pad zero x = []
pad (suc n) [] = 0 ∷ pad n []
pad (suc n) (b ∷ x) = b % 256 ∷ pad n x

pub length-pad : (n : ℕ) (x : Bytes) → length (pad n x) ≡ n
unfolding pad
length-pad zero x = refl
length-pad (suc n) [] = ap suc (length-pad n [])
length-pad (suc n) (b ∷ x) = ap suc (length-pad n x)

pub pad-IsBytes : (n : ℕ) (x : Bytes) → IsBytes (pad n x)
unfolding pad
pad-IsBytes zero x = tt
pad-IsBytes (suc n) [] = (ground arith, pad-IsBytes n [])
pad-IsBytes (suc n) (b ∷ x) = (ground arith, pad-IsBytes n x)

instance unfoldable pub padding : Hashing
padding = record {
  sum256 = pad 32;
  encode = λ t. (if t.is_leaf then 1 else 2) ∷ t.key;
  sum256_length = length-pad 32;
  sum256_bytes = pad-IsBytes 32;
}
