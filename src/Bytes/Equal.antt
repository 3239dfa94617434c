-- ===== src/Bytes/Equal.antt =====
-- `equal` decides equality of slices.
use student_18_byzcoin.Bytes.{equal_loop, Bytes, equal}
use student_18_byzcoin.Common.{length, ◌≡◌, refl, true, [], ◌∷◌, arith}

equal_loop→≡ : (x y : Bytes) → length x ≡ length y → equal_loop x y ≡ true → x ≡ y
unfolding equal_loop
equal_loop→≡ [] [] l h = refl
equal_loop→≡ [] (b ∷ y) l h = absurd (omega arith)
equal_loop→≡ (a ∷ x) [] l h = absurd (omega arith)
equal_loop→≡ (a ∷ x) (b ∷ y) l h = ground (arith, equal_loop→≡ x y)

equal_loop_refl : (x : Bytes) → equal_loop x x ≡ true
unfolding equal_loop
equal_loop_refl [] = refl
equal_loop_refl (a ∷ x) = ground (arith, equal_loop_refl x)

pub equal→≡ : (x y : Bytes) → equal x y ≡ true → x ≡ y
unfolding equal
equal→≡ x y h = equal_loop→≡ x y (ground arith) (ground arith)

pub equal_refl : (x : Bytes) → equal x x ≡ true
unfolding equal
equal_refl x = ground (arith, equal_loop_refl x)

pub ≡→equal : {x y : Bytes} → x ≡ y → equal x y ≡ true
≡→equal {x} {y} e = rw e (equal_refl y)
