-- ===== src/Service/Xor.antt =====
-- `^` on bytes and on slices of bytes.
use mathlib.Core.Path.{ap₂}
use native.Mathlib.Nat.{pow-suc}
use student_18_byzcoin.Bytes.{Bytes, IsBytes}
use student_18_byzcoin.Common.{
  length, ℕ, zero, suc, ◌+◌, ◌*◌, ◌/◌, ◌%◌, ◌^◌, ◌<◌, ◌≡◌, refl, ap, [], ◌∷◌, arith,
}

-- the exclusive or of the lowest `n` binary digits
unfoldable pub xor_digits : ℕ → ℕ → ℕ → ℕ
xor_digits zero a b = 0
xor_digits (suc n) a b = (a + b) % 2 + 2 * xor_digits n (a / 2) (b / 2)

-- `^` of two uint8
abbrev pub xor_byte : ℕ → ℕ → ℕ
xor_byte a b = xor_digits 8 a b

-- The loop over the places of `result`. It is called with two slices of one length.
unfoldable pub xor_bytes : Bytes → Bytes → Bytes
unfolding xor_digits
xor_bytes [] hs = []
xor_bytes (r ∷ result) [] = r ∷ result
xor_bytes (r ∷ result) (h ∷ hs) = xor_byte r h ∷ xor_bytes result hs

xor_digits-lt : (n a b : ℕ) → xor_digits n a b < 2 ^ n
unfolding xor_digits
xor_digits-lt zero a b = omega arith
xor_digits-lt (suc n) a b = omega (arith, pow-suc 2 n, xor_digits-lt n (a / 2) (b / 2))

-- The order of two terms does not matter.
xor_digits-swap :
    (n a b c : ℕ) → xor_digits n (xor_digits n a b) c ≡ xor_digits n (xor_digits n a c) b
unfolding xor_digits
xor_digits-swap zero a b c = refl
xor_digits-swap (suc n) a b c =
    let x = xor_digits n (a / 2) (b / 2) in
    let y = xor_digits n (a / 2) (c / 2) in
    let halves_x : ((a + b) % 2 + 2 * x) / 2 ≡ x = omega arith in
    let halves_y : ((a + c) % 2 + 2 * y) / 2 ≡ y = omega arith in
    rw (halves_x, halves_y) (omega (arith, xor_digits-swap n (a / 2) (b / 2) (c / 2)))

pub xor_bytes-swap : (r x y : Bytes) → xor_bytes (xor_bytes r x) y ≡ xor_bytes (xor_bytes r y) x
unfolding xor_bytes
xor_bytes-swap [] x y = refl
xor_bytes-swap (a ∷ r) [] [] = refl
xor_bytes-swap (a ∷ r) [] (c ∷ y) = refl
xor_bytes-swap (a ∷ r) (b ∷ x) [] = refl
xor_bytes-swap (a ∷ r) (b ∷ x) (c ∷ y) = ap₂ ◌∷◌ (xor_digits-swap 8 a b c) (xor_bytes-swap r x y)

pub xor_bytes-IsBytes : (r x : Bytes) → IsBytes r → IsBytes (xor_bytes r x)
unfolding xor_bytes
xor_bytes-IsBytes [] x h = tt
xor_bytes-IsBytes (a ∷ r) [] h = h
xor_bytes-IsBytes (a ∷ r) (b ∷ x) h = (xor_digits-lt 8 a b, xor_bytes-IsBytes r x h.1)

pub length-xor_bytes : (r x : Bytes) → length (xor_bytes r x) ≡ length r
unfolding xor_bytes
length-xor_bytes [] x = refl
length-xor_bytes (a ∷ r) [] = refl
length-xor_bytes (a ∷ r) (b ∷ x) = ap suc (length-xor_bytes r x)
