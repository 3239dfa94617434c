-- ===== src/Darc/Identity/Strings.antt =====
-- Expressions know an identity by its string: two darcs, or two X509 keys, with one string are one.
use mathlib.Core.Path.{ap₂}
use student_18_byzcoin.Bytes.{Bytes, IsBytes}
use student_18_byzcoin.Bytes.Equal.{equal_refl}
use student_18_byzcoin.Common.{ℕ, ◌/◌, ◌%◌, ◌<◌, ◌≡◌, refl, ap, ◌≢◌, true, [], ◌∷◌, arith}
use student_18_byzcoin.Darc.Identity.{
  Keys, type_of, type_string, hex_digit, hex, new_identity_darc, new_identity_x509ec,
  identity_string, identity_equal,
}

hex_digit-injective : (m n : ℕ) → m < 16 → n < 16 → hex_digit m ≡ hex_digit n → m ≡ n
unfolding hex_digit
hex_digit-injective m n hm hn e = ground arith

hex-injective : (x y : Bytes) → IsBytes x → IsBytes y → hex x ≡ hex y → x ≡ y
unfolding hex
hex-injective [] [] hx hy e = refl
hex-injective [] (b ∷ y) hx hy e = cc
hex-injective (a ∷ x) [] hx hy e = cc
hex-injective (a ∷ x) (b ∷ y) hx hy e =
    let high : hex_digit (a / 16) ≡ hex_digit (b / 16) = cc in
    let low : hex_digit (a % 16) ≡ hex_digit (b % 16) = cc in
    let rest : hex x ≡ hex y = cc in
    let h =
      hex_digit-injective (a / 16) (b / 16) (omega (arith, hx.0)) (omega (arith, hy.0)) high in
    let l = hex_digit-injective (a % 16) (b % 16) (omega arith) (omega arith) low in
    let first : a ≡ b = omega (arith, h, l) in
    ap₂ (λ (c : ℕ) (z : Bytes). c ∷ z) first (hex-injective x y hx.1 hy.1 rest)

abbrev first_byte : Bytes → ℕ
first_byte [] = 0
first_byte (b ∷ x) = b

module _ ⦃K : Keys⦄ where
  -- Two darc identities of bytes with one string have one ID, and are equal; an X509 identity has
  -- the string of no darc.
  pub identity_string-darc :
      (x y key : Bytes)
      → IsBytes x
      → IsBytes y
      → identity_string (new_identity_darc x) ≡ identity_string (new_identity_darc y)
      → (x ≡ y)
        × (identity_equal (new_identity_darc x) (new_identity_darc y) ≡ true)
        × (identity_string (new_identity_x509ec key) ≢ identity_string (new_identity_darc x))
  unfolding identity_string identity_equal type_of type_string
  identity_string-darc x y key hx hy e =
      let q : x ≡ y = hex-injective x y hx hy cc in
      (
        q,
        rw q (equal_refl y),
        λ z. let h : 120 ≡ 100 = ap first_byte z in absurd (omega (arith, h)),
      )
