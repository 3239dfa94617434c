-- ===== src/Bytes/Ext.antt =====
-- Two slices of one length whose bits agree are equal.
use mathlib.Core.Path.{fun_ext, ap₂}
use student_18_byzcoin.Bytes.{Bytes, IsBytes, byte_bit, bit}
use student_18_byzcoin.Bytes.Bits.{byte_bit-mod, byte_ext}
use student_18_byzcoin.Common.{
  length, get_elem?, ℕ, suc, ◌+◌, ◌*◌, ◌/◌, ◌%◌, ◌<◌, ◌≡◌, refl, sym, ap, ◌∙◌, Bool, Option, some,
  [], ◌∷◌, arith,
}
use mathlib.Core.Option

bit-head : (a : ℕ) (x : Bytes) (i : ℕ) → i < 8 → bit (a ∷ x) i ≡ some (byte_bit a i)
unfolding bit
bit-head a x i h = let q : i / 8 ≡ 0 = omega (arith, h) in rw q refl

byte_bit-next : (a i : ℕ) → byte_bit a (i + 8) ≡ byte_bit a i
byte_bit-next a i =
    let q : (i + 8) % 8 ≡ i % 8 = omega arith in
    sym (byte_bit-mod a (i + 8)) ∙ ap (byte_bit a) q ∙ byte_bit-mod a i

bit-tail : (a : ℕ) (x : Bytes) (i : ℕ) → bit (a ∷ x) (i + 8) ≡ bit x i
unfolding bit
bit-tail a x i =
    let q : (i + 8) / 8 ≡ suc (i / 8) = omega arith in
    rw q
      (ap (λ (f : ℕ → Bool). Option.map f (get_elem? x (i / 8))) (fun_ext (λ b. byte_bit-next b i)))

same_some : {u v : Bool} → ◌≡◌ {A = Option Bool} (some u) (some v) → u ≡ v
same_some e = cc

pub bits_ext :
    (x y : Bytes)
    → IsBytes x
    → IsBytes y
    → length x ≡ length y
    → ((i : ℕ) → i < 8 * length x → bit x i ≡ bit y i)
    → x ≡ y
bits_ext [] [] hx hy l h = refl
bits_ext [] (b ∷ y) hx hy l h = absurd (omega (arith, l))
bits_ext (a ∷ x) [] hx hy l h = absurd (omega (arith, l))
bits_ext (a ∷ x) (b ∷ y) hx hy l h =
    let first : a ≡ b =
      byte_ext a b hx.0 hy.0 (λ i lt.
        same_some (sym (bit-head a x i lt) ∙ h i (omega (arith, lt)) ∙ bit-head b y i lt)) in
    let rest : x ≡ y =
      bits_ext x y hx.1 hy.1 (omega (arith, l))
        (λ i lt. sym (bit-tail a x i) ∙ h (i + 8) (omega (arith, lt)) ∙ bit-tail b y i) in
    ap₂ (λ (c : ℕ) (z : Bytes). c ∷ z) first rest
