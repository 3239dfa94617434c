-- ===== src/Bytes/Match.antt =====
-- `match` compares the first bits, whole bytes at a time.
use native.Mathlib.Decide.{dec_lt}
use student_18_byzcoin.Bytes.{match_loop, Bytes, IsBytes, byte_bit, bit, agree, match}
use student_18_byzcoin.Bytes.Bits.{same_bool→≡, byte_bit-mod, byte_ext, get_elem?-IsBytes}
use student_18_byzcoin.Common.{
  ◌==◌, same_bool, ==_iff, Option-cases, get_elem?, ℕ, zero, suc, ◌+◌, ◌/◌, ◌%◌, ◌≤◌, ◌<◌, ◌≡◌,
  refl, sym, ap, ◌∙◌, ◌↔◌, ◌⊎◌, inl, inr, Bool, true, Option, none, some, arith,
}

-- the first bits of both slices, from `from` to below `to`, are there and agree
abbrev pub SameBits : Bytes → Bytes → ℕ → ℕ → Type 0
SameBits x y from to =
    (i : ℕ) → from ≤ i → i < to → (v : Bool) × (bit x i ≡ some v) × (bit y i ≡ some v)

-- The index steps by 8 from 0, and by 1 once at most 8 bits are left.
abbrev OnStep : ℕ → ℕ → Type 0
OnStep bits index = (index % 8 ≡ 0) ⊎ (bits ≤ index + 8)

same_byte :
    (x y : Bytes) (index i b : ℕ)
    → index % 8 ≡ 0
    → get_elem? x (index / 8) ≡ some b
    → get_elem? y (index / 8) ≡ some b
    → index ≤ i
    → i < index + 8
    → (v : Bool) × (bit x i ≡ some v) × (bit y i ≡ some v)
unfolding bit
same_byte x y index i b m ex ey lo hi =
    let q : i / 8 ≡ index / 8 = omega arith in (byte_bit b i, ground (arith, q), ground (arith, q))

agree-some {ℓ} :
    {A : Type ℓ} (test : A → A → Bool) (o p : Option A)
    → agree test o p ≡ some true
    → (a : A) × (b : A) × (o ≡ some a) × (p ≡ some b) × (test a b ≡ true)
unfolding agree
agree-some test none p e = cc
agree-some test (some x) none e = cc
agree-some test (some x) (some y) e = (x, y, refl, refl, ground arith)

abbrev byte_test : Bytes → Bytes → ℕ → Option Bool
byte_test x y index = agree (λ a b. a == b) (get_elem? x (index / 8)) (get_elem? y (index / 8))

abbrev bit_test : Bytes → Bytes → ℕ → Option Bool
bit_test x y index = agree same_bool (bit x index) (bit y index)

same_next_byte :
    (x y : Bytes) (index : ℕ)
    → index % 8 ≡ 0
    → byte_test x y index ≡ some true
    → SameBits x y index (index + 8)
same_next_byte x y index m e i lo hi =
    let (a, b, ea, eb, ab) = agree-some _ _ _ e in
    same_byte x y index i a m ea (eb ∙ ap some (sym ((==_iff a b).0 ab))) lo hi

same_next_bit :
    (x y : Bytes) (index : ℕ) → bit_test x y index ≡ some true → SameBits x y index (index + 1)
same_next_bit x y index e i lo hi =
    let (a, b, ea, eb, ab) = agree-some _ _ _ e in
    let q : i ≡ index = omega arith in (a, rw q ea, rw q (eb ∙ ap some (sym (same_bool→≡ a b ab))))

SameBits-append : (x y : Bytes) (a b c : ℕ) → SameBits x y a b → SameBits x y b c → SameBits x y a c
SameBits-append x y a b c h k i lo hi = elim (dec_lt i b) [
  | yes p ↦ h i lo p
  | no p ↦ k i (omega arith) hi
]

-- What a round of the loop tested, from its result.
match_round :
    (fuel : ℕ) (x y : Bytes) (bits index : ℕ)
    → match_loop (suc fuel) x y bits index ≡ some true
    → index < bits
    → ((index + 8 < bits)
        × (byte_test x y index ≡ some true)
        × (match_loop fuel x y bits (index + 8) ≡ some true))
      ⊎ ((bits ≤ index + 8)
          × (bit_test x y index ≡ some true)
          × (match_loop fuel x y bits (index + 1) ≡ some true))
unfolding match_loop
match_round fuel x y bits index e h = elim (dec_lt (index + 8) bits) [
  | yes p ↦ inl (p, ground arith, ground arith)
  | no p ↦ inr (omega arith, ground arith, ground arith)
]

match_loop_sound :
    (fuel : ℕ) (x y : Bytes) (bits index : ℕ)
    → OnStep bits index
    → match_loop fuel x y bits index ≡ some true
    → SameBits x y index bits
match_loop_sound zero x y bits index s e i lo hi = absurd (unfold match_loop in cc)
match_loop_sound (suc fuel) x y bits index s e i lo hi =
    elim (match_round fuel x y bits index e (omega arith)) [
      | inl (more, test, rest) ↦
          SameBits-append x y index (index + 8) bits (same_next_byte x y index (omega arith) test)
            (match_loop_sound fuel x y bits (index + 8) (omega arith) rest) i lo hi
      | inr (last, test, rest) ↦
          SameBits-append x y index (index + 1) bits (same_next_bit x y index test)
            (match_loop_sound fuel x y bits (index + 1) (inr (omega arith)) rest) i lo hi
    ]

next_bit_same :
    (x y : Bytes) (index bits : ℕ)
    → index < bits
    → SameBits x y index bits
    → bit_test x y index ≡ some true
unfolding agree
next_bit_same x y index bits h s = let (v, ex, ey) = s index (omega arith) h in ground arith

-- a slice with a bit at an index has a byte there
byte_at :
    (x : Bytes) (i : ℕ) {v : Bool}
    → bit x i ≡ some v
    → (b : ℕ) × (get_elem? x (i / 8) ≡ some b) × (byte_bit b i ≡ v)
unfolding bit
byte_at x i e = elim (Option-cases (get_elem? x (i / 8))) [
  | inl out ↦ absurd (ground arith)
  | inr (b, at) ↦ (b, at, ground arith)
]

same_bit_of_bytes :
    (x y : Bytes) (index k a b : ℕ)
    → index % 8 ≡ 0
    → k < 8
    → get_elem? x (index / 8) ≡ some a
    → get_elem? y (index / 8) ≡ some b
    → SameBits x y index (index + 8)
    → byte_bit a k ≡ byte_bit b k
same_bit_of_bytes x y index k a b m h ea eb s =
    let (v, ex, ey) = s (index + k) (omega arith) (omega arith) in
    let (a', ea', va) = byte_at x (index + k) ex in
    let (b', eb', vb) = byte_at y (index + k) ey in
    let q : (index + k) / 8 ≡ index / 8 = omega arith in
    let r : (index + k) % 8 ≡ k % 8 = omega arith in
    ground (
      arith,
      q,
      r,
      byte_bit-mod a k,
      byte_bit-mod b k,
      byte_bit-mod a (index + k),
      byte_bit-mod b (index + k),
    )

next_byte_same :
    (x y : Bytes) (index : ℕ)
    → index % 8 ≡ 0
    → IsBytes x
    → IsBytes y
    → SameBits x y index (index + 8)
    → byte_test x y index ≡ some true
unfolding agree
next_byte_same x y index m hx hy s =
    let (v, ex, ey) = s index (omega arith) (omega arith) in
    let (a, ea, va) = byte_at x index ex in
    let (b, eb, vb) = byte_at y index ey in
    let q : a ≡ b =
      byte_ext a b (get_elem?-IsBytes x _ hx ea) (get_elem?-IsBytes y _ hy eb)
        (λ k h. same_bit_of_bytes x y index k a b m h ea eb s) in
    ground (arith, q)

match_loop_complete :
    (fuel : ℕ) (x y : Bytes) (bits index : ℕ)
    → bits < fuel + index
    → index ≤ bits
    → OnStep bits index
    → IsBytes x
    → IsBytes y
    → SameBits x y index bits
    → match_loop fuel x y bits index ≡ some true
unfolding match_loop
match_loop_complete zero x y bits index f b s hx hy same = absurd (omega arith)
match_loop_complete (suc fuel) x y bits index f b s hx hy same = elim (dec_lt index bits) [
  | no p ↦ ground arith
  | yes p ↦ elim (dec_lt (index + 8) bits) [
    | yes q ↦ ground (
      arith,
      next_byte_same x y index (omega arith) hx hy (λ i lo hi. same i lo (omega arith)),
      match_loop_complete fuel x y bits (index + 8) (omega arith) (omega arith) (omega arith) hx hy
          (λ i lo hi. same i (omega arith) hi),
    )
    | no q ↦ ground (
      arith,
      next_bit_same x y index bits p same,
      match_loop_complete fuel x y bits (index + 1) (omega arith) (omega arith) (inr (omega arith))
          hx hy (λ i lo hi. same i (omega arith) hi),
    )
  ]
]

-- Of two slices of bytes, match holds exactly when their first bits, as many as it is asked for,
-- are there and agree.
pub match_iff :
    (x y : Bytes) (bits : ℕ)
    → IsBytes x
    → IsBytes y
    → (match x y bits ≡ some true) ↔ SameBits x y 0 bits
unfolding match
match_iff x y bits hx hy = (
  match_loop_sound (suc bits) x y bits 0 (inl (omega arith)),
  match_loop_complete (suc bits) x y bits 0 (omega arith) (omega arith) (inl (omega arith)) hx hy,
)
