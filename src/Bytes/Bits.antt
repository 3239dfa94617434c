-- ===== src/Bytes/Bits.antt =====
-- Single bits: `bit` after `setBit`, and bytes told apart by their bits.
use student_18_byzcoin.Bytes.{Bytes, IsBytes, bit_mask, byte_bit, bit, write_bit, set_bit}
use student_18_byzcoin.Common.{
  ltb, ◌==◌, if◌then◌else◌, same_bool, ==_iff, Bool-cases, Option-cases, passes_below,
  passes_below_sound, length, get_elem?, set, get_elem?-set_self, get_elem?-set_ne, ℕ, zero, suc,
  ◌+◌, ◌-◌, ◌*◌, ◌/◌, ◌%◌, ◌^◌, ◌<◌, bit_and, bit_or, ◌≡◌, refl, ap, inl, inr, Bool, true, false,
  not, some, [], ◌∷◌, arith,
}

pub same_bool→≡ : (a b : Bool) → same_bool a b ≡ true → a ≡ b
same_bool→≡ a b h = ground arith

-- A byte written at one of its bits, read at one of its bits.
write_table :
    (v : Bool)
    → passes_below 256 (λ b. passes_below 8 (λ i.
      passes_below 8
        (λ j. same_bool (byte_bit (write_bit b i v) j) (if i == j then v else byte_bit b j))))
      ≡ true
unfolding passes_below byte_bit write_bit
write_table true = refl
write_table false = refl

small_table :
    (v : Bool) → passes_below 256 (λ b. passes_below 8 (λ i. ltb (write_bit b i v) 256)) ≡ true
unfolding passes_below write_bit
small_table true = refl
small_table false = refl

-- A byte is the sum of its bits.
value_of : Bool → ℕ
value_of true = 1
value_of false = 0

byte_sum : (ℕ → Bool) → ℕ
unfolding value_of
byte_sum f =
    value_of (f 0) * 128
    + value_of (f 1) * 64
    + value_of (f 2) * 32
    + value_of (f 3) * 16
    + value_of (f 4) * 8
    + value_of (f 5) * 4
    + value_of (f 6) * 2
    + value_of (f 7)

sum_table : passes_below 256 (λ b. byte_sum (byte_bit b) == b) ≡ true
unfolding passes_below byte_bit byte_sum
sum_table = refl

mod_mod : (i : ℕ) → i % 8 % 8 ≡ i % 8
mod_mod i = omega arith

bit_mask-mod : (i : ℕ) → bit_mask (i % 8) ≡ bit_mask i
bit_mask-mod i = ap (λ (k : ℕ). 2 ^ (7 - k)) (mod_mod i)

pub byte_bit-mod : (b i : ℕ) → byte_bit b (i % 8) ≡ byte_bit b i
unfolding byte_bit
byte_bit-mod b i = ap (λ (m : ℕ). not (bit_and b m == 0)) (bit_mask-mod i)

write_bit-mod : (b i : ℕ) (v : Bool) → write_bit b (i % 8) v ≡ write_bit b i v
unfolding write_bit
write_bit-mod b i true = ap (λ (m : ℕ). bit_or b m) (bit_mask-mod i)
write_bit-mod b i false = ap (λ (m : ℕ). b - bit_and b m) (bit_mask-mod i)

small_index :
    (b i j : ℕ) (v : Bool)
    → b < 256
    → i < 8
    → j < 8
    → byte_bit (write_bit b i v) j ≡ (if i == j then v else byte_bit b j)
small_index b i j v hb hi hj = same_bool→≡ _ _ (
    passes_below_sound 8 _ j hj
      (passes_below_sound 8 _ i hi (passes_below_sound 256 _ b hb (write_table v))))

-- One bit of a byte is written, and the others stay.
pub byte_bit-write_bit :
    (b i j : ℕ) (v : Bool)
    → b < 256
    → byte_bit (write_bit b i v) j ≡ (if i % 8 == j % 8 then v else byte_bit b j)
byte_bit-write_bit b i j v hb =
    let e = small_index b (i % 8) (j % 8) v hb (omega arith) (omega arith) in
    ground (arith, e, byte_bit-mod (write_bit b i v) j, write_bit-mod b i v, byte_bit-mod b j)

pub write_bit-lt : (b i : ℕ) (v : Bool) → b < 256 → write_bit b i v < 256
write_bit-lt b i v hb =
    let e =
      passes_below_sound 8 _ (i % 8) (omega arith)
        (passes_below_sound 256 _ b hb (small_table v)) in
    ground (arith, e, write_bit-mod b i v)

-- Two bytes whose eight bits agree are equal.
pub byte_ext :
    (a b : ℕ) → a < 256 → b < 256 → ((i : ℕ) → i < 8 → byte_bit a i ≡ byte_bit b i) → a ≡ b
unfolding byte_sum
byte_ext a b ha hb h =
    let ea = (==_iff _ a).0 (passes_below_sound 256 _ a ha sum_table) in
    let eb = (==_iff _ b).0 (passes_below_sound 256 _ b hb sum_table) in
    ground (
      arith,
      ea,
      eb,
      h 0 (omega arith),
      h 1 (omega arith),
      h 2 (omega arith),
      h 3 (omega arith),
      h 4 (omega arith),
      h 5 (omega arith),
      h 6 (omega arith),
      h 7 (omega arith),
    )

pub get_elem?-IsBytes : (x : Bytes) (k : ℕ) {b : ℕ} → IsBytes x → get_elem? x k ≡ some b → b < 256
get_elem?-IsBytes [] k h e = cc
get_elem?-IsBytes (a ∷ x) zero h e = ground arith
get_elem?-IsBytes (a ∷ x) (suc k) h e = get_elem?-IsBytes x k h.1 e

pub lt_length : (x : Bytes) (k : ℕ) {b : ℕ} → get_elem? x k ≡ some b → k < length x
lt_length [] k e = cc
lt_length (a ∷ x) zero e = omega arith
lt_length (a ∷ x) (suc k) e = omega (arith, lt_length x k e)

bit-written :
    (x : Bytes) (i j b : ℕ) (v : Bool)
    → b < 256
    → get_elem? x (i / 8) ≡ some b
    → bit (set x (i / 8) (write_bit b i v)) j ≡ (if i == j then some v else bit x j)
unfolding bit
bit-written x i j b v hb e = elim (Bool-cases (i / 8 == j / 8)) [
  | inl same ↦
      let q : i / 8 ≡ j / 8 = (==_iff _ _).0 same in
      ground (
        arith,
        q,
        byte_bit-write_bit b i j v hb,
        get_elem?-set_self x (i / 8) (write_bit b i v) (lt_length x _ e),
      )
  | inr other ↦ ground (arith, get_elem?-set_ne x (i / 8) (j / 8) (write_bit b i v))
]

-- After a setBit of a slice of bytes that does not panic, the bit at the index is the value
-- written, and every other bit is as it was.
bit-set_bit :
    (x y : Bytes) (i j : ℕ) (v : Bool)
    → IsBytes x
    → set_bit x i v ≡ some y
    → bit y j ≡ (if i == j then some v else bit x j)
unfolding set_bit
bit-set_bit x y i j v h e = elim (Option-cases (get_elem? x (i / 8))) [
  | inl out ↦ cc (rw out at e)
  | inr (b, at) ↦
      let w : some (set x (i / 8) (write_bit b i v)) ≡ some y = rw at at e in
      cc (bit-written x i j b v (get_elem?-IsBytes x _ h at) at)
]
