-- ===== src/Service/Block/Interval.antt =====
-- The block interval that CreateGenesisBlock writes as a varint, and that ContractConfig reads.
use native.Mathlib.Nat.{pow-suc, div-add-mod, one-le-pow}
use native.Mathlib.Numerals.{towards_suc}
use student_18_byzcoin.Bytes.{Bytes}
use student_18_byzcoin.Common.{
  ltb, ◌==◌, if◌then◌else◌, Result, panic, err, ok, ◌>>=◌, length, replicate, length-replicate, ℕ,
  zero, suc, ◌+◌, ◌-◌, ◌*◌, ◌/◌, ◌%◌, ◌^◌, ◌≤◌, ◌<◌, ◌≡◌, refl, ap, ◌∙◌, ◌⊎◌, inl, inr, Bool, true,
  false, ◌∷◌, arith,
}
use student_18_byzcoin.Service.Block.{put_uvarint, put_varint}
use student_18_byzcoin.Service.Contract.{uvarint_from, varint}

-- how the loop of PutUvarint ends for `x`, with room for `room` bytes: they are read back
data Written (room x : ℕ) : Result Bytes → Type 0 where
  fits :
      (bs : Bytes)
      → x < 128 ^ room
      → length bs ≡ room
      → ((i a : ℕ) → i + room < 10 → uvarint_from i a bs ≡ a + x * 2 ^ (7 * i))
      → Written room x (ok bs)
  too_long : 128 ^ room ≤ x → Written room x panic

shifted : (n : ℕ) → 2 ^ (n + 7) ≡ 128 * 2 ^ n
shifted n = simp towards_suc (omega arith)

next_power : (i : ℕ) → 2 ^ (7 * (i + 1)) ≡ 128 * 2 ^ (7 * i)
next_power i =
    let seven_more : 7 * (i + 1) ≡ 7 * i + 7 = omega arith in
    ap (λ (n : ℕ). 2 ^ n) seven_more ∙ shifted (7 * i)

-- the lowest seven bits, and the others
parts : (x i : ℕ) → x * 2 ^ (7 * i) ≡ x % 128 * 2 ^ (7 * i) + x / 128 * 2 ^ (7 * (i + 1))
parts x i = omega (
  arith,
  ap (λ (t : ℕ). t * 2 ^ (7 * i)) (div-add-mod x 128),
  ap (λ (t : ℕ). x / 128 * t) (next_power i),
)

-- the last byte, and one that more bytes follow
last_byte :
    (i a x : ℕ) (bs : Bytes) → x < 128 → i < 9 → uvarint_from i a (x ∷ bs) ≡ a + x * 2 ^ (7 * i)
unfolding uvarint_from
last_byte i a x bs small below = ground arith

inner_byte :
    (i a x : ℕ) (bs : Bytes)
    → x < 128
    → uvarint_from i a ((x + 128) ∷ bs) ≡ uvarint_from (i + 1) (a + x * 2 ^ (7 * i)) bs
unfolding uvarint_from
inner_byte i a x bs small =
    let goes_on : ltb (x + 128) 128 ≡ false = ground arith in
    let seven_bits : (x + 128) % 128 ≡ x = omega (arith, small) in rw goes_on (rw seven_bits refl)

below_power : (room x : ℕ) → x < 128 → x < 128 ^ suc room
below_power room x small = omega (arith, small, one-le-pow room 128, pow-suc 128 room)

put_uvarint-more :
    (room x : ℕ) (r : Result Bytes)
    → (ltb x 128 ≡ false)
    → Written room (x / 128) r
    → Written (suc room) x (r >>= λ bs. ok ((x % 128 + 128) ∷ bs))
put_uvarint-more room x (ok _) large (fits bs small l read) =
    fits _ (omega (arith, pow-suc 128 room)) (ap suc l) (λ i a below.
      inner_byte i a (x % 128) bs (omega arith)
      ∙ read (i + 1) (a + x % 128 * 2 ^ (7 * i)) (omega (arith, below))
      ∙ omega (arith, parts x i))
put_uvarint-more room x (err _) large h = elim h [ ]
put_uvarint-more room x panic large (too_long h) = too_long (omega (arith, pow-suc 128 room))

put_uvarint-turn :
    (room x : ℕ) (b : Bool)
    → ltb x 128 ≡ b
    → (ltb x 128 ≡ false → Written room (x / 128) (put_uvarint room (x / 128)))
    → Written (suc room) x (
        if b
        then ok (x ∷ replicate room 0)
        else put_uvarint room (x / 128) >>= λ bs. ok ((x % 128 + 128) ∷ bs))
put_uvarint-turn room x true small ih =
    fits _ (below_power room x (ground (arith, small))) (ap suc (length-replicate room 0))
      (λ i a below.
        last_byte i a x (replicate room 0) (ground (arith, small)) (omega (arith, below)))
put_uvarint-turn room x false large ih = put_uvarint-more room x _ large (ih large)

put_uvarint-Written : (room x : ℕ) → Written (suc room) x (put_uvarint (suc room) x)
unfolding put_uvarint
put_uvarint-Written zero x =
    put_uvarint-turn zero x (ltb x 128) refl (λ large. too_long (ground (arith, large)))
put_uvarint-Written (suc room) x =
    put_uvarint-turn (suc room) x (ltb x 128) refl (λ large. put_uvarint-Written room (x / 128))

-- the number that PutVarint writes for an interval
abbrev zigzag : ℕ → ℕ
zigzag v = if ltb v (2 ^ 63) then 2 * v else 2 ^ 64 - 1 - 2 * v % 2 ^ 64

abbrev from_zigzag : ℕ → ℕ
from_zigzag ux = if ux % 2 == 0 then ux / 2 else 2 ^ 64 - 1 - ux / 2

from_zigzag-zigzag : (v : ℕ) → v < 2 ^ 64 → from_zigzag (zigzag v) ≡ v
from_zigzag-zigzag v below = ground (arith, below)

-- The interval is written and read back, or it is too long for the buffer.
abbrev pub Kept : ℕ → Result Bytes → Type 0
Kept v r =
    ((r ≡ panic) × (2 ^ 55 ≤ v) × (v < 2 ^ 64 - 2 ^ 55))
    ⊎ ((bs : Bytes) × (r ≡ ok bs)
        × (length bs ≡ 8)
        × (varint bs ≡ v)
        × ((v < 2 ^ 55) ⊎ (2 ^ 64 - 2 ^ 55 ≤ v)))

Kept-Written : (v : ℕ) (r : Result Bytes) → v < 2 ^ 64 → Written 8 (zigzag v) r → Kept v r
unfolding varint
Kept-Written v (ok _) below (fits bs small l read) =
    let whole : uvarint_from 0 0 bs ≡ zigzag v = read 0 0 (omega arith) ∙ omega arith in
    inr
      (bs, refl, l, ap from_zigzag whole ∙ from_zigzag-zigzag v below, ground (arith, small, below))
Kept-Written v (err e) below x = elim x [ ]
Kept-Written v panic below (too_long h) =
    inl (refl, ground (arith, h, below), ground (arith, h, below))

-- Of a block interval of 64 bits: PutVarint into the eight bytes of CreateGenesisBlock either
-- panics, and then the interval, read as a signed number, is not between minus 2 ^ 55 and 2 ^ 55,
-- the upper bound excluded; or it is between them, eight bytes are written, and Varint of
-- ContractConfig reads the interval back.
pub put_varint-Kept : (v : ℕ) → v < 2 ^ 64 → Kept v (put_varint 8 v)
unfolding put_varint
put_varint-Kept v below = Kept-Written v _ below (put_uvarint-Written 7 (zigzag v))
