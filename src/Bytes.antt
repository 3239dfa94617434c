-- ===== src/Bytes.antt =====
-- omniledger/collection/byteslice.go: comparisons and single bits of byte slices. A slice is a
-- list of numbers, and `IsBytes` says that each is below 256. `none` and `panic` are the run-time
-- panic of an index out of range.
pub mod Equal
pub mod Bits
pub mod Match
pub mod Ext
mod Examples
use student_18_byzcoin.Common.{
  ltb, ◌==◌, if◌then◌else◌, same_bool, length, get_elem?, set, replicate, All, Result, ok, panic, ℕ,
  zero, suc, ◌+◌, ◌-◌, ◌/◌, ◌%◌, ◌^◌, ◌<◌, bit_and, bit_or, Bool, true, false, not, Option, none,
  some, List, [], ◌∷◌, map,
}
use mathlib.Core.Option

abbrev pub Bytes : Type 0
Bytes = List ℕ

abbrev pub IsBytes : Bytes → Type 0
IsBytes = All (λ b. b < 256)

-- the loop of `equal`, over two slices of one length
equal_loop : Bytes → Bytes → Bool
equal_loop [] rho = true
equal_loop (x ∷ lho) [] = false
equal_loop (x ∷ lho) (y ∷ rho) = if x == y then equal_loop lho rho else false

unfoldable pub equal : Bytes → Bytes → Bool
unfolding equal_loop
equal lho rho = if length lho == length rho then equal_loop lho rho else false

-- uint8(1) << (7 - index % 8)
abbrev pub bit_mask : ℕ → ℕ
bit_mask index = 2 ^ (7 - index % 8)

-- the test of one byte
pub byte_bit : ℕ → ℕ → Bool
byte_bit b index = not (bit_and b (bit_mask index) == 0)

unfoldable pub bit : Bytes → ℕ → Option Bool
unfolding byte_bit
bit buffer index = Option.map (λ b. byte_bit b index) (get_elem? buffer (index / 8))

-- `b |= mask` and `b &^= mask`: the bits of `b` that the mask has are subtracted
pub write_bit : ℕ → ℕ → Bool → ℕ
write_bit b index true = bit_or b (bit_mask index)
write_bit b index false = b - bit_and b (bit_mask index)

unfoldable pub set_bit : Bytes → ℕ → Bool → Option Bytes
unfolding write_bit
set_bit buffer index value =
    Option.map (λ b. set buffer (index / 8) (write_bit b index value))
      (get_elem? buffer (index / 8))

-- both are in range, and equal
pub agree {ℓ} : {A : Type ℓ} → (A → A → Bool) → Option A → Option A → Option Bool
agree test (some x) (some y) = some (test x y)
agree test none y = none
agree test (some x) none = none

-- The loop of `match`, whose index grows in each round: `bits` rounds are enough.
match_loop : ℕ → Bytes → Bytes → ℕ → ℕ → Option Bool
unfolding agree
match_loop zero lho rho bits index = none
match_loop (suc fuel) lho rho bits index =
    let bytes_on = match_loop fuel lho rho bits (index + 8) in
    let bits_on = match_loop fuel lho rho bits (index + 1) in
    let next_byte : Option Bool =
      elim (agree (λ x y. x == y) (get_elem? lho (index / 8)) (get_elem? rho (index / 8))) [
        | none ↦ none
        | some false ↦ some false
        | some true ↦ bytes_on
      ] in
    let next_bit : Option Bool = elim (agree same_bool (bit lho index) (bit rho index)) [
      | none ↦ none
      | some false ↦ some false
      | some true ↦ bits_on
    ] in
    if ltb index bits then (if ltb (index + 8) bits then next_byte else next_bit) else some true

unfoldable pub match : Bytes → Bytes → ℕ → Option Bool
unfolding match_loop
match lho rho bits = match_loop (suc bits) lho rho bits 0

-- `sha256.Size`
abbrev pub digest_size : ℕ
digest_size = 32

-- the slice as an array
pub digest : Bytes → Result Bytes
digest buffer = if length buffer == digest_size then ok buffer else panic

-- an array of 32 zero bytes
abbrev pub zero_digest : Bytes
zero_digest = replicate 32 0
