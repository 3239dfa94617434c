-- ===== src/Field.antt =====
-- omniledger/collection/field.go: how a value is written to bytes, propagated to the parent node
-- and searched. The interface is a record of functions, and each implementation a value of it.
pub mod Stake
mod Examples
use student_18_byzcoin.Bytes.{Bytes}
use student_18_byzcoin.Common.{
  leb, ◌==◌, if◌then◌else◌, not_navigable, wrong_buffer_length, query_exceeds_parent, Result, panic,
  err, ok, ◌>>=◌, length, ℕ, ◌+◌, ◌-◌, ◌*◌, ◌/◌, ◌%◌, ◌^◌, Bool, true, false, [], ◌∷◌,
}

-- An `interface{}` that callers pass or receive: `[]byte`, `uint64`, or the marker `Same{}` of
-- manipulators.go.
pub data Value : Type 0 where
  raw : Bytes → Value
  stake : ℕ → Value
  same_value : Value

-- `Navigate` may write to its `query` argument, so it returns the buffer too. `encode` panics on a
-- value of another type.
pub record Field : Type 0 where
  pub encode : Value → Result Bytes
  pub decode : Bytes → Result Value
  pub placeholder : Bytes
  pub parent : Bytes → Bytes → Result Bytes
  pub navigate : Bytes → Bytes → Bytes → Bytes → Result (Bool × Bytes)

-- the constants `Left` and `Right`
abbrev pub left_step : Bool
left_step = false

abbrev pub right_step : Bool
right_step = true

-- struct Data
unfoldable pub data_encode : Value → Result Bytes
data_encode (raw value) = ok value
data_encode _ = panic

unfoldable pub data_decode : Bytes → Result Value
data_decode bytes = ok (raw bytes)

pub data_parent : Bytes → Bytes → Result Bytes
data_parent left right = ok []

pub data_navigate : Bytes → Bytes → Bytes → Bytes → Result (Bool × Bytes)
data_navigate query parent left right = err not_navigable

unfoldable pub data_field : Field
unfolding data_encode data_decode data_parent data_navigate
data_field = record {
  encode = data_encode;
  decode = data_decode;
  placeholder = [];
  parent = data_parent;
  navigate = data_navigate;
}

-- binary.BigEndian.PutUint64 into 8 bytes
unfoldable pub put_uint64 : ℕ → Bytes
put_uint64 v =
    (v / 2 ^ 56 % 256)
    ∷ (v / 2 ^ 48 % 256)
    ∷ (v / 2 ^ 40 % 256)
    ∷ (v / 2 ^ 32 % 256)
    ∷ (v / 2 ^ 24 % 256)
    ∷ (v / 2 ^ 16 % 256)
    ∷ (v / 2 ^ 8 % 256)
    ∷ (v % 256)
    ∷ []

-- binary.BigEndian.Uint64: the digits, the highest first
from_digits : ℕ → Bytes → ℕ
from_digits acc [] = acc
from_digits acc (b ∷ bs) = from_digits (acc * 256 + b) bs

unfoldable pub get_uint64 : Bytes → ℕ
unfolding from_digits
get_uint64 bytes = from_digits 0 bytes

-- struct Stake64
unfoldable pub stake_encode : Value → Result Bytes
unfolding put_uint64
stake_encode (stake value) = ok (put_uint64 value)
stake_encode _ = panic

-- `Decode`, before its result is boxed
stake_value : Bytes → Result ℕ
unfolding get_uint64
stake_value bytes = if length bytes == 8 then ok (get_uint64 bytes) else err wrong_buffer_length

unfoldable pub stake_decode : Bytes → Result Value
unfolding stake_value
stake_decode bytes = do v ← stake_value bytes; ok (stake v)

-- uint64 addition wraps round
unfoldable pub stake_parent : Bytes → Bytes → Result Bytes
unfolding stake_value
stake_parent left right = do
  left_value ← stake_value left
  right_value ← stake_value right
  ok (put_uint64 ((left_value + right_value) % 2 ^ 64))

-- `copy` overwrites the whole query: it has 8 bytes, as the encoded difference has
unfoldable pub stake_navigate : Bytes → Bytes → Bytes → Bytes → Result (Bool × Bytes)
unfolding stake_value
stake_navigate query parent left right = do
  query_value ← stake_value query
  parent_value ← stake_value parent
  if leb parent_value query_value then err query_exceeds_parent else do
    left_value ← stake_value left
    if leb left_value query_value
        then ok (right_step, put_uint64 (query_value - left_value))
        else ok (left_step, query)

unfoldable pub stake64 : Field
unfolding stake_encode stake_decode stake_parent stake_navigate put_uint64
stake64 = record {
  encode = stake_encode;
  decode = stake_decode;
  placeholder = put_uint64 0;
  parent = stake_parent;
  navigate = stake_navigate;
}
