-- ===== src/Hash.antt =====
-- The two functions that the packages take from elsewhere, as a parameter of the model:
-- `sha256.Sum256`, whose result is an array of 32 bytes, and the encoding of a `toHash` by
-- github.com/dedis/protobuf, which has an error for unsupported types only, so that the panic of
-- `toHash.hash` is not modelled.
pub mod Padding
use student_18_byzcoin.Bytes.{Bytes, IsBytes}
use student_18_byzcoin.Common.{length, ◌≡◌, ◌≢◌, Bool, List}

-- struct toHash of omniledger/collection/singlenode.go
pub record ToHash : Type 0 where
  pub is_leaf : Bool
  pub key : Bytes
  pub values : List Bytes
  pub left_label : Bytes
  pub right_label : Bytes

pub record Hashing : Type 0 where
  pub sum256 : Bytes → Bytes
  pub encode : ToHash → Bytes
  pub sum256_length : (x : Bytes) → length (sum256 x) ≡ 32
  pub sum256_bytes : (x : Bytes) → IsBytes (sum256 x)

module _ ⦃H : Hashing⦄ where
  abbrev pub sum256 : Bytes → Bytes
  sum256 = H.sum256

  -- toHash.hash
  unfoldable pub hash : ToHash → Bytes
  hash t = H.sum256 (H.encode t)

  -- two inputs that the program takes for one
  pub record Collision : Type 0 where
    pub first : ToHash
    pub second : ToHash
    pub different : first ≢ second
    pub collides : hash first ≡ hash second
