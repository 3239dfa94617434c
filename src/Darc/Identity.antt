-- ===== src/Darc/Identity.antt =====
-- The identities of omniledger/darc: struct Identity and its methods. A nil pointer is `none`. Keys and
-- signatures are the work of kyber and of the crypto packages, parameters of the model: the string of
-- a point, equality of points, and the two verifications.
pub mod Strings
pub mod Mirror
use student_18_byzcoin.Bytes.{Bytes, equal}
use student_18_byzcoin.Common.{
  ltb, if◌then◌else◌, Error, darc_signature, unknown_identity, invalid_signature, ℕ, ◌+◌, ◌/◌, ◌%◌,
  Bool, false, Option, none, some, [], ◌∷◌, ◌++◌,
}

pub record Keys : Type 0 where
  pub point_string : Bytes → Bytes
  pub point_equal : Bytes → Bytes → Bool
  pub schnorr_verify : Bytes → Bytes → Bytes → Bool
  pub x509_verify : Bytes → Bytes → Bytes → Bool

-- struct Identity: an ID, a point in its encoding, a public key
pub record Identity : Type 0 where
  pub darc : Option Bytes
  pub ed25519 : Option Bytes
  pub x509ec : Option Bytes

-- the results 0, 1, 2 and -1 of Type
pub data IdentityType : Type 0 where
  darc_type ed25519_type x509ec_type no_type : IdentityType

-- Identity.Type
unfoldable pub type_of : Identity → IdentityType
type_of i = elim i.darc [
  | some d ↦ darc_type
  | none ↦ elim i.ed25519 [
    | some e ↦ ed25519_type
    | none ↦ elim i.x509ec [ some x ↦ x509ec_type | none ↦ no_type ]
  ]
]

-- "darc", "ed25519", "x509ec", "No identity"
unfoldable pub type_string : IdentityType → Bytes
type_string darc_type = 100 ∷ 97 ∷ 114 ∷ 99 ∷ []
type_string ed25519_type = 101 ∷ 100 ∷ 50 ∷ 53 ∷ 53 ∷ 49 ∷ 57 ∷ []
type_string x509ec_type = 120 ∷ 53 ∷ 48 ∷ 57 ∷ 101 ∷ 99 ∷ []
type_string no_type = 78 ∷ 111 ∷ 32 ∷ 105 ∷ 100 ∷ 101 ∷ 110 ∷ 116 ∷ 105 ∷ 116 ∷ 121 ∷ []

-- `%x`
unfoldable pub hex_digit : ℕ → ℕ
hex_digit n = if ltb n 10 then 48 + n else 87 + n

unfoldable pub hex : Bytes → Bytes
unfolding hex_digit
hex [] = []
hex (b ∷ x) = hex_digit (b / 16) ∷ hex_digit (b % 16) ∷ hex x

-- what a nil pointer of the type that Type told is read as
abbrev field_of : Option Bytes → Bytes
field_of none = []
field_of (some x) = x

-- NewIdentityDarc, NewIdentityEd25519 and NewIdentityX509EC
abbrev pub new_identity_darc : Bytes → Identity
new_identity_darc id = record { darc = some id; ed25519 = none; x509ec = none }

abbrev pub new_identity_ed25519 : Bytes → Identity
new_identity_ed25519 point = record { darc = none; ed25519 = some point; x509ec = none }

abbrev pub new_identity_x509ec : Bytes → Identity
new_identity_x509ec key = record { darc = none; ed25519 = none; x509ec = some key }

module _ ⦃K : Keys⦄ where
  -- Identity.String
  unfoldable pub identity_string : Identity → Bytes
  unfolding type_of type_string hex
  identity_string i = elim (type_of i) [
    | darc_type ↦ type_string darc_type ++ (58 ∷ hex (field_of i.darc))
    | ed25519_type ↦ type_string ed25519_type ++ (58 ∷ K.point_string (field_of i.ed25519))
    | x509ec_type ↦ type_string x509ec_type ++ (58 ∷ hex (field_of i.x509ec))
    | no_type ↦ type_string no_type
  ]

  -- Identity.Equal, with the Equal of each kind
  unfoldable pub identity_equal : Identity → Identity → Bool
  unfolding type_of
  identity_equal i j = elim (type_of i) [
    | darc_type ↦ elim (type_of j) [
      | darc_type ↦ equal (field_of i.darc) (field_of j.darc)
      | _ ↦ false
    ]
    | ed25519_type ↦ elim (type_of j) [
      | ed25519_type ↦ K.point_equal (field_of i.ed25519) (field_of j.ed25519)
      | _ ↦ false
    ]
    | x509ec_type ↦ elim (type_of j) [
      | x509ec_type ↦ equal (field_of i.x509ec) (field_of j.x509ec)
      | _ ↦ false
    ]
    | no_type ↦ false
  ]

  -- Identity.Verify: `none` is a nil error
  unfoldable pub identity_verify : Identity → Bytes → Bytes → Option Error
  unfolding type_of
  identity_verify i msg sig = elim (type_of i) [
    | darc_type ↦ some darc_signature
    | ed25519_type ↦
        if K.schnorr_verify (field_of i.ed25519) msg sig then none else some invalid_signature
    | x509ec_type ↦
        if K.x509_verify (field_of i.x509ec) msg sig then none else some invalid_signature
    | no_type ↦ some unknown_identity
  ]
