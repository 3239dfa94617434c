-- ===== src/Darc/Signer.antt =====
-- Signers of omniledger/darc, the requests that they sign, and the way back from a request to a darc.
-- schnorr.Sign and the codec of protobuf are parameters of the model. No identity of a request that
-- was received is nil.
pub mod Accepted
pub mod Evolution
use student_18_byzcoin.Bytes.{Bytes, equal, digest}
use student_18_byzcoin.Common.{
  ◌==◌, if◌then◌else◌, path_digest_mismatch, unequal_lengths, no_signers, darc_ids_differ,
  empty_message, unknown_signer, not_implemented, no_private_key, Result, panic, err, ok, ◌>>=◌,
  or_panic, length, not, Option, none, some, List, [], ◌∷◌,
}
use student_18_byzcoin.Darc.Document.{
  Signature, Darc, darc_of, DarcPath, fields_of, id_bytes, copy, get_id, get_base_id, darcs_msg,
  hash_all,
}
use student_18_byzcoin.Darc.Identity.{
  Keys, Identity, IdentityType, ed25519_type, x509ec_type, no_type, new_identity_ed25519,
  new_identity_x509ec,
}
use student_18_byzcoin.Darc.Request.{Request, init_request, request_hash}
use student_18_byzcoin.Darc.Rules.{evolve}
use student_18_byzcoin.Hash.{Hashing}

-- schnorr.Sign of a secret and a message, and protobuf.Encode and Decode of a darc
pub record Outside : Type 0 where
  pub schnorr_sign : Bytes → Bytes → Result Bytes
  pub encode : Darc → Result Bytes
  pub decode : Bytes → Result Darc

-- struct SignerEd25519
pub record SignerEd25519 : Type 0 where
  pub point : Bytes
  pub secret : Bytes

-- struct Signer; of SignerX509EC the point is read only
pub record Signer : Type 0 where
  pub ed25519 : Option SignerEd25519
  pub x509ec : Option Bytes

-- Signer.Type
unfoldable pub signer_type : Signer → IdentityType
signer_type s = elim s.ed25519 [
  | some k ↦ ed25519_type
  | none ↦ elim s.x509ec [ some p ↦ x509ec_type | none ↦ no_type ]
]

-- NewSignerEd25519, of a point and a secret that are not nil
abbrev pub new_signer_ed25519 : Bytes → Bytes → Signer
new_signer_ed25519 point secret = record {
  ed25519 = some (record { point = point; secret = secret });
  x509ec = none;
}

-- Signer.Identity; nil for a signer with no key
unfoldable pub signer_identity : Signer → Option Identity
signer_identity s = elim s.ed25519 [
  | some k ↦ some (new_identity_ed25519 k.point)
  | none ↦ elim s.x509ec [ some p ↦ some (new_identity_x509ec p) | none ↦ none ]
]

-- Signer.GetPrivate
unfoldable pub get_private : Signer → Result Bytes
get_private s = elim s.ed25519 [
  | some k ↦ ok k.secret
  | none ↦ elim s.x509ec [ some p ↦ err no_private_key | none ↦ err unknown_signer ]
]

-- the loop over signers that asks for their identities, and reads each in the hash: String of nil panics
unfoldable pub signer_identities : List Signer → Result (List Identity)
unfolding signer_identity
signer_identities [] = ok []
signer_identities (s ∷ ss) = do
  i ← or_panic (signer_identity s)
  is ← signer_identities ss
  ok (i ∷ is)

-- the loop of MsgToDarc
unfoldable pub darc_signatures : List Identity → List Bytes → Result (List Signature)
darc_signatures is [] = ok []
darc_signatures [] (s ∷ sigs) = panic
darc_signatures (i ∷ is) (s ∷ sigs) = do
  rest ← darc_signatures is sigs
  ok (record { signature = s; signer = i } ∷ rest)

module _ (O : Outside) where
  -- Signer.Sign of a message that may be nil, with Sign of each kind of signer
  unfoldable pub signer_sign : Signer → Option Bytes → Result Bytes
  signer_sign s none = err empty_message
  signer_sign s (some msg) = elim s.ed25519 [
    | some k ↦ O.schnorr_sign k.secret msg
    | none ↦ elim s.x509ec [ some p ↦ err not_implemented | none ↦ err unknown_signer ]
  ]

  -- the loop over signers that makes the signatures
  unfoldable pub sign_all : List Signer → Bytes → Result (List Bytes)
  unfolding signer_sign
  sign_all [] digest = ok []
  sign_all (s ∷ ss) digest = do
    sig ← signer_sign s (some digest)
    sigs ← sign_all ss digest
    ok (sig ∷ sigs)

  module _ ⦃K : Keys⦄ ⦃H : Hashing⦄ where
    -- InitAndSignRequest
    unfoldable pub init_and_sign_request : Bytes → Bytes → Bytes → List Signer → Result Request
    unfolding signer_identities request_hash sign_all
    init_and_sign_request base_id action msg signers =
        if length signers == 0 then err no_signers else do
          ids ← signer_identities signers
          sigs ← sign_all signers (request_hash (init_request base_id action msg ids []))
          ok (init_request base_id action msg ids sigs)

  -- ToProto of a darc that is not nil
  unfoldable pub to_proto : Darc → Result Bytes
  unfolding copy
  to_proto d = O.encode (copy d)

  -- NewDarcFromProto
  unfoldable pub new_darc_from_proto : Bytes → Result Darc
  new_darc_from_proto buf = O.decode buf

  module _ ⦃K : Keys⦄ ⦃H : Hashing⦄ where
    -- MakeEvolveRequest of a darc that is not nil, with the bytes of the darc
    unfoldable pub make_evolve_request : Darc → List Signer → Result (Request × Bytes)
    unfolding get_base_id get_id signer_identities request_hash sign_all to_proto
    make_evolve_request d signers = if length signers == 0 then err no_signers else do
      ids ← signer_identities signers
      sigs ←
          sign_all signers
            (request_hash (init_request (id_bytes (get_base_id d)) evolve (get_id d) ids []))
      buf ← to_proto d
      ok (init_request (id_bytes (get_base_id d)) evolve (get_id d) ids sigs, buf)

    -- MsgToDarc
    unfoldable pub msg_to_darc : Request → Bytes → DarcPath → Result Darc
    unfolding new_darc_from_proto get_id darc_signatures hash_all darcs_msg
    msg_to_darc r buf existing = new_darc_from_proto buf >>= λ d.
        if not (equal (get_id d) r.msg)
        then err darc_ids_differ
        else if not (length r.signatures == length r.identities)
        then err unequal_lengths
        else (darc_signatures r.identities r.signatures >>= λ sigs.
            if not (equal (hash_all (darcs_msg existing)) (fields_of d).path_digest)
            then err path_digest_mismatch
            else ok (darc_of (record (fields_of d) { signatures = sigs }) existing))
