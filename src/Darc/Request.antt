-- ===== src/Darc/Request.antt =====
-- Requests of omniledger/darc: what a signer signs.
use student_18_byzcoin.Bytes.{Bytes}
use student_18_byzcoin.Common.{List, [], ◌∷◌, ◌++◌, map}
use student_18_byzcoin.Darc.Identity.{Keys, Identity, identity_string}
use student_18_byzcoin.Hash.{Hashing, sum256}

-- struct Request, with its innerRequest
pub record Request : Type 0 where
  pub base_id : Bytes
  pub action : Bytes
  pub msg : Bytes
  pub identities : List Identity
  pub signatures : List Bytes

-- InitRequest
unfoldable pub init_request : Bytes → Bytes → Bytes → List Identity → List Bytes → Request
init_request base_id action msg ids sigs = record {
  base_id = base_id;
  action = action;
  msg = msg;
  identities = ids;
  signatures = sigs;
}

module _ ⦃H : Hashing⦄ ⦃K : Keys⦄ where
  -- GetIdentityStrings
  unfoldable pub get_identity_strings : Request → List Bytes
  unfolding identity_string
  get_identity_strings r = map (λ (i : Identity). identity_string i) r.identities

  -- the writes of the identities to the hash, one after the other
  unfoldable pub written_identities : List Identity → Bytes
  unfolding identity_string
  written_identities [] = []
  written_identities (i ∷ is) = identity_string i ++ written_identities is

  -- Request.Hash
  unfoldable pub request_hash : Request → Bytes
  unfolding written_identities
  request_hash r = sum256 (r.base_id ++ (r.action ++ (r.msg ++ written_identities r.identities)))

  -- innerRequest.DarcHash: the writes of a hash have no error
  unfoldable pub darc_hash : Request → Bytes → Bytes
  unfolding written_identities
  darc_hash r darc_id =
      sum256 (r.base_id ++ (r.action ++ (darc_id ++ written_identities r.identities)))
