-- ===== src/Darc/Document.antt =====
-- The darcs of omniledger/darc: struct Darc, its digest, and how it evolves. A Go map has no order, so
-- GetID sorts its keys. No pointer of a path or of the signatures is nil.
pub mod Ids
use mathlib.Core.List.{reverse}
use student_18_byzcoin.Bytes.{Bytes, equal}
use student_18_byzcoin.Common.{
  ◌==◌, if◌then◌else◌, empty_evolution, Outcome, done, fail, ℕ, ◌+◌, ◌%◌, ◌^◌, Bool, true, false,
  Option, none, some, List, [], ◌∷◌, ◌++◌,
}
use student_18_byzcoin.Darc.Identity.{Keys, Identity, new_identity_darc, identity_string}
use student_18_byzcoin.Darc.Rules.{Rule, Rules}
use student_18_byzcoin.Field.{put_uint64}
use student_18_byzcoin.Hash.{Hashing, sum256}
use student_18_byzcoin.Sorting.{sort_by}

-- struct Signature
pub record Signature : Type 0 where
  pub signature : Bytes
  pub signer : Identity

-- struct Darc but for the path; a nil base ID is `none`
pub record Fields : Type 0 where
  pub version : ℕ
  pub description : Bytes
  pub base : Option Bytes
  pub rules : Rules
  pub path_digest : Bytes
  pub signatures : List Signature

mutual
  pub data Darc : Type 0 where
    darc_of : Fields → DarcPath → Darc

  pub data DarcPath : Type 0 where
    no_darcs : DarcPath
    older : Darc → DarcPath → DarcPath

abbrev pub fields_of : Darc → Fields
fields_of (darc_of f p) = f

abbrev pub path_of : Darc → DarcPath
path_of (darc_of f p) = p

abbrev pub with_path : Darc → DarcPath → Darc
with_path (darc_of f p) path = darc_of f path

abbrev pub path_empty : DarcPath → Bool
path_empty no_darcs = true
path_empty (older d p) = false

-- a nil ID is read as no bytes
abbrev pub id_bytes : Option Bytes → Bytes
id_bytes none = []
id_bytes (some id) = id

-- NewDarc
unfoldable pub new_darc : Rules → Bytes → Darc
new_darc rules desc =
    darc_of
      (record {
        version = 0;
        description = desc;
        base = none;
        rules = rules;
        path_digest = [];
        signatures = [];
      })
      no_darcs

-- Copy: copyBytes makes an empty slice of nil, and each rule is written anew
unfoldable pub copy : Darc → Darc
copy (darc_of f p) = darc_of (record f { base = some (id_bytes f.base); signatures = [] }) no_darcs

-- IncrementVersion
unfoldable pub increment_version : Darc → Darc
increment_version (darc_of f p) = darc_of (record f { version = (f.version + 1) % 2 ^ 64 }) p

-- pathContains
unfoldable pub path_contains : DarcPath → (Darc → Bool) → Bool
path_contains no_darcs cb = false
path_contains (older d p) cb = if cb d then true else path_contains p cb

-- binary.LittleEndian.PutUint64 into 8 bytes
unfoldable pub put_uint64_le : ℕ → Bytes
unfolding put_uint64
put_uint64_le v = reverse (put_uint64 v)

-- the writes of the rules to the hash, in the order of the actions
unfoldable pub written_rules : Rules → Bytes
written_rules [] = []
written_rules (r ∷ rs) = r.action ++ (r.expr ++ written_rules rs)

module _ ⦃H : Hashing⦄ where
  -- GetID
  unfoldable pub get_id : Darc → Bytes
  unfolding put_uint64_le written_rules
  get_id (darc_of f p) = sum256 (
      put_uint64_le f.version
      ++ (f.description
          ++ (id_bytes f.base
              ++ (f.path_digest ++ written_rules (sort_by (λ (r : Rule). r.action) f.rules)))))

  -- GetBaseID
  unfoldable pub get_base_id : Darc → Option Bytes
  unfolding get_id
  get_base_id d = if (fields_of d).version == 0 then some (get_id d) else (fields_of d).base

  -- Equal
  unfoldable pub darc_equal : Darc → Darc → Bool
  unfolding get_id
  darc_equal d d2 = equal (get_id d) (get_id d2)

  -- GetIdentityString
  unfoldable pub get_identity_string : ⦃K : Keys⦄ → Darc → Bytes
  unfolding get_id identity_string
  get_identity_string d = identity_string (new_identity_darc (get_id d))

  -- darcsMsg
  unfoldable pub darcs_msg : DarcPath → Bytes
  unfolding get_id
  darcs_msg no_darcs = []
  darcs_msg (older d p) = get_id d ++ darcs_msg p

  -- hashAll, of one message: the writes of a hash have no error
  unfoldable pub hash_all : Bytes → Bytes
  hash_all msg = sum256 msg

  -- path[len(path)-1]
  abbrev pub last_of : Darc → DarcPath → Darc
  last_of d no_darcs = d
  last_of d (older e p) = last_of e p

  -- EvolveFrom
  unfoldable pub evolve_from : Darc → DarcPath → Outcome Darc
  unfolding get_base_id darcs_msg hash_all
  evolve_from d no_darcs = fail empty_evolution d
  evolve_from (darc_of f q) (older e p) =
      let prev = last_of e p in
      done (
        darc_of
          (record f {
            version = ((fields_of prev).version + 1) % 2 ^ 64;
            base = get_base_id prev;
            path_digest = hash_all (darcs_msg (older e p));
          })
          (older e p))
