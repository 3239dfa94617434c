-- ===== src/Service/Proof.antt =====
-- omniledger/service/proof.go: proofs for a skipchain. The database of blocks, the verification of a
-- forward link and the encoding of headers are parameters of the model. No forward link is nil.
pub mod Links
pub mod Given
use student_18_byzcoin.Bytes.{Bytes, equal}
use student_18_byzcoin.Collection.Proof.{Proof, tree_root_hash, consistent, raw_values, get_proof}
use student_18_byzcoin.Collection.State.{Collection}
use student_18_byzcoin.Common.{
  if◌then◌else◌, unknown_skipchain, wrong_proof, wrong_proof_root, wrong_skipchain, missing_block,
  Result, panic, err, ok, ◌>>=◌, ℕ, zero, suc, Bool, true, false, not, Option, none, some, List, [],
  ◌∷◌, ◌++◌,
}
use student_18_byzcoin.Hash.{Hashing}
use student_18_byzcoin.Service.Block.{DataHeader}

-- skipchain.ForwardLink; of a roster its public keys are read
pub record Link : Type 0 where
  pub from : Bytes
  pub to : Bytes
  pub new_roster : Option Bytes

-- skipchain.SkipBlock
pub record SkipBlock : Type 0 where
  pub hash : Bytes
  pub header_bytes : Bytes
  pub roster : Option Bytes
  pub forward_links : List Link

-- GetByID, Verify of a link with the public keys, and Unmarshal of a header, whose value may be of
-- another type
pub record Skipchain : Type 0 where
  pub get_by_id : Bytes → Option SkipBlock
  pub link_verify : Link → Bytes → Bool
  pub unmarshal_header : Bytes → Result (Option DataHeader)

-- struct Proof
pub record LedgerProof : Type 0 where
  pub inclusion : Proof
  pub latest : SkipBlock
  pub links : List Link

abbrev pub last_link : Link → List Link → Link
last_link l [] = l
last_link l (m ∷ ls) = last_link m ls

module _ (S : Skipchain) where
  -- The loop of NewProof, with the links so far. It may follow links for ever: past the fuel it panics.
  unfoldable pub follow_links : ℕ → SkipBlock → List Link → Result (SkipBlock × List Link)
  follow_links zero sb links = panic
  follow_links (suc fuel) sb links = elim sb.forward_links [
    | [] ↦ ok (sb, links)
    | l ∷ ls ↦ elim (S.get_by_id (last_link l ls).to) [
      | none ↦ err missing_block
      | some next ↦ follow_links fuel next (links ++ (last_link l ls ∷ []))
    ]
  ]

  -- NewProof
  unfoldable pub new_proof : ⦃H : Hashing⦄ → ℕ → Collection → Bytes → Bytes → Result LedgerProof
  unfolding get_proof follow_links
  new_proof fuel coll id key = get_proof coll key >>= λ inclusion. elim (S.get_by_id id) [
    | none ↦ err unknown_skipchain
    | some sb ↦
        follow_links fuel sb (record { from = []; to = id; new_roster = sb.roster } ∷ [])
        >>= λ (latest, links). ok (record { inclusion = inclusion; latest = latest; links = links })
  ]

  -- the turns of the loop of Verify after the first
  unfoldable pub verify_later : Bytes → Bytes → List Link → Result (Unit {0})
  verify_later id publics [] = ok tt
  verify_later id publics (l ∷ ls) =
      let rest = verify_later l.to (elim l.new_roster [ none ↦ publics | some keys ↦ keys ]) ls in
      if not (S.link_verify l publics)
      then err wrong_skipchain
      else if not (equal l.from id)
      then err wrong_skipchain
      else rest

  -- the loop of Verify: of the first link only the roster is read, which must not be nil
  unfoldable pub verify_links : Bytes → List Link → Result (Unit {0})
  unfolding verify_later
  verify_links id [] = ok tt
  verify_links id (l ∷ ls) = elim l.new_roster [
    | none ↦ panic
    | some publics ↦ verify_later id publics ls
  ]

  module _ ⦃H : Hashing⦄ (p : LedgerProof) (id : Bytes) where
    -- Verify after the header was read: one of another type is a panic
    abbrev pub check_header : Option DataHeader → Result (Unit {0})
    check_header none = panic
    check_header (some h) =
        if not (equal (tree_root_hash p.inclusion) h.collection_root)
        then err wrong_proof_root
        else verify_links id p.links

    -- Verify after the call of Consistent
    abbrev pub check_inclusion : Option Bool → Result (Unit {0})
    check_inclusion none = panic
    check_inclusion (some false) = err wrong_proof
    check_inclusion (some true) = S.unmarshal_header p.latest.header_bytes >>= check_header

    -- Verify
    unfoldable pub verify_proof : Result (Unit {0})
    unfolding consistent tree_root_hash verify_links
    verify_proof = check_inclusion (consistent p.inclusion)

-- KeyValue
unfoldable pub key_value : ⦃H : Hashing⦄ → LedgerProof → Bytes × Result (List Bytes)
unfolding raw_values
key_value p = (p.inclusion.key, raw_values p.inclusion)
