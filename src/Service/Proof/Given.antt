-- ===== src/Service/Proof/Given.antt =====
-- The proofs that NewProof gives are those that Verify accepts.
use mathlib.Core.List.{append-nil, append_assoc}
use student_18_byzcoin.Bytes.{Bytes}
use student_18_byzcoin.Collection.Proof.{Proof, tree_root_hash, consistent, get_proof}
use student_18_byzcoin.Collection.Proof.Complete.{Marked, get_proof-consistent}
use student_18_byzcoin.Collection.Proof.Steps.{Labelled}
use student_18_byzcoin.Collection.State.{Collection}
use student_18_byzcoin.Common.{
  unknown_skipchain, missing_block, err, ok, ◌>>=◌, bind-ok, ok-injective, ℕ, zero, suc, ◌≡◌, refl,
  sym, ◌∙◌, subst, true, Option, none, some, List, [], ◌∷◌, ◌++◌,
}
use student_18_byzcoin.Hash.{Hashing}
use student_18_byzcoin.Service.Block.{DataHeader}
use student_18_byzcoin.Service.Proof.{
  Link, SkipBlock, Skipchain, LedgerProof, last_link, follow_links, new_proof, verify_proof,
}
use student_18_byzcoin.Service.Proof.Links.{Chained, ChainedFrom, verify_proof-Verified}

module _ (S : Skipchain) (keys : SkipBlock → Bytes) where
  -- What the skipchain service sees to, with `keys b` the keys of the roster that holds at a block: the
  -- last link of a block verifies with them and begins at the block, and the block at its end has the
  -- keys of the link, or the same if it has none.
  pub record IsChain : Type 0 where
    pub verifies :
        (id : Bytes) (b : SkipBlock) (l : Link) (ls : List Link)
        → S.get_by_id id ≡ some b
        → b.forward_links ≡ l ∷ ls
        → S.link_verify (last_link l ls) (keys b) ≡ true
    pub begins :
        (id : Bytes) (b : SkipBlock) (l : Link) (ls : List Link)
        → S.get_by_id id ≡ some b
        → b.forward_links ≡ l ∷ ls
        → (last_link l ls).from ≡ id
    pub next_keys :
        (id : Bytes) (b next : SkipBlock) (l : Link) (ls : List Link)
        → S.get_by_id id ≡ some b
        → b.forward_links ≡ l ∷ ls
        → S.get_by_id (last_link l ls).to ≡ some next
        → keys next ≡ elim (last_link l ls).new_roster [ none ↦ keys b | some k ↦ k ]

  abbrev Followed : Bytes → SkipBlock → List Link → SkipBlock × List Link → Type 0
  Followed id sb links (latest, made) =
      (added : List Link) × (made ≡ links ++ added) × Chained S id (keys sb) added

  abbrev FollowsWith : ℕ → Type 0
  FollowsWith fuel =
      (id : Bytes) (sb : SkipBlock) (links : List Link) (r : SkipBlock × List Link)
      → S.get_by_id id ≡ some sb
      → follow_links S fuel sb links ≡ ok r
      → Followed id sb links r

  follow_links-Chained :
      IsChain
      → (fuel : ℕ) (id : Bytes) (sb : SkipBlock) (links : List Link) (r : SkipBlock × List Link)
      → S.get_by_id id ≡ some sb
      → follow_links S fuel sb links ≡ ok r
      → Followed id sb links r
  unfolding follow_links
  follow_links-Chained is_chain zero id sb links r at_id e = absurd cc
  follow_links-Chained is_chain (suc fuel) id sb links r at_id e =
      by_links sb.forward_links refl e (follow_links-Chained is_chain fuel)
    where
      by_block :
          (l : Link) (ls : List Link) (o : Option SkipBlock)
          → sb.forward_links ≡ l ∷ ls
          → S.get_by_id (last_link l ls).to ≡ o
          → (elim o [
            | none ↦ err missing_block
            | some next ↦ follow_links S fuel next (links ++ (last_link l ls ∷ []))
          ])
            ≡ ok r
          → FollowsWith fuel
          → Followed id sb links r
      by_block l ls none q got e ih = cc
      by_block l ls (some next) q got e ih =
          let (added, made, chained) = ih (last_link l ls).to next _ r got e in
          (
            last_link l ls ∷ added,
            made ∙ append_assoc links (last_link l ls ∷ []) added,
            (
              is_chain.verifies id sb l ls at_id q,
              is_chain.begins id sb l ls at_id q,
              subst (λ (k : Bytes). Chained S (last_link l ls).to k added)
                  (is_chain.next_keys id sb next l ls at_id q got) chained,
            ),
          )

      by_links :
          (xs : List Link)
          → sb.forward_links ≡ xs
          → (elim xs [
            | [] ↦ ok (sb, links)
            | l ∷ ls ↦ elim (S.get_by_id (last_link l ls).to) [
              | none ↦ err missing_block
              | some next ↦ follow_links S fuel next (links ++ (last_link l ls ∷ []))
            ]
          ])
            ≡ ok r
          → FollowsWith fuel
          → Followed id sb links r
      by_links [] q e ih =
          subst (Followed id sb links) (ok-injective e) ([], sym (append-nil links), tt)
      by_links (l ∷ ls) q e ih = by_block l ls (S.get_by_id (last_link l ls).to) q refl e ih

  module _ ⦃H : Hashing⦄ where
    -- Verify accepts for a skipchain the proof that NewProof gives of it, if the header of the
    -- last block has the root of the inclusion proof, the last forward link of each block begins
    -- at the block and verifies with the keys that hold there, which are those of the link before
    -- if it has any, the roster of the first block has the keys that hold there, every known node
    -- of the collection has the hash of its parts for a label, and no inner node two children
    -- whose labels are all zeros.
    pub new_proof-verified :
        (fuel : ℕ) (c : Collection) (id key : Bytes) (p : LedgerProof) (h : DataHeader)
        → IsChain
        → ((b : SkipBlock) → S.get_by_id id ≡ some b → b.roster ≡ some (keys b))
        → Labelled c.root
        → Marked c.root
        → new_proof S fuel c id key ≡ ok p
        → S.unmarshal_header p.latest.header_bytes ≡ ok (some h)
        → h.collection_root ≡ tree_root_hash p.inclusion
        → verify_proof S p id ≡ ok tt
    unfolding new_proof
    new_proof-verified fuel c id key p h is_chain rostered labels marks e read root =
        let (inclusion, included, e1) = bind-ok (get_proof c key) _ e in
        by_block inclusion included (S.get_by_id id) refl e1
      where
        by_block :
            (inclusion : Proof)
            → get_proof c key ≡ ok inclusion
            → (o : Option SkipBlock) → S.get_by_id id ≡ o
            → (elim o [
              | none ↦ err unknown_skipchain
              | some sb ↦
                  follow_links S fuel sb
                    (record { from = []; to = id; new_roster = sb.roster } ∷ [])
                  >>= λ (latest, links).
                      ok (record { inclusion = inclusion; latest = latest; links = links })
            ])
              ≡ ok p
            → verify_proof S p id ≡ ok tt
        by_block inclusion included none q e = cc
        by_block inclusion included (some sb) q e =
            let ((latest, links), walked, e1) = bind-ok (follow_links S fuel sb _) _ e in
            let (added, made, chained) = follow_links-Chained is_chain fuel id sb _ _ q walked in
            let is = ok-injective e1 in
            (verify_proof-Verified S p id).1 (
              subst (λ (x : LedgerProof). consistent x.inclusion ≡ some true) is
                  (get_proof-consistent c key inclusion labels marks included).0,
              (h, read, sym root),
              subst (λ (x : LedgerProof). ChainedFrom S id x.links) is
                  (subst (ChainedFrom S id) (sym made) (keys sb, rostered sb q, chained)),
            )
