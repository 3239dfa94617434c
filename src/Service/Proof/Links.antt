-- ===== src/Service/Proof/Links.antt =====
-- What Verify of a proof for a skipchain accepts.
use student_18_byzcoin.Bytes.{Bytes, equal}
use student_18_byzcoin.Bytes.Equal.{equal→≡, ≡→equal}
use student_18_byzcoin.Collection.Proof.{Proof, tree_root_hash, consistent}
use student_18_byzcoin.Common.{
  not-false, wrong_proof_root, wrong_skipchain, missing_block, Result, panic, err, ok, bind-ok,
  ok-bind, guarded-ok, ℕ, zero, suc, ◌<◌, ◌≡◌, refl, sym, ap, ◌∙◌, ◌≢◌, ◌↔◌, Bool, true, false, not,
  Option, none, some, List, [], ◌∷◌, ◌++◌, arith,
}
use student_18_byzcoin.Hash.{Hashing}
use student_18_byzcoin.Service.Block.{DataHeader}
use student_18_byzcoin.Service.Proof.{
  Link, SkipBlock, Skipchain, LedgerProof, last_link, follow_links, verify_later, verify_links,
  check_header, check_inclusion, verify_proof,
}

module _ (S : Skipchain) where
  -- each link verifies with the keys before it, and begins where the one before it ends
  abbrev pub Chained : Bytes → Bytes → List Link → Type 0
  Chained id publics [] = Unit
  Chained id publics (l ∷ ls) =
      (S.link_verify l publics ≡ true)
      × (l.from ≡ id)
      × Chained l.to (elim l.new_roster [ none ↦ publics | some keys ↦ keys ]) ls

  abbrev pub ChainedFrom : Bytes → List Link → Type 0
  ChainedFrom id [] = Unit
  ChainedFrom id (l ∷ ls) =
      (publics : Bytes) × (l.new_roster ≡ some publics) × Chained id publics ls

  pub verify_later-Chained :
      (ls : List Link) (id publics : Bytes)
      → (verify_later S id publics ls ≡ ok tt) ↔ Chained id publics ls
  unfolding verify_later
  verify_later-Chained [] id publics = (λ e. tt, λ h. refl)
  verify_later-Chained (l ∷ ls) id publics =
      let (ih, hi) =
        verify_later-Chained ls l.to (elim l.new_roster [ none ↦ publics | some keys ↦ keys ]) in
      (
        λ e.
            let (g1, e1) = guarded-ok (not (S.link_verify l publics)) wrong_skipchain _ e in
            let (g2, e2) = guarded-ok (not (equal l.from id)) wrong_skipchain _ e1 in
            (not-false _ g1, equal→≡ l.from id (not-false _ g2), ih e2),
        λ (valid, begins, rest). rw valid (rw (≡→equal begins) (hi rest)),
      )

  verify_links-ChainedFrom :
      (ls : List Link) (id : Bytes) → (verify_links S id ls ≡ ok tt) ↔ ChainedFrom id ls
  unfolding verify_links
  verify_links-ChainedFrom [] id = (λ e. tt, λ h. refl)
  verify_links-ChainedFrom (l ∷ ls) id =
      (there l.new_roster, λ (publics, e, h). back l.new_roster publics e h)
    where
      there :
          (o : Option Bytes)
          → (elim o [ none ↦ panic | some publics ↦ verify_later S id publics ls ]) ≡ ok tt
          → (publics : Bytes) × (o ≡ some publics) × Chained id publics ls
      there none e = cc
      there (some publics) e = (publics, refl, (verify_later-Chained ls id publics).0 e)

      back :
          (o : Option Bytes) (publics : Bytes)
          → o ≡ some publics
          → Chained id publics ls
          → (elim o [ none ↦ panic | some publics ↦ verify_later S id publics ls ]) ≡ ok tt
      back o publics e h = rw e ((verify_later-Chained ls id publics).1 h)

  module _ ⦃H : Hashing⦄ where
    -- the conditions of Verify
    abbrev pub Verified : LedgerProof → Bytes → Type 0
    Verified p id =
        (consistent p.inclusion ≡ some true)
        × ((h : DataHeader) × (S.unmarshal_header p.latest.header_bytes ≡ ok (some h))
            × (tree_root_hash p.inclusion ≡ h.collection_root))
        × ChainedFrom id p.links

    check_header-there :
        (p : LedgerProof) (id : Bytes) (o : Option DataHeader)
        → check_header S p id o ≡ ok tt
        → (h : DataHeader) × (o ≡ some h)
          × (tree_root_hash p.inclusion ≡ h.collection_root)
          × ChainedFrom id p.links
    check_header-there p id none e = cc
    check_header-there p id (some h) e =
        let (g1, e1) =
          guarded-ok (not (equal (tree_root_hash p.inclusion) h.collection_root)) wrong_proof_root _
            e in
        (h, refl, equal→≡ _ _ (not-false _ g1), (verify_links-ChainedFrom p.links id).0 e1)

    check_inclusion-there :
        (p : LedgerProof) (id : Bytes) (o : Option Bool)
        → check_inclusion S p id o ≡ ok tt
        → (o ≡ some true)
          × ((h : DataHeader) × (S.unmarshal_header p.latest.header_bytes ≡ ok (some h))
              × (tree_root_hash p.inclusion ≡ h.collection_root))
          × ChainedFrom id p.links
    check_inclusion-there p id none e = cc
    check_inclusion-there p id (some false) e = cc
    check_inclusion-there p id (some true) e =
        let (o, got, rest) =
          bind-ok (S.unmarshal_header p.latest.header_bytes) (check_header S p id) e in
        let (h, is, root, linked) = check_header-there p id o rest in
        (refl, (h, got ∙ ap ok is, root), linked)

    verify_proof-back : (p : LedgerProof) (id : Bytes) → Verified p id → verify_proof S p id ≡ ok tt
    unfolding verify_proof
    verify_proof-back p id (holds, (h, got, root), linked) =
        ap (check_inclusion S p id) holds
        ∙ ok-bind (S.unmarshal_header p.latest.header_bytes) (check_header S p id) got
            (rw (≡→equal root) ((verify_links-ChainedFrom p.links id).1 linked))

    -- Verify returns nil for a proof exactly when its inclusion proof is consistent, the header
    -- of its block has the root of that, and there is no link, or each link but the first
    -- verifies and begins at the end of the one before it, the second at the ID of the skipchain.
    pub verify_proof-Verified :
        (p : LedgerProof) (id : Bytes) → (verify_proof S p id ≡ ok tt) ↔ Verified p id
    unfolding verify_proof
    verify_proof-Verified p id =
        (check_inclusion-there p id (consistent p.inclusion), verify_proof-back p id)

    -- Whoever has a consistent inclusion proof can make a proof that Verify accepts, for every
    -- skipchain: with any block whose header has its root, whatever the hash of the block, and no
    -- link.
    pub verify_proof-forged :
        (inclusion : Proof) (block : SkipBlock) (h : DataHeader) (id : Bytes)
        → consistent inclusion ≡ some true
        → S.unmarshal_header block.header_bytes ≡ ok (some h)
        → h.collection_root ≡ tree_root_hash inclusion
        → verify_proof S (record { inclusion = inclusion; latest = block; links = [] }) id ≡ ok tt
    verify_proof-forged inclusion block h id holds read root =
        verify_proof-back _ id (holds, (h, read, sym root), tt)

  -- The loop of NewProof ends where each block that a last link leads to is of a lower rank: with more
  -- fuel than the rank of the first block it does not run out.
  pub follow_links-returns :
      (rank : SkipBlock → ℕ) (fuel : ℕ) (sb : SkipBlock) (links : List Link)
      → ((b next : SkipBlock) (l : Link) (ls : List Link)
          → b.forward_links ≡ l ∷ ls
          → S.get_by_id (last_link l ls).to ≡ some next
          → rank next < rank b)
      → rank sb < fuel
      → follow_links S fuel sb links ≢ panic
  unfolding follow_links
  follow_links-returns rank zero sb links lower lt = absurd (omega arith)
  follow_links-returns rank (suc fuel) sb links lower lt =
      by_links sb.forward_links refl (λ next more_links h.
        follow_links-returns rank fuel next more_links lower (omega (arith, h)))
    where
      by_block :
          (l : Link) (ls : List Link) (o : Option SkipBlock)
          → ((next : SkipBlock) → o ≡ some next → rank next < rank sb)
          → ((next : SkipBlock) (more_links : List Link)
              → rank next < rank sb
              → follow_links S fuel next more_links ≢ panic)
          → (elim o [
            | none ↦ err missing_block
            | some next ↦ follow_links S fuel next (links ++ (last_link l ls ∷ []))
          ])
            ≢ panic
      by_block l ls none h ih e = cc
      by_block l ls (some next) h ih e = ih next _ (h next refl) e

      by_links :
          (xs : List Link)
          → sb.forward_links ≡ xs
          → ((next : SkipBlock) (more_links : List Link)
              → rank next < rank sb
              → follow_links S fuel next more_links ≢ panic)
          → ◌≢◌ {A = Result (SkipBlock × List Link)}
              (elim xs [
                | [] ↦ ok (sb, links)
                | l ∷ ls ↦ elim (S.get_by_id (last_link l ls).to) [
                  | none ↦ err missing_block
                  | some next ↦ follow_links S fuel next (links ++ (last_link l ls ∷ []))
                ]
              ])
              panic
      by_links [] q ih e = cc
      by_links (l ∷ ls) q ih e =
          by_block l ls (S.get_by_id (last_link l ls).to) (λ next got. lower sb next l ls q got) ih
            e
