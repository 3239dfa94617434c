-- ===== src/Darc/Signer/Evolution.antt =====
-- An evolution from end to end: EvolveFrom, MakeEvolveRequest, MsgToDarc and verifyOneEvolution.
use student_18_byzcoin.Bytes.{Bytes, digest}
use student_18_byzcoin.Bytes.Equal.{≡→equal}
use student_18_byzcoin.Common.{
  ◌==◌, if◌then◌else◌, ≡→==, no_signers, Result, ok, bind-ok, guarded-ok, ok-injective, done,
  done-injective, length, All, ℕ, ◌+◌, ◌%◌, ◌^◌, ◌<◌, ◌≡◌, refl, sym, ap, ◌∙◌, subst, ◌≢◌, Bool,
  true, false, none, some, List, [], ◌∷◌, map, arith,
}
use student_18_byzcoin.Darc.Document.{
  Signature, Fields, Darc, darc_of, DarcPath, no_darcs, older, fields_of, id_bytes, copy, get_id,
  get_base_id, darcs_msg, hash_all, last_of, evolve_from,
}
use student_18_byzcoin.Darc.Identity.{Keys, Identity, identity_string}
use student_18_byzcoin.Darc.Request.{
  Request, init_request, get_identity_strings, request_hash, darc_hash,
}
use student_18_byzcoin.Darc.Rules.{evolve, get_evolution_expr}
use student_18_byzcoin.Darc.Signer.{
  Outside, Signer, signer_identities, darc_signatures, sign_all, to_proto, new_darc_from_proto,
  make_evolve_request, msg_to_darc,
}
use student_18_byzcoin.Darc.Signer.Accepted.{SignsFor, sign_all-AllVerify}
use student_18_byzcoin.Darc.Values.{signer_strings, eval_expr_by, eval_expr_with_sigs}
use student_18_byzcoin.Darc.Verify.{evolution_digest, verify_one_evolution}
use student_18_byzcoin.Darc.Verify.Accepts.{AllVerify, AllSigned, verify_one_evolution-IsEvolution}
use student_18_byzcoin.Expression.{Grammar}
use student_18_byzcoin.Hash.{Hashing}

module _ ⦃H : Hashing⦄ where
  get_id-copy : (d : Darc) → get_id (copy d) ≡ get_id d
  unfolding get_id copy
  get_id-copy (darc_of f p) = refl

  -- the signatures and the path are not part of the digest
  get_id-signed :
      (f : Fields) (p q : DarcPath) (sigs : List Signature)
      → get_id (darc_of (record f { signatures = sigs }) p) ≡ get_id (darc_of f q)
  unfolding get_id
  get_id-signed f p q sigs = refl

  not_zero : (n : ℕ) → n ≢ 0 → (n == 0) ≡ false
  not_zero n h = ground (arith, h)

  not_wrapped : (n : ℕ) → n + 1 < 2 ^ 64 → (n + 1) % 2 ^ 64 ≢ 0
  not_wrapped n h = omega arith

  get_base_id-later : (d : Darc) → (fields_of d).version ≢ 0 → get_base_id d ≡ (fields_of d).base
  unfolding get_base_id
  get_base_id-later d h = rw (not_zero (fields_of d).version h) refl

  fields_only : (d : Darc) → get_id (darc_of (fields_of (copy d)) no_darcs) ≡ get_id d
  unfolding get_id copy
  fields_only (darc_of f p) = refl

  -- a darc with its signatures and its path given
  abbrev pub signed_copy : Darc → List Signature → DarcPath → Darc
  signed_copy d sigs p = darc_of (record (fields_of (copy d)) { signatures = sigs }) p

  get_base_id-signed :
      (d : Darc) (sigs : List Signature) (p : DarcPath)
      → id_bytes (get_base_id (signed_copy d sigs p)) ≡ id_bytes (get_base_id d)
  unfolding get_base_id copy get_id
  get_base_id-signed (darc_of f q) sigs p = go (f.version == 0)
    where
      go :
          (b : Bool)
          → id_bytes (
              if b
              then some (get_id (signed_copy (darc_of f q) sigs p))
              else some (id_bytes f.base))
            ≡ id_bytes (if b then some (get_id (darc_of f q)) else f.base)
      go true = refl
      go false = refl

path_digest-copy : (d : Darc) → (fields_of (copy d)).path_digest ≡ (fields_of d).path_digest
unfolding copy
path_digest-copy (darc_of f p) = refl

version-copy : (d : Darc) → (fields_of (copy d)).version ≡ (fields_of d).version
unfolding copy
version-copy (darc_of f p) = refl

base-copy : (d : Darc) → (fields_of (copy d)).base ≢ none
unfolding copy
base-copy (darc_of f p) e = cc

darc_signatures-ok :
    (ids : List Identity) (sigs : List Bytes)
    → length sigs ≡ length ids
    → (out : List Signature) × (darc_signatures ids sigs ≡ ok out)
      × (map (λ (s : Signature). s.signer) out ≡ ids)
      × (map (λ (s : Signature). s.signature) out ≡ sigs)
unfolding darc_signatures
darc_signatures-ok [] [] e = ([], refl, refl, refl)
darc_signatures-ok (i ∷ is) [] e = absurd (omega arith)
darc_signatures-ok [] (s ∷ sigs) e = absurd (omega arith)
darc_signatures-ok (i ∷ is) (s ∷ sigs) e =
    let (out, made, same_ids, same_sigs) = darc_signatures-ok is sigs (omega arith) in
    (
      record { signature = s; signer = i } ∷ out,
      rw made refl,
      ap (λ (l : List Identity). i ∷ l) same_ids,
      ap (λ (l : List Bytes). s ∷ l) same_sigs,
    )

module _ ⦃K : Keys⦄ where
  AllVerify-AllSigned :
      (digest : Bytes) (out : List Signature)
      → AllVerify digest
          (map (λ (s : Signature). s.signer) out)
          (map (λ (s : Signature). s.signature) out)
      → AllSigned digest out
  AllVerify-AllSigned digest [] h = tt
  AllVerify-AllSigned digest (s ∷ out) h = (h.0, AllVerify-AllSigned digest out h.1)

  signer_strings-map :
      (out : List Signature)
      → signer_strings out
        ≡ map (λ (i : Identity). identity_string i) (map (λ (s : Signature). s.signer) out)
  unfolding signer_strings
  signer_strings-map [] = refl
  signer_strings-map (s ∷ out) =
      ap (λ (l : List Bytes). identity_string s.signer ∷ l) (signer_strings-map out)

  module _ ⦃H : Hashing⦄ (O : Outside) (g : Grammar) where
    -- what MakeEvolveRequest returned
    made_request :
        (d : Darc) (signers : List Signer) (r : Request) (buf : Bytes)
        → All (SignsFor O) signers
        → make_evolve_request O d signers ≡ ok (r, buf)
        → (ids : List Identity) × (sigs : List Bytes) × (r
            ≡ init_request (id_bytes (get_base_id d)) evolve (get_id d) ids sigs)
          × AllVerify
              (request_hash (init_request (id_bytes (get_base_id d)) evolve (get_id d) ids []))
              ids
              sigs
          × (length sigs ≡ length ids)
    unfolding make_evolve_request
    made_request d signers r buf h e =
        let (g1, e1) = guarded-ok (length signers == 0) no_signers _ e in
        let (ids, got_ids, e2) = bind-ok (signer_identities signers) _ e1 in
        let (sigs, got_sigs, e3) = bind-ok (sign_all O signers _) _ e2 in
        let (out, encoded, e4) = bind-ok (to_proto O d) _ e3 in
        let (all, l, k) = sign_all-AllVerify O signers _ ids sigs h got_ids got_sigs in
        (ids, sigs, sym (ap (λ (x : Request × Bytes). x.0) (ok-injective e4)), all, l ∙ sym k)

    -- MsgToDarc of that request, with the darc's bytes, gives the darc its signatures and its path.
    returned_darc :
        (d : Darc) (path : DarcPath) (buf : Bytes) (ids : List Identity) (sigs : List Bytes)
        → O.decode buf ≡ ok (copy d)
        → length sigs ≡ length ids
        → (fields_of d).path_digest ≡ hash_all (darcs_msg path)
        → (out : List Signature) × (msg_to_darc O
              (init_request (id_bytes (get_base_id d)) evolve (get_id d) ids sigs)
              buf
              path
            ≡ ok (signed_copy d out path))
          × (map (λ (s : Signature). s.signer) out ≡ ids)
          × (map (λ (s : Signature). s.signature) out ≡ sigs)
    unfolding msg_to_darc new_darc_from_proto init_request
    returned_darc d path buf ids sigs decoded lengths digested =
        let (out, made, same_ids, same_sigs) = darc_signatures-ok ids sigs lengths in
        (
          out,
          rw decoded (
              rw (≡→equal (get_id-copy d)) (
                rw (≡→== lengths)
                  (rw made (rw (≡→equal (sym (path_digest-copy d ∙ digested))) refl)))),
          same_ids,
          same_sigs,
        )

    -- the digest that the signers signed is the one that is verified
    same_digest :
        (d : Darc) (path : DarcPath) (out : List Signature) (ids : List Identity)
        → map (λ (s : Signature). s.signer) out ≡ ids
        → evolution_digest (signed_copy d out path)
          ≡ request_hash (init_request (id_bytes (get_base_id d)) evolve (get_id d) ids [])
    unfolding darc_hash request_hash init_request
    same_digest d path out ids same_ids = rw (get_base_id-signed d out path) (
        rw (get_id-signed (fields_of (copy d)) path no_darcs out ∙ fields_only d)
          (rw same_ids refl))

    -- what EvolveFrom wrote
    evolved :
        (d₀ e : Darc) (p : DarcPath) (d : Darc)
        → evolve_from d₀ (older e p) ≡ done d
        → (fields_of (last_of e p)).version + 1 < 2 ^ 64
        → ((fields_of d).version ≡ ((fields_of (last_of e p)).version + 1) % 2 ^ 64)
          × (get_base_id d ≡ get_base_id (last_of e p))
          × ((fields_of d).path_digest ≡ hash_all (darcs_msg (older e p)))
    unfolding evolve_from
    evolved (darc_of f q) e p d made small =
        let equation = done-injective made in
        let version = sym (ap (λ (x : Darc). (fields_of x).version) equation) in
        (
          version,
          get_base_id-later d
                (λ z. not_wrapped (fields_of (last_of e p)).version small (sym version ∙ z))
              ∙ sym (ap (λ (x : Darc). (fields_of x).base) equation),
          sym (ap (λ (x : Darc). (fields_of x).path_digest) equation),
        )

    permitted_by :
        (on_darc : List Bytes → Bytes → Result Bool) (expr : Bytes) (out : List Signature)
        (ids : List Identity)
        → map (λ (s : Signature). s.signer) out ≡ ids
        → eval_expr_by g on_darc expr (map (λ (i : Identity). identity_string i) ids) ≡ ok tt
        → eval_expr_with_sigs g on_darc expr out ≡ ok tt
    unfolding eval_expr_with_sigs
    permitted_by on_darc expr out ids same_ids h =
        subst (λ (l : List Bytes). eval_expr_by g on_darc expr l ≡ ok tt)
          (sym (signer_strings-map out ∙ ap (map (λ (i : Identity). identity_string i)) same_ids)) h

    signed_by :
        {digest digest' : Bytes} (out : List Signature) (ids : List Identity) (sigs : List Bytes)
        → map (λ (s : Signature). s.signer) out ≡ ids
        → map (λ (s : Signature). s.signature) out ≡ sigs
        → digest ≡ digest'
        → AllVerify digest ids sigs
        → AllSigned digest' out
    signed_by {digest} {digest'} out ids sigs same_ids same_sigs e h =
        AllVerify-AllSigned digest' out (
          subst (λ (l : List Bytes). AllVerify digest' (map (λ (s : Signature). s.signer) out) l)
            (sym same_sigs)
            (subst (λ (l : List Identity). AllVerify digest' l sigs) (sym same_ids)
              (subst (λ (x : Bytes). AllVerify x ids sigs) e h)))

    -- EvolveFrom on a path whose last version is not the greatest uint64, MakeEvolveRequest by
    -- Ed25519 signers whose signatures verify and that the "_evolve" expression of the last darc
    -- of the path admits, and MsgToDarc of the request and the bytes, which decode to the copy
    -- that ToProto encodes: the darc that comes back has the ID of the evolved one, and
    -- verifyOneEvolution accepts it after the last darc of the path.
    pub evolution-accepted :
        (d₀ e : Darc) (p : DarcPath) (d : Darc) (signers : List Signer) (r : Request) (buf : Bytes)
        (on_darc : List Bytes → Bytes → Result Bool)
        → evolve_from d₀ (older e p) ≡ done d
        → (fields_of (last_of e p)).version + 1 < 2 ^ 64
        → All (SignsFor O) signers
        → make_evolve_request O d signers ≡ ok (r, buf)
        → O.decode buf ≡ ok (copy d)
        → eval_expr_by g on_darc
            (get_evolution_expr (fields_of (last_of e p)).rules)
            (get_identity_strings r)
          ≡ ok tt
        → (d' : Darc) × (msg_to_darc O r buf (older e p) ≡ ok d')
          × (get_id d' ≡ get_id d)
          × (verify_one_evolution g on_darc d' (last_of e p) ≡ ok tt)
    unfolding get_identity_strings init_request eval_expr_with_sigs
    evolution-accepted d₀ e p d signers r buf on_darc made small keys requested decoded permitted =
        let (version, base, digested) = evolved d₀ e p d made small in
        let (ids, sigs, is_request, all, lengths) = made_request d signers r buf keys requested in
        let (out, returned_it, same_ids, same_sigs) =
          returned_darc d (older e p) buf ids sigs decoded lengths digested in
        (
          signed_copy d out (older e p),
          subst
              (λ (x : Request).
                msg_to_darc O x buf (older e p) ≡ ok (signed_copy d out (older e p)))
              (sym is_request) returned_it,
          get_id-signed (fields_of (copy d)) (older e p) no_darcs out ∙ fields_only d,
          (verify_one_evolution-IsEvolution g on_darc _ (last_of e p)).1 (record {
            base_set = base-copy d;
            same_base = get_base_id-signed d out (older e p) ∙ ap id_bytes base;
            next_version = version-copy d ∙ version;
            permitted = permitted_by on_darc _ out ids same_ids (
                subst
                  (λ (x : Request).
                    eval_expr_by g on_darc (get_evolution_expr (fields_of (last_of e p)).rules)
                      (get_identity_strings x)
                    ≡ ok tt)
                  is_request permitted);
            signed =
                signed_by out ids sigs same_ids same_sigs
                  (sym (same_digest d (older e p) out ids same_ids)) all;
          }),
        )
