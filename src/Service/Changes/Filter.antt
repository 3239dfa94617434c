-- ===== src/Service/Changes/Filter.antt =====
-- Which transactions verifyAndFilterTxs keeps.
use student_18_byzcoin.Bytes.{Bytes, equal}
use student_18_byzcoin.Bytes.Equal.{equal→≡, equal_refl}
use student_18_byzcoin.Collection.State.{Collection}
use student_18_byzcoin.Common.{
  if◌then◌else◌, not-false, wrong_contract, Result, panic, err, ok, ◌>>=◌, bind-ok, ok-bind,
  guarded-ok, ok-injective, All, ◌≡◌, refl, sym, ap, ◌∙◌, subst, ◌↔◌, not, List, [], ◌∷◌,
}
use student_18_byzcoin.Darc.Document.{Darc}
use student_18_byzcoin.Darc.Identity.{Keys}
use student_18_byzcoin.Darc.Signer.{Outside, new_darc_from_proto}
use student_18_byzcoin.Darc.Values.{no_callback}
use student_18_byzcoin.Darc.Verify.{request_verify}
use student_18_byzcoin.Darc.Verify.Accepts.{IsAcceptable, request_verify_with_cb-IsAcceptable}
use student_18_byzcoin.Expression.{Grammar}
use student_18_byzcoin.Hash.{Hashing}
use student_18_byzcoin.Service.Changes.{
  to_object_id, keep_if, load_latest_darc, verify_instruction, verify_client_tx,
  verify_and_filter_txs,
}
use student_18_byzcoin.Service.Contract.{contract_darc_id}
use student_18_byzcoin.Service.Database.{get_value_contract}
use student_18_byzcoin.Service.Instruction.{slice, Instruction, to_darc_request}
use student_18_byzcoin.Service.Order.{ClientTransaction}

module _ ⦃K : Keys⦄ ⦃H : Hashing⦄ (g : Grammar) (O : Outside) (c : Collection) where
  -- the collection has a darc under the instruction's darc ID, and it accepts the request
  abbrev pub Allowed : Instruction → Type 0
  Allowed i =
      (buf : Bytes) × (d : Darc) × (get_value_contract c (slice (to_object_id i.object_id.darc_id))
        ≡ ok (buf, contract_darc_id))
      × (O.decode buf ≡ ok d)
      × IsAcceptable g 1 (to_darc_request i) d no_callback

  -- the transactions with every instruction allowed are kept, and no others, in their order
  pub data Filtered : List ClientTransaction → List ClientTransaction → Type 0 where
    done_all : Filtered [] []
    keeps :
        (t : ClientTransaction) {ts ks : List ClientTransaction}
        → All Allowed t
        → Filtered ts ks
        → Filtered (t ∷ ts) (t ∷ ks)
    refused :
        (t : ClientTransaction) {ts ks : List ClientTransaction}
        → ¬ All Allowed t
        → Filtered ts ks
        → Filtered (t ∷ ts) ks

  load_latest_darc-ok :
      (id : Bytes) (d : Darc)
      → (load_latest_darc g O c id ≡ ok d) ↔ (
          (buf : Bytes) × (get_value_contract c (slice (to_object_id id))
            ≡ ok (buf, contract_darc_id))
          × (O.decode buf ≡ ok d))
  unfolding load_latest_darc new_darc_from_proto
  load_latest_darc-ok id d = (
    there (get_value_contract c (slice (to_object_id id))),
    λ (buf, read, decoded).
        ok-bind (get_value_contract c (slice (to_object_id id))) _ read
          (rw (equal_refl contract_darc_id) decoded),
  )
    where
      there :
          (r : Result (Bytes × Bytes))
          → (r >>= λ (value, contract).
              if not (equal contract contract_darc_id) then err wrong_contract else O.decode value)
            ≡ ok d
          → (buf : Bytes) × (r ≡ ok (buf, contract_darc_id)) × (O.decode buf ≡ ok d)
      there panic e = cc
      there (err x) e = cc
      there (ok (value, contract)) e =
          let (g1, e1) = guarded-ok (not (equal contract contract_darc_id)) wrong_contract _ e in
          (
            value,
            ap (λ (k : Bytes). ok (value, k)) (equal→≡ contract contract_darc_id (not-false _ g1)),
            e1,
          )

  verify_instruction-Allowed : (i : Instruction) → (verify_instruction g O c i ≡ ok tt) ↔ Allowed i
  unfolding verify_instruction request_verify
  verify_instruction-Allowed i = (
    λ e.
        let (d, loaded, accepted) = bind-ok (load_latest_darc g O c i.object_id.darc_id) _ e in
        let (buf, read, decoded) = (load_latest_darc-ok i.object_id.darc_id d).0 loaded in
        (
          buf,
          d,
          read,
          decoded,
          (request_verify_with_cb-IsAcceptable g 1 (to_darc_request i) d no_callback).0 accepted,
        ),
    λ (buf, d, read, decoded, acceptable).
        ok-bind (load_latest_darc g O c i.object_id.darc_id) _
          ((load_latest_darc-ok i.object_id.darc_id d).1 (buf, read, decoded))
          ((request_verify_with_cb-IsAcceptable g 1 (to_darc_request i) d no_callback).1
            acceptable),
  )

  verify_client_tx-All :
      (t : ClientTransaction) → (verify_client_tx g O c t ≡ ok tt) ↔ All Allowed t
  unfolding verify_client_tx
  verify_client_tx-All [] = (λ e. tt, λ h. refl)
  verify_client_tx-All (i ∷ is) =
      let (there, back) = verify_instruction-Allowed i in
      let (ih, hi) = verify_client_tx-All is in
      (
        λ e.
            let (t, first, rest) = bind-ok (verify_instruction g O c i) _ e in
            (there first, ih rest),
        λ h. ok-bind (verify_instruction g O c i) _ (back h.0) (hi h.1),
      )

  -- verifyAndFilterTxs, where it does not panic, keeps the transactions whose every instruction is
  -- allowed by the darc that the collection has under its darc ID, and no others, in their order.
  pub verify_and_filter_txs-Filtered :
      (ts ks : List ClientTransaction) → verify_and_filter_txs g O c ts ≡ ok ks → Filtered ts ks
  unfolding verify_and_filter_txs
  verify_and_filter_txs-Filtered [] ks e = subst (Filtered []) (ok-injective e) done_all
  verify_and_filter_txs-Filtered (t ∷ ts) ks e =
      go (verify_client_tx g O c t) refl e (verify_and_filter_txs-Filtered ts)
    where
      go :
          (r : Result (Unit {0}))
          → verify_client_tx g O c t ≡ r
          → keep_if r t (verify_and_filter_txs g O c ts) ≡ ok ks
          → ((ks : List ClientTransaction)
              → verify_and_filter_txs g O c ts ≡ ok ks
              → Filtered ts ks)
          → Filtered (t ∷ ts) ks
      go panic q e ih = cc
      go (err x) q e ih = refused t (λ all. cc (sym q ∙ (verify_client_tx-All t).1 all)) (ih ks e)
      go (ok u) q e ih =
          let (rest, filtered, made) = bind-ok (verify_and_filter_txs g O c ts) _ e in
          subst (Filtered (t ∷ ts)) (ok-injective made)
            (keeps t ((verify_client_tx-All t).0 q) (ih rest filtered))
