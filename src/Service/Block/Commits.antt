-- ===== src/Service/Block/Commits.antt =====
-- What the header of a block that createNewBlock stored says.
use student_18_byzcoin.Bytes.{Bytes}
use student_18_byzcoin.Collection.State.{Collection}
use student_18_byzcoin.Common.{
  ◌==◌, no_valid_transaction, ok, bind-ok, guarded-ok, ok-injective, length, not_empty, ℕ, ◌≡◌,
  refl, ap, subst, ◌≢◌, Option, List, [],
}
use student_18_byzcoin.Darc.Identity.{Keys}
use student_18_byzcoin.Darc.Signer.{Outside}
use student_18_byzcoin.Expression.{Grammar}
use student_18_byzcoin.Hash.{Hashing}
use student_18_byzcoin.Service.Block.{DataHeader, Chain, header_of, store_sorted, create_new_block}
use student_18_byzcoin.Service.Changes.{Contract, create_state_changes, verify_and_filter_txs}
use student_18_byzcoin.Service.Changes.Filter.{Filtered, verify_and_filter_txs-Filtered}
use student_18_byzcoin.Service.Changes.Replay.{Subsequence, create_state_changes-replay}
use student_18_byzcoin.Service.Database.{StateChange}
use student_18_byzcoin.Service.Order.{
  ClientTransaction, Network, client_transactions_hash, sort_transactions,
}

module _ ⦃H : Hashing⦄ (S : Chain) ⦃K : Keys⦄ (g : Grammar) (O : Outside) (N : Network)
    (contracts : Bytes → Option Contract) where
  -- the header is of some of the transactions, which alone give its root
  abbrev pub CommitsTo : Collection → List ClientTransaction → DataHeader → Type 0
  CommitsTo coll sorted h =
      (oks : List ClientTransaction) × (states : List StateChange) × Subsequence oks sorted
      × (h.client_transaction_hash ≡ client_transactions_hash oks)
      × (create_state_changes contracts coll oks ≡ ok (h.collection_root, oks, states))

  store_sorted-CommitsTo :
      (now : ℕ) (coll : Collection) (cts : List ClientTransaction) (h : DataHeader) (reply : Bytes)
      → store_sorted S g O N contracts now coll cts ≡ ok (h, reply)
      → (sorted : List ClientTransaction) × (sort_transactions N cts ≡ ok sorted)
        × CommitsTo coll sorted h
  unfolding store_sorted
  store_sorted-CommitsTo now coll cts h reply e =
      let (sorted, in_order, e1) = bind-ok (sort_transactions N cts) _ e in
      let ((root, oks, changes), made, e2) =
        bind-ok (create_state_changes contracts coll sorted) _ e1 in
      let (header_bytes, marshalled, e3) =
        bind-ok (S.marshal_header (header_of S now (root, oks, changes))) _ e2 in
      let (answered, stored, e4) = bind-ok (S.store_block header_bytes) _ e3 in
      let is : header_of S now (root, oks, changes) ≡ h =
        ap (λ (x : DataHeader × Bytes). x.0) (ok-injective e4) in
      let (sub, (again, replayed)) =
        create_state_changes-replay contracts coll sorted oks root changes made in
      (sorted, in_order, subst (CommitsTo coll sorted) is (oks, again, sub, refl, replayed))

  -- A block that createNewBlock stored for a skipchain: the transactions that it was given went
  -- through verifyAndFilterTxs and sortTransactions, its header has the hash of some of the
  -- sorted ones, in their order, and createStateChanges of these alone keeps them all and gives
  -- the root of the header.
  pub create_new_block-CommitsTo :
      (now : ℕ) (coll : Collection) (cts : List ClientTransaction) (h : DataHeader) (reply : Bytes)
      → create_new_block S g O N contracts now coll cts ≡ ok (h, reply)
      → (valid : List ClientTransaction) × (sorted : List ClientTransaction) × Filtered g O coll cts
          valid
        × (valid ≢ [])
        × (sort_transactions N valid ≡ ok sorted)
        × CommitsTo coll sorted h
  unfolding create_new_block
  create_new_block-CommitsTo now coll cts h reply e =
      let (t, at_latest, e1) = bind-ok S.latest _ e in
      let (valid, filtered, e2) = bind-ok (verify_and_filter_txs g O coll cts) _ e1 in
      let (some_left, e3) = guarded-ok (length valid == 0) no_valid_transaction _ e2 in
      let (sorted, in_order, commits) = store_sorted-CommitsTo now coll valid h reply e3 in
      (
        valid,
        sorted,
        verify_and_filter_txs-Filtered g O coll cts valid filtered,
        not_empty valid some_left,
        in_order,
        commits,
      )
