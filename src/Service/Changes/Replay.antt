-- ===== src/Service/Changes/Replay.antt =====
-- The transactions that createStateChanges keeps give the same collection without the others.
use mathlib.Core.List.{append-nil, append_assoc}
use mathlib.Core.Path.{ap₂}
use student_18_byzcoin.Bytes.{Bytes}
use student_18_byzcoin.Collection.State.{Collection, get_root, clone}
use student_18_byzcoin.Common.{
  Result, panic, err, ok, bind-ok, ok-bind, ok-injective, Outcome, done, fail, crash, ◌≡◌, refl,
  sym, ap, ◌∙◌, subst, ◌⊎◌, inl, inr, Option, none, some, List, [], ◌∷◌, ◌++◌,
}
use student_18_byzcoin.Hash.{Hashing}
use student_18_byzcoin.Service.Changes.{
  Contract, Ran, kept, dropped, crashed, Progress, after_transaction, store_changes,
  run_instruction, run_instructions, run_transaction, run_transactions, create_state_changes,
}
use student_18_byzcoin.Service.Database.{StateChange}
use student_18_byzcoin.Service.Instruction.{Instruction, get_contract_state}
use student_18_byzcoin.Service.Order.{ClientTransaction}

-- some elements of a list, in its order
pub data Subsequence {A : Type 0} : List A → List A → Type 0 where
  empty : Subsequence [] []
  take_one : (a : A) {l k : List A} → Subsequence l k → Subsequence (a ∷ l) (a ∷ k)
  skip_one : (a : A) {l k : List A} → Subsequence l k → Subsequence l (a ∷ k)

module _ ⦃H : Hashing⦄ (contracts : Bytes → Option Contract) where
  -- two runs that end alike but for the states
  abbrev Alike : Ran → Ran → Type 0
  Alike (kept c s) (kept d t) = c ≡ d
  Alike (kept c s) r = ⊥
  Alike (dropped s) (dropped t) = Unit
  Alike (dropped s) r = ⊥
  Alike crashed crashed = Unit
  Alike crashed r = ⊥

  stored_Alike :
      (o : Outcome Collection) (go : Collection → List StateChange → Ran)
      (s t scs : List StateChange)
      → ((d : Collection) → Alike (go d (s ++ scs)) (go d (t ++ scs)))
      → Alike
          (elim o [ crash ↦ crashed | fail e d ↦ dropped s | done d ↦ go d (s ++ scs) ])
          (elim o [ crash ↦ crashed | fail e d ↦ dropped t | done d ↦ go d (t ++ scs) ])
  stored_Alike crash go s t scs h = tt
  stored_Alike (fail e d) go s t scs h = tt
  stored_Alike (done d) go s t scs h = h d

  module _ (go : Collection → List StateChange → Ran)
      (alike : (d : Collection) (s t : List StateChange) → Alike (go d s) (go d t))
      (s t : List StateChange) where
    -- the rest of a turn, after the contract
    abbrev after_contract : Collection × Result (List StateChange) → List StateChange → Ran
    after_contract (d, r) states = elim r [
      | panic ↦ crashed
      | err e ↦ dropped states
      | ok scs ↦ elim (store_changes d scs) [
        | crash ↦ crashed
        | fail e d' ↦ dropped states
        | done d' ↦ go d' (states ++ scs)
      ]
    ]

    after_contract-Alike :
        (x : Collection × Result (List StateChange))
        → Alike (after_contract x s) (after_contract x t)
    after_contract-Alike (d, panic) = tt
    after_contract-Alike (d, err e) = tt
    after_contract-Alike (d, ok scs) =
        stored_Alike (store_changes d scs) go s t scs (λ d'. alike d' (s ++ scs) (t ++ scs))

    run_instruction-Alike :
        (i : Instruction) (c : Collection)
        → Alike (run_instruction contracts go i c s) (run_instruction contracts go i c t)
    unfolding run_instruction
    run_instruction-Alike i c = by_kind (get_contract_state i c)
      where
        by_contract :
            (o : Option Contract)
            → Alike
                (elim o [ none ↦ dropped s | some f ↦ after_contract (f c i) s ])
                (elim o [ none ↦ dropped t | some f ↦ after_contract (f c i) t ])
        by_contract none = tt
        by_contract (some f) = after_contract-Alike (f c i)

        by_kind :
            (r : Result (Bytes × Bytes))
            → Alike
                (elim r [
                  | panic ↦ crashed
                  | err e ↦ dropped s
                  | ok (kind, state) ↦ elim (contracts kind) [
                    | none ↦ dropped s
                    | some f ↦ after_contract (f c i) s
                  ]
                ])
                (elim r [
                  | panic ↦ crashed
                  | err e ↦ dropped t
                  | ok (kind, state) ↦ elim (contracts kind) [
                    | none ↦ dropped t
                    | some f ↦ after_contract (f c i) t
                  ]
                ])
        by_kind panic = tt
        by_kind (err e) = tt
        by_kind (ok (kind, state)) = by_contract (contracts kind)

  run_instructions-Alike :
      (is : List Instruction) (c : Collection) (s t : List StateChange)
      → Alike (run_instructions contracts is c s) (run_instructions contracts is c t)
  unfolding run_instructions
  run_instructions-Alike [] c s t = refl
  run_instructions-Alike (i ∷ is) c s t =
      run_instruction-Alike (run_instructions contracts is) (run_instructions-Alike is) s t i c

  -- A turn of the loop over the transactions drops the transaction, or keeps it, and then so does a
  -- turn from any progress with the same collection, and ends in the same collection.
  abbrev Turn : ClientTransaction → Progress → Progress → Type 0
  Turn t p q =
      ((q.current ≡ p.current) × (q.accepted ≡ p.accepted))
      ⊎ ((q.accepted ≡ p.accepted ++ (t ∷ []))
          × ((p' : Progress)
              → p'.current ≡ p.current
              → (q' : Progress) × (run_transaction contracts t p' ≡ ok q')
                × (q'.current ≡ q.current)
                × (q'.accepted ≡ p'.accepted ++ (t ∷ []))))

  replay_kept :
      (t : ClientTransaction) (p' : Progress) (c d : Collection) (r : Ran) (s : List StateChange)
      → clone p'.current ≡ ok c
      → run_instructions contracts t c p'.states ≡ r
      → Alike (kept d s) r
      → (q' : Progress) × (run_transaction contracts t p' ≡ ok q')
        × (q'.current ≡ d)
        × (q'.accepted ≡ p'.accepted ++ (t ∷ []))
  unfolding run_transaction
  replay_kept t p' c d (kept d' s') s copied e h =
      (_, ok-bind (clone p'.current) _ copied (ap (after_transaction t p') e), sym h, refl)
  replay_kept t p' c d (dropped s') s copied e h = absurd h
  replay_kept t p' c d crashed s copied e h = absurd h

  run_transaction-Turn :
      (t : ClientTransaction) (p q : Progress) → run_transaction contracts t p ≡ ok q → Turn t p q
  unfolding run_transaction
  run_transaction-Turn t p q e =
      let (c, copied, rest) = bind-ok (clone p.current) _ e in
      go c copied (run_instructions contracts t c p.states) refl rest
    where
      go :
          (c : Collection)
          → clone p.current ≡ ok c
          → (r : Ran) → run_instructions contracts t c p.states ≡ r
          → after_transaction t p r ≡ ok q
          → Turn t p q
      go c copied (kept d s) ran x = inr (
        sym (ap (λ (q : Progress). q.accepted) (ok-injective x)),
        λ p' same_current.
            let (q', made, at, acc) =
              replay_kept t p' c d (run_instructions contracts t c p'.states) s
                (ap clone same_current ∙ copied) refl
                (subst (λ (r : Ran). Alike r (run_instructions contracts t c p'.states)) ran
                  (run_instructions-Alike t c p.states p'.states)) in
            (q', made, at ∙ ap (λ (q : Progress). q.current) (ok-injective x), acc),
      )
      go c copied (dropped s) ran x = inl (
        sym (ap (λ (q : Progress). q.current) (ok-injective x)),
        sym (ap (λ (q : Progress). q.accepted) (ok-injective x)),
      )
      go c copied crashed ran x = cc

  -- what a run of the loop says of the transactions that it kept
  abbrev Replayed : List ClientTransaction → Progress → Progress → Type 0
  Replayed ts p q =
      (oks : List ClientTransaction) × (q.accepted ≡ p.accepted ++ oks)
      × Subsequence oks ts
      × ((p' : Progress)
          → p'.current ≡ p.current
          → (q' : Progress) × (run_transactions contracts oks p' ≡ ok q')
            × (q'.current ≡ q.current)
            × (q'.accepted ≡ p'.accepted ++ oks))

  run_transactions-Replayed :
      (ts : List ClientTransaction) (p q : Progress)
      → run_transactions contracts ts p ≡ ok q
      → Replayed ts p q
  unfolding run_transactions
  run_transactions-Replayed [] p q e =
      let same_q = ok-injective e in
      (
        [],
        sym (ap (λ (x : Progress). x.accepted) same_q) ∙ sym (append-nil p.accepted),
        empty,
        λ p' at.
            (p', refl, at ∙ ap (λ (x : Progress). x.current) same_q, sym (append-nil p'.accepted)),
      )
  run_transactions-Replayed (t ∷ ts) p q e =
      let (p1, first, rest) = bind-ok (run_transaction contracts t p) _ e in
      step p1 (run_transaction-Turn t p p1 first) (run_transactions-Replayed ts p1 q rest)
    where
      step : (p1 : Progress) → Turn t p p1 → Replayed ts p1 q → Replayed (t ∷ ts) p q
      step p1 (inl (at, acc)) (oks, extended, sub, replays) = (
        oks,
        extended ∙ ap (λ (l : List ClientTransaction). l ++ oks) acc,
        skip_one t sub,
        λ p' same_at. replays p' (same_at ∙ sym at),
      )
      step p1 (inr (acc, again)) (oks, extended, sub, replays) = (
        t ∷ oks,
        extended
            ∙ ap (λ (l : List ClientTransaction). l ++ oks) acc
            ∙ append_assoc p.accepted (t ∷ []) oks,
        take_one t sub,
        λ p' same_at.
            let (p2, one, at2, acc2) = again p' same_at in
            let (q', made, at, acc') = replays p2 at2 in
            (
              q',
              ok-bind (run_transaction contracts t p') _ one made,
              at,
              acc'
                  ∙ ap (λ (l : List ClientTransaction). l ++ oks) acc2
                  ∙ append_assoc p'.accepted (t ∷ []) oks,
            ),
      )

  -- The transactions that createStateChanges keeps are some of the given ones, in their order, and a run
  -- on these alone keeps them all and ends in the same root: one that was dropped leaves no trace in
  -- the collection.
  pub create_state_changes-replay :
      (c : Collection) (cts oks : List ClientTransaction) (root : Bytes) (states : List StateChange)
      → create_state_changes contracts c cts ≡ ok (root, oks, states)
      → Subsequence oks cts
        × ((states' : List StateChange) × (create_state_changes contracts c oks
              ≡ ok (root, oks, states')))
  unfolding create_state_changes
  create_state_changes-replay c cts oks root states e =
      let (first, copied, e1) = bind-ok (clone c) _ e in
      let start : Progress = record { current = first; accepted = []; states = [] } in
      let (p, ran, e2) = bind-ok (run_transactions contracts cts start) _ e1 in
      let result = ok-injective e2 in
      let (kept_ones, accepted, sub, replays) = run_transactions-Replayed cts start p ran in
      let are : kept_ones ≡ oks =
        sym accepted ∙ ap (λ (x : Bytes × List ClientTransaction × List StateChange). x.1) result in
      let (p', again, at, acc) = replays start refl in
      (
        subst (λ (l : List ClientTransaction). Subsequence l cts) are sub,
        (
          p'.states,
          ok-bind (clone c) _ copied (
              ok-bind (run_transactions contracts oks start) _
                (subst (λ (l : List ClientTransaction). run_transactions contracts l start ≡ ok p')
                  are again)
                (ap₂ (λ (x : Bytes) (y : List ClientTransaction). ok (x, y, p'.states))
                  (ap get_root at
                    ∙ ap (λ (x : Bytes × List ClientTransaction × List StateChange). x.0) result)
                  (acc ∙ are))),
        ),
      )
