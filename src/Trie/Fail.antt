-- ===== src/Trie/Fail.antt =====
-- An insertion or a change that fails: why, and that it changed nothing.
use student_18_byzcoin.Bytes.{Bytes, equal, bit}
use student_18_byzcoin.Bytes.Equal.{equal→≡, equal_refl}
use student_18_byzcoin.Common.{
  if◌then◌else◌, Bool-cases, Error, unknown_subtree, key_collision, key_not_found, Result, ok,
  Outcome, done, fail, crash, ℕ, zero, suc, ◌≡◌, refl, sym, ap, ◌∙◌, ◌≢◌, ◌⊎◌, inl, inr, Bool, true,
  false, ◌||◌, Option, none, some, List,
}
use student_18_byzcoin.Hash.{Hashing, sum256}
use student_18_byzcoin.Trie.{
  Trie, hidden, vacant, entry, fork, hidden?, after_left, after_right, enter, insert_at, change_at,
  at_entry, find_at,
}
use student_18_byzcoin.Trie.Find.{view, view-fork}

-- One step of a walk that failed: the side that it took.
pub step-fail :
    (join : Trie → Trie → Trie) (l r : Trie) (o : Option Bool) (ol or : Outcome Trie) {x : Error}
    {t : Trie}
    → ◌≡◌ {A = Outcome Trie}
        (elim o [
          | none ↦ crash
          | some true ↦ after_right join l or
          | some false ↦ after_left join r ol
        ])
        (fail x t)
    → ((r' : Trie) × (o ≡ some true) × (or ≡ fail x r') × (fork l r' ≡ t))
      ⊎ ((l' : Trie) × (o ≡ some false) × (ol ≡ fail x l') × (fork l' r ≡ t))
step-fail join l r none ol or e = cc
step-fail join l r (some true) ol (done r') e = cc
step-fail join l r (some true) ol (fail y r') e = inl (r', refl, cc, cc)
step-fail join l r (some true) ol crash e = cc
step-fail join l r (some false) (done l') or e = cc
step-fail join l r (some false) (fail y l') or e = inr (l', refl, cc, cc)
step-fail join l r (some false) crash or e = cc

module _ ⦃H : Hashing⦄ where
  -- A walk fails in a subtree that is not known, or by what it finds at the end of the path.
  pub record Failed (key : Bytes) (reason : Error) (read : Result (Option (List Bytes)) → Type 0)
      (depth : ℕ) (t t' : Trie) (x : Error) : Type 0 where
    pub same_trie : t' ≡ t
    pub why : (x ≡ unknown_subtree) ⊎ ((x ≡ reason) × read (view key depth t))

  module _ (key : Bytes) (reason : Error) (read : Result (Option (List Bytes)) → Type 0) where
    Failed-right :
        (depth : ℕ) (l r r' t' : Trie) (x : Error)
        → bit (sum256 key) depth ≡ some true
        → fork l r' ≡ t'
        → Failed key reason read (suc depth) r r' x
        → Failed key reason read depth (fork l r) t' x
    Failed-right depth l r r' t' x b w s = record {
      same_trie = sym w ∙ ap (fork l) s.same_trie;
      why = elim s.why [ inl q ↦ inl q | inr (q, u) ↦ inr (q, rw view-fork (rw b u)) ];
    }

    Failed-left :
        (depth : ℕ) (l l' r t' : Trie) (x : Error)
        → bit (sum256 key) depth ≡ some false
        → fork l' r ≡ t'
        → Failed key reason read (suc depth) l l' x
        → Failed key reason read depth (fork l r) t' x
    Failed-left depth l l' r t' x b w s = record {
      same_trie = sym w ∙ ap (λ u. fork u r) s.same_trie;
      why = elim s.why [ inl q ↦ inl q | inr (q, u) ↦ inr (q, rw view-fork (rw b u)) ];
    }

  -- what `Set` and `Remove` find where they report `key_not_found`
  abbrev pub Absent : Result (Option (List Bytes)) → Type 0
  Absent v = v ≡ ok none

  -- what `Add` finds where it reports `key_collision`
  abbrev pub Present : Result (Option (List Bytes)) → Type 0
  Present v = (old : List Bytes) × (v ≡ ok (some old))

  module _ (key : Bytes) (f : List Bytes → Outcome Trie)
      (total : (vs t : _) (x : Error) → f vs ≢ fail x t) (join : ℕ → Trie → Trie → Trie) where
    entry-fail :
        (depth : ℕ) (t t' : Trie) (x : Error)
        → at_entry key f t ≡ fail x t'
        → Failed key key_not_found Absent depth t t' x
    unfolding at_entry view find_at
    entry-fail depth hidden t' x e = absurd (cc)
    entry-fail depth (fork l r) t' x e = absurd (cc)
    entry-fail depth vacant t' x e = record { same_trie = cc; why = inr (cc, refl) }
    entry-fail depth (entry k vs) t' x e = elim (Bool-cases (equal k key)) [
      | inl h ↦ absurd (total vs t' x (rw h at e))
      | inr h ↦ let e1 = rw h at e in record { same_trie = cc; why = inr (cc, rw h refl) }
    ]

    -- A change that fails leaves the trie as it was, and the key is absent unless the walk came to a
    -- subtree that is not known.
    pub change-fail :
        (depth : ℕ) (t t' : Trie) (x : Error)
        → change_at (sum256 key) (at_entry key f) join depth t ≡ fail x t'
        → Failed key key_not_found Absent depth t t' x
    unfolding change_at
    change-fail depth (fork l r) t' x e = elim (Bool-cases (hidden? l || hidden? r)) [
      | inl h ↦ let e1 = rw h at e in record { same_trie = cc; why = inl cc }
      | inr h ↦ elim (step-fail (join depth) l r (bit (sum256 key) depth) _ _ (rw h at e)) [
        | inl (r', b, q, w) ↦
            Failed-right key key_not_found Absent depth l r r' t' x b w
              (change-fail (suc depth) r r' x q)
        | inr (l', b, q, w) ↦
            Failed-left key key_not_found Absent depth l l' r t' x b w
              (change-fail (suc depth) l l' x q)
      ]
    ]
    change-fail depth hidden t' x e = entry-fail depth hidden t' x e
    change-fail depth vacant t' x e = entry-fail depth vacant t' x e
    change-fail depth (entry k vs) t' x e = entry-fail depth (entry k vs) t' x e

  module _ (key : Bytes) (vs : List Bytes) where
    -- once another record has moved below a fork, nothing is in the way
    abbrev pub split_trie : Bool → Bytes → List Bytes → Trie
    split_trie step k0 vs0 = if step then fork vacant (entry k0 vs0) else fork (entry k0 vs0) vacant

    pub enter_total :
        (go : Trie → Outcome Trie) (depth : ℕ) (k0 : Bytes) (vs0 : List Bytes) (x : Error)
        (t' : Trie)
        → equal key k0 ≡ false
        → ((step : Bool) → go (split_trie step k0 vs0) ≢ fail x t')
        → enter key vs go depth (entry k0 vs0) ≢ fail x t'
    unfolding enter
    enter_total go depth k0 vs0 x t' h ih e = by_bit (bit (sum256 k0) depth) (rw h at e)
      where
        by_bit :
            (o : Option Bool)
            → ◌≢◌ {A = Outcome Trie}
                (elim o [
                  | none ↦ crash
                  | some true ↦ go (fork vacant (entry k0 vs0))
                  | some false ↦ go (fork (entry k0 vs0) vacant)
                ])
                (fail x t')
        by_bit none q = cc
        by_bit (some true) q = ih true q
        by_bit (some false) q = ih false q

    pub split_total :
        (fuel depth : ℕ) (k0 : Bytes) (vs0 : List Bytes) (x : Error) (step : Bool) (t' : Trie)
        → equal key k0 ≡ false
        → insert_at key vs fuel depth (split_trie step k0 vs0) ≢ fail x t'
    unfolding insert_at enter
    split_total zero depth k0 vs0 x true t' h e = cc
    split_total zero depth k0 vs0 x false t' h e = cc
    split_total (suc fuel) depth k0 vs0 x true t' h e =
        elim (step-fail fork vacant (entry k0 vs0) (bit (sum256 key) depth)
          (enter key vs (insert_at key vs fuel (suc depth)) (suc depth) vacant)
          (enter key vs (insert_at key vs fuel (suc depth)) (suc depth) (entry k0 vs0)) e) [
            | inl (r', b, q, w) ↦
                enter_total (insert_at key vs fuel (suc depth)) (suc depth) k0 vs0 x r' h
                  (λ step. split_total fuel (suc depth) k0 vs0 x step r' h) q
            | inr (l', b, q, w) ↦ cc
          ]
    split_total (suc fuel) depth k0 vs0 x false t' h e =
        elim (step-fail fork (entry k0 vs0) vacant (bit (sum256 key) depth)
          (enter key vs (insert_at key vs fuel (suc depth)) (suc depth) (entry k0 vs0))
          (enter key vs (insert_at key vs fuel (suc depth)) (suc depth) vacant) e) [
            | inl (r', b, q, w) ↦ cc
            | inr (l', b, q, w) ↦
                enter_total (insert_at key vs fuel (suc depth)) (suc depth) k0 vs0 x l' h
                  (λ step. split_total fuel (suc depth) k0 vs0 x step l' h) q
          ]

    view-taken_by :
        (k0 : Bytes) (vs0 : List Bytes) (depth : ℕ)
        → equal key k0 ≡ true
        → view key depth (entry k0 vs0) ≡ ok (some vs0)
    unfolding view find_at
    view-taken_by k0 vs0 depth h =
        let q : equal k0 key ≡ true = rw (equal→≡ key k0 h) (equal_refl k0) in rw q refl

    enter-fail :
        (fuel depth : ℕ) (t t' : Trie) (x : Error)
        → ((u u' : Trie)
            → insert_at key vs fuel depth u ≡ fail x u'
            → Failed key key_collision Present depth u u' x)
        → enter key vs (insert_at key vs fuel depth) depth t ≡ fail x t'
        → Failed key key_collision Present depth t t' x
    enter-fail fuel depth hidden t' x ih e = unfold enter in absurd (cc)
    enter-fail fuel depth vacant t' x ih e = unfold enter in absurd (cc)
    enter-fail fuel depth (fork l r) t' x ih e = ih (fork l r) t' (unfold enter in e)
    enter-fail fuel depth (entry k0 vs0) t' x ih e = elim (Bool-cases (equal key k0)) [
      | inr h ↦ absurd (
          enter_total (insert_at key vs fuel depth) depth k0 vs0 x t' h
            (λ step. split_total fuel depth k0 vs0 x step t' h) e)
      | inl h ↦
          let e1 : fail key_collision (entry k0 vs0) ≡ fail x t' = unfold enter in rw h at e in
          record { same_trie = cc; why = inr (cc, (vs0, view-taken_by k0 vs0 depth h)) }
    ]

    -- An insertion that fails leaves the trie as it was, and the key is there unless the walk came to
    -- a subtree that is not known.
    pub insert-fail :
        (fuel depth : ℕ) (t t' : Trie) (x : Error)
        → insert_at key vs fuel depth t ≡ fail x t'
        → Failed key key_collision Present depth t t' x
    unfolding insert_at
    insert-fail zero depth t t' x e = absurd (cc)
    insert-fail (suc fuel) depth hidden t' x e = absurd (cc)
    insert-fail (suc fuel) depth vacant t' x e = absurd (cc)
    insert-fail (suc fuel) depth (entry k0 vs0) t' x e = absurd (cc)
    insert-fail (suc fuel) depth (fork l r) t' x e = elim (Bool-cases (hidden? l || hidden? r)) [
      | inl h ↦ let e1 = rw h at e in record { same_trie = cc; why = inl cc }
      | inr h ↦ elim (step-fail fork l r (bit (sum256 key) depth) _ _ (rw h at e)) [
        | inl (r', b, q, w) ↦
            Failed-right key key_collision Present depth l r r' t' x b w
              (enter-fail fuel (suc depth) r r' x (λ u u'. insert-fail fuel (suc depth) u u' x) q)
        | inr (l', b, q, w) ↦
            Failed-left key key_collision Present depth l l' r t' x b w
              (enter-fail fuel (suc depth) l l' x (λ u u'. insert-fail fuel (suc depth) u u' x) q)
      ]
    ]
