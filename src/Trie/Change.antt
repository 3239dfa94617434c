-- ===== src/Trie/Change.antt =====
-- Changes at the end of a path: what the keys read afterwards.
use student_18_byzcoin.Bytes.{Bytes, equal, bit}
use student_18_byzcoin.Bytes.Equal.{equal→≡, equal_refl}
use student_18_byzcoin.Common.{
  if◌then◌else◌, Bool-cases, ok, Outcome, done, ℕ, suc, ◌≡◌, refl, sym, ap, ◌∙◌, subst, ◌⊎◌, inl,
  inr, true, false, ◌||◌, none, some, List, arith,
}
use student_18_byzcoin.Hash.{Hashing, sum256}
use student_18_byzcoin.Trie.{
  Trie, hidden, vacant, entry, fork, hidden?, change_at, at_entry, AllKeys, Placed, find_at,
}
use student_18_byzcoin.Trie.Find.{view_of, bit_there, view, view-fork}
use student_18_byzcoin.Trie.Join.{IsJoin}
use student_18_byzcoin.Trie.Step.{step-done}

module _ ⦃H : Hashing⦄ where
  -- what a change leaves in the place of the record
  abbrev pub Leaves : Bytes → (List Bytes → Outcome Trie) → Type 0
  Leaves key f =
      (vs : List Bytes) (u : Trie)
      → f vs ≡ done u
      → (u ≡ vacant) ⊎ ((ys : List Bytes) × (u ≡ entry key ys))

  -- A change that ended well: the record was there, `left` is in its place, and every other key reads
  -- as before.
  pub record Changed (key : Bytes) (f : List Bytes → Outcome Trie) (depth : ℕ) (t t' : Trie)
      : Type 0 where
    pub old : List Bytes
    pub left : Trie
    pub before : view key depth t ≡ ok (some old)
    pub made : f old ≡ done left
    pub after :
        (k : Bytes)
        → view k depth t' ≡ (if equal key k then view_of key (ok left) else view k depth t)

  module _ (key : Bytes) (f : List Bytes → Outcome Trie) (leaves : Leaves key f)
      (join : ℕ → Trie → Trie → Trie) (joins : IsJoin join) where
    abbrev change : ℕ → Trie → Outcome Trie
    change = change_at (sum256 key) (at_entry key f) join

    AllKeys-at :
        (P : Bytes → Type 0) (t t' : Trie) → AllKeys P t → at_entry key f t ≡ done t' → AllKeys P t'
    unfolding at_entry
    AllKeys-at P hidden t' a e = cc
    AllKeys-at P vacant t' a e = cc
    AllKeys-at P (fork l r) t' a e = cc
    AllKeys-at P (entry k vs) t' a e = elim (Bool-cases (equal k key)) [
      | inr h ↦ cc (rw h at e)
      | inl h ↦ elim (leaves vs t' (rw h at e)) [
        | inl q ↦ subst (AllKeys P) (sym q) tt
        | inr (ys, q) ↦ subst (AllKeys P) (sym q) (subst P (equal→≡ k key h) a)
      ]
    ]

    AllKeys-change :
        (P : Bytes → Type 0) (depth : ℕ) (t t' : Trie)
        → AllKeys P t
        → change depth t ≡ done t'
        → AllKeys P t'
    unfolding change_at
    AllKeys-change P depth (fork l r) t' a e = elim (Bool-cases (hidden? l || hidden? r)) [
      | inl h ↦ cc (rw h at e)
      | inr h ↦ elim (step-done (join depth) l r (bit (sum256 key) depth) _ _ (rw h at e)) [
        | inl (r', b, q, w) ↦
            subst (AllKeys P) w
              (joins.keys P depth l r' (a.0, AllKeys-change P (suc depth) r r' a.1 q))
        | inr (l', b, q, w) ↦
            subst (AllKeys P) w
              (joins.keys P depth l' r (AllKeys-change P (suc depth) l l' a.0 q, a.1))
      ]
    ]
    AllKeys-change P depth t t' a e = AllKeys-at P t t' a e

    Placed-at : (depth : ℕ) (t t' : Trie) → at_entry key f t ≡ done t' → Placed depth t'
    unfolding at_entry
    Placed-at depth hidden t' e = cc
    Placed-at depth vacant t' e = cc
    Placed-at depth (fork l r) t' e = cc
    Placed-at depth (entry k vs) t' e = elim (Bool-cases (equal k key)) [
      | inr h ↦ cc (rw h at e)
      | inl h ↦ elim (leaves vs t' (rw h at e)) [
        | inl q ↦ subst (Placed depth) (sym q) tt
        | inr (ys, q) ↦ subst (Placed depth) (sym q) tt
      ]
    ]

    pub change-Placed :
        (depth : ℕ) (t t' : Trie) → Placed depth t → change depth t ≡ done t' → Placed depth t'
    unfolding change_at
    change-Placed depth (fork l r) t' p e = elim (Bool-cases (hidden? l || hidden? r)) [
      | inl h ↦ cc (rw h at e)
      | inr h ↦ elim (step-done (join depth) l r (bit (sum256 key) depth) _ _ (rw h at e)) [
        | inl (r', b, q, w) ↦ subst (Placed depth) w (
            joins.placed depth l r' (
              p.0,
              AllKeys-change _ (suc depth) r r' p.1 q,
              p.2,
              change-Placed (suc depth) r r' p.3 q,
            ))
        | inr (l', b, q, w) ↦ subst (Placed depth) w (
            joins.placed depth l' r (
              AllKeys-change _ (suc depth) l l' p.0 q,
              p.1,
              change-Placed (suc depth) l l' p.2 q,
              p.3,
            ))
      ]
    ]
    change-Placed depth t t' p e = Placed-at depth t t' e

    left-reads :
        (vs : List Bytes) (u : Trie) (k : Bytes) (depth : ℕ)
        → (u ≡ vacant) ⊎ ((ys : List Bytes) × (u ≡ entry key ys))
        → view k depth u ≡ (if equal key k then view_of key (ok u) else ok none)
    unfolding view find_at
    left-reads vs u k depth (inl q) = rw q (ground arith)
    left-reads vs u k depth (inr (ys, q)) = rw q (ground (arith, equal_refl key))

    absent :
        (k : Bytes) (vs : List Bytes) (depth : ℕ)
        → equal key k ≡ false
        → view k depth (entry key vs) ≡ ok none
    unfolding view find_at
    absent k vs depth h = rw h refl

    present : (vs : List Bytes) (depth : ℕ) → view key depth (entry key vs) ≡ ok (some vs)
    unfolding view find_at
    present vs depth = rw (equal_refl key) refl

    Changed-entry :
        (depth : ℕ) (k0 : Bytes) (vs : List Bytes) (u : Trie)
        → k0 ≡ key
        → f vs ≡ done u
        → Changed key f depth (entry k0 vs) u
    Changed-entry depth k0 vs u h e = record {
      old = vs;
      left = u;
      before = rw h (present vs depth);
      made = e;
      after = λ k. left-reads vs u k depth (leaves vs u e) ∙ (elim (Bool-cases (equal key k)) [
        | inl q ↦ rw q refl
        | inr q ↦ rw (q, h) (sym (absent k vs depth q))
      ]);
    }

    Changed-at : (depth : ℕ) (t t' : Trie) → at_entry key f t ≡ done t' → Changed key f depth t t'
    unfolding at_entry
    Changed-at depth hidden t' e = absurd (cc)
    Changed-at depth vacant t' e = absurd (cc)
    Changed-at depth (fork l r) t' e = absurd (cc)
    Changed-at depth (entry k0 vs) t' e = elim (Bool-cases (equal k0 key)) [
      | inr h ↦ absurd (cc (rw h at e))
      | inl h ↦ Changed-entry depth k0 vs t' (equal→≡ k0 key h) (rw h at e)
    ]

    -- a change below one side of a fork, seen from the fork
    Changed-right :
        (depth : ℕ) (l r r' t' : Trie)
        → Placed depth (fork l r')
        → bit (sum256 key) depth ≡ some true
        → join depth l r' ≡ t'
        → Changed key f (suc depth) r r'
        → Changed key f depth (fork l r) t'
    Changed-right depth l r r' t' p b w c = record {
      old = c.old;
      left = c.left;
      before = rw view-fork (rw b c.before);
      made = c.made;
      after = λ k.
          let (step, s) =
            bit_there (sum256 key) (sum256 k) depth (H.sum256_length key ∙ sym (H.sum256_length k))
              b in
          let same_bit : equal key k ≡ true → bit (sum256 k) depth ≡ some true =
            λ h. ap (λ (x : Bytes). bit (sum256 x) depth) (sym (equal→≡ key k h)) ∙ b in
          subst
            (λ x.
              view k depth x
              ≡ (if equal key k then view_of key (ok c.left) else view k depth (fork l r)))
            w
            (joins.views k depth l r' step p s
              ∙ ground
                  (arith, view-fork k depth l r', view-fork k depth l r, c.after k, same_bit, s));
    }

    Changed-left :
        (depth : ℕ) (l l' r t' : Trie)
        → Placed depth (fork l' r)
        → bit (sum256 key) depth ≡ some false
        → join depth l' r ≡ t'
        → Changed key f (suc depth) l l'
        → Changed key f depth (fork l r) t'
    Changed-left depth l l' r t' p b w c = record {
      old = c.old;
      left = c.left;
      before = rw view-fork (rw b c.before);
      made = c.made;
      after = λ k.
          let (step, s) =
            bit_there (sum256 key) (sum256 k) depth (H.sum256_length key ∙ sym (H.sum256_length k))
              b in
          let same_bit : equal key k ≡ true → bit (sum256 k) depth ≡ some false =
            λ h. ap (λ (x : Bytes). bit (sum256 x) depth) (sym (equal→≡ key k h)) ∙ b in
          subst
            (λ x.
              view k depth x
              ≡ (if equal key k then view_of key (ok c.left) else view k depth (fork l r)))
            w
            (joins.views k depth l' r step p s
              ∙ ground
                  (arith, view-fork k depth l' r, view-fork k depth l r, c.after k, same_bit, s));
    }

    -- A change on a well-placed trie that ends well changes what its key reads, and no other.
    pub change-Changed :
        (depth : ℕ) (t t' : Trie)
        → Placed depth t
        → change depth t ≡ done t'
        → Changed key f depth t t'
    unfolding change_at
    change-Changed depth (fork l r) t' p e = elim (Bool-cases (hidden? l || hidden? r)) [
      | inl h ↦ absurd (cc (rw h at e))
      | inr h ↦ elim (step-done (join depth) l r (bit (sum256 key) depth) _ _ (rw h at e)) [
        | inl (r', b, q, w) ↦
            Changed-right depth l r r' t'
              (
                p.0,
                AllKeys-change _ (suc depth) r r' p.1 q,
                p.2,
                change-Placed (suc depth) r r' p.3 q,
              )
              b w (change-Changed (suc depth) r r' p.3 q)
        | inr (l', b, q, w) ↦
            Changed-left depth l l' r t'
              (
                AllKeys-change _ (suc depth) l l' p.0 q,
                p.1,
                change-Placed (suc depth) l l' p.2 q,
                p.3,
              )
              b w (change-Changed (suc depth) l l' p.2 q)
      ]
    ]
    change-Changed depth t t' p e = Changed-at depth t t' e
