-- ===== src/Trie/Total/Change.antt =====
-- A change of a record keeps the depth of a trie, and ends without a panic where the change of the
-- values does.
use student_18_byzcoin.Bytes.{Bytes, equal, bit}
use student_18_byzcoin.Common.{
  if◌then◌else◌, Bool-cases, key_not_found, Outcome, done, fail, crash, ℕ, suc, ◌≡◌, refl, sym, ◌∙◌,
  subst, ◌≢◌, inl, inr, Bool, true, false, none, some, List,
}
use student_18_byzcoin.Hash.{Hashing, sum256}
use student_18_byzcoin.Trie.{
  Trie, hidden, vacant, entry, fork, after_left, after_right, change_at, at_entry,
}
use student_18_byzcoin.Trie.Change.{Leaves}
use student_18_byzcoin.Trie.Full.{Full, forks_known}
use student_18_byzcoin.Trie.Rooted.{Rooted}
use student_18_byzcoin.Trie.Shallow.{Shallow}
use student_18_byzcoin.Trie.Step.{step-done}
use student_18_byzcoin.Trie.Total.{hash_bit}

-- the values of each record satisfy `P`
abbrev pub AllValues : (List Bytes → Type 0) → Trie → Type 0
AllValues P hidden = Unit
AllValues P vacant = Unit
AllValues P (entry k vs) = P vs
AllValues P (fork l r) = AllValues P l × AllValues P r

module _ ⦃H : Hashing⦄ (key : Bytes) (f : List Bytes → Outcome Trie)
    (join : ℕ → Trie → Trie → Trie) where
  module _ (leaves : Leaves key f)
      (joins : (depth : ℕ) (l r : Trie)
        → Shallow depth (fork l r)
        → Shallow depth (join depth l r)) where
    at-Shallow : (depth : ℕ) (t t' : Trie) → at_entry key f t ≡ done t' → Shallow depth t'
    unfolding at_entry
    at-Shallow depth hidden t' e = absurd (cc)
    at-Shallow depth vacant t' e = absurd (cc)
    at-Shallow depth (fork l r) t' e = absurd (cc)
    at-Shallow depth (entry k vs) t' e = elim (Bool-cases (equal k key)) [
      | inr q ↦ absurd (cc (rw q at e))
      | inl q ↦ elim (leaves vs t' (rw q at e)) [
        | inl w ↦ subst (Shallow depth) (sym w) tt
        | inr (ys, w) ↦ subst (Shallow depth) (sym w) tt
      ]
    ]

    pub change-Shallow :
        (depth : ℕ) (t t' : Trie)
        → Full t
        → Shallow depth t
        → change_at (sum256 key) (at_entry key f) join depth t ≡ done t'
        → Shallow depth t'
    unfolding change_at
    change-Shallow depth (fork l r) t' full h e =
        elim (step-done (join depth) l r (bit (sum256 key) depth) _ _
          (rw (forks_known l r full.0 full.1) at e)) [
            | inl (r', b, q, w) ↦
                subst (Shallow depth) w
                  (joins depth l r' (h.0, h.1, change-Shallow (suc depth) r r' full.1 h.2 q))
            | inr (l', b, q, w) ↦
                subst (Shallow depth) w
                  (joins depth l' r (h.0, change-Shallow (suc depth) l l' full.0 h.1 q, h.2))
          ]
    change-Shallow depth hidden t' full h e = absurd full
    change-Shallow depth vacant t' full h e = at-Shallow depth vacant t' e
    change-Shallow depth (entry k vs) t' full h e = at-Shallow depth (entry k vs) t' e

  pub change-Rooted :
      (t t' : Trie)
      → ((l r : Trie) → join 0 l r ≡ fork l r)
      → Full t
      → Rooted t
      → change_at (sum256 key) (at_entry key f) join 0 t ≡ done t'
      → Rooted t'
  unfolding change_at
  change-Rooted t t' root full (l, r, q) e =
      let known = subst Full q full in
      let e0 : change_at (sum256 key) (at_entry key f) join 0 (fork l r) ≡ done t' = rw q at e in
      elim (step-done (join 0) l r (bit (sum256 key) 0) _ _
        (rw (forks_known l r known.0 known.1) at e0)) [
          | inl (r', b, p, w) ↦ (l, r', sym w ∙ root l r')
          | inr (l', b, p, w) ↦ (l', r, sym w ∙ root l' r)
        ]

  step-total :
      (j : Trie → Trie → Trie) (l r : Trie) (v : Bool) (ol or : Outcome Trie)
      → ol ≢ crash
      → or ≢ crash
      → (if v then after_right j l or else after_left j r ol) ≢ crash
  step-total j l r true ol (done x) hl hr e = cc
  step-total j l r true ol (fail y x) hl hr e = cc
  step-total j l r true ol crash hl hr e = hr refl
  step-total j l r false (done x) or hl hr e = cc
  step-total j l r false (fail y x) or hl hr e = cc
  step-total j l r false crash or hl hr e = hl refl

  pub change-total :
      (P : List Bytes → Type 0)
      → ((vs : List Bytes) → P vs → f vs ≢ crash)
      → (depth : ℕ) (t : Trie) → AllValues P t
      → Full t
      → Shallow depth t
      → change_at (sum256 key) (at_entry key f) join depth t ≢ crash
  unfolding change_at at_entry
  change-total P total depth hidden all full h e = full
  change-total P total depth vacant all full h e = cc
  change-total P total depth (entry k vs) all full h e = elim (Bool-cases (equal k key)) [
    | inl q ↦ total vs all (rw q at e)
    | inr q ↦ let e1 : fail key_not_found (entry k vs) ≡ crash = rw q at e in cc
  ]
  change-total P total depth (fork l r) all full h e =
      let (v, b) = hash_bit key depth h.0 in
      step-total (join depth) l r v _ _ (change-total P total (suc depth) l all.0 full.0 h.1)
        (change-total P total (suc depth) r all.1 full.1 h.2)
        (by_bit v b (rw (forks_known l r full.0 full.1) at e))
    where
      by_bit :
          (v : Bool)
          → bit (sum256 key) depth ≡ some v
          → (elim (bit (sum256 key) depth) [
            | none ↦ crash
            | some true ↦
                after_right
                  (join depth)
                  l
                  (change_at (sum256 key) (at_entry key f) join (suc depth) r)
            | some false ↦
                after_left
                  (join depth)
                  r
                  (change_at (sum256 key) (at_entry key f) join (suc depth) l)
          ])
            ≡ crash
          → (if v
              then after_right
                  (join depth)
                  l
                  (change_at (sum256 key) (at_entry key f) join (suc depth) r)
              else after_left
                  (join depth)
                  r
                  (change_at (sum256 key) (at_entry key f) join (suc depth) l))
            ≡ crash
      by_bit true b e = rw b at e
      by_bit false b e = rw b at e
