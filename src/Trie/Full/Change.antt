-- ===== src/Trie/Full/Change.antt =====
-- Changes of a trie that is known as a whole.
use student_18_byzcoin.Bytes.{Bytes, equal, bit}
use student_18_byzcoin.Common.{
  Bool-cases, Error, unknown_subtree, key_not_found, Outcome, done, fail, ℕ, suc, ◌≡◌, sym, subst,
  ◌≢◌, inl, inr, List,
}
use student_18_byzcoin.Hash.{Hashing, sum256}
use student_18_byzcoin.Trie.{Trie, hidden, vacant, entry, fork, change_at, at_entry}
use student_18_byzcoin.Trie.Change.{Leaves}
use student_18_byzcoin.Trie.Fail.{step-fail}
use student_18_byzcoin.Trie.Full.{Full, forks_known}
use student_18_byzcoin.Trie.Step.{step-done}

module _ ⦃H : Hashing⦄ (key : Bytes) (f : List Bytes → Outcome Trie) (leaves : Leaves key f)
    (join : ℕ → Trie → Trie → Trie)
    (joins : (depth : ℕ) (l r : Trie) → Full (fork l r) → Full (join depth l r)) where
  at-Full : (t t' : Trie) → Full t → at_entry key f t ≡ done t' → Full t'
  unfolding at_entry
  at-Full hidden t' h e = absurd h
  at-Full vacant t' h e = absurd (cc)
  at-Full (fork l r) t' h e = absurd (cc)
  at-Full (entry k vs) t' h e = elim (Bool-cases (equal k key)) [
    | inr q ↦ absurd (cc (rw q at e))
    | inl q ↦ elim (leaves vs t' (rw q at e)) [
      | inl w ↦ subst Full (sym w) tt
      | inr (ys, w) ↦ subst Full (sym w) tt
    ]
  ]

  pub change-Full :
      (depth : ℕ) (t t' : Trie)
      → Full t
      → change_at (sum256 key) (at_entry key f) join depth t ≡ done t'
      → Full t'
  unfolding change_at
  change-Full depth (fork l r) t' h e =
      elim (step-done (join depth) l r (bit (sum256 key) depth) _ _
        (rw (forks_known l r h.0 h.1) at e)) [
          | inl (r', b, q, w) ↦
              subst Full w (joins depth l r' (h.0, change-Full (suc depth) r r' h.1 q))
          | inr (l', b, q, w) ↦
              subst Full w (joins depth l' r (change-Full (suc depth) l l' h.0 q, h.1))
        ]
  change-Full depth hidden t' h e = at-Full hidden t' h e
  change-Full depth vacant t' h e = at-Full vacant t' h e
  change-Full depth (entry k vs) t' h e = at-Full (entry k vs) t' h e

  pub change-known :
      (depth : ℕ) (t t' : Trie)
      → ((vs : List Bytes) (u : Trie) (x : Error) → f vs ≢ fail x u)
      → Full t
      → change_at (sum256 key) (at_entry key f) join depth t ≢ fail unknown_subtree t'
  unfolding change_at at_entry
  change-known depth (fork l r) t' total h e =
      elim (step-fail (join depth) l r (bit (sum256 key) depth) _ _
        (rw (forks_known l r h.0 h.1) at e)) [
          | inl (r', b, q, w) ↦ change-known (suc depth) r r' total h.1 q
          | inr (l', b, q, w) ↦ change-known (suc depth) l l' total h.0 q
        ]
  change-known depth hidden t' total h e = h
  change-known depth vacant t' total h e = cc
  change-known depth (entry k vs) t' total h e = elim (Bool-cases (equal k key)) [
    | inl q ↦ total vs t' unknown_subtree (rw q at e)
    | inr q ↦ let e1 : fail key_not_found (entry k vs) ≡ fail unknown_subtree t' = rw q at e in cc
  ]
