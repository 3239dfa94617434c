-- ===== src/Trie/Rooted.antt =====
-- The root of a trie is a fork, and each record of a well-placed trie is found.
use student_18_byzcoin.Bytes.{Bytes, bit}
use student_18_byzcoin.Bytes.Equal.{equal_refl}
use student_18_byzcoin.Common.{
  Bool-cases, ok, done, ℕ, zero, suc, ◌≡◌, refl, sym, inl, inr, true, false, ◌||◌, some, List,
}
use student_18_byzcoin.Hash.{Hashing, sum256}
use student_18_byzcoin.Trie.{
  Trie, hidden, vacant, entry, fork, hidden?, insert_at, AllKeys, Placed, find_at,
}
use student_18_byzcoin.Trie.Find.{view, view-fork}
use student_18_byzcoin.Trie.Step.{step-done}

abbrev pub Rooted : Trie → Type 0
Rooted t = (l : Trie) × (r : Trie) × (t ≡ fork l r)

module _ ⦃H : Hashing⦄ where
  pub insert-Rooted :
      (key : Bytes) (vs : List Bytes) (fuel depth : ℕ) (t t' : Trie)
      → insert_at key vs fuel depth t ≡ done t'
      → Rooted t'
  unfolding insert_at
  insert-Rooted key vs zero depth t t' e = absurd (cc)
  insert-Rooted key vs (suc fuel) depth hidden t' e = absurd (cc)
  insert-Rooted key vs (suc fuel) depth vacant t' e = absurd (cc)
  insert-Rooted key vs (suc fuel) depth (entry k0 vs0) t' e = absurd (cc)
  insert-Rooted key vs (suc fuel) depth (fork l r) t' e =
      elim (Bool-cases (hidden? l || hidden? r)) [
        | inl g ↦ absurd (cc (rw g at e))
        | inr g ↦ elim (step-done fork l r (bit (sum256 key) depth) _ _ (rw g at e)) [
          | inl (r', b, q, w) ↦ (l, r', sym w)
          | inr (l', b, q, w) ↦ (l', r, sym w)
        ]
      ]

  pub AllKeys-map :
      (P Q R : Bytes → Type 0) (t : Trie)
      → ((k : Bytes) → P k → Q k → R k)
      → AllKeys P t
      → AllKeys Q t
      → AllKeys R t
  AllKeys-map P Q R hidden f a b = tt
  AllKeys-map P Q R vacant f a b = tt
  AllKeys-map P Q R (entry k ws) f a b = f k a b
  AllKeys-map P Q R (fork l r) f a b =
      (AllKeys-map P Q R l f a.0 b.0, AllKeys-map P Q R r f a.1 b.1)

  abbrev pub Found : ℕ → Trie → Bytes → Type 0
  Found depth t k = (vs : List Bytes) × (view k depth t ≡ ok (some vs))

  -- each key that stands in the trie is found
  pub keys-Found : (depth : ℕ) (t : Trie) → Placed depth t → AllKeys (Found depth t) t
  unfolding view find_at
  keys-Found depth hidden p = tt
  keys-Found depth vacant p = tt
  keys-Found depth (entry k vs) p = (vs, rw (equal_refl k) refl)
  keys-Found depth (fork l r) p = (
    AllKeys-map (λ k. bit (sum256 k) depth ≡ some false) (Found (suc depth) l)
        (Found depth (fork l r)) l (λ k b f. (f.0, rw view-fork (rw b f.1))) p.0
        (keys-Found (suc depth) l p.2),
    AllKeys-map (λ k. bit (sum256 k) depth ≡ some true) (Found (suc depth) r)
        (Found depth (fork l r)) r (λ k b f. (f.0, rw view-fork (rw b f.1))) p.1
        (keys-Found (suc depth) r p.3),
  )

  pub AllKeys-imp :
      (P Q : Bytes → Type 0) (t : Trie) → ((k : Bytes) → P k → Q k) → AllKeys P t → AllKeys Q t
  AllKeys-imp P Q t f a = AllKeys-map P P Q t (λ k x y. f k x) a a
