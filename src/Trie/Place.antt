-- ===== src/Trie/Place.antt =====
-- Insertions and changes keep each record on the path of its key.
use student_18_byzcoin.Bytes.{Bytes, equal, bit}
use student_18_byzcoin.Common.{
  Bool-cases, Outcome, done, crash, done-injective, ℕ, zero, suc, ◌≡◌, refl, subst, inl, inr, Bool,
  true, false, ◌||◌, Option, none, some, List,
}
use student_18_byzcoin.Hash.{Hashing, sum256}
use student_18_byzcoin.Trie.{
  Trie, hidden, vacant, entry, fork, hidden?, enter, insert_at, AllKeys, Placed,
}
use student_18_byzcoin.Trie.Step.{step-done}

module _ ⦃H : Hashing⦄ (key : Bytes) (vs : List Bytes) where
  AllKeys-enter :
      (P : Bytes → Type 0) (go : Trie → Outcome Trie) (depth : ℕ) (t t' : Trie)
      → P key
      → ((u u' : Trie) → AllKeys P u → go u ≡ done u' → AllKeys P u')
      → AllKeys P t
      → enter key vs go depth t ≡ done t'
      → AllKeys P t'
  unfolding enter
  AllKeys-enter P go depth hidden t' p ih a e = cc
  AllKeys-enter P go depth vacant t' p ih a e = subst (AllKeys P) (done-injective e) p
  AllKeys-enter P go depth (entry k0 vs0) t' p ih a e = elim (Bool-cases (equal key k0)) [
    | inl taken ↦ cc (rw taken at e)
    | inr free ↦ moved (bit (sum256 k0) depth) (rw free at e)
  ]
    where
      moved :
          (o : Option Bool)
          → ◌≡◌ {A = Outcome Trie}
              (elim o [
                | none ↦ crash
                | some true ↦ go (fork vacant (entry k0 vs0))
                | some false ↦ go (fork (entry k0 vs0) vacant)
              ])
              (done t')
          → AllKeys P t'
      moved none x = cc
      moved (some true) x = ih (fork vacant (entry k0 vs0)) t' (tt, a) x
      moved (some false) x = ih (fork (entry k0 vs0) vacant) t' (a, tt) x
  AllKeys-enter P go depth (fork l r) t' p ih a e = ih (fork l r) t' a e

  pub AllKeys-insert :
      (P : Bytes → Type 0) (fuel depth : ℕ) (t t' : Trie)
      → P key
      → AllKeys P t
      → insert_at key vs fuel depth t ≡ done t'
      → AllKeys P t'
  unfolding insert_at
  AllKeys-insert P zero depth t t' p a e = cc
  AllKeys-insert P (suc fuel) depth hidden t' p a e = cc
  AllKeys-insert P (suc fuel) depth vacant t' p a e = cc
  AllKeys-insert P (suc fuel) depth (entry k0 vs0) t' p a e = cc
  AllKeys-insert P (suc fuel) depth (fork l r) t' p a e =
      elim (Bool-cases (hidden? l || hidden? r)) [
        | inl h ↦ cc (rw h at e)
        | inr h ↦
            let inside = λ (u u' : Trie) (b : AllKeys P u).
              AllKeys-enter P (insert_at key vs fuel (suc depth)) (suc depth) u u' p
                (λ w w' b' y. AllKeys-insert P fuel (suc depth) w w' p b' y) b in
            elim (step-done fork l r (bit (sum256 key) depth) _ _ (rw h at e)) [
              | inl (r', b, q, w) ↦ subst (AllKeys P) w (a.0, inside r r' a.1 q)
              | inr (l', b, q, w) ↦ subst (AllKeys P) w (inside l l' a.0 q, a.1)
            ]
      ]

  Placed-enter :
      (go : Trie → Outcome Trie) (depth : ℕ) (t t' : Trie)
      → ((u u' : Trie) → Placed depth u → go u ≡ done u' → Placed depth u')
      → Placed depth t
      → enter key vs go depth t ≡ done t'
      → Placed depth t'
  unfolding enter
  Placed-enter go depth hidden t' ih a e = cc
  Placed-enter go depth vacant t' ih a e = subst (Placed depth) (done-injective e) tt
  Placed-enter go depth (entry k0 vs0) t' ih a e = elim (Bool-cases (equal key k0)) [
    | inl taken ↦ cc (rw taken at e)
    | inr free ↦ moved (bit (sum256 k0) depth) refl (rw free at e)
  ]
    where
      moved :
          (o : Option Bool)
          → bit (sum256 k0) depth ≡ o
          → ◌≡◌ {A = Outcome Trie}
              (elim o [
                | none ↦ crash
                | some true ↦ go (fork vacant (entry k0 vs0))
                | some false ↦ go (fork (entry k0 vs0) vacant)
              ])
              (done t')
          → Placed depth t'
      moved none b x = cc
      moved (some true) b x = ih (fork vacant (entry k0 vs0)) t' (tt, b, tt, tt) x
      moved (some false) b x = ih (fork (entry k0 vs0) vacant) t' (b, tt, tt, tt) x
  Placed-enter go depth (fork l r) t' ih a e = ih (fork l r) t' a e

  -- An insertion leaves each record on the path of its key.
  pub insert-Placed :
      (fuel depth : ℕ) (t t' : Trie)
      → Placed depth t
      → insert_at key vs fuel depth t ≡ done t'
      → Placed depth t'
  unfolding insert_at
  insert-Placed zero depth t t' a e = cc
  insert-Placed (suc fuel) depth hidden t' a e = cc
  insert-Placed (suc fuel) depth vacant t' a e = cc
  insert-Placed (suc fuel) depth (entry k0 vs0) t' a e = cc
  insert-Placed (suc fuel) depth (fork l r) t' a e = elim (Bool-cases (hidden? l || hidden? r)) [
    | inl h ↦ cc (rw h at e)
    | inr h ↦
        let go = insert_at key vs fuel (suc depth) in
        let below = λ (u u' : Trie) (b : Placed (suc depth) u).
          Placed-enter go (suc depth) u u' (insert-Placed fuel (suc depth)) b in
        elim (step-done fork l r (bit (sum256 key) depth) _ _ (rw h at e)) [
          | inl (r', b, q, w) ↦ subst (Placed depth) w (
            a.0,
            AllKeys-enter _ go (suc depth) r r' b
                (λ x x' y. AllKeys-insert _ fuel (suc depth) x x' b y) a.1 q,
            a.2,
            below r r' a.3 q,
          )
          | inr (l', b, q, w) ↦ subst (Placed depth) w (
            AllKeys-enter _ go (suc depth) l l' b
                (λ x x' y. AllKeys-insert _ fuel (suc depth) x x' b y) a.0 q,
            a.1,
            below l l' a.2 q,
            a.3,
          )
        ]
  ]
