-- ===== src/Trie/Shallow.antt =====
-- A fork stands where a hash has a bit.
use student_18_byzcoin.Bytes.{Bytes, equal, bit}
use student_18_byzcoin.Bytes.Bits.{lt_length}
use student_18_byzcoin.Common.{
  Bool-cases, Option-cases, Outcome, done, crash, done-injective, get_elem?, ℕ, zero, suc, ◌/◌, ◌<◌,
  ◌≡◌, refl, subst, inl, inr, Bool, true, false, ◌||◌, Option, none, some, List, arith,
}
use student_18_byzcoin.Hash.{Hashing, sum256}
use student_18_byzcoin.Trie.{Trie, hidden, vacant, entry, fork, hidden?, enter, insert_at, merge}
use student_18_byzcoin.Trie.Step.{step-done}

abbrev pub Shallow : ℕ → Trie → Type 0
Shallow depth hidden = Unit
Shallow depth vacant = Unit
Shallow depth (entry k vs) = Unit
Shallow depth (fork l r) = (depth < 256) × Shallow (suc depth) l × Shallow (suc depth) r

pub Shallow-merge :
    (depth : ℕ) (l r : Trie) → Shallow depth (fork l r) → Shallow depth (merge depth l r)
unfolding merge
Shallow-merge zero l r h = h
Shallow-merge (suc depth) vacant vacant h = tt
Shallow-merge (suc depth) vacant (entry k vs) h = tt
Shallow-merge (suc depth) (entry k vs) vacant h = tt
Shallow-merge (suc depth) l r h = h

module _ ⦃H : Hashing⦄ where
  bit-lt : (k : Bytes) (i : ℕ) (v : Bool) → bit (sum256 k) i ≡ some v → i < 256
  unfolding bit
  bit-lt k i v e = elim (Option-cases (get_elem? (sum256 k) (i / 8))) [
    | inl out ↦ absurd (ground (arith, out, e))
    | inr (b, at) ↦ omega (arith, lt_length (sum256 k) (i / 8) at, H.sum256_length k)
  ]

  module _ (key : Bytes) (vs : List Bytes) where
    Shallow-enter :
        (go : Trie → Outcome Trie) (depth : ℕ) (t t' : Trie)
        → ((u u' : Trie) → Shallow depth u → go u ≡ done u' → Shallow depth u')
        → Shallow depth t
        → enter key vs go depth t ≡ done t'
        → Shallow depth t'
    unfolding enter
    Shallow-enter go depth hidden t' ih h e = absurd (cc)
    Shallow-enter go depth vacant t' ih h e = subst (Shallow depth) (done-injective e) tt
    Shallow-enter go depth (fork l r) t' ih h e = ih (fork l r) t' h e
    Shallow-enter go depth (entry k0 vs0) t' ih h e = elim (Bool-cases (equal key k0)) [
      | inl q ↦ absurd (cc (rw q at e))
      | inr q ↦ by_bit (bit (sum256 k0) depth) refl (rw q at e)
    ]
      where
        by_bit :
            (o : Option Bool)
            → bit (sum256 k0) depth ≡ o
            → ◌≡◌ {A = Outcome Trie}
                (elim o [
                  | none ↦ crash
                  | some true ↦ go (fork vacant (entry k0 vs0))
                  | some false ↦ go (fork (entry k0 vs0) vacant)
                ])
                (done t')
            → Shallow depth t'
        by_bit none b x = absurd (cc)
        by_bit (some true) b x = ih _ t' (bit-lt k0 depth true b, tt, tt) x
        by_bit (some false) b x = ih _ t' (bit-lt k0 depth false b, tt, tt) x

    pub insert-Shallow :
        (fuel depth : ℕ) (t t' : Trie)
        → Shallow depth t
        → insert_at key vs fuel depth t ≡ done t'
        → Shallow depth t'
    unfolding insert_at
    insert-Shallow zero depth t t' h e = absurd (cc)
    insert-Shallow (suc fuel) depth hidden t' h e = absurd (cc)
    insert-Shallow (suc fuel) depth vacant t' h e = absurd (cc)
    insert-Shallow (suc fuel) depth (entry k0 vs0) t' h e = absurd (cc)
    insert-Shallow (suc fuel) depth (fork l r) t' h e = elim (Bool-cases (hidden? l || hidden? r)) [
      | inl g ↦ absurd (cc (rw g at e))
      | inr g ↦ elim (step-done fork l r (bit (sum256 key) depth) _ _ (rw g at e)) [
        | inl (r', b, q, w) ↦ subst (Shallow depth) w (
          h.0,
          h.1,
          Shallow-enter (insert_at key vs fuel (suc depth)) (suc depth) r r'
              (insert-Shallow fuel (suc depth)) h.2 q,
        )
        | inr (l', b, q, w) ↦ subst (Shallow depth) w (
          h.0,
          Shallow-enter (insert_at key vs fuel (suc depth)) (suc depth) l l'
              (insert-Shallow fuel (suc depth)) h.1 q,
          h.2,
        )
      ]
    ]
