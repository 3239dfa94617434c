-- ===== src/Trie/Full.antt =====
-- Tries that are known as a whole: no change meets an unknown subtree, and an insertion succeeds only
-- for a key that is absent.
pub mod Change
use student_18_byzcoin.Bytes.{Bytes, equal, bit}
use student_18_byzcoin.Bytes.Equal.{equal→≡, equal_refl}
use student_18_byzcoin.Common.{
  Bool-cases, unknown_subtree, key_collision, ok, Outcome, done, fail, crash, done-injective, ℕ,
  zero, suc, ◌≡◌, refl, subst, ◌≢◌, inl, inr, Bool, true, false, ◌||◌, Option, none, some, List,
}
use student_18_byzcoin.Hash.{Hashing, sum256}
use student_18_byzcoin.Trie.{
  Trie, hidden, vacant, entry, fork, hidden?, enter, insert_at, merge, find_at,
}
use student_18_byzcoin.Trie.Fail.{step-fail, enter_total, split_total}
use student_18_byzcoin.Trie.Find.{view, view-fork}
use student_18_byzcoin.Trie.Step.{step-done}

abbrev pub Full : Trie → Type 0
Full hidden = ⊥
Full vacant = Unit
Full (entry k vs) = Unit
Full (fork l r) = Full l × Full r

pub Full-hidden : (t : Trie) → Full t → hidden? t ≡ false
Full-hidden hidden h = absurd h
Full-hidden vacant h = refl
Full-hidden (entry k vs) h = refl
Full-hidden (fork l r) h = refl

pub forks_known : (l r : Trie) → Full l → Full r → (hidden? l || hidden? r) ≡ false
forks_known l r hl hr = rw (Full-hidden l hl, Full-hidden r hr) refl

pub Full-merge : (depth : ℕ) (l r : Trie) → Full (fork l r) → Full (merge depth l r)
unfolding merge
Full-merge zero l r h = h
Full-merge (suc depth) vacant vacant h = tt
Full-merge (suc depth) vacant (entry k vs) h = tt
Full-merge (suc depth) (entry k vs) vacant h = tt
Full-merge (suc depth) l r h = h

module _ ⦃H : Hashing⦄ where
  module _ (key : Bytes) (vs : List Bytes) where
    enter-Full :
        (go : Trie → Outcome Trie) (depth : ℕ) (t t' : Trie)
        → ((u u' : Trie) → Full u → go u ≡ done u' → Full u')
        → Full t
        → enter key vs go depth t ≡ done t'
        → Full t'
    unfolding enter
    enter-Full go depth hidden t' ih h e = cc
    enter-Full go depth vacant t' ih h e = subst Full (done-injective e) tt
    enter-Full go depth (fork l r) t' ih h e = ih (fork l r) t' h e
    enter-Full go depth (entry k0 vs0) t' ih h e = elim (Bool-cases (equal key k0)) [
      | inl q ↦ absurd (cc (rw q at e))
      | inr q ↦ by_bit (bit (sum256 k0) depth) (rw q at e)
    ]
      where
        by_bit :
            (o : Option Bool)
            → ◌≡◌ {A = Outcome Trie}
                (elim o [
                  | none ↦ crash
                  | some true ↦ go (fork vacant (entry k0 vs0))
                  | some false ↦ go (fork (entry k0 vs0) vacant)
                ])
                (done t')
            → Full t'
        by_bit none x = absurd (cc)
        by_bit (some true) x = ih _ t' (tt, tt) x
        by_bit (some false) x = ih _ t' (tt, tt) x

    pub insert-Full :
        (fuel depth : ℕ) (t t' : Trie) → Full t → insert_at key vs fuel depth t ≡ done t' → Full t'
    unfolding insert_at
    insert-Full zero depth t t' h e = absurd (cc)
    insert-Full (suc fuel) depth hidden t' h e = absurd (cc)
    insert-Full (suc fuel) depth vacant t' h e = absurd (cc)
    insert-Full (suc fuel) depth (entry k0 vs0) t' h e = absurd (cc)
    insert-Full (suc fuel) depth (fork l r) t' h e =
        elim (step-done fork l r (bit (sum256 key) depth) _ _ (rw (forks_known l r h.0 h.1) at e)) [
          | inl (r', b, q, w) ↦ subst Full w (
            h.0,
            enter-Full (insert_at key vs fuel (suc depth)) (suc depth) r r'
                (insert-Full fuel (suc depth)) h.1 q,
          )
          | inr (l', b, q, w) ↦ subst Full w (
            enter-Full (insert_at key vs fuel (suc depth)) (suc depth) l l'
                (insert-Full fuel (suc depth)) h.0 q,
            h.1,
          )
        ]

    -- no insertion into a full trie meets an unknown subtree
    enter-known :
        (fuel depth : ℕ) (t t' : Trie)
        → ((u u' : Trie) → Full u → insert_at key vs fuel depth u ≢ fail unknown_subtree u')
        → Full t
        → enter key vs (insert_at key vs fuel depth) depth t ≢ fail unknown_subtree t'
    enter-known fuel depth hidden t' ih h e = h
    enter-known fuel depth vacant t' ih h e = unfold enter in cc
    enter-known fuel depth (fork l r) t' ih h e = ih (fork l r) t' h (unfold enter in e)
    enter-known fuel depth (entry k0 vs0) t' ih h e = elim (Bool-cases (equal key k0)) [
      | inr q ↦
          enter_total key vs (insert_at key vs fuel depth) depth k0 vs0 unknown_subtree t' q
            (λ step. split_total key vs fuel depth k0 vs0 unknown_subtree step t' q) e
      | inl q ↦
          let e1 : fail key_collision (entry k0 vs0) ≡ fail unknown_subtree t' =
            unfold enter in rw q at e in
          cc
    ]

    pub insert-known :
        (fuel depth : ℕ) (t t' : Trie)
        → Full t
        → insert_at key vs fuel depth t ≢ fail unknown_subtree t'
    unfolding insert_at
    insert-known zero depth t t' h e = cc
    insert-known (suc fuel) depth hidden t' h e = h
    insert-known (suc fuel) depth vacant t' h e = cc
    insert-known (suc fuel) depth (entry k0 vs0) t' h e = cc
    insert-known (suc fuel) depth (fork l r) t' h e =
        elim (step-fail fork l r (bit (sum256 key) depth) _ _ (rw (forks_known l r h.0 h.1) at e)) [
          | inl (r', b, q, w) ↦
              enter-known fuel (suc depth) r r' (insert-known fuel (suc depth)) h.1 q
          | inr (l', b, q, w) ↦
              enter-known fuel (suc depth) l l' (insert-known fuel (suc depth)) h.0 q
        ]

    -- an insertion that ends well was of a key that was absent
    enter-absent :
        (go : Trie → Outcome Trie) (depth : ℕ) (t t' : Trie)
        → ((u u' : Trie) → go u ≡ done u' → view key depth u ≡ ok none)
        → enter key vs go depth t ≡ done t'
        → view key depth t ≡ ok none
    unfolding enter view find_at
    enter-absent go depth hidden t' ih e = absurd (cc)
    enter-absent go depth vacant t' ih e = refl
    enter-absent go depth (fork l r) t' ih e = ih (fork l r) t' e
    enter-absent go depth (entry k0 vs0) t' ih e = elim (Bool-cases (equal k0 key)) [
      | inr q ↦ rw q refl
      | inl q ↦
          let p : equal key k0 ≡ true = rw (equal→≡ k0 key q) (equal_refl key) in
          absurd (cc (rw p at e))
    ]

    pub insert-absent :
        (fuel depth : ℕ) (t t' : Trie)
        → insert_at key vs fuel depth t ≡ done t'
        → view key depth t ≡ ok none
    unfolding insert_at
    insert-absent zero depth t t' e = absurd (cc)
    insert-absent (suc fuel) depth hidden t' e = absurd (cc)
    insert-absent (suc fuel) depth vacant t' e = absurd (cc)
    insert-absent (suc fuel) depth (entry k0 vs0) t' e = absurd (cc)
    insert-absent (suc fuel) depth (fork l r) t' e = elim (Bool-cases (hidden? l || hidden? r)) [
      | inl h ↦ absurd (cc (rw h at e))
      | inr h ↦ elim (step-done fork l r (bit (sum256 key) depth) _ _ (rw h at e)) [
        | inl (r', b, q, w) ↦ rw view-fork (
            rw b (
              enter-absent (insert_at key vs fuel (suc depth)) (suc depth) r r'
                (insert-absent fuel (suc depth)) q))
        | inr (l', b, q, w) ↦ rw view-fork (
            rw b (
              enter-absent (insert_at key vs fuel (suc depth)) (suc depth) l l'
                (insert-absent fuel (suc depth)) q))
      ]
    ]
