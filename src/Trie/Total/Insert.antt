-- ===== src/Trie/Total/Insert.antt =====
-- The insertion as a whole ends without a panic.
use student_18_byzcoin.Bytes.{Bytes, bit}
use student_18_byzcoin.Common.{
  crash, ℕ, zero, suc, ◌+◌, ◌≡◌, refl, sym, ◌∙◌, subst, ◌≢◌, Bool, true, false, some, List, arith,
}
use student_18_byzcoin.Hash.{Hashing, sum256}
use student_18_byzcoin.Trie.{Trie, hidden, vacant, entry, fork, enter, insert_at, AllKeys, Placed}
use student_18_byzcoin.Trie.Full.{Full, forks_known}
use student_18_byzcoin.Trie.Shallow.{Shallow}
use student_18_byzcoin.Trie.Total.{Agrees-next, step-crash, Near, enter-crash, split-crash}

module _ ⦃H : Hashing⦄ (key : Bytes) (vs : List Bytes) where
  AllKeys-both :
      (P Q R : Bytes → Type 0) (t : Trie)
      → ((k : Bytes) → P k → Q k → R k)
      → AllKeys P t
      → AllKeys Q t
      → AllKeys R t
  AllKeys-both P Q R hidden f a b = tt
  AllKeys-both P Q R vacant f a b = tt
  AllKeys-both P Q R (entry k ws) f a b = f k a b
  AllKeys-both P Q R (fork l r) f a b =
      (AllKeys-both P Q R l f a.0 b.0, AllKeys-both P Q R r f a.1 b.1)

  nearer :
      (depth : ℕ) (step : Bool) (t : Trie)
      → bit (sum256 key) depth ≡ some step
      → AllKeys (Near key vs depth) t
      → AllKeys (λ k. bit (sum256 k) depth ≡ some step) t
      → AllKeys (Near key vs (suc depth)) t
  nearer depth step t b near side =
      AllKeys-both (Near key vs depth) (λ k. bit (sum256 k) depth ≡ some step)
        (Near key vs (suc depth)) t
        (λ k n s. (Agrees-next (sum256 k) (sum256 key) depth n.0 (s ∙ sym b), n.1)) near side

  child-crash :
      (fuel depth : ℕ) (t : Trie)
      → depth + fuel ≡ 257
      → Full t
      → AllKeys (Near key vs depth) t
      → ((l r : Trie) → t ≡ fork l r → insert_at key vs fuel depth (fork l r) ≢ crash)
      → enter key vs (insert_at key vs fuel depth) depth t ≢ crash
  child-crash fuel depth hidden h full near ih e = full
  child-crash fuel depth vacant h full near ih e = unfold enter in cc
  child-crash fuel depth (entry k0 vs0) h full near ih e =
      enter-crash key vs (insert_at key vs fuel depth) depth k0 vs0 near
        (λ q lt step b. split-crash key vs fuel depth k0 vs0 step h lt near q b) e
  child-crash fuel depth (fork l r) h full near ih e = ih l r refl (unfold enter in e)

  -- no record of the trie has the hash of the key, but one of the key itself
  pub insert-crash :
      (fuel depth : ℕ) (l r : Trie)
      → depth + fuel ≡ 257
      → Full (fork l r)
      → Shallow depth (fork l r)
      → Placed depth (fork l r)
      → AllKeys (Near key vs depth) (fork l r)
      → insert_at key vs fuel depth (fork l r) ≢ crash
  unfolding insert_at
  insert-crash zero depth l r h full low placed near e = omega (arith, h, low.0)
  insert-crash (suc fuel) depth l r h full low placed near e =
      step-crash key vs l r depth _ _ low.0
        (λ b.
          child-crash fuel (suc depth) r (omega (arith, h)) full.1
            (nearer depth true r b near.1 placed.1)
            (λ l1 r1 q.
              insert-crash fuel (suc depth) l1 r1 (omega (arith, h)) (subst Full q full.1)
                (subst (Shallow (suc depth)) q low.2) (subst (Placed (suc depth)) q placed.3)
                (subst (AllKeys (Near key vs (suc depth))) q
                  (nearer depth true r b near.1 placed.1))))
        (λ b.
          child-crash fuel (suc depth) l (omega (arith, h)) full.0
            (nearer depth false l b near.0 placed.0)
            (λ l1 r1 q.
              insert-crash fuel (suc depth) l1 r1 (omega (arith, h)) (subst Full q full.0)
                (subst (Shallow (suc depth)) q low.1) (subst (Placed (suc depth)) q placed.2)
                (subst (AllKeys (Near key vs (suc depth))) q
                  (nearer depth false l b near.0 placed.0))))
        (rw (forks_known l r full.0 full.1) at e)
