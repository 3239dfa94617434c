-- ===== src/Trie/Join.antt =====
-- The two ways to put a fork together again after a change below it: as it was, and merged.
use student_18_byzcoin.Bytes.{Bytes, equal, bit}
use student_18_byzcoin.Bytes.Equal.{equal→≡}
use student_18_byzcoin.Common.{
  ℕ, zero, suc, ◌≡◌, refl, sym, ap, ◌∙◌, Bool, true, false, some, List, arith,
}
use student_18_byzcoin.Hash.{Hashing, sum256}
use student_18_byzcoin.Trie.{Trie, vacant, entry, fork, merge, AllKeys, Placed, find_at}
use student_18_byzcoin.Trie.Find.{view}

module _ ⦃H : Hashing⦄ where
  -- Putting a fork together again changes no record, and no search that gets so far.
  pub record IsJoin (join : ℕ → Trie → Trie → Trie) : Type 1 where
    pub keys :
        (P : Bytes → Type 0) (depth : ℕ) (l r : Trie)
        → AllKeys P (fork l r)
        → AllKeys P (join depth l r)
    pub placed : (depth : ℕ) (l r : Trie) → Placed depth (fork l r) → Placed depth (join depth l r)
    pub views :
        (k : Bytes) (depth : ℕ) (l r : Trie) (step : Bool)
        → Placed depth (fork l r)
        → bit (sum256 k) depth ≡ some step
        → view k depth (join depth l r) ≡ view k depth (fork l r)

  pub fork-IsJoin : IsJoin (λ depth. fork)
  fork-IsJoin = record {
    keys = λ P depth l r a. a;
    placed = λ depth l r p. p;
    views = λ k depth l r step p b. refl;
  }

  merge-keys :
      (P : Bytes → Type 0) (depth : ℕ) (l r : Trie)
      → AllKeys P (fork l r)
      → AllKeys P (merge depth l r)
  unfolding merge
  merge-keys P zero l r a = a
  merge-keys P (suc depth) vacant vacant a = tt
  merge-keys P (suc depth) vacant (entry k vs) a = a.1
  merge-keys P (suc depth) (entry k vs) vacant a = a.0
  merge-keys P (suc depth) l r a = a

  merge-Placed : (depth : ℕ) (l r : Trie) → Placed depth (fork l r) → Placed depth (merge depth l r)
  unfolding merge
  merge-Placed zero l r p = p
  merge-Placed (suc depth) vacant vacant p = tt
  merge-Placed (suc depth) vacant (entry k vs) p = tt
  merge-Placed (suc depth) (entry k vs) vacant p = tt
  merge-Placed (suc depth) l r p = p

  -- a record alone below a fork is found whether the fork is there or not
  alone_left :
      (k k0 : Bytes) (vs : List Bytes) (depth : ℕ) (step : Bool)
      → bit (sum256 k0) depth ≡ some false
      → bit (sum256 k) depth ≡ some step
      → view k depth (entry k0 vs) ≡ view k depth (fork (entry k0 vs) vacant)
  unfolding view find_at
  alone_left k k0 vs depth step b e =
      let same_bit : equal k0 k ≡ true → bit (sum256 k) depth ≡ some false =
        λ h. ap (λ (x : Bytes). bit (sum256 x) depth) (sym (equal→≡ k0 k h)) ∙ b in
      ground (arith, same_bit)

  alone_right :
      (k k0 : Bytes) (vs : List Bytes) (depth : ℕ) (step : Bool)
      → bit (sum256 k0) depth ≡ some true
      → bit (sum256 k) depth ≡ some step
      → view k depth (entry k0 vs) ≡ view k depth (fork vacant (entry k0 vs))
  unfolding view find_at
  alone_right k k0 vs depth step b e =
      let same_bit : equal k0 k ≡ true → bit (sum256 k) depth ≡ some true =
        λ h. ap (λ (x : Bytes). bit (sum256 x) depth) (sym (equal→≡ k0 k h)) ∙ b in
      ground (arith, same_bit)

  both_vacant :
      (k : Bytes) (depth : ℕ) (step : Bool)
      → bit (sum256 k) depth ≡ some step
      → view k depth vacant ≡ view k depth (fork vacant vacant)
  unfolding view find_at
  both_vacant k depth step e = ground arith

  merge-views :
      (k : Bytes) (depth : ℕ) (l r : Trie) (step : Bool)
      → Placed depth (fork l r)
      → bit (sum256 k) depth ≡ some step
      → view k depth (merge depth l r) ≡ view k depth (fork l r)
  unfolding merge
  merge-views k zero l r step p b = refl
  merge-views k (suc depth) vacant vacant step p b = both_vacant k (suc depth) step b
  merge-views k (suc depth) vacant (entry k0 vs) step p b =
      alone_right k k0 vs (suc depth) step p.1 b
  merge-views k (suc depth) (entry k0 vs) vacant step p b =
      alone_left k k0 vs (suc depth) step p.0 b
  merge-views k (suc depth) l r step p b = refl

  pub merge-IsJoin : IsJoin merge
  merge-IsJoin = record { keys = merge-keys; placed = merge-Placed; views = merge-views }
