-- ===== src/Trie/Total.antt =====
-- An insertion ends without a panic if no record of the trie has the hash of the key.
pub mod Insert
pub mod Change
use Prim.{yes, no}
use mathlib.Core.Bool.{false≢true}
use native.Mathlib.Decide.{dec_lt}
use student_18_byzcoin.Bytes.{Bytes, equal, byte_bit, bit}
use student_18_byzcoin.Bytes.Equal.{equal_refl}
use student_18_byzcoin.Bytes.Ext.{bits_ext}
use student_18_byzcoin.Common.{
  Bool-cases, Outcome, done, fail, crash, get_elem?-some, ℕ, zero, suc, ◌+◌, ◌/◌, ◌≤◌, ◌<◌, ◌≡◌,
  refl, sym, ap, ◌∙◌, ◌≢◌, inl, inr, Bool, true, false, Option, none, some, List, arith,
}
use student_18_byzcoin.Hash.{Hashing, sum256}
use student_18_byzcoin.Trie.{Trie, vacant, entry, fork, after_left, after_right, enter, insert_at}
use student_18_byzcoin.Trie.Fail.{split_trie}

-- the first bits of two hashes are the same
abbrev pub Agrees : Bytes → Bytes → ℕ → Type 0
Agrees x y depth = (i : ℕ) → i < depth → bit x i ≡ bit y i

pub Agrees-next :
    (x y : Bytes) (depth : ℕ)
    → Agrees x y depth
    → bit x depth ≡ bit y depth
    → Agrees x y (suc depth)
Agrees-next x y depth h e i lt = elim (dec_lt i depth) [
  | yes below ↦ h i below
  | no out ↦ let q : i ≡ depth = omega (arith, lt, out) in rw q e
]

module _ ⦃H : Hashing⦄ where
  pub hash_bit :
      (k : Bytes) (depth : ℕ) → depth < 256 → (v : Bool) × (bit (sum256 k) depth ≡ some v)
  unfolding bit
  hash_bit k depth h =
      let (b, at) = get_elem?-some (sum256 k) (depth / 8) (omega (arith, h, H.sum256_length k)) in
      (byte_bit b depth, rw at refl)

  same_hash :
      (k key : Bytes) (depth : ℕ)
      → 256 ≤ depth
      → Agrees (sum256 k) (sum256 key) depth
      → sum256 k ≡ sum256 key
  same_hash k key depth le h =
      bits_ext (sum256 k) (sum256 key) (H.sum256_bytes k) (H.sum256_bytes key)
        (H.sum256_length k ∙ sym (H.sum256_length key))
        (λ i lt. h i (omega (arith, lt, le, H.sum256_length k)))

  module _ (key : Bytes) (vs : List Bytes) where
    -- no other key than `key` has its hash
    abbrev pub Apart : Bytes → Type 0
    Apart k = sum256 k ≡ sum256 key → k ≡ key

    same_depth :
        (k : Bytes) (depth : ℕ)
        → equal key k ≡ false
        → Apart k
        → Agrees (sum256 k) (sum256 key) depth
        → depth < 256
    same_depth k depth other apart h = elim (dec_lt depth 256) [
      | yes lt ↦ lt
      | no out ↦
          let q : k ≡ key = apart (same_hash k key depth (omega (arith, out)) h) in
          absurd (false≢true (sym other ∙ ap (equal key) q ∙ equal_refl key))
    ]

    after_right-crash :
        (join : Trie → Trie → Trie) (l : Trie) (o : Outcome Trie)
        → o ≢ crash
        → after_right join l o ≢ crash
    after_right-crash join l (done r) h e = cc
    after_right-crash join l (fail x r) h e = cc
    after_right-crash join l crash h e = h refl

    after_left-crash :
        (join : Trie → Trie → Trie) (r : Trie) (o : Outcome Trie)
        → o ≢ crash
        → after_left join r o ≢ crash
    after_left-crash join r (done l) h e = cc
    after_left-crash join r (fail x l) h e = cc
    after_left-crash join r crash h e = h refl

    -- the step at a depth where the key has a bit
    pub step-crash :
        (l r : Trie) (depth : ℕ) (ol or : Outcome Trie)
        → depth < 256
        → (bit (sum256 key) depth ≡ some true → or ≢ crash)
        → (bit (sum256 key) depth ≡ some false → ol ≢ crash)
        → ◌≢◌ {A = Outcome Trie}
            (elim (bit (sum256 key) depth) [
              | none ↦ crash
              | some true ↦ after_right fork l or
              | some false ↦ after_left fork r ol
            ])
            crash
    step-crash l r depth ol or lt hr hl =
        let (v, b) = hash_bit key depth lt in go (bit (sum256 key) depth) v b hr hl
      where
        go :
            (o : Option Bool) (v : Bool)
            → o ≡ some v
            → (o ≡ some true → or ≢ crash)
            → (o ≡ some false → ol ≢ crash)
            → ◌≢◌ {A = Outcome Trie}
                (elim o [
                  | none ↦ crash
                  | some true ↦ after_right fork l or
                  | some false ↦ after_left fork r ol
                ])
                crash
        go none v b hr hl = absurd (cc)
        go (some true) v b hr hl = after_right-crash fork l or (hr refl)
        go (some false) v b hr hl = after_left-crash fork r ol (hl refl)

    -- the records that a walk may meet: their hashes begin as the key's
    abbrev pub Near : ℕ → Bytes → Type 0
    Near depth k = Agrees (sum256 k) (sum256 key) depth × Apart k

    -- a record with another key moves down until the hashes part
    pub enter-crash :
        (go : Trie → Outcome Trie) (depth : ℕ) (k0 : Bytes) (vs0 : List Bytes)
        → Near depth k0
        → (equal key k0 ≡ false
            → depth < 256
            → (step : Bool) → bit (sum256 k0) depth ≡ some step
            → go (split_trie key vs step k0 vs0) ≢ crash)
        → enter key vs go depth (entry k0 vs0) ≢ crash
    unfolding enter
    enter-crash go depth k0 vs0 near ih e = elim (Bool-cases (equal key k0)) [
      | inl q ↦ cc (rw q at e)
      | inr q ↦
          let lt = same_depth k0 depth q near.1 near.0 in
          let (step, b) = hash_bit k0 depth lt in
          by_bit (bit (sum256 k0) depth) step b (ih q lt) (rw q at e)
    ]
      where
        by_bit :
            (o : Option Bool) (step : Bool)
            → o ≡ some step
            → ((step : Bool) → o ≡ some step → go (split_trie key vs step k0 vs0) ≢ crash)
            → ◌≢◌ {A = Outcome Trie}
                (elim o [
                  | none ↦ crash
                  | some true ↦ go (fork vacant (entry k0 vs0))
                  | some false ↦ go (fork (entry k0 vs0) vacant)
                ])
                crash
        by_bit none step b h = absurd (cc)
        by_bit (some true) step b h = h true refl
        by_bit (some false) step b h = h false refl

    pub split-crash :
        (fuel depth : ℕ) (k0 : Bytes) (vs0 : List Bytes) (step : Bool)
        → depth + fuel ≡ 257
        → depth < 256
        → Near depth k0
        → equal key k0 ≡ false
        → bit (sum256 k0) depth ≡ some step
        → insert_at key vs fuel depth (split_trie key vs step k0 vs0) ≢ crash
    unfolding insert_at enter
    split-crash zero depth k0 vs0 step h lt near other b = absurd (omega (arith, h, lt))
    split-crash (suc fuel) depth k0 vs0 true h lt near other b =
        step-crash vacant (entry k0 vs0) depth (done (entry key vs))
          (enter key vs (insert_at key vs fuel (suc depth)) (suc depth) (entry k0 vs0)) lt
          (λ w.
            enter-crash (insert_at key vs fuel (suc depth)) (suc depth) k0 vs0
              (Agrees-next (sum256 k0) (sum256 key) depth near.0 (b ∙ sym w), near.1)
              (λ q lt' step' b'.
                split-crash fuel (suc depth) k0 vs0 step' (omega (arith, h)) lt'
                  (Agrees-next (sum256 k0) (sum256 key) depth near.0 (b ∙ sym w), near.1) other b'))
          (λ w e. cc)
    split-crash (suc fuel) depth k0 vs0 false h lt near other b =
        step-crash (entry k0 vs0) vacant depth
          (enter key vs (insert_at key vs fuel (suc depth)) (suc depth) (entry k0 vs0))
          (done (entry key vs)) lt (λ w e. cc)
          (λ w.
            enter-crash (insert_at key vs fuel (suc depth)) (suc depth) k0 vs0
              (Agrees-next (sum256 k0) (sum256 key) depth near.0 (b ∙ sym w), near.1)
              (λ q lt' step' b'.
                split-crash fuel (suc depth) k0 vs0 step' (omega (arith, h)) lt'
                  (Agrees-next (sum256 k0) (sum256 key) depth near.0 (b ∙ sym w), near.1) other b'))
