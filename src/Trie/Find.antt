-- ===== src/Trie/Find.antt =====
-- What a search finds in a trie, and how an insertion changes that.
use student_18_byzcoin.Bytes.{Bytes, equal, byte_bit, bit}
use student_18_byzcoin.Bytes.Bits.{lt_length}
use student_18_byzcoin.Bytes.Equal.{equal→≡}
use student_18_byzcoin.Common.{
  if◌then◌else◌, Bool-cases, Option-cases, Result, ok, err, panic, Outcome, done, crash,
  done-injective, length, get_elem?, get_elem?-some, ℕ, zero, suc, ◌/◌, ◌≡◌, refl, sym, ap, ◌∙◌,
  subst, inl, inr, Bool, true, false, ◌||◌, Option, none, some, List, arith,
}
use student_18_byzcoin.Hash.{Hashing, sum256}
use student_18_byzcoin.Trie.{Trie, hidden, vacant, entry, fork, hidden?, enter, insert_at, find_at}
use student_18_byzcoin.Trie.Step.{Stepped, step-done}

abbrev pub view_of : Bytes → Result Trie → Result (Option (List Bytes))
view_of key (ok (entry k vs)) = ok (if equal k key then some vs else none)
view_of key (ok _) = ok none
view_of key (err e) = err e
view_of key panic = panic

-- a slice with a bit at an index, and another as long
pub bit_there :
    (x y : Bytes) (i : ℕ) {v : Bool}
    → length x ≡ length y
    → bit x i ≡ some v
    → (w : Bool) × (bit y i ≡ some w)
unfolding bit
bit_there x y i l e = elim (Option-cases (get_elem? x (i / 8))) [
  | inl out ↦ absurd (ground arith)
  | inr (b, at) ↦
      let (b', at') = get_elem?-some y (i / 8) (omega (arith, lt_length x (i / 8) at)) in
      (byte_bit b' i, ground arith)
]

module _ ⦃H : Hashing⦄ where
  -- the values under a key: `ok none` where the key is known to be absent
  unfoldable pub view : Bytes → ℕ → Trie → Result (Option (List Bytes))
  view key depth t = view_of key (find_at (sum256 key) depth t)

  pub view-fork :
      (k : Bytes) (depth : ℕ) (l r : Trie)
      → view k depth (fork l r) ≡ (elim (bit (sum256 k) depth) [
        | none ↦ panic
        | some true ↦ view k (suc depth) r
        | some false ↦ view k (suc depth) l
      ])
  unfolding view find_at
  view-fork k depth l r = go (bit (sum256 k) depth)
    where
      go :
          (o : Option Bool)
          → view_of k (elim o [
            | none ↦ panic
            | some true ↦ find_at (sum256 k) (suc depth) r
            | some false ↦ find_at (sum256 k) (suc depth) l
          ])
            ≡ (elim o [
              | none ↦ panic
              | some true ↦ view_of k (find_at (sum256 k) (suc depth) r)
              | some false ↦ view_of k (find_at (sum256 k) (suc depth) l)
            ])
      go none = refl
      go (some true) = refl
      go (some false) = refl

  -- A record that moves below a fork is found there, and no other is.
  view-split :
      (k k0 : Bytes) (vs : List Bytes) (depth : ℕ) (step : Bool)
      → bit (sum256 k0) depth ≡ some step
      → view k depth (if step then fork vacant (entry k0 vs) else fork (entry k0 vs) vacant)
        ≡ view k depth (entry k0 vs)
  unfolding view find_at
  view-split k k0 vs depth step e =
      let (w, q) =
        bit_there (sum256 k0) (sum256 k) depth (H.sum256_length k0 ∙ sym (H.sum256_length k)) e in
      let same_bit : equal k0 k ≡ true → bit (sum256 k) depth ≡ some step =
        λ h. ap (λ (x : Bytes). bit (sum256 x) depth) (sym (equal→≡ k0 k h)) ∙ e in
      ground (arith, q, same_bit)

  module _ (key : Bytes) (vs : List Bytes) where
    -- what `k` reads once the record is in
    abbrev pub updated : Bytes → ℕ → Trie → Result (Option (List Bytes))
    updated k depth t = if equal key k then ok (some vs) else view k depth t

    view-entry : (k : Bytes) (depth : ℕ) → view k depth (entry key vs) ≡ updated k depth vacant
    unfolding view find_at
    view-entry k depth = ground arith

    -- The other record at the node keeps its values.
    view-taken :
        (k k0 : Bytes) (vs0 : List Bytes) (depth : ℕ) (go : Trie → Outcome Trie) (o : Option Bool)
        (t' : Trie)
        → bit (sum256 k0) depth ≡ o
        → ((u u' : Trie) → go u ≡ done u' → view k depth u' ≡ updated k depth u)
        → ◌≡◌ {A = Outcome Trie}
            (elim o [
              | none ↦ crash
              | some true ↦ go (fork vacant (entry k0 vs0))
              | some false ↦ go (fork (entry k0 vs0) vacant)
            ])
            (done t')
        → view k depth t' ≡ updated k depth (entry k0 vs0)
    view-taken k k0 vs0 depth go none t' b ih e = cc
    view-taken k k0 vs0 depth go (some true) t' b ih e =
        ih _ _ e
        ∙ ap (λ x. if equal key k then ok (some vs) else x) (view-split k k0 vs0 depth true b)
    view-taken k k0 vs0 depth go (some false) t' b ih e =
        ih _ _ e
        ∙ ap (λ x. if equal key k then ok (some vs) else x) (view-split k k0 vs0 depth false b)

    view-enter :
        (go : Trie → Outcome Trie) (k : Bytes) (depth : ℕ) (t t' : Trie)
        → ((u u' : Trie) → go u ≡ done u' → view k depth u' ≡ updated k depth u)
        → enter key vs go depth t ≡ done t'
        → view k depth t' ≡ updated k depth t
    unfolding enter
    view-enter go k depth hidden t' ih e = cc
    view-enter go k depth vacant t' ih e =
        subst (λ x. view k depth x ≡ updated k depth vacant) (done-injective e) (view-entry k depth)
    view-enter go k depth (entry k0 vs0) t' ih e = elim (Bool-cases (equal key k0)) [
      | inl taken ↦ cc (rw taken at e)
      | inr free ↦ view-taken k k0 vs0 depth go (bit (sum256 k0) depth) t' refl ih (rw free at e)
    ]
    view-enter go k depth (fork l r) t' ih e = ih (fork l r) t' e

    view-step :
        (k : Bytes) (depth : ℕ) (l r : Trie) (ol or : Outcome Trie) (t' : Trie)
        → ((l' : Trie) → ol ≡ done l' → view k (suc depth) l' ≡ updated k (suc depth) l)
        → ((r' : Trie) → or ≡ done r' → view k (suc depth) r' ≡ updated k (suc depth) r)
        → Stepped fork l r (bit (sum256 key) depth) ol or t'
        → view k depth t' ≡ updated k depth (fork l r)
    view-step k depth l r ol or t' hl hr (inl (r', b, q, w)) =
        let same_bit : equal key k ≡ true → bit (sum256 k) depth ≡ some true =
          λ h. ap (λ (x : Bytes). bit (sum256 x) depth) (sym (equal→≡ key k h)) ∙ b in
        subst (λ x. view k depth x ≡ updated k depth (fork l r)) w
          (ground (arith, view-fork k depth l r', view-fork k depth l r, hr r' q, same_bit))
    view-step k depth l r ol or t' hl hr (inr (l', b, q, w)) =
        let same_bit : equal key k ≡ true → bit (sum256 k) depth ≡ some false =
          λ h. ap (λ (x : Bytes). bit (sum256 x) depth) (sym (equal→≡ key k h)) ∙ b in
        subst (λ x. view k depth x ≡ updated k depth (fork l r)) w
          (ground (arith, view-fork k depth l' r, view-fork k depth l r, hl l' q, same_bit))

    -- After an insertion each key reads as before, but for the one inserted.
    pub view-insert :
        (k : Bytes) (fuel depth : ℕ) (t t' : Trie)
        → insert_at key vs fuel depth t ≡ done t'
        → view k depth t' ≡ updated k depth t
    unfolding insert_at
    view-insert k zero depth t t' e = cc
    view-insert k (suc fuel) depth hidden t' e = cc
    view-insert k (suc fuel) depth vacant t' e = cc
    view-insert k (suc fuel) depth (entry k0 vs0) t' e = cc
    view-insert k (suc fuel) depth (fork l r) t' e = elim (Bool-cases (hidden? l || hidden? r)) [
      | inl h ↦ cc (rw h at e)
      | inr h ↦
          view-step k depth l r _ _ t'
            (λ u'.
              view-enter (insert_at key vs fuel (suc depth)) k (suc depth) l u'
                (view-insert k fuel (suc depth)))
            (λ u'.
              view-enter (insert_at key vs fuel (suc depth)) k (suc depth) r u'
                (view-insert k fuel (suc depth)))
            (step-done fork l r (bit (sum256 key) depth) _ _ (rw h at e))
    ]
