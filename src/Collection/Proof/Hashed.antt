-- ===== src/Collection/Proof/Hashed.antt =====
-- Two inputs with one hash are the same, or a collision.
use mathlib.Core.Bool.{false≢true}
use mathlib.Core.Path.{ap₂}
use student_18_byzcoin.Bytes.{Bytes, equal, zero_digest}
use student_18_byzcoin.Bytes.Equal.{equal→≡, equal_refl}
use student_18_byzcoin.Common.{
  same_bool, Bool-cases, ◌≡◌, refl, sym, ap, ◌∙◌, ◌⊎◌, inl, inr, Bool, true, false, ◌&&◌, List, [],
  ◌∷◌, arith,
}
use student_18_byzcoin.Hash.{ToHash, Hashing, hash, Collision}

same_values : List Bytes → List Bytes → Bool
same_values [] [] = true
same_values [] (y ∷ ys) = false
same_values (x ∷ xs) [] = false
same_values (x ∷ xs) (y ∷ ys) = equal x y && same_values xs ys

same_values→≡ : (xs ys : List Bytes) → same_values xs ys ≡ true → xs ≡ ys
unfolding same_values
same_values→≡ [] [] h = refl
same_values→≡ [] (y ∷ ys) h = cc
same_values→≡ (x ∷ xs) [] h = cc
same_values→≡ (x ∷ xs) (y ∷ ys) h =
    ap₂ (λ (a : Bytes) (b : List Bytes). a ∷ b) (equal→≡ x y (ground arith))
      (same_values→≡ xs ys (ground arith))

same_values_refl : (xs : List Bytes) → same_values xs xs ≡ true
unfolding same_values
same_values_refl [] = refl
same_values_refl (x ∷ xs) = ground (arith, equal_refl x, same_values_refl xs)

same_to_hash : ToHash → ToHash → Bool
unfolding same_values
same_to_hash s t =
    same_bool s.is_leaf t.is_leaf
    && equal s.key t.key
    && same_values s.values t.values
    && equal s.left_label t.left_label
    && equal s.right_label t.right_label

same_to_hash_refl : (s : ToHash) → same_to_hash s s ≡ true
unfolding same_to_hash
same_to_hash_refl s = ground (
  arith,
  equal_refl s.key,
  same_values_refl s.values,
  equal_refl s.left_label,
  equal_refl s.right_label,
)

same_to_hash→≡ : (s t : ToHash) → same_to_hash s t ≡ true → s ≡ t
unfolding same_to_hash
same_to_hash→≡ s t h =
    let a : s.is_leaf ≡ t.is_leaf = ground (arith, h) in
    let b = equal→≡ s.key t.key (ground (arith, h)) in
    let c = same_values→≡ s.values t.values (ground (arith, h)) in
    let d = equal→≡ s.left_label t.left_label (ground (arith, h)) in
    let e = equal→≡ s.right_label t.right_label (ground (arith, h)) in
    λ i. record { is_leaf = a i; key = b i; values = c i; left_label = d i; right_label = e i }

module _ ⦃H : Hashing⦄ where
  -- what the checks of a proof cannot exclude: a collision, or an input whose hash is all zeros, as
  -- the children of a leaf are
  abbrev pub Broken : Type 0
  Broken = Collision ⊎ ((t : ToHash) × (hash t ≡ zero_digest))

  pub hashed_alike : (s t : ToHash) → hash s ≡ hash t → Broken ⊎ (s ≡ t)
  hashed_alike s t e = elim (Bool-cases (same_to_hash s t)) [
    | inl h ↦ inr (same_to_hash→≡ s t h)
    | inr h ↦ inl (
        inl (record {
          first = s;
          second = t;
          different = λ q. false≢true (sym h ∙ ap (same_to_hash s) (sym q) ∙ same_to_hash_refl s);
          collides = e;
        }))
  ]
