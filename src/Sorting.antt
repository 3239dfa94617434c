-- ===== src/Sorting.antt =====
-- The sorts that the packages take from the standard library: sort.Strings and sort.Slice, with the
-- comparison of byte slices. Elements that neither is less than the other keep their order.
pub mod Permuted
use student_18_byzcoin.Bytes.{Bytes}
use student_18_byzcoin.Common.{
  ltb, if◌then◌else◌, ◌≡◌, refl, Bool, true, false, List, [], ◌∷◌, arith,
}

-- bytes.Compare(x, y) == -1, and `x < y` of strings
unfoldable pub bytes_less : Bytes → Bytes → Bool
bytes_less x [] = false
bytes_less [] (b ∷ y) = true
bytes_less (a ∷ x) (b ∷ y) =
    let rest = bytes_less x y in if ltb a b then true else if ltb b a then false else rest

pub bytes_less-asym : (x y : Bytes) → bytes_less x y ≡ true → bytes_less y x ≡ false
unfolding bytes_less
bytes_less-asym [] [] h = refl
bytes_less-asym [] (b ∷ y) h = refl
bytes_less-asym (a ∷ x) [] h = cc
bytes_less-asym (a ∷ x) (b ∷ y) h = ground (arith, bytes_less-asym x y)

pub bytes_less_trans :
    (x y z : Bytes) → bytes_less x y ≡ true → bytes_less y z ≡ true → bytes_less x z ≡ true
unfolding bytes_less
bytes_less_trans x y [] h g = cc
bytes_less_trans [] y (c ∷ z) h g = refl
bytes_less_trans (a ∷ x) [] (c ∷ z) h g = cc
bytes_less_trans (a ∷ x) (b ∷ y) (c ∷ z) h g = ground (arith, bytes_less_trans x y z)

pub bytes_less-tie : (x y : Bytes) → bytes_less x y ≡ false → bytes_less y x ≡ false → x ≡ y
unfolding bytes_less
bytes_less-tie [] [] h g = refl
bytes_less-tie [] (b ∷ y) h g = cc
bytes_less-tie (a ∷ x) [] h g = cc
bytes_less-tie (a ∷ x) (b ∷ y) h g = ground (arith, bytes_less-tie x y)

module _ {A : Type 0} (key : A → Bytes) where
  unfoldable pub insert_by : A → List A → List A
  insert_by a [] = a ∷ []
  insert_by a (b ∷ l) =
      let rest = insert_by a l in if bytes_less (key b) (key a) then b ∷ rest else a ∷ b ∷ l

  unfoldable pub sort_by : List A → List A
  unfolding insert_by
  sort_by [] = []
  sort_by (a ∷ l) = insert_by a (sort_by l)

  pub insert_commutes :
      (a b : A) (l : List A)
      → bytes_less (key a) (key b) ≡ true
      → insert_by a (insert_by b l) ≡ insert_by b (insert_by a l)
  unfolding insert_by
  insert_commutes a b [] h = rw (h, bytes_less-asym (key a) (key b) h) refl
  insert_commutes a b (c ∷ l) h = ground (
    arith,
    bytes_less-asym (key a) (key b) h,
    bytes_less_trans (key a) (key b) (key c) h,
    bytes_less_trans (key c) (key a) (key b),
    bytes_less-asym (key a) (key c),
    bytes_less-asym (key b) (key c),
    insert_commutes a b l h,
  )
