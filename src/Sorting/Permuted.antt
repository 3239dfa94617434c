-- ===== src/Sorting/Permuted.antt =====
-- Sorting forgets the order of its input.
use student_18_byzcoin.Bytes.{Bytes}
use student_18_byzcoin.Common.{Bool-cases, All, ◌≡◌, refl, sym, ap, ◌∙◌, inl, inr, List, ◌∷◌}
use student_18_byzcoin.Sorting.{bytes_less, bytes_less-tie, insert_by, sort_by, insert_commutes}

-- one list in another order
pub data Reordered {A : Type 0} : List A → List A → Type 0 where
  same : (l : List A) → Reordered l l
  keep : (a : A) {l k : List A} → Reordered l k → Reordered (a ∷ l) (a ∷ k)
  swap : (a b : A) (l : List A) → Reordered (a ∷ b ∷ l) (b ∷ a ∷ l)
  chain : {l k m : List A} → Reordered l k → Reordered k m → Reordered l m

pub All-Reordered : {A : Type 0} (P : A → Type 0) {l k : List A} → Reordered l k → All P l → All P k
All-Reordered P (same l) h = h
All-Reordered P (keep a r) h = (h.0, All-Reordered P r h.1)
All-Reordered P (swap a b l) h = (h.1.0, (h.0, h.1.1))
All-Reordered P (chain r s) h = All-Reordered P s (All-Reordered P r h)

module _ {A : Type 0} (key : A → Bytes) (P : A → Type 0)
    (tie : (x y : A) → P x → P y → key x ≡ key y → x ≡ y) where
  insert_twice :
      (x y : A) (l : List A)
      → P x
      → P y
      → insert_by key x (insert_by key y l) ≡ insert_by key y (insert_by key x l)
  insert_twice x y l px py = elim (Bool-cases (bytes_less (key x) (key y))) [
    | inl less ↦ insert_commutes key x y l less
    | inr not_less ↦ elim (Bool-cases (bytes_less (key y) (key x))) [
      | inl greater ↦ sym (insert_commutes key y x l greater)
      | inr not_greater ↦
          let e : x ≡ y = tie x y px py (bytes_less-tie (key x) (key y) not_less not_greater) in
          rw e refl
    ]
  ]

  pub sort_by-Reordered : {l k : List A} → Reordered l k → All P l → sort_by key l ≡ sort_by key k
  unfolding sort_by
  sort_by-Reordered (same l) h = refl
  sort_by-Reordered (keep a r) h = ap (insert_by key a) (sort_by-Reordered r h.1)
  sort_by-Reordered (swap a b l) h = insert_twice a b (sort_by key l) h.0 h.1.0
  sort_by-Reordered (chain r s) h =
      sort_by-Reordered r h ∙ sort_by-Reordered s (All-Reordered P r h)
