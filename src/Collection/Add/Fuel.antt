-- ===== src/Collection/Add/Fuel.antt =====
-- The loop of `Add` has fuel enough.
use mathlib.Core.Path.{fun_ext}
use student_18_byzcoin.Bytes.{Bytes, bit}
use student_18_byzcoin.Bytes.Bits.{lt_length}
use student_18_byzcoin.Collection.Add.{arrive, add_at}
use student_18_byzcoin.Collection.Walk.{close_left, close_right, hides_child, ascend}
use student_18_byzcoin.Common.{
  if◌then◌else◌, Option-cases, unknown_subtree, Outcome, fail, crash, length, get_elem?, ℕ, zero,
  suc, ◌+◌, ◌*◌, ◌/◌, ◌≤◌, ◌≡◌, refl, ap, inl, inr, Bool, true, false, none, some, List, arith,
}
use student_18_byzcoin.Field.{Field}
use student_18_byzcoin.Hash.{Hashing, sum256}
use student_18_byzcoin.Node.{Content, Node, leaf, inner, Backup}

bit-end : (x : Bytes) (i : ℕ) → 8 * length x ≤ i → bit x i ≡ none
unfolding bit
bit-end x i h = elim (Option-cases (get_elem? x (i / 8))) [
  | inl out ↦ ground (arith, out)
  | inr (b, at) ↦ absurd (omega (arith, lt_length x (i / 8) at, h))
]

module _ ⦃H : Hashing⦄ (ongoing : Bool) (fields : List Field) (key : Bytes)
    (raws : List Bytes) where
  abbrev turn : (Node → Outcome Node) → ℕ → Content → Backup → Node → Node → Outcome Node
  turn go depth c b l r =
      if hides_child l r
      then fail unknown_subtree (inner c b l r)
      else elim (bit (sum256 key) depth) [
        | none ↦ crash
        | some true ↦
            close_right (ascend ongoing fields) c b l
              (arrive ongoing fields key raws go (suc depth) r)
        | some false ↦
            close_left (ascend ongoing fields) c b r
              (arrive ongoing fields key raws go (suc depth) l)
      ]

  -- past the last bit the turns that would follow are not asked for
  last_turn :
      (go go' : Node → Outcome Node) (depth : ℕ) (c : Content) (b : Backup) (l r : Node)
      → bit (sum256 key) depth ≡ none
      → turn go depth c b l r ≡ turn go' depth c b l r
  last_turn go go' depth c b l r e = rw e refl

  -- Fuel for one turn at each bit of the hash that is left, and one more, is enough: with any
  -- more the loop of Add ends in the same way.
  pub add_at_fuel :
      (fuel plenty depth : ℕ) (n : Node)
      → depth + suc fuel ≡ 8 * length (sum256 key) + 1
      → fuel ≤ plenty
      → add_at ongoing fields key raws (suc plenty) depth n
        ≡ add_at ongoing fields key raws (suc fuel) depth n
  unfolding add_at
  add_at_fuel fuel plenty depth (leaf c b) h le = refl
  add_at_fuel zero plenty depth (inner c b l r) h le =
      last_turn (add_at ongoing fields key raws plenty (suc depth))
        (add_at ongoing fields key raws zero (suc depth)) depth c b l r
        (bit-end (sum256 key) depth (omega (arith, h)))
  add_at_fuel (suc fuel) zero depth (inner c b l r) h le = absurd (omega (arith, le))
  add_at_fuel (suc fuel) (suc plenty) depth (inner c b l r) h le =
      ap (λ (go : Node → Outcome Node). turn go depth c b l r)
        (fun_ext
          (λ m. add_at_fuel fuel plenty (suc depth) m (omega (arith, h)) (omega (arith, le))))
