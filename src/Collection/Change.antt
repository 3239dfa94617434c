-- ===== src/Collection/Change.antt =====
-- Collection.Set, SetField and Remove of omniledger/collection/manipulators.go.
pub mod Leaf
pub mod Up
pub mod Walked
pub mod Reads
pub mod Total
pub mod Fail
use student_18_byzcoin.Bytes.{Bytes, equal}
use student_18_byzcoin.Collection.Collect.{collect_unless_ongoing}
use student_18_byzcoin.Collection.State.{Collection, with_root}
use student_18_byzcoin.Collection.Walk.{backup_if, ascend, walk_root}
use student_18_byzcoin.Common.{
  leb, ◌==◌, if◌then◌else◌, key_not_found, Result, ok, err, panic, ◌>>=◌, Outcome, done, fail,
  crash, and_then, ignoring, map_outcome, length, replicate, ℕ, zero, suc, Bool, not, ◌&&◌, ◌||◌,
  List, [], ◌∷◌,
}
use student_18_byzcoin.Field.{Value, same_value, Field}
use student_18_byzcoin.Hash.{Hashing, sum256}
use student_18_byzcoin.Node.{
  Content, Node, leaf, inner, Backup, content, write, leaf?, placeholder?, prune,
}
use student_18_byzcoin.SingleNode.{update, set_placeholder}

-- The loop of `Set` over the fields: a value that is `Same` is left as it is, and any other is
-- encoded and written in its place.
unfoldable pub write_values : List Field → List Value → List Bytes → Result (List Bytes)
write_values [] vs xs = ok xs
write_values (f ∷ fs) [] xs = panic
write_values (f ∷ fs) (same_value ∷ vs) [] = write_values fs vs []
write_values (f ∷ fs) (same_value ∷ vs) (x ∷ xs) = do ys ← write_values fs vs xs; ok (x ∷ ys)
write_values (f ∷ fs) (v ∷ vs) [] = panic
write_values (f ∷ fs) (v ∷ vs) (x ∷ xs) = do y ← f.encode v; ys ← write_values fs vs xs; ok (y ∷ ys)

-- the arguments that `SetField` hands to `Set`
unfoldable pub only_field : ℕ → ℕ → Value → List Value
only_field zero field v = []
only_field (suc n) zero v = v ∷ replicate n same_value
only_field (suc n) (suc field) v = same_value ∷ only_field n field v

module _ ⦃H : Hashing⦄ where
  module _ (ongoing : Bool) (fields : List Field) (key : Bytes) where
    -- `Set` at the leaf
    unfoldable pub set_leaf : List Value → Content → Backup → Outcome Node
    unfolding write_values update
    set_leaf vs c b =
        if not (equal c.key key)
        then fail key_not_found (leaf c b)
        else elim (write_values fields vs c.values) [
          | err e ↦ crash
          | panic ↦ crash
          | ok ys ↦
              ignoring
                (update fields
                  (write (λ k. record k { values = ys }) (backup_if ongoing (leaf c b))))
                done
        ]

    -- `Remove` at the leaf
    unfoldable pub remove_leaf : Content → Backup → Outcome Node
    unfolding set_placeholder
    remove_leaf c b =
        if not (equal c.key key)
        then fail key_not_found (leaf c b)
        else set_placeholder fields (backup_if ongoing (leaf c b))

  -- a node whose only record is in one child takes the record's place
  abbrev pub collapse : Bool → Content → Backup → Node → Node → Node
  collapse ongoing c b l r =
      let kept = content (if placeholder? l then r else l) in
      prune (
        write (λ k. record k { label = kept.label; key = kept.key; values = kept.values })
          (backup_if ongoing (inner c b l r)))

  abbrev pub one_record : Node → Node → Bool
  one_record l r = (placeholder? l && leaf? r) || (placeholder? r && leaf? l)

  -- one step of the walk of `Remove` back to the root
  unfoldable pub remove_up : Bool → List Field → ℕ → Node → Outcome Node
  unfolding ascend prune
  remove_up ongoing fields depth (leaf c b) = ascend ongoing fields (leaf c b)
  remove_up ongoing fields depth (inner c b l r) =
      if not (depth == 0) && one_record l r
      then done (collapse ongoing c b l r)
      else ascend ongoing fields (inner c b l r)

  -- Set
  unfoldable pub set_record : Collection → Bytes → List Value → Outcome Collection
  unfolding set_leaf walk_root ascend
  set_record c key vs =
      if not (length vs == length c.fields)
      then crash
      else and_then
          (map_outcome (with_root c) (
            walk_root (sum256 key) (set_leaf c.ongoing c.fields key vs)
              (λ depth. ascend c.ongoing c.fields) c.root))
          collect_unless_ongoing

  -- SetField
  unfoldable pub set_field : Collection → Bytes → ℕ → Value → Outcome Collection
  unfolding set_record only_field
  set_field c key field v =
      if leb (length c.fields) field
      then crash
      else set_record c key (only_field (length c.fields) field v)

  -- Remove
  unfoldable pub remove : Collection → Bytes → Outcome Collection
  unfolding remove_leaf walk_root remove_up
  remove c key =
      and_then
        (map_outcome (with_root c) (
          walk_root (sum256 key) (remove_leaf c.ongoing c.fields key) (remove_up c.ongoing c.fields)
            c.root))
        collect_unless_ongoing
