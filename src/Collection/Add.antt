-- ===== src/Collection/Add.antt =====
-- Collection.Add of omniledger/collection/manipulators.go.
--
-- The loop walks down from a cursor whose children it tests; each turn goes one level deeper, and
-- reads one more bit of the path. Walking back up updates each ancestor, or marks it while a
-- transaction is on. The fuel bounds the depth: past the last bit of the path `bit` panics, so
-- there is fuel for one turn at each bit of a hash, and one more.
pub mod Leaf
pub mod Refines
pub mod Reads
pub mod Fail
pub mod Fuel
pub mod Total
use student_18_byzcoin.Bytes.{Bytes, equal, bit}
use student_18_byzcoin.Collection.Collect.{collect_unless_ongoing}
use student_18_byzcoin.Collection.State.{Collection, with_root, encode_all}
use student_18_byzcoin.Collection.Walk.{backup_if, close_left, close_right, hides_child, ascend}
use student_18_byzcoin.Common.{
  ◌==◌, if◌then◌else◌, empty_key, unknown_subtree, key_collision, panic, err, ok, Outcome, done,
  fail, crash, and_then, ignoring, map_outcome, length, ℕ, zero, suc, ◌+◌, ◌*◌, Bool, true, false,
  not, Option, none, some, List, [],
}
use student_18_byzcoin.Field.{Value, Field}
use student_18_byzcoin.Hash.{Hashing, sum256}
use student_18_byzcoin.Node.{
  Content, Node, leaf, inner, Backup, unsaved, new_content, new_node, content, write, backup_of,
}
use student_18_byzcoin.SingleNode.{update, set_placeholder}

-- the leaf that takes the place of the one split, below it
abbrev pub moved_leaf : Content → Node
moved_leaf c =
    leaf (record new_content { known = true; label = c.label; key = c.key; values = c.values })
      unsaved

module _ ⦃H : Hashing⦄ where
  module _ (ongoing : Bool) (fields : List Field) where
    -- A leaf with another key: it becomes an inner node, and the record that it held moves to the
    -- child on the side of its own next bit.
    unfoldable pub split : Option Bool → Content → Backup → Outcome Node
    unfolding set_placeholder
    split none c b = crash
    split (some collision_step) c b =
        let cursor = write (λ c. record c { key = [] }) (backup_if ongoing (leaf c b)) in
        elim (set_placeholder fields new_node) [
          | done p ↦ done (
              if collision_step
              then inner (content cursor) (backup_of cursor) p (moved_leaf c)
              else inner (content cursor) (backup_of cursor) (moved_leaf c) p)
          | fail e p ↦ fail e (
              if collision_step
              then inner (content cursor) (backup_of cursor) p (moved_leaf c)
              else inner (content cursor) (backup_of cursor) (moved_leaf c) p)
          | crash ↦ crash
        ]

  module _ (ongoing : Bool) (fields : List Field) (key : Bytes) (raws : List Bytes) where
    -- the placeholder that the path ends at takes the record
    unfoldable pub fill : Node → Outcome Node
    unfolding update
    fill n =
        ignoring
          (update fields (write (λ c. record c { key = key; values = raws }) (backup_if ongoing n)))
          done

    -- what the loop does at the node that it steps to, with `go` the turns that follow
    unfoldable pub arrive : (Node → Outcome Node) → ℕ → Node → Outcome Node
    unfolding fill split
    arrive go depth (leaf c b) =
        if length c.key == 0
        then fill (leaf c b)
        else if equal key c.key
        then fail key_collision (leaf c b)
        else and_then (split ongoing fields (bit (sum256 c.key) depth) c b) go
    arrive go depth (inner c b l r) = go (inner c b l r)

    -- the loop, from the cursor
    unfoldable pub add_at : ℕ → ℕ → Node → Outcome Node
    add_at zero depth n = crash
    add_at (suc fuel) depth (leaf c b) = crash
    add_at (suc fuel) depth (inner c b l r) =
        if hides_child l r
        then fail unknown_subtree (inner c b l r)
        else elim (bit (sum256 key) depth) [
          | none ↦ crash
          | some true ↦
              close_right (ascend ongoing fields) c b l
                (arrive (add_at fuel (suc depth)) (suc depth) r)
          | some false ↦
              close_left (ascend ongoing fields) c b r
                (arrive (add_at fuel (suc depth)) (suc depth) l)
        ]

    -- `Add` from the root
    unfoldable pub add_root : Node → Outcome Node
    unfolding add_at
    add_root n =
        if not (content n).known
        then fail unknown_subtree n
        else add_at (8 * length (sum256 key) + 1) 0 n

  -- Add
  unfoldable pub add : Collection → Bytes → List Value → Outcome Collection
  unfolding add_root
  add c key vs =
      if length key == 0
      then fail empty_key c
      else if not (length vs == length c.fields)
      then crash
      else elim (encode_all c.fields vs) [
        | err e ↦ crash
        | panic ↦ crash
        | ok raws ↦
            and_then (map_outcome (with_root c) (add_root c.ongoing c.fields key raws c.root))
              collect_unless_ongoing
      ]
