-- ===== src/Collection/Walk.antt =====
-- The walks of omniledger/collection/manipulators.go down to a node and back to the root.
pub mod Simulates
pub mod Descent
use student_18_byzcoin.Bytes.{Bytes, bit}
use student_18_byzcoin.Common.{
  if◌then◌else◌, unknown_subtree, Outcome, done, fail, crash, ignoring, ℕ, suc, Bool, true, false,
  not, ◌||◌, none, some, List,
}
use student_18_byzcoin.Field.{Field}
use student_18_byzcoin.Hash.{Hashing}
use student_18_byzcoin.Node.{Content, Node, leaf, inner, Backup, content, write, backup}
use student_18_byzcoin.SingleNode.{update}

-- cursor.transaction.inconsistent = true
abbrev pub mark_inconsistent : Node → Node
mark_inconsistent = write (λ c. record c { inconsistent = true })

-- if c.transaction.ongoing { cursor.backup() }
abbrev pub backup_if : Bool → Node → Node
backup_if ongoing n = if ongoing then backup n else n

-- The outcome of the work at one child, taken to the parent: `up` is what the walk back does there.
abbrev pub close_left :
    (Node → Outcome Node) → Content → Backup → Node → Outcome Node → Outcome Node
close_left up c b r (done l) = up (inner c b l r)
close_left up c b r (fail e l) = fail e (inner c b l r)
close_left up c b r crash = crash

abbrev pub close_right :
    (Node → Outcome Node) → Content → Backup → Node → Outcome Node → Outcome Node
close_right up c b l (done r) = up (inner c b l r)
close_right up c b l (fail e r) = fail e (inner c b l r)
close_right up c b l crash = crash

-- !(cursor.children.left.known) || !(cursor.children.right.known)
abbrev pub hides_child : Node → Node → Bool
hides_child l r = not (content l).known || not (content r).known

module _ ⦃H : Hashing⦄ where
  -- one step of the walk back to the root of `Add` and `Set`
  unfoldable pub ascend : Bool → List Field → Node → Outcome Node
  unfolding update
  ascend ongoing fields n =
      if ongoing then done (mark_inconsistent n) else ignoring (update fields n) done

-- The loops of `Set` and `Remove`: down to the leaf at the end of the path, and back up with what
-- `at_leaf` left there. `up` is told the depth of the node, which is 0 at the root.
module _ (path : Bytes) (at_leaf : Content → Backup → Outcome Node)
    (up : ℕ → Node → Outcome Node) where
  unfoldable pub walk : ℕ → Node → Outcome Node
  walk depth (leaf c b) = at_leaf c b
  walk depth (inner c b l r) =
      if hides_child l r then fail unknown_subtree (inner c b l r) else elim (bit path depth) [
        | none ↦ crash
        | some true ↦ close_right (up depth) c b l (walk (suc depth) r)
        | some false ↦ close_left (up depth) c b r (walk (suc depth) l)
      ]

  -- A root with no children is a nil pointer in the first turn.
  unfoldable pub walk_root : Node → Outcome Node
  unfolding walk
  walk_root (leaf c b) = if not c.known then fail unknown_subtree (leaf c b) else crash
  walk_root (inner c b l r) =
      if not c.known then fail unknown_subtree (inner c b l r) else walk 0 (inner c b l r)
