-- ===== src/Collection/Transaction.antt =====
-- omniledger/collection/transaction.go: several changes that take effect, or are undone, together.
use student_18_byzcoin.Collection.Collect.{collect}
use student_18_byzcoin.Collection.State.{Collection, with_root}
use student_18_byzcoin.Common.{
  if◌then◌else◌, Result, ok, panic, Outcome, done, crash, and_then, ignoring, map_outcome, ◌+◌, ◌%◌,
  ◌^◌, Bool, true, false, not, List,
}
use student_18_byzcoin.Field.{Field}
use student_18_byzcoin.Hash.{Hashing}
use student_18_byzcoin.Node.{Content, Node, leaf, inner, Backup, unsaved, saved, write}
use student_18_byzcoin.SingleNode.{update}

-- `explore` of Rollback. A node that a backup takes the place of is restored first, and its old
-- children are explored.
unfoldable pub rollback_node : Node → Node
rollback_node (leaf c unsaved) = leaf c unsaved
rollback_node (leaf c (saved (leaf k _))) = leaf k unsaved
rollback_node (leaf c (saved (inner k _ l r))) = inner k unsaved (rollback_node l) (rollback_node r)
rollback_node (inner c unsaved l r) =
    if c.inconsistent
    then inner c unsaved (rollback_node l) (rollback_node r)
    else inner c unsaved l r
rollback_node (inner c (saved (leaf k _)) l r) = leaf k unsaved
rollback_node (inner c (saved (inner k _ l r)) _ _) =
    inner k unsaved (rollback_node l) (rollback_node r)

-- node.transaction.inconsistent || (node.transaction.backup != nil)
abbrev pub touched : Content → Backup → Bool
touched c unsaved = c.inconsistent
touched c (saved _) = true

-- `explore` of confirm
unfoldable pub confirm_node : Node → Node
confirm_node (leaf c b) = leaf c unsaved
confirm_node (inner c b l r) =
    if touched c b then inner c unsaved (confirm_node l) (confirm_node r) else inner c b l r

module _ ⦃H : Hashing⦄ where
  -- c.update(node); node.transaction.inconsistent = false
  unfoldable pub settle : List Field → Node → Outcome Node
  unfolding update
  settle fields n =
      ignoring (update fields n) (λ m. done (write (λ c. record c { inconsistent = false }) m))

  -- `explore` of fix
  unfoldable pub fix_node : List Field → Node → Outcome Node
  unfolding settle
  fix_node fields (leaf c b) = if c.inconsistent then settle fields (leaf c b) else done (leaf c b)
  fix_node fields (inner c b l r) =
      if c.inconsistent
      then and_then (fix_node fields l)
          (λ l'. and_then (fix_node fields r) (λ r'. settle fields (inner c b l' r')))
      else done (inner c b l r)

-- Begin
unfoldable pub begin : Collection → Result Collection
begin c = if c.ongoing then panic else ok (record c { ongoing = true })

-- c.transaction.id++ (a uint64); c.transaction.ongoing = false
abbrev pub close : Collection → Collection
close c = record c { transaction_id = (c.transaction_id + 1) % 2 ^ 64; ongoing = false }

-- Rollback
unfoldable pub rollback : Collection → Result Collection
unfolding rollback_node
rollback c = if not c.ongoing then panic else ok (close (with_root c (rollback_node c.root)))

module _ ⦃H : Hashing⦄ where
  -- End
  unfoldable pub end : Collection → Outcome Collection
  unfolding confirm_node fix_node collect
  end c =
      if not c.ongoing
      then crash
      else and_then (map_outcome (with_root c) (fix_node c.fields (confirm_node c.root)))
          (λ d. map_outcome close (if d.auto_collect.value then collect d else done d))
