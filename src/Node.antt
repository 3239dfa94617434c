-- ===== src/Node.antt =====
-- omniledger/collection/node.go: one node of the tree, with its subtree. The pointers `left` and
-- `right` are nil together, so a node is a leaf or has both. `parent` has no field: a walk up to
-- the root is the return of the walk down.
--
-- A backup holds the children that the node had. They are values here and pointers there: the
-- source backs an inner node up only where it prunes its children off (`Remove`), so nothing
-- writes to them until a rollback puts them back.
use student_18_byzcoin.Bytes.{Bytes, zero_digest}
use student_18_byzcoin.Common.{◌==◌, length, Bool, true, false, ◌&&◌, List, []}

pub record Content : Type 0 where
  pub label : Bytes
  pub known : Bool
  pub inconsistent : Bool
  pub key : Bytes
  pub values : List Bytes

mutual
  pub data Node : Type 0 where
    leaf : Content → Backup → Node
    inner : Content → Backup → Node → Node → Node

  pub data Backup : Type 0 where
    unsaved : Backup
    saved : Node → Backup

-- new(node)
abbrev pub new_content : Content
new_content = record {
  label = zero_digest;
  known = false;
  inconsistent = false;
  key = [];
  values = [];
}

abbrev pub new_node : Node
new_node = leaf new_content unsaved

abbrev pub content : Node → Content
content (leaf c b) = c
content (inner c b l r) = c

-- writes to the fields of the node itself
abbrev pub write : (Content → Content) → Node → Node
write f (leaf c b) = leaf (f c) b
write f (inner c b l r) = inner (f c) b l r

abbrev pub leaf? : Node → Bool
leaf? (leaf c b) = true
leaf? (inner c b l r) = false

abbrev pub placeholder? : Node → Bool
placeholder? n = leaf? n && length (content n).key == 0

abbrev pub backup_of : Node → Backup
backup_of (leaf c b) = b
backup_of (inner c b l r) = b

abbrev pub set_backup : Backup → Node → Node
set_backup b (leaf c _) = leaf c b
set_backup b (inner c _ l r) = inner c b l r

abbrev save_once : Node → Backup → Backup
save_once n (saved old) = saved old
save_once n unsaved = saved (set_backup unsaved n)

-- node.backup: the copy has no backup of its own
unfoldable pub backup : Node → Node
backup n = set_backup (save_once n (backup_of n)) n

restore_from : Node → Backup → Node
restore_from n unsaved = n
restore_from n (saved old) = set_backup unsaved old

-- node.restore
unfoldable pub restore : Node → Node
unfolding restore_from
restore n = restore_from n (backup_of n)

-- node.branch
unfoldable pub branch : Node → Node
branch (leaf c b) = inner c b new_node new_node
branch (inner c b l r) = inner c b new_node new_node

-- node.prune
unfoldable pub prune : Node → Node
prune (leaf c b) = leaf c b
prune (inner c b l r) = leaf c b
