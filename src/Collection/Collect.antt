-- ===== src/Collection/Collect.antt =====
-- Collection.Collect of omniledger/collection/transaction.go: nodes out of the scope are forgotten.
pub mod Keeps
pub mod Total
use student_18_byzcoin.Bytes.{Bytes, set_bit, zero_digest}
use student_18_byzcoin.Collection.State.{Collection, with_root}
use student_18_byzcoin.Common.{
  ◌==◌, if◌then◌else◌, Result, panic, err, ok, ◌>>=◌, or_panic, Outcome, done, crash, ℕ, ◌+◌, ◌-◌,
  Bool, true, false, not, ◌||◌, Option, some, [],
}
use student_18_byzcoin.Node.{Node, leaf, inner, content, backup_of}
use student_18_byzcoin.Scope.{Scope, scope_match}
use mathlib.Core.Option

-- node.known = false and the fields emptied, with the children cut off
abbrev pub forget : Node → Node
forget n = leaf (record (content n) { known = false; key = []; values = [] }) (backup_of n)

-- bit > 0 && !(c.scope.match(path, bit-1))
unfoldable pub out_of_scope : Scope → Bytes → ℕ → Option Bool
unfolding scope_match
out_of_scope s path index =
    if index == 0 then some false else Option.map not (scope_match s path (index - 1))

-- `explore`: `path` is an array, so each call works on a copy.
module _ (s : Scope) where
  unfoldable pub collect_at : Bytes → ℕ → Node → Result Node
  collect_at path index (leaf c b) = if not c.known then ok (leaf c b) else do
    out ← or_panic (out_of_scope s path index)
    ok (if out then forget (leaf c b) else leaf c b)
  collect_at path index (inner c b l r) = if not c.known then ok (inner c b l r) else do
    out ← or_panic (out_of_scope s path index)
    elim out [
      | true ↦ ok (forget (inner c b l r))
      | false ↦ (do
        path_left ← or_panic (set_bit path (index + 1) false)
        l' ← collect_at path_left (index + 1) l
        path_right ← or_panic (set_bit path_left (index + 1) true)
        r' ← collect_at path_right (index + 1) r
        ok (inner c b l' r'))
    ]

  -- `none` of the source: neither side of the root is in the scope
  unfoldable pub covers_nothing : Result Bool
  unfolding scope_match
  covers_nothing = do
    path_left ← or_panic (set_bit zero_digest 0 false)
    on_left ← or_panic (scope_match s path_left 0)
    path_right ← or_panic (set_bit path_left 0 true)
    on_right ← or_panic (scope_match s path_right 0)
    ok (not (on_left || on_right))

  collect_children : Node → Result Node
  unfolding collect_at
  collect_children (leaf c b) = panic
  collect_children (inner c b l r) = do
    path_left ← or_panic (set_bit zero_digest 0 false)
    l' ← collect_at path_left 0 l
    path_right ← or_panic (set_bit path_left 0 true)
    r' ← collect_at path_right 0 r
    ok (inner c b l' r')

  unfoldable pub collect_root : Node → Result Node
  unfolding covers_nothing collect_children
  collect_root n =
      if not (content n).known
      then ok n
      else do nothing ← covers_nothing; if nothing then ok (forget n) else collect_children n

-- Collect
unfoldable pub collect : Collection → Outcome Collection
unfolding collect_root
collect c = elim (collect_root c.scope c.root) [
  | ok n ↦ done (with_root c n)
  | err e ↦ crash
  | panic ↦ crash
]

-- if !(c.transaction.ongoing) { c.Collect() }
unfoldable pub collect_unless_ongoing : Collection → Outcome Collection
unfolding collect
collect_unless_ongoing c = if c.ongoing then done c else collect c
