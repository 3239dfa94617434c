-- ===== src/Collection/State.antt =====
-- omniledger/collection/collection.go: the collection, its constructors and its copy.
use student_18_byzcoin.Bytes.{Bytes}
use student_18_byzcoin.Common.{
  if◌then◌else◌, Result, panic, ok, ◌>>=◌, Outcome, done, fail, crash, ignoring, ℕ, Bool, true,
  false, List, [], ◌∷◌,
}
use student_18_byzcoin.Field.{Value, Field}
use student_18_byzcoin.Hash.{Hashing}
use student_18_byzcoin.Node.{Node, leaf, inner, unsaved, new_content, new_node, content}
use student_18_byzcoin.Scope.{Scope, scope_all, scope_none, scope_clone, Flag}
use student_18_byzcoin.SingleNode.{update, set_placeholder}

pub record Collection : Type 0 where
  pub root : Node
  pub fields : List Field
  pub scope : Scope
  pub auto_collect : Flag
  pub ongoing : Bool
  pub transaction_id : ℕ

abbrev pub with_root : Collection → Node → Collection
with_root c n = record c { root = n }

-- GetRoot, which answers with the key of the root node
unfoldable pub get_root : Collection → Bytes
get_root c = (content c.root).key

-- `values` of `Add` and `Set` in their raw form, one `Encode` after the other
unfoldable pub encode_all : List Field → List Value → Result (List Bytes)
encode_all [] vs = ok []
encode_all (f ∷ fs) [] = panic
encode_all (f ∷ fs) (v ∷ vs) = do x ← f.encode v; xs ← encode_all fs vs; ok (x ∷ xs)

-- `explore` of Clone
unfoldable pub copy_node : Node → Node
copy_node (leaf c b) = leaf (record c { inconsistent = false }) unsaved
copy_node (inner c b l r) =
    inner (record c { inconsistent = false }) unsaved (copy_node l) (copy_node r)

-- Clone
unfoldable pub clone : Collection → Result Collection
unfolding copy_node scope_clone
clone c =
    if c.ongoing
    then panic
    else ok (record {
      root = copy_node c.root;
      fields = c.fields;
      scope = scope_clone c.scope;
      auto_collect = c.auto_collect;
      ongoing = false;
      transaction_id = 0;
    })

module _ ⦃H : Hashing⦄ where
  -- `collection.root.children.left` and `right`, as New fills them
  abbrev pub first_child : List Field → Outcome Node
  first_child fields = set_placeholder fields new_node

  -- New: `collection.update(collection.root)` drops its error
  unfoldable pub new : List Field → Result Collection
  unfolding set_placeholder
  new fields = elim (first_child fields) [
    | fail e n ↦ panic
    | crash ↦ panic
    | done child ↦
        elim (ignoring
          (update fields (inner (record new_content { known = true }) unsaved child child))
          (λ n. done n)) [
            | fail e n ↦ panic
            | crash ↦ panic
            | done root ↦ ok (record {
              root = root;
              fields = fields;
              scope = scope_all;
              auto_collect = record { value = true };
              ongoing = false;
              transaction_id = 0;
            })
          ]
  ]

  -- NewVerifier: a collection that knows the label of the empty tree, and no node
  unfoldable pub new_verifier : List Field → Result Collection
  unfolding new
  new_verifier fields = do
    empty ← new fields
    ok (record {
      root = leaf (record new_content { label = (content empty.root).label }) unsaved;
      fields = fields;
      scope = scope_none;
      auto_collect = record { value = true };
      ongoing = false;
      transaction_id = 0;
    })
