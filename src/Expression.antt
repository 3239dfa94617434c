-- ===== src/Expression.antt =====
-- omniledger/darc/expression/expression.go: expressions over identities, such as
-- "ed25519:a & darc:b". Matching the text is the work of github.com/prataprc/goparsec, so the match is
-- a parameter: the tree of the rules that it applied. The callbacks on the nodes are the program's.
pub mod Denotes
pub mod Evaluate
pub mod Related
pub mod Names
mod Examples
use student_18_byzcoin.Bytes.{Bytes, equal}
use student_18_byzcoin.Common.{
  if◌then◌else◌, scanner_not_empty, failed_to_cast, Result, panic, err, ok, ◌>>=◌, Bool, true,
  false, not, ◌&&◌, ◌||◌, Option, none, some, List, [], ◌∷◌, ◌++◌,
}

-- the names of the terminals that the callbacks see
pub data TokenName : Type 0 where
  and_name or_name id_name open_name close_name : TokenName

-- parsec.ParsecNode, by the dynamic types that occur: nil, bool, *parsec.Terminal, []ParsecNode
mutual
  pub data ParsecNode : Type 0 where
    nil_node : ParsecNode
    truth : Bool → ParsecNode
    terminal : TokenName → Bytes → ParsecNode
    many : ParsecNodes → ParsecNode

  pub data ParsecNodes : Type 0 where
    no_nodes : ParsecNodes
    more : ParsecNode → ParsecNodes → ParsecNodes

-- The rules `sum`, `prodK` and `value` as they matched: an operator of `prodK` is `&` or `|`.
mutual
  pub data Sum : Type 0 where
    sum_of : Term → Tail → Sum

  pub data Tail : Type 0 where
    no_tail : Tail
    and_term or_term : Term → Tail → Tail

  pub data Term : Type 0 where
    identity : Bytes → Term
    group : Sum → Term

-- The library on the rules of `InitParser`: the match at the start of the text, if there is one, and
-- whether the text ends there, but for white space.
pub record Grammar : Type 0 where
  pub parse : Bytes → Option Sum
  pub ended : Bytes → Bool

-- the switch on the name of the operator
abbrev pub combine : TokenName → Bool → Bool → Bool
combine and_name val n = val && n
combine or_name val n = val || n
combine _ val n = val

-- the loop of `sumNode`; a type assertion that fails is a panic
unfoldable pub sum_loop : Bool → ParsecNodes → Result ParsecNode
sum_loop val no_nodes = ok (truth val)
sum_loop val (more (many (more (terminal name text) (more (truth n) _))) xs) =
    sum_loop (combine name val n) xs
sum_loop val (more _ xs) = panic

unfoldable pub sum_node : ParsecNodes → Result ParsecNode
unfolding sum_loop
sum_node no_nodes = ok nil_node
sum_node (more (truth val) (more (many xs) _)) = sum_loop val xs
sum_node (more _ _) = panic

unfoldable pub expr_node : ParsecNodes → Result ParsecNode
expr_node no_nodes = ok nil_node
expr_node (more _ no_nodes) = panic
expr_node (more _ (more n _)) = ok n

unfoldable pub one2one : ParsecNodes → ParsecNode
one2one no_nodes = nil_node
one2one (more n _) = n

unfoldable pub many2many : ParsecNodes → ParsecNode
many2many no_nodes = nil_node
many2many (more n ns) = many (more n ns)

-- `v.(bool)`
abbrev pub cast_bool : ParsecNode → Result Bool
cast_bool (truth b) = ok b
cast_bool _ = err failed_to_cast

-- `fn` is the ValueCheckFn, which may panic
module _ (fn : Bytes → Result Bool) where
  unfoldable pub expr_value_node : ParsecNodes → Result ParsecNode
  expr_value_node no_nodes = ok nil_node
  expr_value_node (more (terminal name value) _) = do b ← fn value; ok (truth b)
  expr_value_node (more n _) = ok n

  -- The callbacks in the order in which the library calls them on a match, those of the parts first.
  unfoldable mutual
    unfolding sum_node expr_node one2one many2many expr_value_node

    pub apply_sum : Sum → Result ParsecNode
    apply_sum (sum_of v t) = do
      x ← apply_value v
      ts ← apply_tail t
      sum_node (more x (more (many ts) no_nodes))

    pub apply_tail : Tail → Result ParsecNodes
    apply_tail no_tail = ok no_nodes
    apply_tail (and_term v t) = do
      x ← apply_value v
      ts ← apply_tail t
      ok (
          more
            (many2many
              (more (one2one (more (terminal and_name (38 ∷ [])) no_nodes)) (more x no_nodes)))
            ts)
    apply_tail (or_term v t) = do
      x ← apply_value v
      ts ← apply_tail t
      ok (
          more
            (many2many
              (more (one2one (more (terminal or_name (124 ∷ [])) no_nodes)) (more x no_nodes)))
            ts)

    pub apply_value : Term → Result ParsecNode
    apply_value (identity s) = expr_value_node (more (terminal id_name s) no_nodes)
    apply_value (group s) = do
      x ← apply_sum s
      g ← expr_node (
          more (terminal open_name (40 ∷ []))
            (more x (more (terminal close_name (41 ∷ [])) no_nodes)))
      expr_value_node (more g no_nodes)

  -- the root parser of InitParser on a match
  unfoldable pub run_parser : Sum → Result ParsecNode
  unfolding apply_sum one2one
  run_parser s = do n ← apply_sum s; ok (one2one (more n no_nodes))

  -- Evaluate, with the parser that InitParser makes of `fn`. A parser that matches nothing returns nil.
  -- The callbacks run before the test of the rest, so their panic comes first.
  unfoldable pub evaluate : Grammar → Bytes → Result Bool
  unfolding run_parser
  evaluate g expr = do
    v ← elim (g.parse expr) [ none ↦ ok nil_node | some s ↦ run_parser s ]
    if not (g.ended expr) then err scanner_not_empty else cast_bool v

-- the loop over `ids`
unfoldable pub any_id : List Bytes → Bytes → Bool
any_id [] s = false
any_id (k ∷ ids) s = if equal k s then true else any_id ids s

-- DefaultParser
unfoldable pub default_parser : Grammar → Bytes → List Bytes → Result Bool
unfolding evaluate any_id
default_parser g expr ids = evaluate (λ s. ok (any_id ids s)) g expr

-- strings.Join
unfoldable pub join_with : Bytes → List Bytes → Bytes
join_with sep [] = []
join_with sep (x ∷ []) = x
join_with sep (x ∷ y ∷ xs) = x ++ sep ++ join_with sep (y ∷ xs)

-- InitAndExpr, with " & "
unfoldable pub init_and_expr : List Bytes → Bytes
unfolding join_with
init_and_expr ids = join_with (32 ∷ 38 ∷ 32 ∷ []) ids

-- InitOrExpr, with " | "
unfoldable pub init_or_expr : List Bytes → Bytes
unfolding join_with
init_or_expr ids = join_with (32 ∷ 124 ∷ 32 ∷ []) ids
