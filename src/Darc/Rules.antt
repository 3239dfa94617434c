-- ===== src/Darc/Rules.antt =====
-- The methods of Rules of omniledger/darc/darc.go. The Go map is an association list with one entry
-- for each action. A call that fails changes nothing, but returns the map with the error.
pub mod Protected
use student_18_byzcoin.Bytes.{Bytes, equal}
use student_18_byzcoin.Common.{
  if◌then◌else◌, action_exists, action_missing, default_action, Outcome, done, fail, Bool, true,
  false, not, ◌||◌, Option, none, some, List, [], ◌∷◌,
}
use student_18_byzcoin.Expression.{init_and_expr, init_or_expr}

abbrev pub Action : Type 0
Action = Bytes

abbrev pub Expr : Type 0
Expr = Bytes

pub record Rule : Type 0 where
  pub action : Action
  pub expr : Expr

abbrev pub Rules : Type 0
Rules = List Rule

-- "_evolve" and "_sign"
abbrev pub evolve : Action
evolve = 95 ∷ 101 ∷ 118 ∷ 111 ∷ 108 ∷ 118 ∷ 101 ∷ []

abbrev pub sign : Action
sign = 95 ∷ 115 ∷ 105 ∷ 103 ∷ 110 ∷ []

-- r[a]
unfoldable pub lookup : Rules → Action → Option Expr
lookup [] a = none
lookup (r ∷ rs) a = if equal r.action a then some r.expr else lookup rs a

-- r[a] = expr
unfoldable pub put : Rules → Action → Expr → Rules
put [] a expr = record { action = a; expr = expr } ∷ []
put (r ∷ rs) a expr =
    let rest = put rs a expr in
    if equal r.action a then record { action = a; expr = expr } ∷ rs else r ∷ rest

-- delete(r, a)
unfoldable pub erase : Rules → Action → Rules
erase [] a = []
erase (r ∷ rs) a = let rest = erase rs a in if equal r.action a then rest else r ∷ rest

-- Contains
unfoldable pub contains : Rules → Action → Bool
unfolding lookup
contains rs a = elim (lookup rs a) [ none ↦ false | some e ↦ true ]

-- isDefault
unfoldable pub is_default : Action → Bool
is_default a = equal a evolve || equal a sign

-- AddRule
unfoldable pub add_rule : Rules → Action → Expr → Outcome Rules
unfolding contains put
add_rule rs a expr = if contains rs a then fail action_exists rs else done (put rs a expr)

-- updateRule
unfoldable pub update_any : Rules → Action → Expr → Outcome Rules
unfolding contains put
update_any rs a expr = if not (contains rs a) then fail action_missing rs else done (put rs a expr)

-- UpdateRule
unfoldable pub update_rule : Rules → Action → Expr → Outcome Rules
unfolding is_default update_any
update_rule rs a expr = if is_default a then fail default_action rs else update_any rs a expr

-- UpdateEvolution and UpdateSign
unfoldable pub update_evolution : Rules → Expr → Outcome Rules
unfolding update_any
update_evolution rs expr = update_any rs evolve expr

unfoldable pub update_sign : Rules → Expr → Outcome Rules
unfolding update_any
update_sign rs expr = update_any rs sign expr

-- DeleteRules
unfoldable pub delete_rules : Rules → Action → Outcome Rules
unfolding is_default contains erase
delete_rules rs a =
    if is_default a
    then fail default_action rs
    else if not (contains rs a)
    then fail action_missing rs
    else done (erase rs a)

-- a missing key reads as nil
abbrev or_nil : Option Expr → Expr
or_nil none = []
or_nil (some e) = e

-- GetEvolutionExpr and GetSignExpr
unfoldable pub get_evolution_expr : Rules → Expr
unfolding lookup
get_evolution_expr rs = or_nil (lookup rs evolve)

unfoldable pub get_sign_expr : Rules → Expr
unfolding lookup
get_sign_expr rs = or_nil (lookup rs sign)

-- InitRules, of the strings of the identities
unfoldable pub init_rules : List Bytes → List Bytes → Rules
unfolding put
init_rules owners signers = put (put [] evolve (init_and_expr owners)) sign (init_or_expr signers)
