-- ===== src/Darc/Document/Ids.antt =====
-- The digest of a darc does not depend on the order in which a Go map gives its keys.
use mathlib.Core.Option.{some-injective}
use student_18_byzcoin.Common.{All, ◌≡◌, refl, sym, ap, ◌∙◌, some}
use student_18_byzcoin.Darc.Document.{Fields, darc_of, DarcPath, get_id}
use student_18_byzcoin.Darc.Rules.{Rule, Rules, lookup}
use student_18_byzcoin.Hash.{Hashing}
use student_18_byzcoin.Sorting.Permuted.{Reordered, sort_by-Reordered}

-- each rule is the one that the map has for its action
abbrev pub IsMap : Rules → Type 0
IsMap rs = All (λ (r : Rule). lookup rs r.action ≡ some r.expr) rs

one_rule :
    (rs : Rules) (x y : Rule)
    → lookup rs x.action ≡ some x.expr
    → lookup rs y.action ≡ some y.expr
    → x.action ≡ y.action
    → x ≡ y
one_rule rs x y px py e =
    let exprs : x.expr ≡ y.expr = some-injective _ _ (sym px ∙ ap (lookup rs) e ∙ py) in
    λ i. record { action = e i; expr = exprs i }

-- GetID of a darc whose rules have one expression for each action does not depend on the order in
-- which the rules are visited.
pub get_id-Reordered :
    ⦃H : Hashing⦄ (f : Fields) (p : DarcPath) (rs : Rules)
    → IsMap f.rules
    → Reordered f.rules rs
    → get_id (darc_of f p) ≡ get_id (darc_of (record f { rules = rs }) p)
unfolding get_id
get_id-Reordered f p rs h r =
    rw
      (sort_by-Reordered (λ (r : Rule). r.action)
        (λ (r : Rule). lookup f.rules r.action ≡ some r.expr) (one_rule f.rules) r h)
      refl
