-- ===== src/Darc/Rules/Protected.antt =====
-- What the methods do to each rule, and that most of them leave the default rules alone.
use student_18_byzcoin.Bytes.{Bytes, equal}
use student_18_byzcoin.Bytes.Equal.{equal→≡}
use student_18_byzcoin.Common.{
  if◌then◌else◌, Bool-cases, Option-cases, Outcome, done, fail, crash, ignoring, done-injective,
  ◌≡◌, refl, sym, ap, ◌∙◌, inl, inr, true, false, Option, none, some, List, [], ◌∷◌, arith,
}
use student_18_byzcoin.Darc.Rules.{
  Action, Expr, Rules, lookup, put, contains, add_rule, update_rule, delete_rules,
}

lookup-put :
    (rs : Rules) (a : Action) (expr : Expr) (b : Action)
    → lookup (put rs a expr) b ≡ (if equal a b then some expr else lookup rs b)
unfolding lookup put
lookup-put [] a expr b = refl
lookup-put (r ∷ rs) a expr b = elim (Bool-cases (equal r.action a)) [
  | inl h ↦
      let q : equal a b ≡ equal r.action b =
        ap (λ (x : Bytes). equal x b) (sym (equal→≡ r.action a h)) in
      ground (arith, h, q)
  | inr h ↦ elim (Bool-cases (equal a b)) [
    | inl g ↦
        let q : equal r.action b ≡ false = ap (equal r.action) (sym (equal→≡ a b g)) ∙ h in
        ground (arith, h, g, q, lookup-put rs a expr b)
    | inr g ↦ ground (arith, h, g, lookup-put rs a expr b)
  ]
]

contains-none : (rs : Rules) (a : Action) → lookup rs a ≡ none → contains rs a ≡ false
unfolding contains
contains-none rs a h = ap (λ (o : Option Expr). elim o [ none ↦ false | some x ↦ true ]) h

contains-some : (rs : Rules) (a : Action) (e : Expr) → lookup rs a ≡ some e → contains rs a ≡ true
unfolding contains
contains-some rs a e h = ap (λ (o : Option Expr). elim o [ none ↦ false | some x ↦ true ]) h

-- An AddRule that returns nil was of an action that had no expression, gives it the new one, and
-- leaves every other action its own.
lookup-add_rule :
    (rs rs' : Rules) (a : Action) (expr : Expr) (b : Action)
    → add_rule rs a expr ≡ done rs'
    → (lookup rs a ≡ none) × (lookup rs' b ≡ (if equal a b then some expr else lookup rs b))
unfolding add_rule
lookup-add_rule rs rs' a expr b e = elim (Option-cases (lookup rs a)) [
  | inr (x, h) ↦ absurd (cc (rw (contains-some rs a x h) at e))
  | inl h ↦
      let q : put rs a expr ≡ rs' = done-injective (rw (contains-none rs a h) at e) in
      (h, ap (λ x. lookup x b) (sym q) ∙ lookup-put rs a expr b)
]

-- a call of one of the methods that name any action
pub data Edit : Type 0 where
  adds updates : Action → Expr → Edit
  deletes : Action → Edit

abbrev pub edit : Edit → Rules → Outcome Rules
edit (adds a expr) rs = add_rule rs a expr
edit (updates a expr) rs = update_rule rs a expr
edit (deletes a) rs = delete_rules rs a

-- the calls one after the other, whatever errors they return
unfoldable pub edit_all : List Edit → Rules → Outcome Rules
edit_all [] rs = done rs
edit_all (x ∷ xs) rs = ignoring (edit x rs) (edit_all xs)

-- the map has the expression, or the call panicked
abbrev Holds : Action → Expr → Outcome Rules → Type 0
Holds a expr (done rs) = lookup rs a ≡ some expr
Holds a expr (fail e rs) = lookup rs a ≡ some expr
Holds a expr crash = ⊥
