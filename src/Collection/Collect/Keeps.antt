-- ===== src/Collection/Collect/Keeps.antt =====
-- A collection whose scope is everything forgets nothing.
use mathlib.Core.Path.{ap₂}
use student_18_byzcoin.Bytes.{Bytes, set_bit, zero_digest}
use student_18_byzcoin.Collection.Collect.{
  collect_children, out_of_scope, collect_at, covers_nothing, collect_root, collect,
  collect_unless_ongoing,
}
use student_18_byzcoin.Collection.State.{Collection, with_root}
use student_18_byzcoin.Common.{
  Bool-cases, Error, Result, panic, err, ok, or_panic, bind-ok, ok-injective, Outcome, done, fail,
  crash, done-injective, ℕ, ◌+◌, ◌≡◌, refl, sym, ap, ◌∙◌, ◌≢◌, inl, inr, Bool, true, false, some,
  arith,
}
use student_18_byzcoin.Node.{Node, leaf, inner, content}
use student_18_byzcoin.Scope.{Scope, scope_all, scope_match}

pub out_of_scope-all : (path : Bytes) (index : ℕ) → out_of_scope scope_all path index ≡ some false
unfolding out_of_scope scope_match
out_of_scope-all path index = ground arith

collect_at-all :
    (path : Bytes) (index : ℕ) (n n' : Node) → collect_at scope_all path index n ≡ ok n' → n' ≡ n
unfolding collect_at
collect_at-all path index (leaf c b) n' e = ground (arith, out_of_scope-all path index)
collect_at-all path index (inner c b l r) n' e = elim (Bool-cases c.known) [
  | inr h ↦ ground (arith, h)
  | inl h ↦
      let e1 = simp (h, out_of_scope-all) at e in
      let (p, ep, e2) = bind-ok (or_panic (set_bit path (index + 1) false)) _ e1 in
      let (l', el, e3) = bind-ok (collect_at scope_all p (index + 1) l) _ e2 in
      let (q, eq, e4) = bind-ok (or_panic (set_bit p (index + 1) true)) _ e3 in
      let (r', er, e5) = bind-ok (collect_at scope_all q (index + 1) r) _ e4 in
      sym (ok-injective e5)
      ∙ ap₂ (λ x y. inner c b x y) (collect_at-all p (index + 1) l l' el)
          (collect_at-all q (index + 1) r r' er)
]

covers_nothing-all : (x : Bool) → covers_nothing scope_all ≡ ok x → x ≡ false
unfolding covers_nothing scope_match
covers_nothing-all x e =
    let (p, ep, e1) = bind-ok (or_panic (set_bit zero_digest 0 false)) _ e in
    let (q, eq, e2) = bind-ok (or_panic (set_bit p 0 true)) _ e1 in sym (ok-injective e2)

collect_children-all : (n n' : Node) → collect_children scope_all n ≡ ok n' → n' ≡ n
unfolding collect_children
collect_children-all (leaf c b) n' e = cc
collect_children-all (inner c b l r) n' e =
    let (p, ep, e2) = bind-ok (or_panic (set_bit zero_digest 0 false)) _ e in
    let (l', el, e3) = bind-ok (collect_at scope_all p 0 l) _ e2 in
    let (q, eq, e4) = bind-ok (or_panic (set_bit p 0 true)) _ e3 in
    let (r', er, e5) = bind-ok (collect_at scope_all q 0 r) _ e4 in
    sym (ok-injective e5)
    ∙ ap₂ (λ x y. inner c b x y) (collect_at-all p 0 l l' el) (collect_at-all q 0 r r' er)

collect_root-all : (n n' : Node) → collect_root scope_all n ≡ ok n' → n' ≡ n
unfolding collect_root
collect_root-all n n' e = elim (Bool-cases (content n).known) [
  | inr h ↦ sym (ok-injective (simp h at e))
  | inl h ↦
      let e1 = simp h at e in
      let (x, ex, e2) = bind-ok (covers_nothing scope_all) _ e1 in
      collect_children-all n n' (simp (covers_nothing-all x ex) at e2)
]

-- `Collect` of a collection that keeps everything changes nothing, unless it panics.
pub collect-all : (c c' : Collection) → c.scope ≡ scope_all → collect c ≡ done c' → c' ≡ c
unfolding collect
collect-all c c' s e = go (collect_root c.scope c.root) refl e
  where
    go :
        (o : Result Node)
        → collect_root c.scope c.root ≡ o
        → ◌≡◌ {A = Outcome Collection}
            (elim o [ ok n ↦ done (with_root c n) | err x ↦ crash | panic ↦ crash ])
            (done c')
        → c' ≡ c
    go (ok n) q x =
        sym (done-injective x)
        ∙ ap (with_root c)
            (collect_root-all c.root n (ap (λ (t : Scope). collect_root t c.root) (sym s) ∙ q))
    go (err y) q x = cc
    go panic q x = cc

pub collect_unless_ongoing-all :
    (c c' : Collection) → c.scope ≡ scope_all → collect_unless_ongoing c ≡ done c' → c' ≡ c
unfolding collect_unless_ongoing
collect_unless_ongoing-all c c' s e = elim (Bool-cases c.ongoing) [
  | inl h ↦ sym (done-injective (simp h at e))
  | inr h ↦ collect-all c c' s (simp h at e)
]

-- A collection that keeps everything reports no error from `Collect`.
pub collect_unless_ongoing-fail :
    (c c' : Collection) (x : Error) → collect_unless_ongoing c ≢ fail x c'
unfolding collect_unless_ongoing
collect_unless_ongoing-fail c c' x e = ground arith
