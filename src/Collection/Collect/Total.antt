-- ===== src/Collection/Collect/Total.antt =====
-- A collection whose scope is everything is collected without a panic, if its forks stand where a hash
-- has a bit.
use student_18_byzcoin.Bytes.{Bytes, write_bit, set_bit, zero_digest}
use student_18_byzcoin.Collection.Collect.{
  collect_children, collect_at, covers_nothing, collect_root, collect, collect_unless_ongoing,
}
use student_18_byzcoin.Collection.Collect.Keeps.{out_of_scope-all}
use student_18_byzcoin.Collection.Shape.{shape}
use student_18_byzcoin.Collection.State.{Collection}
use student_18_byzcoin.Common.{
  Bool-cases, ok, ◌>>=◌, or_panic, crash, length, set, length-set, get_elem?-some, ℕ, suc, ◌+◌, ◌/◌,
  ◌<◌, ◌≡◌, refl, sym, ◌∙◌, subst, ◌≢◌, inl, inr, Bool, true, false, some, arith,
}
use student_18_byzcoin.Node.{Content, Node, leaf, inner, Backup}
use student_18_byzcoin.Scope.{scope_all, scope_match}
use student_18_byzcoin.Trie.{fork}
use student_18_byzcoin.Trie.Shallow.{Shallow}

set_bit-some :
    (x : Bytes) (i : ℕ) (v : Bool)
    → length x ≡ 32
    → i < 256
    → (y : Bytes) × (set_bit x i v ≡ some y) × (length y ≡ 32)
unfolding set_bit
set_bit-some x i v h lt =
    let (b, at) = get_elem?-some x (i / 8) (omega (arith, h, lt)) in
    (set x (i / 8) (write_bit b i v), rw at refl, length-set x (i / 8) (write_bit b i v) ∙ h)

-- the two visits below an inner node
visits :
    (path : Bytes) (index i : ℕ) (c : Content) (b : Backup) (l r : Node)
    → length path ≡ 32
    → i < 256
    → ((p : Bytes) → length p ≡ 32 → collect_at scope_all p index l ≡ ok l)
    → ((p : Bytes) → length p ≡ 32 → collect_at scope_all p index r ≡ ok r)
    → (or_panic (set_bit path i false) >>= (λ p. collect_at scope_all p index l >>= (λ l'.
        or_panic (set_bit p i true)
        >>= (λ q. collect_at scope_all q index r >>= (λ r'. ok (inner c b l' r'))))))
      ≡ ok (inner c b l r)
visits path index i c b l r h lt hl hr =
    let (p, ep, lp) = set_bit-some path i false h lt in
    let (q, eq, lq) = set_bit-some p i true lp lt in rw (ep, hl p lp, eq, hr q lq) refl

collect_at_total :
    (path : Bytes) (index : ℕ) (n : Node)
    → length path ≡ 32
    → Shallow (suc index) (shape n)
    → collect_at scope_all path index n ≡ ok n
unfolding collect_at shape
collect_at_total path index (leaf c b) h low = elim (Bool-cases c.known) [
  | inr k ↦ simp k
  | inl k ↦ simp (k, out_of_scope-all)
]
collect_at_total path index (inner c b l r) h low = elim (Bool-cases c.known) [
  | inr k ↦ simp k
  | inl k ↦
      let next : (index + 1) ≡ suc index = omega arith in
      simp (k, out_of_scope-all)
        (visits path (index + 1) (index + 1) c b l r h (omega (arith, low.0))
          (λ p lp.
            collect_at_total p (index + 1) l lp
              (subst (λ d. Shallow (suc d) (shape l)) (sym next) low.1))
          (λ p lp.
            collect_at_total p (index + 1) r lp
              (subst (λ d. Shallow (suc d) (shape r)) (sym next) low.2)))
]

covers_something : covers_nothing scope_all ≡ ok false
unfolding covers_nothing scope_match
covers_something =
    let (p, ep, lp) = set_bit-some zero_digest 0 false refl (ground arith) in
    let (q, eq, lq) = set_bit-some p 0 true lp (ground arith) in rw (ep, eq) refl

root_total :
    (k : Content) (b : Backup) (l r : Node)
    → Shallow 0 (fork (shape l) (shape r))
    → collect_root scope_all (inner k b l r) ≡ ok (inner k b l r)
unfolding collect_root collect_children
root_total k b l r low = elim (Bool-cases k.known) [
  | inr h ↦ simp h
  | inl h ↦
      simp (h, covers_something)
        (visits zero_digest 0 0 k b l r refl (ground arith)
          (λ p lp. collect_at_total p 0 l lp low.1) (λ p lp. collect_at_total p 0 r lp low.2))
]

pub collect_unless_ongoing_total :
    (c : Collection) (k : Content) (b : Backup) (l r : Node)
    → c.root ≡ inner k b l r
    → c.scope ≡ scope_all
    → Shallow 0 (fork (shape l) (shape r))
    → collect_unless_ongoing c ≢ crash
unfolding collect_unless_ongoing collect
collect_unless_ongoing_total c k b l r q s low e = elim (Bool-cases c.ongoing) [
  | inl h ↦ cc (simp h at e)
  | inr h ↦
      let w : collect_root c.scope c.root ≡ ok c.root = rw (s, q) (root_total k b l r low) in
      cc (simp h at e)
]
