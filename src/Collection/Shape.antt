-- ===== src/Collection/Shape.antt =====
-- The trie that a tree of nodes stands for, and the invariant of the nodes.
use student_18_byzcoin.Bytes.{Bytes}
use student_18_byzcoin.Collection.Walk.{hides_child, ascend}
use student_18_byzcoin.Common.{
  Result, panic, err, ok, Outcome, done, fail, crash, ignoring, map_outcome, length, replicate,
  length-replicate, All, ℕ, suc, ◌≡◌, refl, ap, ◌≢◌, Bool, true, false, not, List, [], ◌∷◌, arith,
}
use student_18_byzcoin.Field.{Field}
use student_18_byzcoin.Hash.{Hashing}
use student_18_byzcoin.Node.{Content, Node, leaf, inner, Backup, content}
use student_18_byzcoin.SingleNode.{cons_value, parent_values, relabel}
use student_18_byzcoin.Trie.{Trie, hidden, vacant, entry, fork, hidden?}

abbrev pub shape_leaf : Bool → Bytes → List Bytes → Trie
shape_leaf false key values = hidden
shape_leaf true [] values = vacant
shape_leaf true (k ∷ key) values = entry (k ∷ key) values

unfoldable pub shape : Node → Trie
shape (leaf c b) = shape_leaf c.known c.key c.values
shape (inner c b l r) = fork (shape l) (shape r)

-- A known node has one value for each field, and a node with children is known.
abbrev pub WellFormed : List Field → Node → Type 0
WellFormed fields (leaf c b) = (c.known ≡ true) → length c.values ≡ length fields
WellFormed fields (inner c b l r) =
    (c.known ≡ true) × (length c.values ≡ length fields) × WellFormed fields l × WellFormed fields r

-- No `Parent` of a field panics.
abbrev pub Safe : List Field → Type 0
Safe fields = All (λ (f : Field). (l r : Bytes) → f.parent l r ≢ panic) fields

-- The call does not panic, and `P` holds of the state that it leaves.
abbrev pub Ends {ℓ} : {S : Type ℓ} → (S → Type 0) → Outcome S → Type 0
Ends P (done s) = P s
Ends P (fail e s) = P s
Ends P crash = ⊥

-- `P` holds of the state that the call leaves, if it does not panic.
abbrev pub After {ℓ} : {S : Type ℓ} → (S → Type 0) → Outcome S → Type 0
After P (done s) = P s
After P (fail e s) = P s
After P crash = Unit

-- A call on nodes does what a call on tries says, and leaves a well-formed node that is known.
pub record Simulates (fields : List Field) (o : Outcome Node) (t : Outcome Trie) : Type 0 where
  pub shapes : map_outcome shape o ≡ t
  pub well_formed : After (WellFormed fields) o
  pub known : After (λ n. (content n).known ≡ true) o

pub shape-inner :
    (c : Content) (b : Backup) (l r : Node) → shape (inner c b l r) ≡ fork (shape l) (shape r)
unfolding shape
shape-inner c b l r = refl

pub known-shape :
    (fields : List Field) (n : Node)
    → WellFormed fields n
    → hidden? (shape n) ≡ not (content n).known
unfolding shape
known-shape fields (leaf c b) w = ground arith
known-shape fields (inner c b l r) w = ground arith

pub values-WellFormed :
    (fields : List Field) (n : Node)
    → WellFormed fields n
    → (content n).known ≡ true
    → length (content n).values ≡ length fields
values-WellFormed fields (leaf c b) w k = w k
values-WellFormed fields (inner c b l r) w k = w.1

Ends-parent :
    (k : ℕ) (v : Result Bytes) (rest : Outcome (List Bytes))
    → v ≢ panic
    → Ends (λ vs. length vs ≡ k) rest
    → Ends
        (λ vs. length vs ≡ suc k)
        (elim v [
          | ok x ↦ cons_value x rest
          | err e ↦ fail e (replicate {A = Bytes} (suc k) [])
          | panic ↦ crash
        ])
Ends-parent k (ok v) (done vs) safe h = ap suc h
Ends-parent k (ok v) (fail e vs) safe h = ap suc h
Ends-parent k (ok v) crash safe h = h
Ends-parent k (err e) rest safe h = length-replicate (suc k) []
Ends-parent k panic rest safe h = safe refl

-- The loop of `update` ends in as many values as fields, unless a child has too few.
pub parent_values_total :
    (fields : List Field) (ls rs : List Bytes)
    → Safe fields
    → length ls ≡ length fields
    → length rs ≡ length fields
    → Ends (λ vs. length vs ≡ length fields) (parent_values fields ls rs)
unfolding parent_values
parent_values_total [] ls rs s hl hr = refl
parent_values_total (f ∷ fs) [] rs s hl hr = absurd (omega arith)
parent_values_total (f ∷ fs) (l ∷ ls) [] s hl hr = absurd (omega arith)
parent_values_total (f ∷ fs) (l ∷ ls) (r ∷ rs) s hl hr =
    Ends-parent (length fs) (f.parent l r) (parent_values fs ls rs) (s.0 l r)
      (parent_values_total fs ls rs s.1 (omega arith) (omega arith))

module _ ⦃H : Hashing⦄ where
  -- what an update may change of a node: not whether it is known, its key or its mark
  pub record Refreshed (fields : List Field) (old fresh : Content) : Type 0 where
    pub known : fresh.known ≡ true
    pub key : fresh.key ≡ old.key
    pub sized : length fresh.values ≡ length fields

  pub refresh :
      (fields : List Field) (c : Content) (b : Backup) (l r : Node) (vs : Outcome (List Bytes))
      → c.known ≡ true
      → Ends (λ x. length x ≡ length fields) vs
      → (c' : Content) × (ignoring
            (elim vs [
              | done x ↦ done (relabel (inner (record c { values = x }) b l r))
              | fail e x ↦ fail e (inner (record c { values = x }) b l r)
              | crash ↦ crash
            ])
            done
          ≡ done (inner c' b l r))
        × Refreshed fields c c'
  refresh fields c b l r (done x) k h = (_, refl, record { known = k; key = refl; sized = h })
  refresh fields c b l r (fail e x) k h = (_, refl, record { known = k; key = refl; sized = h })
  refresh fields c b l r crash k h = absurd h

  -- The walk back up never panics at a node whose children are known, and keeps its children.
  pub ascend_total :
      (ongoing : Bool) (fields : List Field) (c : Content) (b : Backup) (l r : Node)
      → Safe fields
      → WellFormed fields (inner c b l r)
      → hides_child l r ≡ false
      → (c' : Content) × (ascend ongoing fields (inner c b l r) ≡ done (inner c' b l r))
        × Refreshed fields c c'
  unfolding ascend
  ascend_total true fields c b l r s w h =
      (_, refl, record { known = w.0; key = refl; sized = w.1 })
  ascend_total false fields c b l r s w h =
      let vl = values-WellFormed fields l w.2 (ground arith) in
      let vr = values-WellFormed fields r w.3 (ground arith) in
      simp (w.0, h)
        (refresh fields c b l r _ w.0
          (parent_values_total fields (content l).values (content r).values s vl vr))
