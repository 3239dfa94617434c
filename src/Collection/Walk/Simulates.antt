-- ===== src/Collection/Walk/Simulates.antt =====
-- The walk back up after the work at a child: what `up` makes of the node is what `join` makes of the
-- tries of its children. An error is returned past it.
use student_18_byzcoin.Collection.Shape.{
  shape, WellFormed, Safe, After, Simulates, shape-inner, ascend_total,
}
use student_18_byzcoin.Collection.Walk.{close_left, close_right, hides_child, ascend}
use student_18_byzcoin.Common.{
  Outcome, done, fail, crash, map_outcome, ◌≡◌, refl, ap, subst, Bool, true, false, Option, none,
  some, List, arith,
}
use student_18_byzcoin.Field.{Field}
use student_18_byzcoin.Hash.{Hashing}
use student_18_byzcoin.Node.{Content, Node, inner, Backup, content}
use student_18_byzcoin.Trie.{Trie, fork, after_left, after_right}

abbrev pub UpSimulates : List Field → (Node → Outcome Node) → (Trie → Trie → Trie) → Type 0
UpSimulates fields up join =
    (c : Content) (b : Backup) (l r : Node)
    → WellFormed fields (inner c b l r)
    → hides_child l r ≡ false
    → Simulates fields (up (inner c b l r)) (done (join (shape l) (shape r)))

module _ (fields : List Field) (up : Node → Outcome Node) (join : Trie → Trie → Trie)
    (ups : UpSimulates fields up join) where
  pub close_left-Simulates :
      (c : Content) (b : Backup) (l r : Node) (o : Outcome Node)
      → WellFormed fields (inner c b l r)
      → hides_child l r ≡ false
      → After (WellFormed fields) o
      → After (λ n. (content n).known ≡ true) o
      → Simulates fields (close_left up c b r o) (after_left join (shape r) (map_outcome shape o))
  close_left-Simulates c b l r (done l') w h wf k =
      ups c b l' r (w.0, w.1, wf, w.3) (ground (arith, k))
  close_left-Simulates c b l r (fail e l') w h wf k = record {
    shapes = ap (fail e) (shape-inner c b l' r);
    well_formed = (w.0, w.1, wf, w.3);
    known = w.0;
  }
  close_left-Simulates c b l r crash w h wf k = record {
    shapes = refl;
    well_formed = tt;
    known = tt;
  }

  pub close_right-Simulates :
      (c : Content) (b : Backup) (l r : Node) (o : Outcome Node)
      → WellFormed fields (inner c b l r)
      → hides_child l r ≡ false
      → After (WellFormed fields) o
      → After (λ n. (content n).known ≡ true) o
      → Simulates fields (close_right up c b l o) (after_right join (shape l) (map_outcome shape o))
  close_right-Simulates c b l r (done r') w h wf k =
      ups c b l r' (w.0, w.1, w.2, wf) (ground (arith, k))
  close_right-Simulates c b l r (fail e r') w h wf k = record {
    shapes = ap (fail e) (shape-inner c b l r');
    well_formed = (w.0, w.1, w.2, wf);
    known = w.0;
  }
  close_right-Simulates c b l r crash w h wf k = record {
    shapes = refl;
    well_formed = tt;
    known = tt;
  }

  -- one turn of a walk down: the same step on the nodes and on their tries
  pub turn-Simulates :
      (o : Option Bool) (c : Content) (b : Backup) (l r : Node) (ol or : Outcome Node)
      (tl tr : Outcome Trie)
      → WellFormed fields (inner c b l r)
      → hides_child l r ≡ false
      → Simulates fields ol tl
      → Simulates fields or tr
      → Simulates fields
          (elim o [
            | none ↦ crash
            | some true ↦ close_right up c b l or
            | some false ↦ close_left up c b r ol
          ])
          (elim o [
            | none ↦ crash
            | some true ↦ after_right join (shape l) tr
            | some false ↦ after_left join (shape r) tl
          ])
  turn-Simulates none c b l r ol or tl tr w h sl sr = record {
    shapes = refl;
    well_formed = tt;
    known = tt;
  }
  turn-Simulates (some true) c b l r ol or tl tr w h sl sr =
      subst (λ t. Simulates fields (close_right up c b l or) (after_right join (shape l) t))
        sr.shapes (close_right-Simulates c b l r or w h sr.well_formed sr.known)
  turn-Simulates (some false) c b l r ol or tl tr w h sl sr =
      subst (λ t. Simulates fields (close_left up c b r ol) (after_left join (shape r) t)) sl.shapes
        (close_left-Simulates c b l r ol w h sl.well_formed sl.known)

module _ ⦃H : Hashing⦄ (ongoing : Bool) (fields : List Field) (safe : Safe fields) where
  pub ascend-Simulates : UpSimulates fields (ascend ongoing fields) fork
  ascend-Simulates c b l r w h =
      let (c', e, f) = ascend_total ongoing fields c b l r safe w h in
      rw e (record {
        shapes = ap done (shape-inner c' b l r);
        well_formed = (f.known, f.sized, w.2, w.3);
        known = f.known;
      })
