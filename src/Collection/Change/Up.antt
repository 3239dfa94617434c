-- ===== src/Collection/Change/Up.antt =====
-- The walk of `Remove` back to the root puts a fork together again as `merge` says.
use student_18_byzcoin.Bytes.{Bytes}
use student_18_byzcoin.Collection.Change.{collapse, one_record, remove_up}
use student_18_byzcoin.Collection.Shape.{shape_leaf, shape, WellFormed, Safe, Simulates}
use student_18_byzcoin.Collection.Walk.{hides_child}
use student_18_byzcoin.Collection.Walk.Simulates.{UpSimulates, ascend-Simulates}
use student_18_byzcoin.Common.{
  ◌==◌, if◌then◌else◌, Bool-cases, done, length, ℕ, zero, suc, ◌≡◌, refl, sym, ap, ◌∙◌, inl, inr,
  Bool, true, false, ◌||◌, List, [], ◌∷◌, arith,
}
use student_18_byzcoin.Field.{Field}
use student_18_byzcoin.Hash.{Hashing}
use student_18_byzcoin.Node.{
  Content, Node, leaf, inner, Backup, content, placeholder?, backup, prune,
}
use student_18_byzcoin.Trie.{Trie, fork, merge}

-- the shape of the node that is left of two leaves
abbrev left_of : Bytes → List Bytes → Bytes → List Bytes → Trie
left_of [] vl kr vr = shape_leaf true kr vr
left_of (x ∷ kl) vl kr vr = shape_leaf true (x ∷ kl) vl

merge-leaves :
    (depth : ℕ) (kl : Bytes) (vl : List Bytes) (kr : Bytes) (vr : List Bytes)
    → merge (suc depth) (shape_leaf true kl vl) (shape_leaf true kr vr) ≡ (
        if length kl == 0 || length kr == 0
        then left_of kl vl kr vr
        else fork (shape_leaf true kl vl) (shape_leaf true kr vr))
unfolding merge
merge-leaves depth [] vl [] vr = refl
merge-leaves depth [] vl (x ∷ kr) vr = refl
merge-leaves depth (x ∷ kl) vl [] vr =
    let h : (suc (length kl) == 0) ≡ false = ground arith in rw h refl
merge-leaves depth (x ∷ kl) vl (y ∷ kr) vr =
    let h : (suc (length kl) == 0) ≡ false = ground arith in
    let g : (suc (length kr) == 0) ≡ false = ground arith in rw (h, g) refl

left_of-kept :
    (kl : Bytes) (vl : List Bytes) (kr : Bytes) (vr : List Bytes)
    → left_of kl vl kr vr
      ≡ shape_leaf true (if length kl == 0 then kr else kl) (if length kl == 0 then vr else vl)
left_of-kept [] vl kr vr = refl
left_of-kept (x ∷ kl) vl kr vr = let h : (suc (length kl) == 0) ≡ false = ground arith in rw h refl

module _ ⦃H : Hashing⦄ (ongoing : Bool) (fields : List Field) (safe : Safe fields) where
  -- what is left of a node with one record is a leaf
  collapsed :
      (c : Content) (b : Backup) (l r : Node)
      → (d : Content) × (b' : Backup) × (collapse ongoing c b l r ≡ leaf d b')
        × (d.known ≡ c.known)
        × (d.key ≡ (content (if placeholder? l then r else l)).key)
        × (d.values ≡ (content (if placeholder? l then r else l)).values)
  unfolding prune backup
  collapsed c b l r = go ongoing
    where
      go :
          (o : Bool)
          → (d : Content) × (b' : Backup) × (collapse o c b l r ≡ leaf d b')
            × (d.known ≡ c.known)
            × (d.key ≡ (content (if placeholder? l then r else l)).key)
            × (d.values ≡ (content (if placeholder? l then r else l)).values)
      go true = (_, _, refl, refl, refl, refl)
      go false = (_, _, refl, refl, refl, refl)

  kept_leaf-Simulates :
      (c : Content) (b : Backup) (cl : Content) (bl : Backup) (cr : Content) (br : Backup)
      → WellFormed fields (inner c b (leaf cl bl) (leaf cr br))
      → cl.known ≡ true
      → cr.known ≡ true
      → Simulates fields
          (done (collapse ongoing c b (leaf cl bl) (leaf cr br)))
          (done (left_of cl.key cl.values cr.key cr.values))
  unfolding shape
  kept_leaf-Simulates c b cl bl cr br w kl kr =
      let (d, b', e, dk, dn, dv) = collapsed c b (leaf cl bl) (leaf cr br) in
      rw e (elim (Bool-cases (length cl.key == 0)) [
        | inl p ↦ record {
          shapes = ap done (
              simp (dk, w.0, dn, dv, p)
                (sym (left_of-kept cl.key cl.values cr.key cr.values ∙ rw p refl)));
          well_formed = λ _. ap length dv ∙ simp p (w.3 kr);
          known = dk ∙ w.0;
        }
        | inr p ↦ record {
          shapes = ap done (
              simp (dk, w.0, dn, dv, p)
                (sym (left_of-kept cl.key cl.values cr.key cr.values ∙ rw p refl)));
          well_formed = λ _. ap length dv ∙ simp p (w.2 kl);
          known = dk ∙ w.0;
        }
      ])

  up_fork :
      (depth : ℕ) (c : Content) (b : Backup) (l r : Node)
      → WellFormed fields (inner c b l r)
      → hides_child l r ≡ false
      → one_record l r ≡ false
      → merge (suc depth) (shape l) (shape r) ≡ fork (shape l) (shape r)
      → Simulates fields
          (remove_up ongoing fields (suc depth) (inner c b l r))
          (done (merge (suc depth) (shape l) (shape r)))
  unfolding remove_up
  up_fork depth c b l r w h one m =
      let z : (suc depth == 0) ≡ false = ground arith in
      rw (m, z, one) (ascend-Simulates ongoing fields safe c b l r w h)

  up_leaves :
      (depth : ℕ) (c : Content) (b : Backup) (cl : Content) (bl : Backup) (cr : Content)
      (br : Backup)
      → WellFormed fields (inner c b (leaf cl bl) (leaf cr br))
      → hides_child (leaf cl bl) (leaf cr br) ≡ false
      → Simulates fields
          (remove_up ongoing fields (suc depth) (inner c b (leaf cl bl) (leaf cr br)))
          (done (merge (suc depth) (shape (leaf cl bl)) (shape (leaf cr br))))
  up_leaves depth c b cl bl cr br w h =
      let kl : cl.known ≡ true = ground (arith, h) in
      let kr : cr.known ≡ true = ground (arith, h) in
      let kept = left_of cl.key cl.values cr.key cr.values in
      let both = fork (shape_leaf true cl.key cl.values) (shape_leaf true cr.key cr.values) in
      let m = merge-leaves depth cl.key cl.values cr.key cr.values in
      let two : merge (suc depth) (shape (leaf cl bl)) (shape (leaf cr br))
          ≡ merge (suc depth) (shape_leaf true cl.key cl.values)
              (shape_leaf true cr.key cr.values) =
        unfold shape in rw (kl, kr) refl in
      elim (Bool-cases (length cl.key == 0 || length cr.key == 0)) [
        | inl p ↦
            let z : (suc depth == 0) ≡ false = ground arith in
            let one : one_record (leaf cl bl) (leaf cr br) ≡ true = ground (arith, p) in
            let q : (if length cl.key == 0 || length cr.key == 0 then kept else both) ≡ kept =
              rw p refl in
            rw (two ∙ m ∙ q)
              (unfold remove_up in rw (z, one) (kept_leaf-Simulates c b cl bl cr br w kl kr))
        | inr p ↦
            let q : (if length cl.key == 0 || length cr.key == 0 then kept else both) ≡ both =
              rw p refl in
            let back : both ≡ fork (shape (leaf cl bl)) (shape (leaf cr br)) =
              unfold shape in rw (kl, kr) refl in
            up_fork depth c b (leaf cl bl) (leaf cr br) w h (ground (arith, p)) (two ∙ m ∙ q ∙ back)
      ]

  merge-inner_right :
      (depth : ℕ) (c : Content) (b cr : Content) (bl br : Backup) (l r : Node)
      → c.known ≡ true
      → merge (suc depth) (shape (leaf c bl)) (shape (inner cr br l r))
        ≡ fork (shape (leaf c bl)) (shape (inner cr br l r))
  unfolding shape merge
  merge-inner_right depth c b cr bl br l r k = simp k (go c.key)
    where
      go :
          (k0 : Bytes)
          → merge (suc depth) (shape_leaf true k0 c.values) (fork (shape l) (shape r))
            ≡ fork (shape_leaf true k0 c.values) (fork (shape l) (shape r))
      go [] = refl
      go (x ∷ xs) = refl

  pub remove_up-Simulates :
      (depth : ℕ) → UpSimulates fields (remove_up ongoing fields depth) (merge depth)
  remove_up-Simulates zero c b l r w h =
      unfold remove_up merge in ascend-Simulates ongoing fields safe c b l r w h
  remove_up-Simulates (suc depth) c b (leaf cl bl) (leaf cr br) w h =
      up_leaves depth c b cl bl cr br w h
  remove_up-Simulates (suc depth) c b (leaf cl bl) (inner cr br l r) w h =
      up_fork depth c b (leaf cl bl) (inner cr br l r) w h (ground arith)
        (merge-inner_right depth cl cl cr bl br l r (ground (arith, h)))
  remove_up-Simulates (suc depth) c b (inner cl bl l1 r1) r w h =
      up_fork depth c b (inner cl bl l1 r1) r w h (ground arith) (unfold shape merge in refl)
