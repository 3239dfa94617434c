-- ===== src/Trie/Step.antt =====
-- One step of a walk that ended well: the side that it took, and what came of it.
use student_18_byzcoin.Common.{
  Outcome, done, fail, crash, ◌≡◌, refl, ◌⊎◌, inl, inr, Bool, true, false, Option, none, some,
}
use student_18_byzcoin.Trie.{Trie, after_left, after_right}

pub after_left-done :
    (join : Trie → Trie → Trie) (r : Trie) (o : Outcome Trie) {t : Trie}
    → after_left join r o ≡ done t
    → (l : Trie) × (o ≡ done l) × (join l r ≡ t)
after_left-done join r (done l) e = (l, refl, cc)
after_left-done join r (fail x l) e = cc
after_left-done join r crash e = cc

pub after_right-done :
    (join : Trie → Trie → Trie) (l : Trie) (o : Outcome Trie) {t : Trie}
    → after_right join l o ≡ done t
    → (r : Trie) × (o ≡ done r) × (join l r ≡ t)
after_right-done join l (done r) e = (r, refl, cc)
after_right-done join l (fail x r) e = cc
after_right-done join l crash e = cc

-- `o` is the bit that was read, `ol` and `or` what is done at either child
abbrev pub Stepped :
    (Trie → Trie → Trie) → Trie → Trie → Option Bool → Outcome Trie → Outcome Trie → Trie → Type 0
Stepped join l r o ol or t =
    ((r' : Trie) × (o ≡ some true) × (or ≡ done r') × (join l r' ≡ t))
    ⊎ ((l' : Trie) × (o ≡ some false) × (ol ≡ done l') × (join l' r ≡ t))

pub step-done :
    (join : Trie → Trie → Trie) (l r : Trie) (o : Option Bool) (ol or : Outcome Trie) {t : Trie}
    → ◌≡◌ {A = Outcome Trie}
        (elim o [
          | none ↦ crash
          | some true ↦ after_right join l or
          | some false ↦ after_left join r ol
        ])
        (done t)
    → Stepped join l r o ol or t
step-done join l r none ol or e = cc
step-done join l r (some true) ol or e =
    let (r', q, w) = after_right-done join l or e in inl (r', refl, q, w)
step-done join l r (some false) ol or e =
    let (l', q, w) = after_left-done join r ol e in inr (l', refl, q, w)
