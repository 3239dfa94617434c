-- ===== src/Trie.antt =====
-- What a collection promises, without labels, values of inner nodes, backups and pointers: a binary
-- trie over the bits of the hashed keys. `hidden` is a subtree that the collection does not know.
-- `Collection/*` proves that the operations of the source carry these out.
pub mod Step
pub mod Find
pub mod Place
pub mod Join
pub mod Change
pub mod Fail
pub mod Full
pub mod Shallow
pub mod Rooted
pub mod Total
use student_18_byzcoin.Bytes.{Bytes, equal, bit}
use student_18_byzcoin.Common.{
  if◌then◌else◌, unknown_subtree, key_collision, key_not_found, Result, panic, err, ok, Outcome,
  done, fail, crash, ℕ, zero, suc, ◌≡◌, Bool, true, false, ◌||◌, none, some, List,
}
use student_18_byzcoin.Hash.{Hashing, sum256}

pub data Trie : Type 0 where
  hidden : Trie
  vacant : Trie
  entry : Bytes → List Bytes → Trie
  fork : Trie → Trie → Trie

abbrev pub hidden? : Trie → Bool
hidden? hidden = true
hidden? _ = false

-- the outcome at one child, taken to the fork: an error is returned past `join`
abbrev pub after_left : (Trie → Trie → Trie) → Trie → Outcome Trie → Outcome Trie
after_left join r (done l) = done (join l r)
after_left join r (fail e l) = fail e (fork l r)
after_left join r crash = crash

abbrev pub after_right : (Trie → Trie → Trie) → Trie → Outcome Trie → Outcome Trie
after_right join l (done r) = done (join l r)
after_right join l (fail e r) = fail e (fork l r)
after_right join l crash = crash

module _ ⦃H : Hashing⦄ where
  module _ (key : Bytes) (values : List Bytes) where
    -- the record at the node that the walk comes to
    unfoldable pub enter : (Trie → Outcome Trie) → ℕ → Trie → Outcome Trie
    enter go depth hidden = crash
    enter go depth vacant = done (entry key values)
    enter go depth (entry k vs) =
        if equal key k then fail key_collision (entry k vs) else elim (bit (sum256 k) depth) [
          | none ↦ crash
          | some true ↦ go (fork vacant (entry k vs))
          | some false ↦ go (fork (entry k vs) vacant)
        ]
    enter go depth (fork l r) = go (fork l r)

    -- one more record
    unfoldable pub insert_at : ℕ → ℕ → Trie → Outcome Trie
    insert_at zero depth t = crash
    insert_at (suc fuel) depth (fork l r) =
        if hidden? l || hidden? r
        then fail unknown_subtree (fork l r)
        else elim (bit (sum256 key) depth) [
          | none ↦ crash
          | some true ↦ after_right fork l (enter (insert_at fuel (suc depth)) (suc depth) r)
          | some false ↦ after_left fork r (enter (insert_at fuel (suc depth)) (suc depth) l)
        ]
    insert_at (suc fuel) depth _ = crash

-- `at` changes the place at the end of a path, and `join` puts the forks above it together again
module _ (path : Bytes) (at : Trie → Outcome Trie) (join : ℕ → Trie → Trie → Trie) where
  unfoldable pub change_at : ℕ → Trie → Outcome Trie
  change_at depth (fork l r) =
      if hidden? l || hidden? r then fail unknown_subtree (fork l r) else elim (bit path depth) [
        | none ↦ crash
        | some true ↦ after_right (join depth) l (change_at (suc depth) r)
        | some false ↦ after_left (join depth) r (change_at (suc depth) l)
      ]
  change_at depth t = at t

-- the record of the key, if it is the one at the place
unfoldable pub at_entry : Bytes → (List Bytes → Outcome Trie) → Trie → Outcome Trie
at_entry key f hidden = crash
at_entry key f vacant = fail key_not_found vacant
at_entry key f (entry k vs) = if equal k key then f vs else fail key_not_found (entry k vs)
at_entry key f (fork l r) = crash

-- Below the root a fork with one record, and one with none, is no fork.
unfoldable pub merge : ℕ → Trie → Trie → Trie
merge zero l r = fork l r
merge (suc depth) vacant vacant = vacant
merge (suc depth) vacant (entry k vs) = entry k vs
merge (suc depth) (entry k vs) vacant = entry k vs
merge (suc depth) l r = fork l r

-- each key of the trie satisfies `P`
abbrev pub AllKeys : (Bytes → Type 0) → Trie → Type 0
AllKeys P hidden = Unit
AllKeys P vacant = Unit
AllKeys P (entry k vs) = P k
AllKeys P (fork l r) = AllKeys P l × AllKeys P r

module _ ⦃H : Hashing⦄ where
  -- each record stands on the path of its key
  abbrev pub Placed : ℕ → Trie → Type 0
  Placed depth hidden = Unit
  Placed depth vacant = Unit
  Placed depth (entry k vs) = Unit
  Placed depth (fork l r) =
      AllKeys (λ k. bit (sum256 k) depth ≡ some false) l
      × AllKeys (λ k. bit (sum256 k) depth ≡ some true) r
      × Placed (suc depth) l
      × Placed (suc depth) r

-- the record at the end of a path: none where the place is vacant or another key's
unfoldable pub find_at : Bytes → ℕ → Trie → Result Trie
find_at path depth hidden = err unknown_subtree
find_at path depth vacant = ok vacant
find_at path depth (entry k vs) = ok (entry k vs)
find_at path depth (fork l r) = elim (bit path depth) [
  | none ↦ panic
  | some true ↦ find_at path (suc depth) r
  | some false ↦ find_at path (suc depth) l
]
