-- ===== src/Collection/Proof.antt =====
-- omniledger/collection/proof.go, Getter.Proof of getters.go and Verify of verifiers.go.
pub mod Hashed
pub mod Steps
pub mod Sound
pub mod Complete
use student_18_byzcoin.Bytes.{Bytes, equal, bit, zero_digest}
use student_18_byzcoin.Collection.Get.{decode_all}
use student_18_byzcoin.Collection.State.{Collection, with_root}
use student_18_byzcoin.Collection.Walk.{hides_child}
use student_18_byzcoin.Common.{
  ◌==◌, if◌then◌else◌, empty_key, unknown_subtree, no_match, wrong_number_of_values, no_steps,
  Result, panic, err, ok, ◌>>=◌, length, ℕ, suc, Bool, true, false, not, ◌&&◌, ◌||◌, Option, none,
  some, List, [], ◌∷◌,
}
use student_18_byzcoin.Field.{Value, Field}
use student_18_byzcoin.Hash.{ToHash, Hashing, sum256, hash}
use student_18_byzcoin.Node.{
  Node, leaf, inner, unsaved, new_content, content, write, leaf?, backup_of, branch,
}
use student_18_byzcoin.SingleNode.{leaf_to_hash, inner_to_hash}
use mathlib.Core.Option

-- struct dump
pub record Dump : Type 0 where
  pub key : Bytes
  pub values : List Bytes
  pub left : Bytes
  pub right : Bytes
  pub label : Bytes

-- dumpNode: the fields that it does not write are zero
unfoldable pub dump_node : Node → Dump
dump_node (leaf c b) = record {
  key = c.key;
  values = c.values;
  left = zero_digest;
  right = zero_digest;
  label = c.label;
}
dump_node (inner c b l r) = record {
  key = [];
  values = c.values;
  left = (content l).label;
  right = (content r).label;
  label = c.label;
}

-- dump.leaf; `==` of two arrays is `equal`
unfoldable pub dump_leaf : Dump → Bool
dump_leaf d = equal d.left zero_digest && equal d.right zero_digest

-- struct step
pub record Step : Type 0 where
  pub left : Dump
  pub right : Dump

-- struct Proof: of the collection it reads the fields only
pub record Proof : Type 0 where
  pub key : Bytes
  pub root : Dump
  pub steps : List Step
  pub fields : List Field

-- dump.to
unfoldable pub dump_to : Dump → Node → Node
unfolding dump_leaf branch
dump_to d n =
    if not (content n).known && equal (content n).label d.label
    then (if dump_leaf d
        then write (λ c. record c { known = true; label = d.label; values = d.values; key = d.key })
            n
        else inner (record (content n) { known = true; label = d.label; values = d.values })
            (backup_of n) (leaf (record new_content { label = d.left }) unsaved)
            (leaf (record new_content { label = d.right }) unsaved))
    else n

-- Proof.TreeRootHash
unfoldable pub tree_root_hash : Proof → Bytes
tree_root_hash p = p.root.key

-- the dump on the path's side of the last step, which `Match` and `RawValues` read
unfoldable pub last_dump : Bytes → ℕ → List Step → Option Dump
last_dump path depth [] = none
last_dump path depth (s ∷ []) =
    Option.map (λ right. if right then s.right else s.left) (bit path depth)
last_dump path depth (s ∷ t ∷ ss) = last_dump path (suc depth) (t ∷ ss)

-- The loop of Getter.Proof below a cursor. A cursor with no children is a nil pointer, which the
-- root alone can be.
unfoldable pub steps_at : Bytes → ℕ → Node → Result (List Step)
unfolding dump_node
steps_at path depth (leaf c b) = panic
steps_at path depth (inner c b l r) =
    if hides_child l r then err unknown_subtree else elim (bit path depth) [
      | none ↦ panic
      | some true ↦ (do
        rest ← if leaf? r then ok [] else steps_at path (suc depth) r
        ok (record { left = dump_node l; right = dump_node r } ∷ rest))
      | some false ↦ (do
        rest ← if leaf? l then ok [] else steps_at path (suc depth) l
        ok (record { left = dump_node l; right = dump_node r } ∷ rest))
    ]

module _ ⦃H : Hashing⦄ where
  -- what dump.consistent hashes
  abbrev pub dump_to_hash : Dump → ToHash
  dump_to_hash d =
      if dump_leaf d then leaf_to_hash d.key d.values else inner_to_hash d.values d.left d.right

  -- dump.consistent
  unfoldable pub dump_consistent : Dump → Bool
  unfolding dump_leaf
  dump_consistent d = equal d.label (hash (dump_to_hash d))

  -- the loop of Consistent, from a cursor; `none` is a panic
  unfoldable pub steps_consistent : Bytes → ℕ → Dump → List Step → Option Bool
  unfolding dump_consistent
  steps_consistent path depth cursor [] = some (dump_leaf cursor)
  steps_consistent path depth cursor (s ∷ ss) =
      if not (equal cursor.left s.left.label) || not (equal cursor.right s.right.label)
      then some false
      else if not (dump_consistent s.left) || not (dump_consistent s.right)
      then some false
      else elim (bit path depth) [
        | none ↦ none
        | some true ↦ steps_consistent path (suc depth) s.right ss
        | some false ↦ steps_consistent path (suc depth) s.left ss
      ]

  -- Proof.Consistent
  unfoldable pub consistent : Proof → Option Bool
  unfolding steps_consistent
  consistent p =
      if length p.steps == 0
      then some false
      else if not (dump_consistent p.root)
      then some false
      else steps_consistent (sum256 p.key) 0 p.root p.steps

  -- Proof.Match
  unfoldable pub proof_match : Proof → Option Bool
  unfolding last_dump
  proof_match p =
      if length p.steps == 0
      then some false
      else Option.map (λ (d : Dump). equal p.key d.key) (last_dump (sum256 p.key) 0 p.steps)

  -- Proof.RawValues
  unfoldable pub raw_values : Proof → Result (List Bytes)
  unfolding last_dump
  raw_values p =
      if length p.steps == 0 then err no_steps else elim (last_dump (sum256 p.key) 0 p.steps) [
        | none ↦ panic
        | some d ↦ if equal p.key d.key then ok d.values else err no_match
      ]

  -- Proof.Values
  unfoldable pub proof_values : Proof → Result (List Value)
  unfolding raw_values decode_all
  proof_values p = do
    raws ← raw_values p
    if not (length raws == length p.fields)
        then err wrong_number_of_values
        else decode_all p.fields raws

  -- Getter.Proof: beside an error the caller is handed an unfinished proof, which is left out
  unfoldable pub get_proof : Collection → Bytes → Result Proof
  unfolding steps_at
  get_proof c key =
      if length key == 0
      then err empty_key
      else if not (content c.root).known
      then err unknown_subtree
      else do
        steps ← steps_at (sum256 key) 0 c.root
        ok (record { key = key; root = dump_node c.root; steps = steps; fields = c.fields })

  -- the loop of Verify: what the proof shows is added to the tree along the path
  unfoldable pub learn : Bytes → ℕ → List Step → Node → Result Node
  unfolding dump_to
  learn path depth [] n = ok n
  learn path depth (s ∷ ss) (leaf c b) = panic
  learn path depth (s ∷ ss) (inner c b l r) =
      let l' = dump_to s.left l in
      let r' = dump_to s.right r in
      elim (bit path depth) [
        | none ↦ panic
        | some true ↦ (do r'' ← learn path (suc depth) ss r'; ok (inner c b l' r''))
        | some false ↦ (do l'' ← learn path (suc depth) ss l'; ok (inner c b l'' r'))
      ]

  -- Verify: the answer, and the collection with the nodes of the proof
  unfoldable pub verify : Collection → Proof → Result (Bool × Collection)
  unfolding consistent learn
  verify c p =
      if (content c.root).inconsistent
      then panic
      else if not (equal p.root.label (content c.root).label)
      then ok (false, c)
      else elim (consistent p) [
        | none ↦ panic
        | some false ↦ ok (false, c)
        | some true ↦ (do
          root ← learn (sum256 p.key) 0 p.steps (dump_to p.root c.root)
          ok (true, with_root c root))
      ]
