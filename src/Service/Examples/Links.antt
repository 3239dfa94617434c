-- ===== src/Service/Examples/Links.antt =====
-- The theorems about proofs for a skipchain, with the proof of a key in a tree of two leaves.
use mathlib.Core.Option.{some-injective}
use student_18_byzcoin.Bytes.{Bytes, equal, bit}
use student_18_byzcoin.Bytes.Equal.{equal→≡}
use student_18_byzcoin.Collection.Proof.{dump_node, dump_leaf, Proof, tree_root_hash, consistent}
use student_18_byzcoin.Collection.State.{Collection}
use student_18_byzcoin.Common.{
  if◌then◌else◌, ok, ◌≡◌, refl, sym, ap, ◌∙◌, ◌↔◌, Bool, true, false, ◌&&◌, none, some, List, [],
  ◌∷◌,
}
use student_18_byzcoin.Field.{data_field}
use student_18_byzcoin.Hash.{hash}
use student_18_byzcoin.Hash.Padding.{pad, padding}
use student_18_byzcoin.Node.{Node, leaf, inner, unsaved, new_content}
use student_18_byzcoin.Scope.{scope_all}
use student_18_byzcoin.Service.Block.{DataHeader}
use student_18_byzcoin.Service.Proof.{
  Link, SkipBlock, Skipchain, LedgerProof, last_link, new_proof, verify_proof,
}
use student_18_byzcoin.Service.Proof.Given.{IsChain, new_proof-verified}
use student_18_byzcoin.Service.Proof.Links.{Verified, verify_proof-Verified, verify_proof-forged}
use student_18_byzcoin.SingleNode.{relabel}

abbrev empty_leaf : Node
empty_leaf = relabel (leaf (record new_content { known = true; values = [] ∷ [] }) unsaved)

abbrev full_leaf : Node
full_leaf =
    relabel
      (leaf (record new_content { known = true; key = 200 ∷ []; values = (1 ∷ []) ∷ [] }) unsaved)

abbrev root_node : Node
root_node =
    relabel
      (inner (record new_content { known = true; values = [] ∷ [] }) unsaved empty_leaf full_leaf)

abbrev inclusion_of_key : Proof
inclusion_of_key = record {
  key = 200 ∷ [];
  root = dump_node root_node;
  steps = record { left = dump_node empty_leaf; right = dump_node full_leaf } ∷ [];
  fields = data_field ∷ [];
}

abbrev header : DataHeader
header = record {
  collection_root = [];
  client_transaction_hash = [];
  state_changes_hash = [];
  timestamp = 0;
}

abbrev block : SkipBlock
block = record { hash = 3 ∷ []; header_bytes = []; roster = some (8 ∷ []); forward_links = [] }

abbrev chained_blocks : Skipchain
chained_blocks = record {
  get_by_id = λ id. some block;
  link_verify = λ l keys. equal keys (8 ∷ []);
  unmarshal_header = λ b. ok (some header);
}

abbrev proved : LedgerProof
proved = record {
  inclusion = inclusion_of_key;
  latest = block;
  links =
      record { from = []; to = 2 ∷ []; new_roster = some (8 ∷ []) }
      ∷ record { from = 2 ∷ []; to = 3 ∷ []; new_roster = none }
      ∷ [];
}

verify_proof-Verified_example :
    (verify_proof chained_blocks proved (2 ∷ []) ≡ ok tt) ↔ Verified chained_blocks proved (2 ∷ [])
verify_proof-Verified_example = verify_proof-Verified chained_blocks proved (2 ∷ [])

it_verifies : verify_proof chained_blocks proved (2 ∷ []) ≡ ok tt
unfolding verify_proof equal dump_node hash padding pad bit
it_verifies = refl

inclusion_consistent : consistent inclusion_of_key ≡ some true
unfolding consistent equal dump_node hash padding pad bit
inclusion_consistent = refl

no_root : [] ≡ tree_root_hash inclusion_of_key
unfolding tree_root_hash dump_node
no_root = refl

verify_proof-forged_example :
    verify_proof chained_blocks
      (record { inclusion = inclusion_of_key; latest = block; links = [] })
      (77 ∷ [])
    ≡ ok tt
verify_proof-forged_example =
    verify_proof-forged chained_blocks inclusion_of_key block header (77 ∷ []) inclusion_consistent
      refl no_root

-- a chain of two blocks
abbrev ledger_tree : Collection
ledger_tree = record {
  root = root_node;
  fields = data_field ∷ [];
  scope = scope_all;
  auto_collect = record { value = true };
  ongoing = false;
  transaction_id = 0;
}

abbrev onward : Link
onward = record { from = 2 ∷ []; to = 3 ∷ []; new_roster = none }

abbrev first_block : SkipBlock
first_block = record block { hash = 2 ∷ []; forward_links = onward ∷ [] }

abbrev two_blocks : Skipchain
two_blocks = record {
  get_by_id = λ id.
      if equal id (2 ∷ [])
      then some first_block
      else if equal id (3 ∷ [])
      then some block
      else none;
  link_verify = λ l keys. equal l.from (2 ∷ []) && equal keys (8 ∷ []);
  unmarshal_header = λ b. ok (some header);
}

given : new_proof two_blocks 2 ledger_tree (2 ∷ []) (200 ∷ []) ≡ ok proved
unfolding new_proof equal dump_node hash padding pad bit
given = refl

-- every block has the same keys, and only the first a link
abbrev same_keys : SkipBlock → Bytes
same_keys b = 8 ∷ []

-- what a block of the chain that has links is, by the tests of the lookup
linked :
    (first second : Bool) (b : SkipBlock) (l : Link) (ls : List Link)
    → (if first then some first_block else if second then some block else none) ≡ some b
    → b.forward_links ≡ l ∷ ls
    → (first ≡ true) × (last_link l ls ≡ onward)
linked true second b l ls at_id q =
    let whole : onward ∷ [] ≡ l ∷ ls =
      ap (λ (x : SkipBlock). x.forward_links) (some-injective _ _ at_id) ∙ q in
    (refl, sym (ap (λ (xs : List Link). elim xs [ [] ↦ onward | x ∷ ys ↦ last_link x ys ]) whole))
linked false true b l ls at_id q =
    let whole : [] ≡ l ∷ ls =
      ap (λ (x : SkipBlock). x.forward_links) (some-injective _ _ at_id) ∙ q in
    absurd cc
linked false false b l ls at_id q = absurd (cc)

at_the_start : (equal (2 ∷ []) (2 ∷ []) && equal (8 ∷ []) (8 ∷ [])) ≡ true
unfolding equal
at_the_start = refl

two_blocks-IsChain : IsChain two_blocks same_keys
two_blocks-IsChain = record {
  verifies = λ id b l ls at_id q.
      rw (linked (equal id (2 ∷ [])) (equal id (3 ∷ [])) b l ls at_id q).1 at_the_start;
  begins = λ id b l ls at_id q.
      let (first, is) = linked (equal id (2 ∷ [])) (equal id (3 ∷ [])) b l ls at_id q in
      ap (λ (x : Link). x.from) is ∙ sym (equal→≡ id (2 ∷ []) first);
  next_keys = λ id b next l ls at_id q got.
      let (first, is) = linked (equal id (2 ∷ [])) (equal id (3 ∷ [])) b l ls at_id q in rw is refl;
}

first_roster : (b : SkipBlock) → two_blocks.get_by_id (2 ∷ []) ≡ some b → b.roster ≡ some (8 ∷ [])
unfolding equal
first_roster b e = ap (λ (x : SkipBlock). x.roster) (sym (some-injective _ _ e))

new_proof-verified_example : verify_proof two_blocks proved (2 ∷ []) ≡ ok tt
unfolding dump_leaf dump_node hash bit padding pad equal
new_proof-verified_example =
    new_proof-verified two_blocks same_keys 2 ledger_tree (2 ∷ []) (200 ∷ []) proved header
      two_blocks-IsChain first_roster (refl, (λ _. refl), λ _. refl) (refl, tt, tt) given refl
      no_root
