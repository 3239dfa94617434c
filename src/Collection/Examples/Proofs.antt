-- ===== src/Collection/Examples/Proofs.antt =====
-- The theorems about proofs at a small tree.
use student_18_byzcoin.Bytes.{equal, bit}
use student_18_byzcoin.Collection.Examples.{sample, padding}
use student_18_byzcoin.Collection.Get.{Record}
use student_18_byzcoin.Collection.Proof.{dump_node, dump_leaf, Proof, consistent, get_proof}
use student_18_byzcoin.Collection.Proof.Complete.{get_proof-consistent}
use student_18_byzcoin.Collection.State.{Collection}
use student_18_byzcoin.Common.{ok, ◌≡◌, refl, true, some, [], ◌∷◌}
use student_18_byzcoin.Field.{data_field}
use student_18_byzcoin.Hash.{hash}
use student_18_byzcoin.Hash.Padding.{pad, padding}
use student_18_byzcoin.Node.{Node, leaf, inner, unsaved, new_content}
use student_18_byzcoin.SingleNode.{relabel}

-- the tree of `sample` with its labels
abbrev left_leaf : Node
left_leaf = relabel (leaf (record new_content { known = true; values = [] ∷ [] }) unsaved)

abbrev right_leaf : Node
right_leaf =
    relabel
      (leaf (record new_content { known = true; key = 200 ∷ []; values = (1 ∷ []) ∷ [] }) unsaved)

abbrev labelled : Collection
labelled = record sample {
  root =
      relabel (
        inner (record new_content { known = true; values = [] ∷ [] }) unsaved left_leaf right_leaf);
}

abbrev shown : Proof
shown = record {
  key = 200 ∷ [];
  root = dump_node labelled.root;
  steps = record { left = dump_node left_leaf; right = dump_node right_leaf } ∷ [];
  fields = data_field ∷ [];
}

abbrev shown_record : Record
shown_record = record {
  fields = data_field ∷ [];
  field = 0;
  query = [];
  matches = true;
  key = 200 ∷ [];
  values = (1 ∷ []) ∷ [];
}

got : get_proof labelled (200 ∷ []) ≡ ok shown
unfolding get_proof dump_node bit padding pad equal
got = refl

get_proof-consistent_example :
    (consistent shown ≡ some true) × (shown.root ≡ dump_node labelled.root)
unfolding hash bit padding pad equal dump_leaf dump_node
get_proof-consistent_example =
    get_proof-consistent labelled (200 ∷ []) shown (refl, (λ _. refl), λ _. refl) (refl, tt, tt) got
