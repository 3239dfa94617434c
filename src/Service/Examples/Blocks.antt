-- ===== src/Service/Examples/Blocks.antt =====
-- A block of one transaction, for a ledger that has the darc of the transaction.
use student_18_byzcoin.Bytes.{Bytes, equal, bit, set_bit}
use student_18_byzcoin.Collection.Add.{arrive}
use student_18_byzcoin.Collection.Collect.{out_of_scope, collect_unless_ongoing}
use student_18_byzcoin.Collection.State.{Collection, encode_all}
use student_18_byzcoin.Common.{
  panic, err, ok, replicate, ◌≡◌, refl, ◌≢◌, true, false, some, List, [], ◌∷◌,
}
use student_18_byzcoin.Darc.Identity.Mirror.{no_keys}
use student_18_byzcoin.Field.{data_field}
use student_18_byzcoin.Hash.Padding.{pad, padding}
use student_18_byzcoin.Node.{leaf, inner, unsaved, new_content}
use student_18_byzcoin.Scope.{scope_all}
use student_18_byzcoin.Service.Block.{DataHeader, Chain, create_new_block}
use student_18_byzcoin.Service.Block.Commits.{CommitsTo, create_new_block-CommitsTo}
use student_18_byzcoin.Service.Changes.{Contract, to_object_id}
use student_18_byzcoin.Service.Changes.Filter.{Filtered}
use student_18_byzcoin.Service.Contract.{zero_nonce, contract_darc_id}
use student_18_byzcoin.Service.Database.{create_action, new_state_change, ledger_fields}
use student_18_byzcoin.Service.Examples.{single, darc_id, spawning, world, by_seven}
use student_18_byzcoin.Service.Instruction.{slice}
use student_18_byzcoin.Service.Order.{ClientTransaction, Network, sort_transactions}
use student_18_byzcoin.Sorting.{sort_by}

-- the collection: the darc is on the left, and nothing is on the right
abbrev ledger : Collection
ledger = record {
  root =
      inner (record new_content { known = true; values = [] ∷ [] ∷ [] }) unsaved
        (leaf
          (record new_content {
            known = true;
            key = slice (to_object_id darc_id);
            values = (1 ∷ []) ∷ contract_darc_id ∷ [];
          })
          unsaved)
        (leaf (record new_content { known = true; values = [] ∷ [] ∷ [] }) unsaved);
  fields = ledger_fields;
  scope = scope_all;
  auto_collect = record { value = true };
  ongoing = false;
  transaction_id = 0;
}

abbrev signed : ClientTransaction
signed = spawning (by_seven ∷ []) ∷ []

abbrev wire : Network
wire = record { marshal = λ t. ok []; unmarshal = λ b. ok (some signed) }

abbrev follower : Chain
follower = record {
  marshal_header = λ h. ok h.collection_root;
  encode_change = λ t. ok t.value;
  latest = ok tt;
  store_block = λ b. ok b;
}

-- a contract that puts the value 5 under the key of the instruction's nonce
abbrev putting : Contract
putting c i = (
  c,
  ok (
      new_state_change create_action
        (record { darc_id = replicate 32 255; instance_id = zero_nonce }) (120 ∷ []) (5 ∷ [])
      ∷ []),
)

abbrev stored : DataHeader × Bytes
stored =
    elim (create_new_block follower single world wire (λ kind. some putting) 77 ledger
      (signed ∷ [])) [
        | panic ↦ (
          record {
            collection_root = [];
            client_transaction_hash = [];
            state_changes_hash = [];
            timestamp = 0;
          },
          [],
        )
        | err e ↦ (
          record {
            collection_root = [];
            client_transaction_hash = [];
            state_changes_hash = [];
            timestamp = 0;
          },
          [],
        )
        | ok r ↦ r
      ]

block_stored :
    create_new_block follower single world wire (λ kind. some putting) 77 ledger (signed ∷ [])
    ≡ ok stored
unfolding create_new_block padding pad no_keys bit equal data_field sort_by encode_all arrive
    collect_unless_ongoing set_bit out_of_scope
block_stored = refl

create_new_block-CommitsTo_example :
    (valid : List ClientTransaction) × (sorted : List ClientTransaction) × Filtered single world
      ledger
      (signed ∷ [])
      valid
    × (valid ≢ [])
    × (sort_transactions wire valid ≡ ok sorted)
    × CommitsTo follower single world wire (λ kind. some putting) ledger sorted stored.0
create_new_block-CommitsTo_example =
    create_new_block-CommitsTo follower single world wire (λ kind. some putting) 77 ledger
      (signed ∷ []) stored.0 stored.1 block_stored
