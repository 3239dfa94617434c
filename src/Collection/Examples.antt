-- ===== src/Collection/Examples.antt =====
-- The theorems about collections at small collections, with a hash that pads its input.
mod Proofs
mod Clones
mod Updates
mod Maps
use student_18_byzcoin.Bytes.{Bytes, equal, bit, set_bit}
use student_18_byzcoin.Collection.Add.{arrive, add_at, add}
use student_18_byzcoin.Collection.Add.Fail.{AddReason, get-add_fail}
use student_18_byzcoin.Collection.Add.Fuel.{add_at_fuel}
use student_18_byzcoin.Collection.Add.Reads.{add-IsValid, get-add}
use student_18_byzcoin.Collection.Add.Refines.{add_at-Simulates}
use student_18_byzcoin.Collection.Change.{write_values, set_record, remove}
use student_18_byzcoin.Collection.Change.Fail.{ChangeReason, get-set_record_fail, get-remove_fail}
use student_18_byzcoin.Collection.Change.Reads.{get-set_record, get-remove}
use student_18_byzcoin.Collection.Collect.{out_of_scope, collect_unless_ongoing}
use student_18_byzcoin.Collection.Contents.{Represents, new-Represents, AddsTo, add-AddsTo}
use student_18_byzcoin.Collection.Get.{get_record}
use student_18_byzcoin.Collection.Get.View.{found}
use student_18_byzcoin.Collection.Shape.{shape, Simulates}
use student_18_byzcoin.Collection.State.{Collection, encode_all, new}
use student_18_byzcoin.Collection.Valid.{IsValid}
use student_18_byzcoin.Collection.Walk.{ascend}
use student_18_byzcoin.Common.{
  if◌then◌else◌, key_collision, key_not_found, ok, Outcome, done, fail, crash, ◌≡◌, refl, true,
  false, none, some, List, [], ◌∷◌, arith,
}
use student_18_byzcoin.Field.{raw, data_field}
use student_18_byzcoin.Hash.Padding.{pad, padding}
use student_18_byzcoin.Node.{leaf, inner, unsaved, new_content}
use student_18_byzcoin.Scope.{scope_all}
use student_18_byzcoin.Trie.{insert_at}

-- `{data}`, with the record of key 200 on the right and nothing on the left
abbrev sample : Collection
sample = record {
  root =
      inner (record new_content { known = true; values = [] ∷ [] }) unsaved
        (leaf (record new_content { known = true; values = [] ∷ [] }) unsaved)
        (leaf (record new_content { known = true; key = 200 ∷ []; values = (1 ∷ []) ∷ [] })
          unsaved);
  fields = data_field ∷ [];
  scope = scope_all;
  auto_collect = record { value = true };
  ongoing = false;
  transaction_id = 0;
}

sample-IsValid : IsValid sample
unfolding shape bit padding pad data_field
sample-IsValid = record {
  tree = (refl, refl, (λ _. refl), λ _. refl);
  placed = (tt, refl, tt, tt);
  safe = ((λ l r e. cc), tt);
  everything = refl;
}

-- what a call left
abbrev left_by : Collection → Outcome Collection → Collection
left_by c (done d) = d
left_by c (fail e d) = d
left_by c crash = c

-- a second record on the right, where it meets the first
abbrev added : Collection
added = left_by sample (add sample (201 ∷ []) (raw (7 ∷ []) ∷ []))

added_done : add sample (201 ∷ []) (raw (7 ∷ []) ∷ []) ≡ done added
unfolding add encode_all data_field padding pad bit arrive equal ascend collect_unless_ongoing
    set_bit out_of_scope
added_done = refl

get-add_example : get_record added (201 ∷ []) ≡ (
    if equal (201 ∷ []) (201 ∷ [])
    then found sample.fields (201 ∷ []) (ok (some ((7 ∷ []) ∷ [])))
    else get_record sample (201 ∷ []))
unfolding encode_all data_field
get-add_example =
    get-add sample (201 ∷ []) (raw (7 ∷ []) ∷ []) added ((7 ∷ []) ∷ []) (201 ∷ []) sample-IsValid
      refl added_done (λ e. cc)

add-IsValid_example : IsValid added
add-IsValid_example =
    add-IsValid sample (201 ∷ []) (raw (7 ∷ []) ∷ []) added sample-IsValid added_done

-- the key that is there already
collided_fail :
    add sample (200 ∷ []) (raw (7 ∷ []) ∷ [])
    ≡ fail key_collision (left_by sample (add sample (200 ∷ []) (raw (7 ∷ []) ∷ [])))
unfolding add encode_all data_field padding pad bit arrive equal ascend collect_unless_ongoing
    set_bit out_of_scope
collided_fail = refl

get-add_fail_example :
    (get_record (left_by sample (add sample (200 ∷ []) (raw (7 ∷ []) ∷ []))) (200 ∷ [])
      ≡ get_record sample (200 ∷ []))
    × AddReason sample (200 ∷ []) key_collision
get-add_fail_example =
    get-add_fail sample (200 ∷ []) (raw (7 ∷ []) ∷ []) _ key_collision (200 ∷ []) sample-IsValid
      (λ e. cc) collided_fail

abbrev after_set : Collection
after_set = left_by sample (set_record sample (200 ∷ []) (raw (7 ∷ []) ∷ []))

set_done : set_record sample (200 ∷ []) (raw (7 ∷ []) ∷ []) ≡ done after_set
unfolding set_record bit padding pad equal data_field collect_unless_ongoing set_bit out_of_scope
set_done = refl

get-set_record_example :
    (old : List Bytes) × (ys : List Bytes) × (get_record sample (200 ∷ [])
      ≡ found sample.fields (200 ∷ []) (ok (some old)))
    × (write_values sample.fields (raw (7 ∷ []) ∷ []) old ≡ ok ys)
    × (get_record after_set (200 ∷ []) ≡ (
        if equal (200 ∷ []) (200 ∷ [])
        then found sample.fields (200 ∷ []) (ok (some ys))
        else get_record sample (200 ∷ [])))
get-set_record_example =
    get-set_record sample (200 ∷ []) (raw (7 ∷ []) ∷ []) after_set (200 ∷ []) sample-IsValid
      (λ e. cc) (λ e. cc) set_done

-- a key on the empty side
missed_fail :
    set_record sample (1 ∷ []) (raw (7 ∷ []) ∷ [])
    ≡ fail key_not_found (left_by sample (set_record sample (1 ∷ []) (raw (7 ∷ []) ∷ [])))
unfolding set_record bit padding pad equal
missed_fail = refl

get-set_record_fail_example :
    IsValid (left_by sample (set_record sample (1 ∷ []) (raw (7 ∷ []) ∷ [])))
    × (get_record (left_by sample (set_record sample (1 ∷ []) (raw (7 ∷ []) ∷ []))) (1 ∷ [])
        ≡ get_record sample (1 ∷ []))
    × ChangeReason sample (1 ∷ []) key_not_found
get-set_record_fail_example =
    get-set_record_fail sample (1 ∷ []) (raw (7 ∷ []) ∷ []) _ key_not_found (1 ∷ []) sample-IsValid
      (λ e. cc) (λ e. cc) missed_fail

abbrev after_remove : Collection
after_remove = left_by sample (remove sample (200 ∷ []))

remove_done : remove sample (200 ∷ []) ≡ done after_remove
unfolding remove bit padding pad equal data_field collect_unless_ongoing set_bit out_of_scope
remove_done = refl

get-remove_example :
    (old : List Bytes) × (get_record sample (200 ∷ [])
      ≡ found sample.fields (200 ∷ []) (ok (some old)))
    × (get_record after_remove (200 ∷ []) ≡ (
        if equal (200 ∷ []) (200 ∷ [])
        then found sample.fields (200 ∷ []) (ok none)
        else get_record sample (200 ∷ [])))
get-remove_example =
    get-remove sample (200 ∷ []) after_remove (200 ∷ []) sample-IsValid (λ e. cc) (λ e. cc)
      remove_done

not_removed : remove sample (1 ∷ []) ≡ fail key_not_found (left_by sample (remove sample (1 ∷ [])))
unfolding remove bit padding pad equal
not_removed = refl

get-remove_fail_example :
    IsValid (left_by sample (remove sample (1 ∷ [])))
    × (get_record (left_by sample (remove sample (1 ∷ []))) (1 ∷ []) ≡ get_record sample (1 ∷ []))
    × ChangeReason sample (1 ∷ []) key_not_found
get-remove_fail_example =
    get-remove_fail sample (1 ∷ []) _ key_not_found (1 ∷ []) sample-IsValid (λ e. cc) (λ e. cc)
      not_removed

add_at-Simulates_example :
    Simulates sample.fields
      (add_at true sample.fields (201 ∷ []) ((7 ∷ []) ∷ []) 257 0 sample.root)
      (insert_at (201 ∷ []) ((7 ∷ []) ∷ []) 257 0 (shape sample.root))
add_at-Simulates_example =
    add_at-Simulates true sample.fields sample-IsValid.safe (201 ∷ []) ((7 ∷ []) ∷ []) (λ e. cc)
      refl 257 0 sample.root sample-IsValid.tree refl

add_at_fuel_example :
    add_at true sample.fields (201 ∷ []) ((7 ∷ []) ∷ []) 1000 0 sample.root
    ≡ add_at true sample.fields (201 ∷ []) ((7 ∷ []) ∷ []) 257 0 sample.root
unfolding padding pad
add_at_fuel_example =
    add_at_fuel true sample.fields (201 ∷ []) ((7 ∷ []) ∷ []) 256 999 0 sample.root refl
      (ground arith)

new-Represents_example :
    (c : Collection) × (new (data_field ∷ []) ≡ ok c)
    × (c.fields ≡ data_field ∷ [])
    × Represents c (λ k. none)
new-Represents_example = new-Represents (data_field ∷ []) sample-IsValid.safe

-- what `New` makes of `{data}`
abbrev fresh : Collection
fresh = (new-Represents (data_field ∷ []) sample-IsValid.safe).0

fresh-Represents : Represents fresh (λ k. none)
fresh-Represents = (new-Represents (data_field ∷ []) sample-IsValid.safe).3

fresh_fields : fresh.fields ≡ data_field ∷ []
fresh_fields = (new-Represents (data_field ∷ []) sample-IsValid.safe).2

fresh_encode : encode_all fresh.fields (raw (7 ∷ []) ∷ []) ≡ ok ((7 ∷ []) ∷ [])
unfolding encode_all data_field
fresh_encode = rw fresh_fields refl

add-AddsTo_example :
    AddsTo (λ k. none) (201 ∷ []) ((7 ∷ []) ∷ []) (add fresh (201 ∷ []) (raw (7 ∷ []) ∷ []))
add-AddsTo_example =
    add-AddsTo fresh (λ k. none) (201 ∷ []) (raw (7 ∷ []) ∷ []) ((7 ∷ []) ∷ []) fresh-Represents
      (λ e. cc) (rw fresh_fields refl) fresh_encode (λ k h q. absurd (h refl))
