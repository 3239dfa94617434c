-- ===== src/Collection/Examples/Maps.antt =====
-- Remove from a collection with one record, as Add made it of a new one.
use student_18_byzcoin.Bytes.{Bytes}
use student_18_byzcoin.Collection.Add.{add}
use student_18_byzcoin.Collection.Change.{remove}
use student_18_byzcoin.Collection.Contents.{put_values, Represents, AddsTo, add-AddsTo}
use student_18_byzcoin.Collection.Contents.Removed.{RemovesFrom, remove-RemovesFrom}
use student_18_byzcoin.Collection.Examples.{
  fresh, fresh-Represents, fresh_fields, fresh_encode, padding,
}
use student_18_byzcoin.Collection.State.{Collection}
use student_18_byzcoin.Common.{Outcome, done, fail, crash, refl, none, some, List, [], ◌∷◌}
use student_18_byzcoin.Field.{raw}

-- the collection of an Add to an empty map, which returns nil
after_add :
    (key : Bytes) (raws : List Bytes) (o : Outcome Collection)
    → AddsTo (λ k. none) key raws o
    → (d : Collection) × Represents d (put_values key (some raws) (λ k. none))
after_add key raws (done d) h = (d, h.1)
after_add key raws (fail x d) h = absurd (let q = h.1.1 in cc)
after_add key raws crash h = absurd h

one_record :
    (d : Collection) × Represents d (put_values (201 ∷ []) (some ((7 ∷ []) ∷ [])) (λ k. none))
one_record = after_add (201 ∷ []) ((7 ∷ []) ∷ []) (add fresh (201 ∷ []) (raw (7 ∷ []) ∷ [])) (
    add-AddsTo fresh (λ k. none) (201 ∷ []) (raw (7 ∷ []) ∷ []) ((7 ∷ []) ∷ []) fresh-Represents
      (λ e. cc) (rw fresh_fields refl) fresh_encode (λ k h q. absurd (h refl)))

remove-RemovesFrom_example :
    RemovesFrom one_record.0.fields
      (put_values (201 ∷ []) (some ((7 ∷ []) ∷ [])) (λ k. none))
      (201 ∷ [])
      (remove one_record.0 (201 ∷ []))
remove-RemovesFrom_example =
    remove-RemovesFrom one_record.0 (put_values (201 ∷ []) (some ((7 ∷ []) ∷ [])) (λ k. none))
      (201 ∷ []) one_record.1 (λ e. cc)
