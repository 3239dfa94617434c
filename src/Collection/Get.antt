-- ===== src/Collection/Get.antt =====
-- omniledger/collection/record.go, getters.go (Record) and navigators.go: what a search finds.
pub mod View
use student_18_byzcoin.Bytes.{Bytes, equal, bit}
use student_18_byzcoin.Collection.State.{Collection}
use student_18_byzcoin.Collection.Walk.{hides_child}
use student_18_byzcoin.Common.{
  leb, ◌==◌, if◌then◌else◌, empty_key, unknown_subtree, no_query, field_out_of_range, no_match,
  wrong_number_of_values, Result, ok, err, panic, ◌>>=◌, length, get_elem?, ℕ, suc, Bool, true,
  false, not, ◌||◌, none, some, List, [], ◌∷◌,
}
use student_18_byzcoin.Field.{Value, Field}
use student_18_byzcoin.Hash.{Hashing, sum256}
use student_18_byzcoin.Node.{Content, Node, leaf, inner, content}

-- struct Record: of the collection it reads the fields only
pub record Record : Type 0 where
  pub fields : List Field
  pub field : ℕ
  pub query : Bytes
  pub matches : Bool
  pub key : Bytes
  pub values : List Bytes

abbrev pub record_key_match : List Field → Content → Record
record_key_match fields c = record {
  fields = fields;
  field = 0;
  query = [];
  matches = true;
  key = c.key;
  values = c.values;
}

abbrev pub record_query_match : List Field → ℕ → Bytes → Content → Record
record_query_match fields field query c = record {
  fields = fields;
  field = field;
  query = query;
  matches = true;
  key = c.key;
  values = c.values;
}

abbrev pub record_key_mismatch : List Field → Bytes → Record
record_key_mismatch fields key = record {
  fields = fields;
  field = 0;
  query = [];
  matches = false;
  key = key;
  values = [];
}

-- the loop of `Values`, over as many values as fields
unfoldable pub decode_all : List Field → List Bytes → Result (List Value)
decode_all fs [] = ok []
decode_all [] (x ∷ xs) = panic
decode_all (f ∷ fs) (x ∷ xs) = do v ← f.decode x; vs ← decode_all fs xs; ok (v ∷ vs)

-- Record.Values
unfoldable pub record_values : Record → Result (List Value)
unfolding decode_all
record_values r =
    if not r.matches
    then err no_match
    else if not (length r.values == length r.fields)
    then err wrong_number_of_values
    else decode_all r.fields r.values

-- Record.Query
unfoldable pub record_query : Record → Result Value
record_query r =
    if length r.query == 0
    then err no_query
    else if leb (length r.values) r.field
    then err field_out_of_range
    else elim (get_elem? r.fields r.field) [ none ↦ panic | some f ↦ f.decode r.query ]

-- The loop of Getter.Record: the leaf at the end of the path.
unfoldable pub get_at : Bytes → ℕ → Node → Result Content
get_at path depth (leaf c b) = if not c.known then err unknown_subtree else ok c
get_at path depth (inner c b l r) =
    if not c.known then err unknown_subtree else elim (bit path depth) [
      | none ↦ panic
      | some true ↦ get_at path (suc depth) r
      | some false ↦ get_at path (suc depth) l
    ]

-- the record that the leaf gives for a key
abbrev pub record_at : List Field → Bytes → Content → Record
record_at fields key c =
    if equal c.key key then record_key_match fields c else record_key_mismatch fields key

module _ ⦃H : Hashing⦄ where
  -- Collection.Get and Getter.Record
  unfoldable pub get_record : Collection → Bytes → Result Record
  unfolding get_at
  get_record c key =
      if length key == 0
      then err empty_key
      else do found ← get_at (sum256 key) 0 c.root; ok (record_at c.fields key found)

-- The loop of Navigator.Record, with the query buffer as the calls of `Navigate` leave it.
module _ (f : Field) (field : ℕ) where
  unfoldable pub navigate_at : Bytes → Node → Result Content × Bytes
  navigate_at query (leaf c b) = if not c.known then (err unknown_subtree, query) else (ok c, query)
  navigate_at query (inner c b l r) =
      if not c.known || hides_child l r
      then (err unknown_subtree, query)
      else elim (get_elem? c.values field) [
        | none ↦ (panic, query)
        | some parent ↦ elim (get_elem? (content l).values field) [
          | none ↦ (panic, query)
          | some left ↦ elim (get_elem? (content r).values field) [
            | none ↦ (panic, query)
            | some right ↦ elim (f.navigate query parent left right) [
              | err e ↦ (err e, query)
              | panic ↦ (panic, query)
              | ok (true, query') ↦ navigate_at query' r
              | ok (false, query') ↦ navigate_at query' l
            ]
          ]
        ]
      ]

-- struct Navigator, whose `query` is a slice that its searches write to
pub record Navigator : Type 0 where
  pub collection : Collection
  pub field : ℕ
  pub query : Bytes

-- Collection.Navigate
unfoldable pub navigate : Collection → ℕ → Value → Result Navigator
navigate c field v = elim (get_elem? c.fields field) [
  | none ↦ panic
  | some f ↦ do q ← f.encode v; ok (record { collection = c; field = field; query = q })
]

-- Navigator.Record: the record, and the navigator with its buffer after the search
unfoldable pub navigate_record : Navigator → Result Record × Navigator
unfolding navigate_at
navigate_record n = elim (get_elem? n.collection.fields n.field) [
  | none ↦ (panic, n)
  | some f ↦
      let (found, query) = navigate_at f n.field n.query n.collection.root in
      (
        found >>= (λ c. ok (record_query_match n.collection.fields n.field query c)),
        record n { query = query },
      )
]
