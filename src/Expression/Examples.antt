-- ===== src/Expression/Examples.antt =====
-- The theorems about expressions at one text: "a:1 | a:2 & a:3" as the grammar matches it.
use student_18_byzcoin.Bytes.{Bytes, equal}
use student_18_byzcoin.Common.{ok, ◌≡◌, refl, true, false, some, [], ◌∷◌}
use student_18_byzcoin.Expression.{
  Sum, sum_of, no_tail, and_term, or_term, identity, Grammar, any_id, default_parser,
}

abbrev one : Bytes
one = 97 ∷ 58 ∷ 49 ∷ []

abbrev two : Bytes
two = 97 ∷ 58 ∷ 50 ∷ []

abbrev three : Bytes
three = 97 ∷ 58 ∷ 51 ∷ []

abbrev matched : Sum
matched = sum_of (identity one) (or_term (identity two) (and_term (identity three) no_tail))

abbrev tiny : Grammar
tiny = record { parse = λ x. some matched; ended = λ x. true }

-- the first identity alone is not enough, as `&` takes all that stands before it
left_first : default_parser tiny [] (one ∷ []) ≡ ok false
unfolding default_parser any_id equal
left_first = refl

third_too : default_parser tiny [] (one ∷ three ∷ []) ≡ ok true
unfolding default_parser any_id equal
third_too = refl
