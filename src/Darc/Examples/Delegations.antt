-- ===== src/Darc/Examples/Delegations.antt =====
-- The theorems about delegation, where every text is one identity: a darc that a text with the prefix
-- "darc" names, and whose "_sign" expression is the text "x", or is "darc" itself.
use student_18_byzcoin.Bytes.{Bytes, equal}
use student_18_byzcoin.Common.{panic, ok, ◌≡◌, refl, true, none, some, [], ◌∷◌, ◌++◌}
use student_18_byzcoin.Darc.Document.{Darc, darc_of, no_darcs, fields_of}
use student_18_byzcoin.Darc.Identity.{darc_type, type_string}
use student_18_byzcoin.Darc.Identity.Mirror.{no_keys}
use student_18_byzcoin.Darc.Rules.{sign, lookup}
use student_18_byzcoin.Darc.Values.{has_prefix, Callback, sign_answer}
use student_18_byzcoin.Darc.Verify.{verify_darc, eval_expr}
use student_18_byzcoin.Darc.Verify.Delegates.{eval_expr_mono}
use student_18_byzcoin.Darc.Verify.Depth.{IsCircular, eval_expr-circular}
use student_18_byzcoin.Expression.{sum_of, no_tail, identity, Grammar}
use student_18_byzcoin.Hash.Padding.{padding}

abbrev single : Grammar
single = record { parse = λ x. some (sum_of (identity x) no_tail); ended = λ x. true }

abbrev darc_name : Bytes
darc_name = 100 ∷ 97 ∷ 114 ∷ 99 ∷ []

abbrev name_x : Bytes
name_x = 120 ∷ []

abbrev signed_by_name : Bytes → Darc
signed_by_name expr =
    darc_of
      (record {
        version = 0;
        description = [];
        base = none;
        rules = record { action = sign; expr = expr } ∷ [];
        path_digest = [];
        signatures = [];
      })
      no_darcs

abbrev delegates : Callback
delegates s = some (signed_by_name name_x)

abbrev circles : Callback
circles s = some (signed_by_name darc_name)

darc_is_one : has_prefix darc_name (type_string darc_type) ≡ true
unfolding has_prefix type_string
darc_is_one = refl

sign_rule_of : (expr : Bytes) → lookup (fields_of (signed_by_name expr)).rules sign ≡ some expr
unfolding lookup equal
sign_rule_of expr = refl

verifies_first : (expr : Bytes) → verify_darc single (some (signed_by_name expr)) ≡ ok tt
unfolding verify_darc
verifies_first expr = refl

circle : IsCircular single circles darc_name
circle = record {
  itself = signed_by_name darc_name;
  expr = darc_name;
  named_by = refl;
  verifies = verifies_first darc_name;
  rule = sign_rule_of darc_name;
  parsed = refl;
  names = darc_is_one;
}

eval_expr-circular_example : eval_expr single 100 circles darc_name (name_x ∷ []) ≡ panic
unfolding circle
eval_expr-circular_example = eval_expr-circular single circles 100 (name_x ∷ []) darc_name circle

x_signs : eval_expr single 2 delegates darc_name (name_x ∷ []) ≡ ok tt
unfolding eval_expr sign_answer equal
x_signs = refl

eval_expr_mono_example :
    eval_expr single 2 delegates darc_name ((name_x ∷ []) ++ (darc_name ∷ [])) ≡ ok tt
eval_expr_mono_example =
    eval_expr_mono single delegates 2 darc_name (name_x ∷ []) (darc_name ∷ []) x_signs
