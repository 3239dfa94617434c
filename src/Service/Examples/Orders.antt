-- ===== src/Service/Examples/Orders.antt =====
-- The theorem about the order of transactions, with a hash that reads its input from the end.
use mathlib.Core.List.{reverse}
use student_18_byzcoin.Bytes.{Bytes, IsBytes}
use student_18_byzcoin.Common.{
  ok, ℕ, ◌≡◌, refl, sym, ap, ◌∙◌, ◌≢◌, ◌⊎◌, inl, inr, true, none, some, [], ◌∷◌, ◌++◌,
}
use student_18_byzcoin.Hash.{Hashing}
use student_18_byzcoin.Hash.Padding.{pad, length-pad, pad-IsBytes}
use student_18_byzcoin.Service.Order.{
  ClientTransaction, Network, xor_transactions, marshal_all, sort_transactions,
}
use student_18_byzcoin.Service.Order.Fixed.{sort_transactions-Reordered}
use student_18_byzcoin.Sorting.Permuted.{swap}

backwards-IsBytes : (x : Bytes) → IsBytes (pad 32 (reverse x))
backwards-IsBytes x = pad-IsBytes 32 (reverse x)

instance backwards : Hashing
backwards = record {
  sum256 = λ x. pad 32 (reverse x);
  encode = λ t. t.key;
  sum256_length = λ x. length-pad 32 (reverse x);
  sum256_bytes = backwards-IsBytes;
}

abbrev asking : ℕ → ClientTransaction
asking n =
    record {
      object_id = record { darc_id = []; instance_id = [] };
      nonce = [];
      index = n;
      length_all = 1;
      spawn = none;
      invoke = none;
      delete = true;
      signatures = [];
    }
    ∷ []

-- a transaction is written as the index of its instruction
abbrev wire : Network
wire = record {
  marshal = λ t. elim t [ [] ↦ ok [] | i ∷ is ↦ ok (i.index ∷ []) ];
  unmarshal = λ b. elim b [ [] ↦ ok none | n ∷ x ↦ ok (some (asking n)) ];
}

abbrev OneOrTwo : Bytes → Type 0
OneOrTwo x = (x ≡ 1 ∷ []) ⊎ (x ≡ 2 ∷ [])

abbrev salt : Bytes
salt = xor_transactions ((1 ∷ []) ∷ (2 ∷ []) ∷ [])

apart : backwards.sum256 (salt ++ (1 ∷ [])) ≢ backwards.sum256 (salt ++ (2 ∷ []))
unfolding backwards pad xor_transactions
apart e = cc

told_apart :
    (x y : Bytes)
    → OneOrTwo x
    → OneOrTwo y
    → backwards.sum256 (salt ++ x) ≡ backwards.sum256 (salt ++ y)
    → x ≡ y
told_apart x y (inl p) (inl q) e = p ∙ sym q
told_apart x y (inr p) (inr q) e = p ∙ sym q
told_apart x y (inl p) (inr q) e = absurd (
    apart (
      ap (λ (z : Bytes). backwards.sum256 (salt ++ z)) (sym p)
      ∙ e
      ∙ ap (λ (z : Bytes). backwards.sum256 (salt ++ z)) q))
told_apart x y (inr p) (inl q) e = absurd (
    apart (
      sym (
        ap (λ (z : Bytes). backwards.sum256 (salt ++ z)) (sym p)
        ∙ e
        ∙ ap (λ (z : Bytes). backwards.sum256 (salt ++ z)) q)))

both_marshalled : marshal_all wire (asking 1 ∷ asking 2 ∷ []) ≡ ok ((1 ∷ []) ∷ (2 ∷ []) ∷ [])
unfolding marshal_all
both_marshalled = refl

sort_transactions-Reordered_example :
    sort_transactions wire (asking 2 ∷ asking 1 ∷ [])
    ≡ sort_transactions wire (asking 1 ∷ asking 2 ∷ [])
sort_transactions-Reordered_example =
    sort_transactions-Reordered wire OneOrTwo (asking 1 ∷ asking 2 ∷ []) (asking 2 ∷ asking 1 ∷ [])
      ((1 ∷ []) ∷ (2 ∷ []) ∷ []) told_apart both_marshalled (inl refl, (inr refl, tt))
      (swap (asking 1) (asking 2) [])
