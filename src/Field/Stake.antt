-- ===== src/Field/Stake.antt =====
-- The integers that Stake64 writes, adds and searches.
use student_18_byzcoin.Bytes.{Bytes, IsBytes}
use student_18_byzcoin.Common.{length, ok, ◌>>=◌, ℕ, ◌^◌, ◌<◌, ◌≡◌, refl, ap, [], ◌∷◌, arith}
use student_18_byzcoin.Field.{stake_value, stake, put_uint64, get_uint64, stake64}

pub put_uint64-IsBytes : (v : ℕ) → IsBytes (put_uint64 v)
unfolding put_uint64
put_uint64-IsBytes v = omega arith

get-put_uint64 : (v : ℕ) → v < 2 ^ 64 → get_uint64 (put_uint64 v) ≡ v
unfolding get_uint64 put_uint64
get-put_uint64 v h = omega arith

length-put_uint64 : (v : ℕ) → length (put_uint64 v) ≡ 8
unfolding put_uint64
length-put_uint64 v = refl

stake_value-put : (v : ℕ) → v < 2 ^ 64 → stake_value (put_uint64 v) ≡ ok v
unfolding stake_value
stake_value-put v h = ground (arith, length-put_uint64 v, get-put_uint64 v)

-- Decoding the eight bytes of an encoded number below 2 ^ 64 gives the number back.
pub decode-encode :
    (v : ℕ) → v < 2 ^ 64 → (stake64.encode (stake v) >>= stake64.decode) ≡ ok (stake v)
unfolding stake64
decode-encode v h = ap (λ (n : ℕ). ok (stake n)) (get-put_uint64 v h)

same_digits :
    (a b c d e f g k a' b' c' d' e' f' g' k' : ℕ)
    → (a ≡ a') × (b ≡ b') × (c ≡ c') × (d ≡ d') × (e ≡ e') × (f ≡ f') × (g ≡ g') × (k ≡ k')
    → ◌≡◌ {A = Bytes}
        (a ∷ b ∷ c ∷ d ∷ e ∷ f ∷ g ∷ k ∷ [])
        (a' ∷ b' ∷ c' ∷ d' ∷ e' ∷ f' ∷ g' ∷ k' ∷ [])
same_digits a b c d e f g k a' b' c' d' e' f' g' k' h = ground arith

digits_back :
    (a b c d e f g k : ℕ)
    → IsBytes (a ∷ b ∷ c ∷ d ∷ e ∷ f ∷ g ∷ k ∷ [])
    → put_uint64 (get_uint64 (a ∷ b ∷ c ∷ d ∷ e ∷ f ∷ g ∷ k ∷ []))
      ≡ a ∷ b ∷ c ∷ d ∷ e ∷ f ∷ g ∷ k ∷ []
unfolding get_uint64 put_uint64
digits_back a b c d e f g k h = same_digits _ _ _ _ _ _ _ _ a b c d e f g k (omega arith)

put-get_uint64 : (x : Bytes) → IsBytes x → length x ≡ 8 → put_uint64 (get_uint64 x) ≡ x
unfolding get_uint64 put_uint64
put-get_uint64 [] h l = absurd (omega arith)
put-get_uint64 (a ∷ []) h l = absurd (omega arith)
put-get_uint64 (a ∷ b ∷ []) h l = absurd (omega arith)
put-get_uint64 (a ∷ b ∷ c ∷ []) h l = absurd (omega arith)
put-get_uint64 (a ∷ b ∷ c ∷ d ∷ []) h l = absurd (omega arith)
put-get_uint64 (a ∷ b ∷ c ∷ d ∷ e ∷ []) h l = absurd (omega arith)
put-get_uint64 (a ∷ b ∷ c ∷ d ∷ e ∷ f ∷ []) h l = absurd (omega arith)
put-get_uint64 (a ∷ b ∷ c ∷ d ∷ e ∷ f ∷ g ∷ []) h l = absurd (omega arith)
put-get_uint64 (a ∷ b ∷ c ∷ d ∷ e ∷ f ∷ g ∷ k ∷ []) h l =
    ground (arith, digits_back a b c d e f g k)
put-get_uint64 (a ∷ b ∷ c ∷ d ∷ e ∷ f ∷ g ∷ k ∷ m ∷ r) h l = absurd (omega arith)

-- The stake of a field's bytes, or 0 where they are no uint64.
pub stake_of : Bytes → ℕ
stake_of bytes = elim (stake_value bytes) [ ok v ↦ v | _ ↦ 0 ]
