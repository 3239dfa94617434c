-- ===== src/Field/Examples.antt =====
-- The theorems about fields at one value.
use student_18_byzcoin.Common.{ok, ◌>>=◌, ◌≡◌, arith}
use student_18_byzcoin.Field.{stake, stake64}
use student_18_byzcoin.Field.Stake.{decode-encode}

decode-encode_example : (stake64.encode (stake 300) >>= stake64.decode) ≡ ok (stake 300)
decode-encode_example = decode-encode 300 (ground arith)
