-- ===== src/Darc/Identity/Mirror.antt =====
-- Keys for tests: a point is its own string, and a signature of a message is the message.
use student_18_byzcoin.Bytes.{equal}
use student_18_byzcoin.Darc.Identity.{Keys}

instance unfoldable pub no_keys : Keys
no_keys = record {
  point_string = λ p. p;
  point_equal = equal;
  schnorr_verify = λ p m s. equal m s;
  x509_verify = λ p m s. equal m s;
}
