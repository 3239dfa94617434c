-- ===== src/Collection/Proof/Sound.antt =====
-- A proof that `Verify` accepts shows what the tree holds.
use student_18_byzcoin.Bytes.{Bytes}
use student_18_byzcoin.Collection.Proof.{Proof}
use student_18_byzcoin.Collection.State.{Collection}
use student_18_byzcoin.Field.{Field}
