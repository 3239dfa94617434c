-- ===== src/Scope.antt =====
-- omniledger/collection/scope.go and flag.go: which subtrees a collection keeps. `none` is the
-- panic of a mask that is shorter than the bits it is compared on.
use student_18_byzcoin.Bytes.{Bytes, match}
use student_18_byzcoin.Common.{
  ltb, ◌==◌, if◌then◌else◌, length, ℕ, Bool, true, false, Option, none, some, List, [], ◌∷◌, ◌++◌,
}

-- struct mask
pub record Mask : Type 0 where
  pub value : Bytes
  pub bits : ℕ

-- mask.match
unfoldable pub mask_match : Mask → Bytes → ℕ → Option Bool
mask_match m path bits =
    if ltb bits m.bits then match path m.value bits else match path m.value m.bits

-- struct scope
pub record Scope : Type 0 where
  pub masks : List Mask
  pub all : Bool

-- scope.All and scope.None, on any scope
abbrev pub scope_all : Scope
scope_all = record { masks = []; all = true }

abbrev pub scope_none : Scope
scope_none = record { masks = []; all = false }

-- scope.Add
unfoldable pub scope_add : Scope → Bytes → ℕ → Scope
scope_add s value bits = record s {
  masks = s.masks ++ (record { value = value; bits = bits } ∷ []);
}

any_match : List Mask → Bytes → ℕ → Option Bool
any_match [] path bits = some false
any_match (m ∷ ms) path bits = elim (mask_match m path bits) [
  | none ↦ none
  | some true ↦ some true
  | some false ↦ any_match ms path bits
]

-- scope.match
unfoldable pub scope_match : Scope → Bytes → ℕ → Option Bool
unfolding any_match
scope_match s path bits = if length s.masks == 0 then some s.all else any_match s.masks path bits

-- scope.clone
unfoldable pub scope_clone : Scope → Scope
scope_clone s = record { masks = s.masks; all = s.all }

-- struct flag, with Enable and Disable
pub record Flag : Type 0 where
  pub value : Bool

unfoldable pub enable : Flag → Flag
enable f = record f { value = true }

unfoldable pub disable : Flag → Flag
disable f = record f { value = false }
