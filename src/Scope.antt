-- ===== src/Scope.antt =====
-- Claim scopes of src/lib/busy-store.ts: `canonicalScope` and the aliases of repositories.
-- `node:path` is a parameter: `absolute_form` is `normalize`, followed by `toLowerCase` on Windows.
pub mod Canonical
use chatgpt_mcp_clean.Base.{
  ℕ, Bool, true, false, ◌&&◌, ◌||◌, Option, none, some, List, [], ◌∷◌, ◌++◌, leb, ◌==◌,
  if◌then◌else◌, take, drop, Text, codes, text_eq, trim, trim_start, is_space, to_lower, lower_unit,
  index_of, Table, lookup,
}

pub record Host : Type 0 where
  pub win32 : Bool
  pub absolute_form : Text → Text

abbrev is_slash : ℕ → Bool
is_slash c = c == b'/' || c == b'\\'

is_letter : ℕ → Bool
is_letter c = (leb b'A' c && leb c b'Z') || (leb b'a' c && leb c b'z')

is_drive : Text → Bool
unfolding is_letter
is_drive (d ∷ k ∷ s ∷ rest) = is_letter d && k == b':' && is_slash s
is_drive _ = false

-- `isAbsolute` of `node:path`.
unfoldable pub is_absolute : Host → Text → Bool
unfolding is_drive
is_absolute host [] = false
is_absolute host (c ∷ s) = if host.win32 then is_slash c || is_drive (c ∷ s) else c == b'/'

abbrev pub repo_scope_aliases : Table Text
repo_scope_aliases =
    (codes "regression-research", codes "regression-research")
    ∷ (codes "organicoverlords/regression-research", codes "regression-research")
    ∷ (codes "agents", codes "agents")
    ∷ (codes "organicoverlords/agents", codes "agents")
    ∷ []

-- The repository in front of the first colon, and the rest from the colon on.
unfoldable pub split_repo : Text → Text × Text
split_repo value = elim (index_of b':' value) [
  | none ↦ (value, [])
  | some colon ↦ (take colon value, drop colon value)
]

unfoldable pub logical_scope : Text → Text
logical_scope value = elim (lookup (to_lower (split_repo value).0) repo_scope_aliases) [
  | none ↦ value
  | some canonical_repo ↦ canonical_repo ++ (split_repo value).1
]

unfoldable pub canonical_value : Host → Text → Option Text
canonical_value host [] = none
canonical_value host (c ∷ s) =
    some (if is_absolute host (c ∷ s) then host.absolute_form (c ∷ s) else logical_scope (c ∷ s))

-- `none` stands for the error "scope must not be empty".
unfoldable pub canonical_scope : Host → Text → Option Text
canonical_scope host scope = canonical_value host (trim scope)

-- To unfold this is to unfold all of the above.
unfoldable pub scope_code : Unit {0}
unfolding canonical_scope canonical_value is_absolute logical_scope split_repo trim trim_start
    is_space to_lower lower_unit index_of lookup text_eq
scope_code = tt
