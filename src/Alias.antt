-- ===== src/Alias.antt =====
-- alias.go: following alias chains within a budget, and the check that refuses cycles.
pub mod Chains
pub mod Cycles
use recon.Prelude.{
  ◌≡◌, ℕ, zero, suc, Bool, true, false, ◌||◌, List, [], ◌∷◌, ◌++◌, Option, none, some, Bytes,
  bytes_eq, Map, lookup, if◌then◌else◌,
}
use recon.KeyPath.{KeyPath, parse_path}

abbrev pub max_alias_depth : ℕ
max_alias_depth = 32

-- `for range maxAliasDepth`, with the rounds that are left
unfoldable pub resolve_loop : ℕ → Bytes → Map Bytes → Bytes
resolve_loop zero cur aliases = cur
resolve_loop (suc n) cur aliases = elim (lookup cur aliases) [
  | none ↦ cur
  | some next ↦ resolve_loop n next aliases
]

unfoldable pub resolve_alias_chain : Bytes → Map Bytes → Bytes
resolve_alias_chain start aliases = resolve_loop max_alias_depth start aliases

-- A map[string]struct{} as the list of its keys.
unfoldable pub member : Bytes → List Bytes → Bool
member k [] = false
member k (j ∷ set) = bytes_eq j k || member k set

-- Texts without repetition.
abbrev pub AreUnique : List Bytes → Type 0
AreUnique [] = Unit
AreUnique (k ∷ keys) = (member k keys ≡ false) × AreUnique keys

-- The loop of validateNoAliasCycle; `none` is the nil slice.
unfoldable pub validate_loop :
    ℕ → Bytes → Bytes → List Bytes → List KeyPath → Map Bytes → Option (List KeyPath)
validate_loop zero alias cur visited chain existing = some chain
validate_loop (suc n) alias cur visited chain existing = elim (lookup cur existing) [
  | none ↦ none
  | some next ↦
      let rest =
        validate_loop n alias next (next ∷ visited) (chain ++ parse_path next ∷ []) existing in
      if bytes_eq next alias
      then some (chain ++ parse_path next ∷ [])
      else if member next visited
      then some (chain ++ parse_path next ∷ [])
      else rest
]

unfoldable pub validate_no_alias_cycle : Bytes → Bytes → Map Bytes → Option (List KeyPath)
validate_no_alias_cycle alias canonical existing =
    if bytes_eq alias canonical
    then some (parse_path alias ∷ [])
    else validate_loop max_alias_depth alias canonical (alias ∷ [])
        (parse_path alias ∷ parse_path canonical ∷ []) existing
