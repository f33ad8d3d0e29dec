-- ===== src/Precedence.antt =====
-- precedence.go and source.go: the walk over the layers that resolves one key.
pub mod Merge
pub mod Shadow
pub mod Laws
pub mod MergeLaws
use recon.Prelude.{
  ℕ, Bool, true, false, not, List, [], ◌∷◌, ◌++◌, map, Option, none, some, Bytes, bytes_eq, codes,
  Map, lookup, length, drop, if◌then◌else◌,
}
use recon.KeyPath.{KeyPath, to_string}
use recon.Value.{Value, GoValue, new_value, with_source}
use recon.Precedence.Merge.{merge_values}

-- The results of Source.Get: (v, true, nil), (_, false, nil) and an error.
pub data Answer : Type 0 where
  present : Value → Answer
  absent : Answer
  failed : Bytes → Answer

-- A Source as the registry uses it, at the time of one rebuild; `native_key` is there for the
-- sources that implement nativeKeyer.
pub record Source : Type 0 where
  pub name : Bytes
  pub get : KeyPath → Answer
  pub keys : List KeyPath
  pub native_key : Option (KeyPath → Bytes)

pub data MergeStrategy : Type 0 where
  merge_shadow merge_append merge_replace : MergeStrategy

abbrev pub src_explicit : Bytes
src_explicit = codes "explicit"

abbrev pub src_default : Bytes
src_default = codes "default"

-- The struct snapshotInputs, but for the redactor and the arena; a set is the list of its keys.
pub record SnapshotInputs : Type 0 where
  pub sources : List Source
  pub explicits : Map GoValue
  pub defaults : Map GoValue
  pub aliases : Map Bytes
  pub pins : Map Bytes
  pub bound : List Bytes
  pub secret_keys : List Bytes
  pub merge : MergeStrategy
  pub aliases_of : Map (List KeyPath)

-- is.aliasesOf[pathStr]: the nil slice for a missing key
unfoldable pub aliases_at : SnapshotInputs → Bytes → List KeyPath
aliases_at is path_str = elim (lookup path_str is.aliases_of) [ none ↦ [] | some ps ↦ ps ]

unfoldable pub first_in_layer : Map GoValue → List KeyPath → Option GoValue
first_in_layer layer [] = none
first_in_layer layer (alias ∷ rest) = elim (lookup (to_string alias) layer) [
  | some raw ↦ some raw
  | none ↦ first_in_layer layer rest
]

unfoldable pub layer_get : Map GoValue → Bytes → SnapshotInputs → Option GoValue
unfolding first_in_layer aliases_at
layer_get layer path_str is = elim (lookup path_str layer) [
  | some raw ↦ some raw
  | none ↦ first_in_layer layer (aliases_at is path_str)
]

abbrev pub answered : Answer → Option Value
answered (present v) = some v
answered absent = none
answered (failed e) = none

unfoldable pub first_from_source : Source → List KeyPath → Option Value
first_from_source s [] = none
first_from_source s (alias ∷ rest) = elim (answered (s.get alias)) [
  | some v ↦ some v
  | none ↦ first_from_source s rest
]

unfoldable pub source_get : Source → KeyPath → Bytes → SnapshotInputs → Option Value
unfolding first_from_source aliases_at
source_get s p path_str is = elim (answered (s.get p)) [
  | some v ↦ some v
  | none ↦ first_from_source s (aliases_at is path_str)
]

-- The results of a resolution, `none` for found == false.
abbrev pub Resolved : Type 0
Resolved = Option (Value × List Bytes)

-- The default layer, which resolveShadow falls back to.
unfoldable pub resolve_default : Bytes → SnapshotInputs → Resolved
resolve_default path_str is = elim (layer_get is.defaults path_str is) [
  | some raw ↦ some (with_source (new_value raw) src_default, src_default ∷ [])
  | none ↦ none
]

-- The variables of the loop of resolveShadow; `arena` is *is.srcArena, `none` for a nil pointer.
pub record Walk : Type 0 where
  pub winner : Option Value
  pub winner_name : Bytes
  pub srcs : List Bytes
  pub arena : Option (List Bytes)

unfoldable pub add_name : Bytes → Walk → Walk
add_name name w = elim w.arena [
  | none ↦ record w { srcs = w.srcs ++ name ∷ [] }
  | some a ↦ record w { arena = some (a ++ name ∷ []) }
]

unfoldable pub take_winner : Bytes → Value → Walk → Walk
take_winner name v w =
    if bytes_eq w.winner_name []
    then record w { winner = some (with_source v name); winner_name = name }
    else w

unfoldable pub walk_sources : List Source → KeyPath → Bytes → SnapshotInputs → Walk → Walk
walk_sources [] p path_str is w = w
walk_sources (s ∷ sources) p path_str is w =
    walk_sources sources p path_str is (elim (source_get s p path_str is) [
      | none ↦ w
      | some v ↦ add_name s.name (take_winner s.name v w)
    ])

unfoldable pub arena_length : Option (List Bytes) → ℕ
arena_length none = 0
arena_length (some a) = length a

-- srcs, or the part of the arena from `start` on
unfoldable pub names_from : ℕ → Walk → List Bytes
names_from start w = elim w.arena [ none ↦ w.srcs | some a ↦ drop start a ]

unfoldable pub finish_shadow : ℕ → Bytes → SnapshotInputs → Walk → Resolved
finish_shadow start path_str is w =
    if not (bytes_eq w.winner_name [])
    then elim w.winner [ none ↦ none | some v ↦ some (v, names_from start w) ]
    else resolve_default path_str is

-- The result of resolveShadow, and the arena after it.
unfoldable pub resolve_shadow :
    KeyPath → Bytes → SnapshotInputs → Option (List Bytes) → Resolved × Option (List Bytes)
unfolding arena_length names_from finish_shadow
resolve_shadow p path_str is arena =
    let start =
      walk_sources is.sources p path_str is
        (record { winner = none; winner_name = []; srcs = []; arena = arena }) in
    (finish_shadow (arena_length arena) path_str is start, start.arena)

-- What the sources that have the key supply, in order of precedence.
unfoldable pub contributions : List Source → KeyPath → Bytes → SnapshotInputs → List (Bytes × Value)
contributions [] p path_str is = []
contributions (s ∷ sources) p path_str is =
    let rest = contributions sources p path_str is in
    elim (source_get s p path_str is) [ none ↦ rest | some v ↦ (s.name, v) ∷ rest ]

unfoldable pub default_contribution : Bytes → SnapshotInputs → List (Bytes × Value)
default_contribution path_str is = elim (layer_get is.defaults path_str is) [
  | some raw ↦ (src_default, new_value raw) ∷ []
  | none ↦ []
]

-- merged := descending[last].val, then each one above it
unfoldable pub fold_descending : Value → List (Bytes × Value) → Value
fold_descending v [] = v
fold_descending v ((name, next) ∷ rest) = merge_values (fold_descending next rest) v

unfoldable pub merge_contributions : List (Bytes × Value) → Resolved
merge_contributions [] = none
merge_contributions ((name, v) ∷ rest) =
    some (with_source (fold_descending v rest) name, name ∷ map (λ c. c.0) rest)

unfoldable pub resolve_append : KeyPath → Bytes → SnapshotInputs → Resolved
unfolding default_contribution merge_contributions
resolve_append p path_str is =
    merge_contributions (contributions is.sources p path_str is ++ default_contribution path_str is)

-- The loop over the sources for a pinned key: the first of that name answers.
unfoldable pub resolve_pinned : List Source → Bytes → KeyPath → Bytes → SnapshotInputs → Resolved
resolve_pinned [] pin p path_str is = none
resolve_pinned (s ∷ sources) pin p path_str is =
    let rest = resolve_pinned sources pin p path_str is in
    if not (bytes_eq s.name pin) then rest else elim (source_get s p path_str is) [
      | none ↦ none
      | some v ↦ some (with_source v s.name, s.name ∷ [])
    ]

unfoldable pub resolve_chain :
    MergeStrategy
    → KeyPath
    → Bytes
    → SnapshotInputs
    → Option (List Bytes)
    → Resolved × Option (List Bytes)
resolve_chain merge_append p path_str is arena = (resolve_append p path_str is, arena)
resolve_chain merge_shadow p path_str is arena = resolve_shadow p path_str is arena
resolve_chain merge_replace p path_str is arena = resolve_shadow p path_str is arena

-- resolveKey, with the arena that it passes on.
unfoldable pub resolve_key :
    KeyPath → Bytes → SnapshotInputs → Option (List Bytes) → Resolved × Option (List Bytes)
unfolding resolve_chain
resolve_key p path_str is arena = elim (layer_get is.explicits path_str is) [
  | some raw ↦ (some (with_source (new_value raw) src_explicit, src_explicit ∷ []), arena)
  | none ↦ elim (lookup path_str is.pins) [
    | some pin ↦ (resolve_pinned is.sources pin p path_str is, arena)
    | none ↦ resolve_chain is.merge p path_str is arena
  ]
]
