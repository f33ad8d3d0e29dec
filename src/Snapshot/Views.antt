-- ===== src/Snapshot/Views.antt =====
-- snapshot.go: the last part of buildSnapshot, the key lists of the snapshot and the keys whose
-- value a read takes from a parent or from the keys below.
use recon.Prelude.{
  ℕ, suc, Bool, true, false, not, ◌&&◌, ◌||◌, Option, none, some, List, [], ◌∷◌, ◌++◌, ltb, ◌==◌,
  if◌then◌else◌, length, take, drop, Bytes, bytes_eq, starts_with, Map, lookup,
}
use recon.KeyPath.{KeyPath, parse_path, top_level_delims, delim}
use recon.Alias.{member}
use recon.Value.{Value}
use recon.Precedence.{Source, SnapshotInputs}
use recon.Snapshot.Layers.{sort_strings}
use recon.Snapshot.Resolve.{Build, collect_candidate_keys, prepare, resolve_values}
use recon.Snapshot.Reads.{
  Snapshot, is_map, is_key, rank_of, entry_in, winner_of, from_prefix, key_texts, value_at,
}

-- candidates[k] != nil
has_path : Option (Option KeyPath) → Bool
has_path (some (some (seg ∷ p))) = true
has_path o = false

unfoldable pub bound_only : Bytes → SnapshotInputs → Map (Option KeyPath) → Bool
unfolding has_path
bound_only k is candidates =
    member k is.bound
    && not (has_path (lookup k candidates))
    && not (is_key k is.explicits)
    && not (is_key k is.defaults)
    && not (is_key k is.aliases)

-- The native keys of the first source of that name, if it has them.
unfoldable pub native_keyer : Bytes → List Source → Option (KeyPath → Bytes)
native_keyer name [] = none
native_keyer name (s ∷ sources) =
    let rest = native_keyer name sources in if bytes_eq s.name name then s.native_key else rest

-- sources[e] is there and its winner is `name`
won_by : Bytes → Option (List Bytes) → Bool
won_by name none = false
won_by name (some srcs) = bytes_eq (winner_of srcs) name

is_spelling : (KeyPath → Bytes) → Bytes → Map (List Bytes) → Bytes → Bytes → Option KeyPath → Bool
is_spelling native name sources b e (some (seg ∷ p)) =
    won_by name (lookup e sources)
    && bytes_eq (native (seg ∷ p)) (native (parse_path b))
    && not (bytes_eq e b)
is_spelling native name sources b e p = false

-- The candidates that name the same native entry as the bound key b. The index that the code keeps
-- by source and native name gives the same keys.
unfoldable pub spellings :
    (KeyPath → Bytes) → Bytes → Map (List Bytes) → Bytes → Map (Option KeyPath) → List Bytes
unfolding won_by is_spelling
spellings native name sources b [] = []
spellings native name sources b ((e, p) ∷ candidates) =
    let rest = spellings native name sources b candidates in
    if is_spelling native name sources b e p then e ∷ rest else rest

spellings_of : Build → SnapshotInputs → Map (Option KeyPath) → Bytes → List Bytes → List Bytes
spellings_of b is candidates k srcs = elim (native_keyer (winner_of srcs) is.sources) [
  | none ↦ []
  | some native ↦ spellings native (winner_of srcs) b.sources k candidates
]

unfoldable pub duplicate_spellings :
    Build → SnapshotInputs → Map (Option KeyPath) → List Bytes → List Bytes
unfolding spellings_of
duplicate_spellings b is candidates [] = []
duplicate_spellings b is candidates (k ∷ bound) =
    let rest = duplicate_spellings b is candidates bound in
    elim (lookup k b.sources) [
      | none ↦ rest
      | some srcs ↦
          if bound_only k is candidates then spellings_of b is candidates k srcs ++ rest else rest
    ]

-- The keys of s.values that are not hidden.
unfoldable pub shown_keys : List Bytes → Map Value → List Bytes
shown_keys hidden [] = []
shown_keys hidden ((k, v) ∷ values) =
    let rest = shown_keys hidden values in if member k hidden then rest else k ∷ rest

-- Each key with its path: the one that was resolved, or the key parsed.
unfoldable pub with_paths : Map KeyPath → List Bytes → Map KeyPath
with_paths paths [] = []
with_paths paths (k ∷ keys) =
    (k, elim (lookup k paths) [ some p ↦ p | none ↦ parse_path k ]) ∷ with_paths paths keys

first_starts : Bytes → Map KeyPath → Bool
first_starts prefix [] = false
first_starts prefix ((k, p) ∷ keys) = starts_with k prefix

unfoldable pub hide_bound_parents :
    Map Value → SnapshotInputs → Map (Option KeyPath) → Map KeyPath → Map KeyPath → Map KeyPath
unfolding first_starts
hide_bound_parents values is candidates whole [] = []
hide_bound_parents values is candidates whole ((k, p) ∷ keys) =
    let rest = hide_bound_parents values is candidates whole keys in
    let prefix = k ++ delim ∷ [] in
    if is_map (value_at k values)
      && bound_only k is candidates
      && first_starts prefix (from_prefix prefix whole)
    then rest
    else (k, p) ∷ rest

-- rk < ra || (rk == ra && av.Kind() != MapKind)
yields_to : Snapshot → Bytes → Bytes → Value → Bool
yields_to s k a av =
    ltb (rank_of s k) (rank_of s a) || (rank_of s k == rank_of s a && not (is_map av))

overridden_at : Snapshot → Bytes → List ℕ → List Bytes
overridden_at s k [] = []
overridden_at s k (j ∷ delims) =
    let rest = overridden_at s k delims in
    elim (lookup (take j k) s.values) [
      | none ↦ rest
      | some av ↦
          if not (is_key (take j k) s.aliases) && yields_to s k (take j k) av
          then take j k ∷ rest
          else rest
    ]

unfoldable pub overridden_parents : Snapshot → List Bytes → List Bytes
unfolding yields_to overridden_at
overridden_parents s [] = []
overridden_parents s (k ∷ keys) =
    let rest = overridden_parents s keys in
    if is_key k s.aliases then rest else overridden_at s k (top_level_delims k) ++ rest

unfoldable pub any_map_value : Map Value → Bool
any_map_value [] = false
any_map_value ((k, v) ∷ values) = is_map v || any_map_value values

-- Whether the map at a parent of k, of higher precedence, holds k.
parent_holds : Snapshot → Bytes → ℕ → Bool
parent_holds s k j = elim (lookup (take j k) s.values) [
  | none ↦ false
  | some av ↦
      is_map av
      && ltb (rank_of s (take j k)) (rank_of s k)
      && elim (entry_in av (drop (suc j) k)) [ none ↦ false | some v ↦ true ]
]

any_parent_holds : Snapshot → Bytes → List ℕ → Bool
any_parent_holds s k [] = false
any_parent_holds s k (j ∷ delims) = parent_holds s k j || any_parent_holds s k delims

parent_map_keys : Snapshot → List Bytes → List Bytes
parent_map_keys s [] = []
parent_map_keys s (k ∷ keys) =
    let rest = parent_map_keys s keys in
    if not (is_key k s.aliases) && any_parent_holds s k (top_level_delims k) then k ∷ rest else rest

unfoldable pub parent_map_wins : Snapshot → List Bytes
unfolding parent_holds any_parent_holds parent_map_keys
parent_map_wins s = if any_map_value s.values then parent_map_keys s (key_texts s.lookups) else []

source_names_of : List Source → List Bytes
source_names_of [] = []
source_names_of (s ∷ sources) = s.name ∷ source_names_of sources

-- The snapshot with its key lists, of prepared inputs and the values resolved from them.
unfoldable pub list_keys : SnapshotInputs → Build → Snapshot
unfolding source_names_of
list_keys is b =
    let candidates = collect_candidate_keys is in
    let hidden = duplicate_spellings b is candidates is.bound in
    let shown = with_paths b.paths (sort_strings (shown_keys hidden b.values)) in
    let listed =
      if length is.bound == 0
      then shown
      else hide_bound_parents b.values is candidates shown shown in
    record {
      values = b.values;
      sources = b.sources;
      listed = listed;
      lookups =
          if ltb (length listed) (length b.values)
          then with_paths b.paths (sort_strings (shown_keys [] b.values))
          else listed;
      overridden = [];
      in_parent = [];
      source_names = source_names_of is.sources;
      aliases = is.aliases;
      secret_keys = is.secret_keys;
    }

-- s.overridden and then s.inParent, which the former does not read.
unfoldable pub mark_keys : Snapshot → Snapshot
mark_keys s = record s {
  overridden = overridden_parents s (key_texts s.listed);
  in_parent = parent_map_wins s;
}

unfoldable pub build_snapshot : SnapshotInputs → Snapshot
build_snapshot is = let is' = prepare is in mark_keys (list_keys is' (resolve_values is'))
