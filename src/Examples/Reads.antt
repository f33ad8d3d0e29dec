-- ===== src/Examples/Reads.antt =====
-- registry_get.go and registry.go on concrete inputs: typed reads, a registry that is built, and an
-- immutable value.
use recon.Prelude.{
  ℕ, zero, suc, ◌+◌, ◌-◌, ◌*◌, ◌/◌, ◌%◌, ◌^◌, ◌≤◌, ◌<◌, ◌≡◌, ◌≢◌, ◌↔◌, ◌⊎◌, inl, inr, refl, sym, ap,
  ap₂, ◌∙◌, subst, Bool, true, false, not, ◌&&◌, ◌||◌, Option, none, some, List, [], ◌∷◌, ◌++◌, map,
  append_assoc, append-nil, arith, ltb, leb, ◌==◌, ==_iff, if◌then◌else◌, Bool-cases, Option-cases,
  length, take, drop, length-append, take-append, drop-append, length-drop_le, All, Bytes, codes,
  bytes_eq, bytes_eq_iff, bytes_eq_refl, starts_with, compare_bytes, Map, lookup, put, remove,
  lookup-put, lookup-remove, lookup-put_self, map_laws, compare, Ordering, lt, eq, gt,
}
use recon.KeyPath.{KeyPath, to_string}
use recon.Value.{Value, value, GoValue, new_value, with_source}
use recon.Value.Raw.{text, int}
use recon.Value.GoValue.{go_uint, go_string}
use recon.Value.Access.{Runtime, ok}
use recon.Alias.{member, AreUnique}
use recon.Precedence.{Source, absent, merge_shadow}
use recon.Snapshot.Views.{build_snapshot}
use recon.Snapshot.Reads.{read}
use recon.Registry.{
  State, RegistryError, rebuild, install, candidate_error, check_immutable, validate, joined_errors,
  inputs_of,
}
use recon.Registry.Reads.{
  get, get_path, get_string, get_bool, get_int, get_int64, get_float, get_time, get_duration,
  get_string_slice,
}
use recon.Registry.Generic.{
  get_generic, value_as_uint64, string_type, bool_type, int_type, int64_type, float64_type,
  time_type, duration_type, strings_type,
}
use recon.Registry.Getters.{get-to_string, get_generic_lem, value_as_uint64-new_value}
use recon.Registry.Lifecycle.{RegistryOptions, build_registry, mark_immutable}
use recon.Registry.Fresh.{IsFresh, build_registry-IsFresh}
use recon.Registry.Immutable.{IsGuarded, rebuild-IsGuarded, run-IsGuarded}
use recon.Registry.Rollback.{Command, run, set_key}
use recon.Registry.Writes.{set, when_open, with_explicits}
use recon.Registry.{commit, undo_or, restore_entry}
use recon.Examples.Writes.{state_with, one_source, env_source}

abbrev port : KeyPath
port = codes "port" ∷ []

get-to_string_example :
    get (state_with none) (codes "db" ∷ []) (to_string port)
    ≡ get_path (state_with none) (codes "db" ∷ []) port
get-to_string_example = get-to_string (state_with none) (codes "db" ∷ []) port

-- A target with integers of 64 bits, and parsers that read nothing.
abbrev pub runtime : Runtime
runtime = record {
  max_int = 2 ^ 63 - 1;
  max_uint = 2 ^ 64 - 1;
  float_of_int = λ i. 0;
  parse_time = λ layout s. none;
  parse_duration = λ s. none;
}

get_generic_example :
    (get_generic runtime string_type (state_with none) [] (codes "port")
      ≡ get_string (state_with none) [] (codes "port"))
    × (get_generic runtime bool_type (state_with none) [] (codes "port")
        ≡ get_bool (state_with none) [] (codes "port"))
    × (get_generic runtime int_type (state_with none) [] (codes "port")
        ≡ get_int runtime (state_with none) [] (codes "port"))
    × (get_generic runtime int64_type (state_with none) [] (codes "port")
        ≡ get_int64 (state_with none) [] (codes "port"))
    × (get_generic runtime float64_type (state_with none) [] (codes "port")
        ≡ get_float runtime (state_with none) [] (codes "port"))
    × (get_generic runtime time_type (state_with none) [] (codes "port")
        ≡ get_time runtime (state_with none) [] (codes "port"))
    × (get_generic runtime duration_type (state_with none) [] (codes "port")
        ≡ get_duration runtime (state_with none) [] (codes "port"))
    × (get_generic runtime strings_type (state_with none) [] (codes "port")
        ≡ get_string_slice (state_with none) [] (codes "port"))
get_generic_example = get_generic_lem runtime (state_with none) [] (codes "port")

value_as_uint64-new_value_example :
    value_as_uint64 (with_source (new_value (go_uint (2 ^ 63))) (codes "file")) ≡ ok (2 ^ 63)
value_as_uint64-new_value_example = value_as_uint64-new_value (2 ^ 63) (codes "file") (omega arith)

abbrev options : RegistryOptions
options = record {
  initial_sources = some env_source ∷ none ∷ [];
  precedence = codes "osenv" ∷ [];
  merge = merge_shadow;
  validator = none;
  no_watch = true;
}

state_or : Option State → State
state_or none = one_source
state_or (some st) = st

options_accepted :
    build_registry options
    ≡ (some (state_or (build_registry options).0), (build_registry options).1)
unfolding build_registry state_or recon.Registry.Lifecycle.built rebuild install candidate_error
    joined_errors check_immutable recon.Registry.Lifecycle.order_sources
    recon.Registry.Lifecycle.add_initial recon.Registry.Lifecycle.go_on
    recon.Registry.Lifecycle.add_source_locked recon.Registry.Writes.check_source_name bytes_eq
    recon.Registry.Writes.is_reserved_source_name recon.Registry.Writes.has_source
    recon.Registry.Lifecycle.new_state recon.Registry.Writes.with_sources recon.Registry.validate
options_accepted = refl

build_registry-IsFresh_example : IsFresh (state_or (build_registry options).0)
build_registry-IsFresh_example =
    build_registry-IsFresh options (state_or (build_registry options).0) (build_registry options).1
      (unfold member in (refl, tt)) options_accepted

abbrev fixed_port : State
fixed_port = record (state_with none) {
  baseline = (codes "port", value (text (codes "8080")) []) ∷ [];
}

abbrev set_host : Command
set_host = set_key (codes "host") (go_string (codes "db"))

-- The first rebuild and the write after it succeed.
both_accepted :
    ((rebuild fixed_port).0 ≡ none) × ((run set_host [] (rebuild fixed_port).1).0 ≡ none)
unfolding lookup put bytes_eq compare_bytes starts_with recon.Prelude.Sorts.sort_by
    recon.Prelude.Sorts.insert_by recon.Prelude.Sorts.place new_value recon.Value.unwrap_value_deep
    recon.Precedence.Merge.map_of with_source recon.Value.source_of recon.Value.any
    recon.Value.any_of_raw recon.Registry.inputs_of recon.Registry.keeps_baseline
    recon.Registry.baseline_mode recon.Registry.check_immutable recon.Registry.validate
    recon.Registry.joined_errors recon.Registry.install recon.Registry.candidate_error
    recon.Registry.rebuild recon.Registry.full_key recon.Registry.restore_entry
    recon.Registry.write_entry recon.Registry.undo_or recon.Registry.commit
    recon.Snapshot.Views.bound_only recon.Snapshot.Views.native_keyer recon.Snapshot.Views.spellings
    recon.Snapshot.Views.duplicate_spellings recon.Snapshot.Views.shown_keys
    recon.Snapshot.Views.with_paths recon.Snapshot.Views.hide_bound_parents
    recon.Snapshot.Views.overridden_parents recon.Snapshot.Views.any_map_value
    recon.Snapshot.Views.parent_map_wins recon.Snapshot.Views.list_keys
    recon.Snapshot.Views.mark_keys recon.Snapshot.Views.build_snapshot
    recon.Snapshot.Resolve.add_keys recon.Snapshot.Resolve.add_set recon.Snapshot.Resolve.add_paths
    recon.Snapshot.Resolve.add_sources recon.Snapshot.Resolve.collect_candidate_keys
    recon.Snapshot.Resolve.canon_path recon.Snapshot.Resolve.store
    recon.Snapshot.Resolve.resolve_candidate recon.Snapshot.Resolve.resolve_candidates
    recon.Snapshot.Resolve.sources_at recon.Snapshot.Resolve.stamp_alias
    recon.Snapshot.Resolve.stamp_aliases recon.Snapshot.Resolve.prepare
    recon.Snapshot.Resolve.resolve_values recon.Snapshot.Layers.is_non_empty_map
    recon.Snapshot.Layers.map_entries recon.Snapshot.Layers.leaf_entries
    recon.Snapshot.Layers.sort_by_depth recon.Snapshot.Layers.copy_all
    recon.Snapshot.Layers.flatten_layer recon.Snapshot.Layers.sort_strings
    recon.Snapshot.Layers.invert_aliases recon.Snapshot.Layers.flatten_into
    recon.Snapshot.Reads.is_map recon.Snapshot.Reads.is_null recon.Snapshot.Reads.is_key
    recon.Snapshot.Reads.rank_index recon.Snapshot.Reads.rank_for recon.Snapshot.Reads.winner_of
    recon.Snapshot.Reads.rank_of recon.Snapshot.Reads.entry_at recon.Snapshot.Reads.entry_in
    recon.Snapshot.Reads.hit_at recon.Snapshot.Reads.walk_parents
    recon.Snapshot.Reads.lookup_in_parent recon.Snapshot.Reads.from_prefix
    recon.Snapshot.Reads.below_run recon.Snapshot.Reads.keys_below recon.Snapshot.Reads.set_nested
    recon.Snapshot.Reads.shadowed_keys recon.Snapshot.Reads.key_texts recon.Snapshot.Reads.add_leaf
    recon.Snapshot.Reads.value_at recon.Snapshot.Reads.assemble recon.Snapshot.Reads.lookup_subtree
    recon.Snapshot.Reads.keeps_own recon.Snapshot.Reads.or_value recon.Snapshot.Reads.read_own
    recon.Snapshot.Reads.read_canonical recon.Snapshot.Reads.read_set recon.Snapshot.Reads.or_below
    recon.Snapshot.Reads.own_or_below recon.Snapshot.Reads.read recon.Snapshot.Reads.get
    recon.Snapshot.Reads.source_for recon.Snapshot.Reads.as_map recon.Precedence.aliases_at
    recon.Precedence.first_in_layer recon.Precedence.layer_get recon.Precedence.first_from_source
    recon.Precedence.source_get recon.Precedence.resolve_default recon.Precedence.add_name
    recon.Precedence.take_winner recon.Precedence.walk_sources recon.Precedence.arena_length
    recon.Precedence.names_from recon.Precedence.finish_shadow recon.Precedence.resolve_shadow
    recon.Precedence.contributions recon.Precedence.default_contribution
    recon.Precedence.fold_descending recon.Precedence.merge_contributions
    recon.Precedence.resolve_append recon.Precedence.resolve_pinned recon.Precedence.resolve_chain
    recon.Precedence.resolve_key recon.KeyPath.contains recon.KeyPath.split_from
    recon.KeyPath.closing_bracket recon.KeyPath.double_brackets recon.KeyPath.halve_brackets
    recon.KeyPath.parse_loop recon.KeyPath.parse_path recon.KeyPath.needs_brackets
    recon.KeyPath.separated recon.KeyPath.write_segments recon.KeyPath.to_string
    recon.KeyPath.append_escaped recon.KeyPath.append_segments recon.KeyPath.append_canonical
    recon.KeyPath.delims_from recon.KeyPath.top_level_delims recon.KeyPath.equal_from
    recon.KeyPath.equal recon.KeyPath.has_prefix recon.KeyPath.after recon.KeyPath.append
    recon.Alias.resolve_loop recon.Alias.resolve_alias_chain recon.Alias.member
    recon.Alias.validate_loop recon.Alias.validate_no_alias_cycle
    recon.Registry.Equality.values_equal recon.Registry.Equality.value_eq run set when_open
    with_explicits recon.Registry.Writes.keep
both_accepted = (refl, refl)

run-IsGuarded_example : IsGuarded (run set_host [] (rebuild fixed_port).1).1
run-IsGuarded_example =
    run-IsGuarded set_host [] (rebuild fixed_port).1 (rebuild-IsGuarded fixed_port both_accepted.0)
      both_accepted.1
