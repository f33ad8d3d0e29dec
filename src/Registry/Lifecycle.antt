-- ===== src/Registry/Lifecycle.antt =====
-- registry.go: buildRegistry, Close, Reload, Validate, and the immutable baselines. The watcher
-- factory of injectWatcherLocked, the logger and the start of the watch engine itself are left out.
use recon.Prelude.{
  Bool, true, false, not, Option, none, some, List, [], ◌∷◌, ◌++◌, map, ltb, if◌then◌else◌, length,
  Bytes, Map, lookup, put,
}
use recon.KeyPath.{KeyPath, to_string}
use recon.Value.{Value, GoEntries}
use recon.Precedence.{Source, MergeStrategy}
use recon.Snapshot.Reads.{Snapshot, as_map}
use recon.Snapshot.Views.{build_snapshot}
use recon.Registry.{
  State, RegistryError, registry_closed, invalid_path, nil_context, context_done, rejected,
  validation, source_closed, rebuild, inputs_of, full_key,
}
use recon.Registry.Writes.{check_source_name, with_sources}
use recon.Registry.Order.{apply_precedence}

-- The struct registryOptions, as far as the construction reads it; `none` among the sources is a nil
-- one.
pub record RegistryOptions : Type 0 where
  pub initial_sources : List (Option Source)
  pub precedence : List Bytes
  pub merge : MergeStrategy
  pub validator : Option (GoEntries → Option Bytes)
  pub no_watch : Bool

-- The nil snapshot.
unfoldable pub empty_snapshot : Snapshot
empty_snapshot = record {
  values = [];
  sources = [];
  listed = [];
  lookups = [];
  overridden = [];
  in_parent = [];
  source_names = [];
  aliases = [];
  secret_keys = [];
}

unfoldable pub new_state : RegistryOptions → State
new_state options = record {
  sources = [];
  explicits = [];
  defaults = [];
  aliases = [];
  pins = [];
  snapshot = empty_snapshot;
  secret_keys = [];
  baseline = [];
  bound = [];
  closed = false;
  merge = options.merge;
  validator = options.validator;
  watching = false;
  effects = [];
}

add_checked : Source → State → Option RegistryError → Option RegistryError × State
add_checked s st (some err) = (some err, st)
add_checked s st none = (none, with_sources (st.sources ++ s ∷ []) st)

-- addSourceLocked
unfoldable pub add_source_locked : Option Source → State → Option RegistryError × State
unfolding add_checked
add_source_locked none st = (some invalid_path, st)
add_source_locked (some s) st = add_checked s st (check_source_name s.name st.sources)

unfoldable pub go_on :
    Option RegistryError → State → Option RegistryError × State → Option RegistryError × State
go_on none st rest = rest
go_on (some err) st rest = (some err, st)

-- The loop of buildRegistry over the initial sources, which ends at the first error.
unfoldable pub add_initial : List (Option Source) → State → Option RegistryError × State
add_initial [] st = (none, st)
add_initial (s ∷ sources) st =
    let st' = (add_source_locked s st).1 in
    go_on (add_source_locked s st).0 st' (add_initial sources st')

unfoldable pub order_sources : List Bytes → Option RegistryError → State → State
order_sources [] err st = st
order_sources (name ∷ order) (some e) st = st
order_sources (name ∷ order) none st = with_sources (apply_precedence (name ∷ order) st.sources) st

unfoldable pub error_list : Option RegistryError → List RegistryError
error_list none = []
error_list (some e) = e ∷ []

-- The end of buildRegistry, for the error of the loop and that of the first rebuild.
unfoldable pub built :
    Bool
    → Snapshot
    → Option RegistryError
    → Option RegistryError
    → State
    → Option State × List RegistryError
built no_watch candidate add_err none st =
    (some (record st { watching = not no_watch }), error_list add_err)
built no_watch candidate add_err (some e) st =
    if ltb 0 (length candidate.values)
    then (none, error_list add_err ++ e ∷ [])
    else (some (record st { watching = not no_watch }), error_list add_err)

-- buildRegistry: the registry, `none` for nil, and the errors that are joined
unfoldable pub build_registry : RegistryOptions → Option State × List RegistryError
build_registry options =
    let (add_err, added) = add_initial options.initial_sources (new_state options) in
    let st = order_sources options.precedence add_err added in
    let (err, st') = rebuild st in
    built options.no_watch (build_snapshot (inputs_of st)) add_err err st'

unfoldable pub source_texts : List Source → List Bytes
source_texts [] = []
source_texts (s ∷ sources) = s.name ∷ source_texts sources

failed_close : Bytes → Option Bytes → List (Bytes × Bytes) → List (Bytes × Bytes)
failed_close name none errors = errors
failed_close name (some e) errors = (name, e) ∷ errors

-- The SourceErrors of the sources that return an error from Close, which `close_of` stands for.
unfoldable pub close_errors : (Source → Option Bytes) → List Source → List (Bytes × Bytes)
unfolding failed_close
close_errors close_of [] = []
close_errors close_of (s ∷ sources) =
    failed_close s.name (close_of s) (close_errors close_of sources)

-- Registry.Close: closeOnce has run exactly when the registry is closed
unfoldable pub close_registry : (Source → Option Bytes) → State → List (Bytes × Bytes) × State
close_registry close_of st = if st.closed then ([], st) else (
  close_errors close_of st.sources,
  record st { closed = true; effects = st.effects ++ map source_closed (source_texts st.sources) },
)

-- A context.Context: nil, done with the text of its error, or still running.
pub data Context : Type 0 where
  no_context : Context
  done_context : Bytes → Context
  running : Context

checked_reload : Context → State → Option RegistryError × State
checked_reload no_context st = (some nil_context, st)
checked_reload (done_context e) st = (some (context_done e), st)
checked_reload running st = rebuild st

-- ReloadContext; Reload has a context that is never done
unfoldable pub reload_context : Context → State → Option RegistryError × State
unfolding checked_reload
reload_context ctx st = if st.closed then (some registry_closed, st) else checked_reload ctx st

checked : Option Bytes → Option RegistryError
checked none = none
checked (some e) = some (rejected (validation e))

-- Registry.Validate
unfoldable pub validate_current : State → Option RegistryError
unfolding checked
validate_current st =
    if st.closed
    then some registry_closed
    else elim st.validator [ none ↦ none | some check ↦ checked (check (as_map st.snapshot)) ]

unfoldable pub first_baseline : Bytes → Value → Option Value → Map Value → Map Value
first_baseline k v (some w) baseline = baseline
first_baseline k v none baseline = put k v baseline

-- markImmutable
unfoldable pub mark_immutable : KeyPath → Value → State → State
mark_immutable [] v st = st
mark_immutable (seg ∷ p) v st =
    let k = to_string (seg ∷ p) in
    record st { baseline = first_baseline k v (lookup k st.baseline) st.baseline }

has_value : Option Value → Bool
has_value none = false
has_value (some v) = true

-- IsImmutable
unfoldable pub is_immutable : State → KeyPath → Bytes → Bool
unfolding has_value
is_immutable st prefix key =
    if st.closed then false else has_value (lookup (full_key prefix key) st.baseline)
