-- ===== src/Registry.antt =====
-- registry.go, registry_set.go and registry_sub.go: the state of a registry, and its writes with
-- the rebuild of the snapshot and the rollback when that fails.
pub mod Equality
pub mod Same
pub mod Writes
pub mod Rollback
pub mod Atomic
pub mod AtomicSources
pub mod Installs
pub mod Current
pub mod AliasGraph
pub mod Names
pub mod Order
pub mod Reads
pub mod Generic
pub mod Getters
pub mod Lifecycle
pub mod Fresh
pub mod Immutable
pub mod PerSource
pub mod Contributions
pub mod Warnings
use recon.Prelude.{
  ℕ, zero, suc, ◌+◌, ◌-◌, ◌*◌, ◌/◌, ◌%◌, ◌^◌, ◌≤◌, ◌<◌, ◌≡◌, ◌≢◌, ◌↔◌, ◌⊎◌, inl, inr, refl, sym, ap,
  ap₂, ◌∙◌, subst, Bool, true, false, not, ◌&&◌, ◌||◌, Option, none, some, List, [], ◌∷◌, ◌++◌, map,
  append_assoc, append-nil, arith, ltb, leb, ◌==◌, ==_iff, if◌then◌else◌, Bool-cases, Option-cases,
  length, take, drop, length-append, take-append, drop-append, length-drop_le, All, Bytes, codes,
  bytes_eq, bytes_eq_iff, bytes_eq_refl, starts_with, compare_bytes, Map, lookup, put, remove,
  lookup-put, lookup-remove, lookup-put_self, map_laws, compare, Ordering, lt, eq, gt,
}
use recon.KeyPath.{KeyPath, parse_path, to_string, append}
use recon.Value.{Value, GoValue, GoEntries}
use recon.Precedence.{Source, SnapshotInputs, MergeStrategy}
use recon.Snapshot.Reads.{Snapshot, ReadMode, read_exact, read_section, is_map, read, as_map}
use recon.Snapshot.Secrets.{SecretMatcher, has}
use recon.Snapshot.Views.{build_snapshot}
use recon.Registry.Equality.{values_equal}

-- The errors of a rebuild. `immutable_changed` has the path, the baseline, what is read now, and
-- whether both are redacted in its text; `validation` what the validator returned.
pub data CheckError : Type 0 where
  immutable_changed : KeyPath → Value → Option Value → Bool → CheckError
  validation : Bytes → CheckError

-- The errors of the writes and of Reload. `multi` is a MultiError, `context_done` has the text of
-- the context's error.
pub data RegistryError : Type 0 where
  registry_closed : RegistryError
  invalid_path : RegistryError
  source_conflict : Bytes → RegistryError
  pin_error : Bytes → RegistryError
  alias_cycle : List KeyPath → RegistryError
  rejected : CheckError → RegistryError
  multi : List CheckError → RegistryError
  nil_context : RegistryError
  context_done : Bytes → RegistryError

-- What a write does to the watch engine and to a source that it removes.
pub data Effect : Type 0 where
  subscribed unsubscribed source_closed : Bytes → Effect

-- The struct registryState without its lock, its logger, the warnings and the paths that only
-- binding and saving read. A map that was not made yet is empty. `validator` is
-- opts.validator: code of its own, on the nested map of a snapshot.
pub record State : Type 0 where
  pub sources : List Source
  pub explicits : Map GoValue
  pub defaults : Map GoValue
  pub aliases : Map Bytes
  pub pins : Map Bytes
  pub snapshot : Snapshot
  pub secret_keys : List Bytes
  pub baseline : Map Value
  pub bound : List Bytes
  pub closed : Bool
  pub merge : MergeStrategy
  pub validator : Option (GoEntries → Option Bytes)
  pub watching : Bool
  pub effects : List Effect

-- The inputs that rebuildCandidateLocked builds from.
unfoldable pub inputs_of : State → SnapshotInputs
inputs_of st = record {
  sources = st.sources;
  explicits = st.explicits;
  defaults = st.defaults;
  aliases = st.aliases;
  pins = st.pins;
  bound = st.bound;
  secret_keys = st.secret_keys;
  merge = st.merge;
  aliases_of = [];
}

unfoldable pub keeps_baseline : Value → Option Value → Bool
keeps_baseline v none = false
keeps_baseline v (some cur) = values_equal v cur

unfoldable pub baseline_mode : Value → ReadMode
baseline_mode v = if is_map v then read_section else read_exact

-- checkImmutableLocked, over the entries of immutableBaseline
unfoldable pub check_immutable : Snapshot → Map Value → List CheckError
unfolding keeps_baseline baseline_mode
check_immutable snap [] = []
check_immutable snap ((path, v) ∷ baseline) =
    let rest = check_immutable snap baseline in
    let cur = read snap path [] (baseline_mode v) in
    let secret = has (record { keys = snap.secret_keys; aliases = snap.aliases }) path in
    if keeps_baseline v cur then rest else immutable_changed (parse_path path) v cur secret ∷ rest

reported : Option Bytes → List CheckError
reported none = []
reported (some e) = validation e ∷ []

unfoldable pub validate : Option (GoEntries → Option Bytes) → Snapshot → List CheckError
unfolding reported
validate none snap = []
validate (some check) snap = reported (check (as_map snap))

unfoldable pub joined_errors : List CheckError → Option RegistryError
joined_errors [] = none
joined_errors (e ∷ []) = some (rejected e)
joined_errors (e ∷ e' ∷ es) = some (multi (e ∷ e' ∷ es))

-- The end of rebuildCandidateLocked: the candidate is stored if there is no error.
unfoldable pub install : State → Snapshot → Option RegistryError → Option RegistryError × State
install st candidate none = (none, record st { snapshot = candidate })
install st candidate (some e) = (some e, st)

unfoldable pub candidate_error : State → Snapshot → Option RegistryError
candidate_error st candidate =
    joined_errors (check_immutable candidate st.baseline ++ validate st.validator candidate)

-- rebuildSnapshotLocked
unfoldable pub rebuild : State → Option RegistryError × State
rebuild st =
    let candidate = build_snapshot (inputs_of st) in
    install st candidate (candidate_error st candidate)

-- fullKey of a view with the given prefix
unfoldable pub full_key : KeyPath → Bytes → Bytes
full_key [] key = to_string (parse_path key)
full_key (seg ∷ prefix) key = to_string (append (seg ∷ prefix) (parse_path key))

-- restoreStringAnyEntry and restoreStringStringEntry; `none` for an entry that was not there
unfoldable pub restore_entry {ℓ} : {V : Type ℓ} → Map V → Bytes → Option V → Map V
restore_entry m key none = remove key m
restore_entry m key (some prev) = put key prev m

-- m[key] = value, or delete(m, key) for a nil value
unfoldable pub write_entry : Map GoValue → Bytes → GoValue → Map GoValue
write_entry m key GoValue.go_nil = remove key m
write_entry m key value = put key value m

unfoldable pub undo_or :
    (State → State) → (State → State) → Option RegistryError → State → Option RegistryError × State
undo_or undo done none st = (none, done st)
undo_or undo done (some e) st = (some e, undo st)

-- if err := r.rebuildSnapshotLocked(); err != nil { undo; return err }; done; return nil
unfoldable pub commit : State → (State → State) → (State → State) → Option RegistryError × State
commit st undo done = undo_or undo done (rebuild st).0 (rebuild st).1
