-- ===== src/Examples/Writes.antt =====
-- registry.go, registry_set.go and the secrets of snapshot.go on concrete inputs.
use recon.Prelude.{
  subst, lookup, ◌≡◌, inl, refl, true, false, Option, none, some, [], ◌∷◌, Bytes, codes, bytes_eq,
}
use recon.Prelude.{inl}
use recon.KeyPath.{KeyPath, to_string, append, needs_brackets, contains}
use recon.Alias.{member}
use recon.Value.GoValue.{go_string}
use recon.Value.{GoEntries}
use recon.Precedence.{SnapshotInputs, merge_shadow}
use recon.Snapshot.Views.{build_snapshot}
use recon.Snapshot.Secrets.{SecretMatcher, marked, marked_alias, has}
use recon.Snapshot.Below.{has-append}
use recon.Registry.{
  State, rejected, validation, rebuild, install, candidate_error, check_immutable, validate,
  joined_errors, undo_or, commit, inputs_of,
}
use recon.Registry.Writes.{with_explicits, set, when_open}
use recon.Registry.Rollback.{Command, run, Unchanged, set_key, alias_key}
use recon.Registry.AtomicSources.{run-IsAtomic}
use recon.Alias.Chains.{Depth, last, link, Acyclic}
use recon.Registry.AliasGraph.{run-Acyclic}
use recon.Prelude.{Bool-cases, inr, inl, bytes_eq_iff}
use recon.Registry.Names.{AreDistinct, sources-AreDistinct}
use recon.Registry.Writes.{
  add_source, insert_source, remove_source, is_reserved_source_name, has_source,
}
use recon.Prelude.Int.{ℤ}
use recon.Precedence.{Source, absent}
use recon.Registry.Order.{
  apply_precedence, named_sources, consumed, unnamed, indexed, has_source-apply_precedence,
}
use recon.Registry.Current.{IsCurrent, run-IsCurrent}

abbrev secrets : SecretMatcher
secrets = record { keys = codes "db" ∷ []; aliases = (codes "store", codes "db") ∷ [] }

abbrev db : KeyPath
db = codes "db" ∷ []

db-marked : marked secrets (to_string db) ≡ true
unfolding marked marked_alias member to_string needs_brackets contains bytes_eq
db-marked = refl

has-append_example : has secrets (to_string (append db (codes "password" ∷ []))) ≡ true
has-append_example = has-append secrets (codes "db") [] (codes "password" ∷ []) (inl (cc)) db-marked

abbrev pub one_default : SnapshotInputs
one_default = record {
  sources = [];
  explicits = [];
  defaults = (codes "port", go_string (codes "8080")) ∷ [];
  aliases = (codes "p", codes "port") ∷ [];
  pins = [];
  bound = [];
  secret_keys = [];
  merge = merge_shadow;
  aliases_of = [];
}

abbrev pub state_with : Option (GoEntries → Option Bytes) → State
state_with validator = record {
  sources = [];
  explicits = [];
  defaults = one_default.defaults;
  aliases = one_default.aliases;
  pins = [];
  snapshot = build_snapshot one_default;
  secret_keys = [];
  baseline = [];
  bound = [];
  closed = false;
  merge = merge_shadow;
  validator = validator;
  watching = false;
  effects = [];
}

-- A validator that accepts nothing.
abbrev strict_state : State
strict_state = state_with (some (λ m. some (codes "refused")))

abbrev set_port : Command
set_port = set_key (codes "port") (go_string (codes "9090"))

set_port_refused : (run set_port [] strict_state).0 ≡ some (rejected (validation (codes "refused")))
unfolding run set when_open commit rebuild install candidate_error check_immutable validate
    joined_errors undo_or with_explicits
set_port_refused = refl

run-IsAtomic_example : Unchanged strict_state (run set_port [] strict_state).1
run-IsAtomic_example =
    run-IsAtomic set_port [] strict_state (rejected (validation (codes "refused"))) set_port_refused

set_port_accepted : (run set_port [] (state_with none)).0 ≡ none
unfolding run set when_open commit rebuild install candidate_error check_immutable validate
    joined_errors undo_or with_explicits
set_port_accepted = refl

start-IsCurrent : IsCurrent (state_with none)
unfolding inputs_of
start-IsCurrent = refl

run-IsCurrent_example : IsCurrent (run set_port [] (state_with none)).1
run-IsCurrent_example =
    run-IsCurrent set_port [] (state_with none) start-IsCurrent set_port_accepted

p_links : lookup (codes "p") one_default.aliases ≡ some (codes "port")
unfolding lookup bytes_eq
p_links = refl

port_free : lookup (codes "port") one_default.aliases ≡ none
unfolding lookup bytes_eq
port_free = refl

other_free : (k : Bytes) → bytes_eq (codes "p") k ≡ false → lookup k one_default.aliases ≡ none
unfolding lookup
other_free k e = rw e refl

p_ends : Depth one_default.aliases (codes "p") 1
p_ends = link p_links (last port_free)

one_default-Acyclic : Acyclic one_default.aliases
one_default-Acyclic k = elim (Bool-cases (bytes_eq (codes "p") k)) [
  | inl e ↦
      (1, subst (λ j. Depth one_default.aliases j 1) ((bytes_eq_iff (codes "p") k).0 e) p_ends)
  | inr e ↦ (0, last (other_free k e))
]

run-Acyclic_example :
    Acyclic (run (alias_key (codes "q") (codes "p")) [] (state_with none)).1.aliases
run-Acyclic_example =
    run-Acyclic (alias_key (codes "q") (codes "p")) [] (state_with none) one_default-Acyclic

abbrev pub env_source : Source
env_source = record { name = codes "osenv"; get = λ p. absent; keys = []; native_key = none }

abbrev pub one_source : State
one_source = record (state_with none) { sources = env_source ∷ [] }

one_source-AreDistinct : AreDistinct one_source.sources
unfolding AreDistinct is_reserved_source_name has_source bytes_eq
one_source-AreDistinct = ((cc), refl, refl, tt)

sources-AreDistinct_example :
    ((s : Option Source) → AreDistinct (add_source s one_source).1.sources)
    × ((at : ℤ) (s : Option Source) → AreDistinct (insert_source at s one_source).1.sources)
    × ((name : Bytes) → AreDistinct (remove_source name one_source).1.sources)
sources-AreDistinct_example = sources-AreDistinct one_source one_source-AreDistinct

has_source-apply_precedence_example :
    has_source
      (codes "osenv")
      (apply_precedence (codes "file" ∷ codes "osenv" ∷ []) one_source.sources)
    ≡ has_source (codes "osenv") one_source.sources
has_source-apply_precedence_example =
    has_source-apply_precedence (codes "osenv") (codes "file" ∷ codes "osenv" ∷ [])
      one_source.sources

-- A name that is given twice puts its source into the list twice.
twice :
    apply_precedence (codes "osenv" ∷ codes "osenv" ∷ []) one_source.sources
    ≡ env_source ∷ env_source ∷ []
unfolding apply_precedence named_sources consumed unnamed indexed bytes_eq member
twice = refl
