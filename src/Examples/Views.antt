-- ===== src/Examples/Views.antt =====
-- The view of the sources of a key, and references to keys, on a registry with two sources.
use recon.Prelude.{◌≡◌, ◌≢◌, refl, ap, Bool, true, false, none, [], ◌∷◌, map, arith, Bytes, codes}
use recon.KeyPath.{parse_path}
use recon.Alias.{resolve_alias_chain}
use recon.Value.{Value, value}
use recon.Value.Raw.{text}
use recon.Value.Access.{ok}
use recon.Precedence.{Source, Answer, present, absent, failed, contributions}
use recon.Snapshot.Resolve.{prepare}
use recon.Registry.{State, inputs_of, full_key}
use recon.Registry.Generic.{string_type}
use recon.Registry.PerSource.{PerSource, per_source_for}
use recon.Registry.Contributions.{set_entries, as_entry, per_source_for-contributions}
use recon.Binding.References.{Reader, expand_value_refs}
use recon.Binding.ReferenceEnds.{IsOutcome, expand_value_refs-IsOutcome}
use recon.Examples.Writes.{one_source, env_source}
use recon.Examples.Reads.{runtime}

abbrev file : Source
file = record {
  name = codes "file";
  get = λ p. present (value (text (codes "8080")) []);
  keys = (codes "port" ∷ []) ∷ [];
  native_key = none;
}

abbrev two_sources : State
two_sources = record one_source { sources = env_source ∷ file ∷ [] }

is_failed : Answer → Bool
is_failed (failed e) = true
is_failed a = false

absent_answers : (e : Bytes) → absent ≢ failed e
unfolding is_failed
absent_answers e h = absurd (ground (arith, ap is_failed h))

present_answers : (v : Value) (e : Bytes) → present v ≢ failed e
unfolding is_failed
present_answers v e h = absurd (ground (arith, ap is_failed h))

per_source_for-contributions_example :
    (per : PerSource string_type) × (per_source_for runtime string_type two_sources []
        (codes "port")
      ≡ ok per)
    × (per.path ≡ parse_path (resolve_alias_chain (full_key [] (codes "port")) two_sources.aliases))
    × (set_entries per.sources
        ≡ map (as_entry runtime string_type) (
            contributions two_sources.sources per.path
              (resolve_alias_chain (full_key [] (codes "port")) two_sources.aliases)
              (prepare (inputs_of two_sources))))
per_source_for-contributions_example =
    per_source_for-contributions runtime string_type two_sources [] (codes "port") refl
      (absent_answers, (present_answers (value (text (codes "8080")) []), tt))

abbrev reader : Reader
reader = record {
  formats = record {
    is_whole = λ f. false;
    format_plain = λ f. [];
    format_general = λ f. [];
    format_time = λ t. [];
    sprint = λ r. [];
  };
  state = two_sources;
  prefix = [];
}

expand_value_refs-IsOutcome_example :
    IsOutcome
      (codes "on ${port}, ${host:-here}")
      (expand_value_refs (codes "on ${port}, ${host:-here}") reader)
expand_value_refs-IsOutcome_example =
    expand_value_refs-IsOutcome (codes "on ${port}, ${host:-here}") reader
