-- ===== src/Examples/Resolution.antt =====
-- precedence.go and snapshot.go on concrete inputs.
use recon.Prelude.{
  ◌≡◌, inl, inr, refl, subst, false, none, some, List, [], ◌∷◌, ◌++◌, arith, if◌then◌else◌,
  Bool-cases, Bytes, codes, bytes_eq, bytes_eq_iff, lookup,
}
use recon.Prelude.Int.{pos}
use recon.KeyPath.{contains, needs_brackets, KeyPath, parse_path, to_string}
use recon.Alias.{resolve_alias_chain}
use recon.Alias.Chains.{Depth, last, link}
use recon.Value.{Value, Raw, Entries, value, end, entry, with_source, source_of}
use recon.Precedence.{
  resolve_pinned, take_winner, add_name, walk_sources, Source, present, absent, SnapshotInputs,
  merge_shadow, source_get, contributions, resolve_default, resolve_shadow, resolve_key, layer_get,
}
use recon.Precedence.Merge.{find, merge_values}
use recon.Precedence.MergeLaws.{IsDistinct, entry_of, merge_values-maps}
use recon.Precedence.Shadow.{AreNamed, first_of, names, resolve_shadow_lem}
use recon.Precedence.Laws.{resolve_key-source, resolve_key-pinned, resolve_key-add_source}
use recon.Snapshot.Resolve.{collect_candidate_keys, resolve_values}
use recon.Snapshot.Canonical.{resolved_key, value_of, only_in, canonical_keys}
use recon.Snapshot.Stamp.{AreShort}
use recon.Snapshot.Values.{resolve_values_lem}

-- A source that holds one key.
abbrev one_key : Bytes → Bytes → Value → Source
one_key name key v = record {
  name = name;
  get = λ p. if bytes_eq (to_string p) key then present v else absent;
  keys = parse_path key ∷ [];
  native_key = none;
}

abbrev port : Bytes
port = codes "port"

abbrev v8080 : Value
v8080 = value (Raw.text (codes "8080")) []

abbrev v9090 : Value
v9090 = value (Raw.int (pos 9090)) []

abbrev osenv : Source
osenv = one_key (codes "osenv") port v8080

abbrev file : Source
file = one_key (codes "file") port v9090

abbrev inputs : SnapshotInputs
inputs = record {
  sources = osenv ∷ file ∷ [];
  explicits = [];
  defaults = [];
  aliases = (codes "p", port) ∷ [];
  pins = [];
  bound = [];
  secret_keys = [];
  merge = merge_shadow;
  aliases_of = (port, (codes "p" ∷ []) ∷ []) ∷ [];
}

abbrev pinned : SnapshotInputs
pinned = record inputs { pins = (port, codes "file") ∷ [] }

abbrev port_path : KeyPath
port_path = port ∷ []

inputs-AreNamed : AreNamed (osenv ∷ file ∷ [])
inputs-AreNamed = (cc, (cc, tt))

resolve_shadow_example :
    (resolve_shadow port_path port inputs (some (codes "x" ∷ []))).0
    ≡ first_of (contributions inputs.sources port_path port inputs) (resolve_default port inputs)
resolve_shadow_example =
    resolve_shadow_lem port_path port inputs (some (codes "x" ∷ [])) inputs-AreNamed

env_wins :
    (resolve_key port_path port inputs none).0
    ≡ some (with_source v8080 (codes "osenv"), codes "osenv" ∷ codes "file" ∷ [])
unfolding resolve_key layer_get resolve_shadow source_get lookup bytes_eq walk_sources to_string
    needs_brackets contains add_name take_winner
env_wins = refl

resolve_key-source_example :
    (rest : List Bytes) × ((codes "osenv" ∷ codes "file" ∷ [])
      ≡ source_of (with_source v8080 (codes "osenv")) ∷ rest)
resolve_key-source_example =
    resolve_key-source port_path port inputs none (with_source v8080 (codes "osenv"))
      (codes "osenv" ∷ codes "file" ∷ []) inputs-AreNamed env_wins

no_explicit : layer_get [] port pinned ≡ none
unfolding layer_get lookup bytes_eq
no_explicit = refl

has_pin : lookup port pinned.pins ≡ some (codes "file")
unfolding lookup bytes_eq
has_pin = refl

file_wins :
    (resolve_key port_path port pinned none).0
    ≡ some (with_source v9090 (codes "file"), codes "file" ∷ [])
unfolding resolve_key layer_get resolve_pinned source_get lookup bytes_eq to_string needs_brackets
    contains
file_wins = refl

resolve_key-pinned_example :
    (source_of (with_source v9090 (codes "file")) ≡ codes "file")
    × ((codes "file" ∷ []) ≡ codes "file" ∷ [])
resolve_key-pinned_example =
    resolve_key-pinned port_path port pinned none (codes "file") (with_source v9090 (codes "file"))
      (codes "file" ∷ []) no_explicit has_pin file_wins

not_explicit : layer_get [] port inputs ≡ none
unfolding layer_get lookup bytes_eq
not_explicit = refl

not_pinned : lookup port inputs.pins ≡ none
unfolding lookup
not_pinned = refl

both_contribute :
    contributions inputs.sources port_path port inputs
    ≡ (codes "osenv", v8080) ∷ (codes "file", v9090) ∷ []
unfolding contributions source_get lookup bytes_eq to_string needs_brackets contains
both_contribute = refl

abbrev remote : Source
remote = one_key (codes "remote") port (value (Raw.text (codes "1")) [])

resolve_key-add_source_example :
    (rest : List Bytes) × ((resolve_key port_path port
        (record inputs { sources = inputs.sources ++ remote ∷ [] })
        none).0
      ≡ some (with_source v8080 (codes "osenv"), codes "osenv" ∷ rest))
    × ((resolve_key port_path port inputs none).0
        ≡ some
            (with_source v8080 (codes "osenv"), codes "osenv" ∷ names ((codes "file", v9090) ∷ [])))
resolve_key-add_source_example =
    resolve_key-add_source port_path port inputs none remote (codes "osenv") v8080
      ((codes "file", v9090) ∷ []) inputs-AreNamed (cc) refl not_explicit not_pinned both_contribute

abbrev low_entries : Entries
low_entries = entry (codes "host") v8080 (entry port v8080 end)

abbrev high_entries : Entries
high_entries = entry port v9090 end

high_entries-IsDistinct : IsDistinct high_entries
unfolding IsDistinct find
high_entries-IsDistinct = (refl, tt)

merge_values-maps_example :
    (mm : Entries) × (merge_values
        (value (Raw.map low_entries) [])
        (value (Raw.map high_entries) [])
      ≡ value (Raw.map mm) [])
    × ((k : Bytes) → find k mm ≡ entry_of (find k low_entries) (find k high_entries))
merge_values-maps_example = merge_values-maps low_entries high_entries [] [] high_entries-IsDistinct

p_links : lookup (codes "p") inputs.aliases ≡ some port
unfolding lookup bytes_eq
p_links = refl

port_free : lookup port inputs.aliases ≡ none
unfolding lookup bytes_eq
port_free = refl

free : (k : Bytes) → bytes_eq (codes "p") k ≡ false → lookup k inputs.aliases ≡ none
unfolding lookup
free k e = rw e refl

p_ends : Depth inputs.aliases (codes "p") 1
p_ends = link p_links (last port_free)

inputs-AreShort : AreShort inputs.aliases
inputs-AreShort k = elim (Bool-cases (bytes_eq (codes "p") k)) [
  | inl e ↦ (
    1,
    subst (λ j. Depth inputs.aliases j 1) ((bytes_eq_iff (codes "p") k).0 e) p_ends,
    omega arith,
  )
  | inr e ↦ (0, last (free k e), omega arith)
]

resolve_values_example :
    lookup (codes "p") (resolve_values inputs).values
    ≡ value_of (
        only_in
          (canonical_keys inputs (collect_candidate_keys inputs) [])
          (resolve_alias_chain (codes "p") inputs.aliases)
          (resolved_key inputs (resolve_alias_chain (codes "p") inputs.aliases)))
resolve_values_example = resolve_values_lem inputs inputs-AreNamed inputs-AreShort (codes "p")
