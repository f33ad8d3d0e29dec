-- ===== src/Snapshot/Resolve.antt =====
-- snapshot.go: the candidate keys, and the part of buildSnapshot that resolves them and stamps the
-- aliases.
use recon.Prelude.{
  Option, none, some, List, [], ◌∷◌, if◌then◌else◌, Bytes, bytes_eq, Map, lookup, put,
}
use recon.KeyPath.{KeyPath, parse_path, to_string}
use recon.Alias.{resolve_alias_chain}
use recon.Value.{Value}
use recon.Precedence.{Source, SnapshotInputs, Resolved, resolve_key}
use recon.Snapshot.Layers.{flatten_layer, invert_aliases}

-- for k := range m { out[k] = nil }
unfoldable pub add_keys {ℓ} : {V : Type ℓ} → Map V → Map (Option KeyPath) → Map (Option KeyPath)
add_keys [] out = out
add_keys ((k, v) ∷ m) out = add_keys m (put k none out)

unfoldable pub add_set : List Bytes → Map (Option KeyPath) → Map (Option KeyPath)
add_set [] out = out
add_set (k ∷ set) out = add_set set (put k none out)

unfoldable pub add_paths : List KeyPath → Map (Option KeyPath) → Map (Option KeyPath)
add_paths [] out = out
add_paths (p ∷ ps) out = add_paths ps (put (to_string p) (some p) out)

unfoldable pub add_sources : List Source → Map (Option KeyPath) → Map (Option KeyPath)
add_sources [] out = out
add_sources (s ∷ sources) out = add_sources sources (add_paths s.keys out)

unfoldable pub collect_candidate_keys : SnapshotInputs → Map (Option KeyPath)
collect_candidate_keys is =
    add_sources is.sources
      (add_set is.bound (add_keys is.aliases (add_keys is.defaults (add_keys is.explicits []))))

-- The fields of the snapshot that the loops of buildSnapshot write, the local `paths`, and the
-- arena.
pub record Build : Type 0 where
  pub values : Map Value
  pub sources : Map (List Bytes)
  pub paths : Map KeyPath
  pub arena : Option (List Bytes)

-- canon: the path of the candidate, or that of its canonical key
unfoldable pub canon_path : Bytes → Option KeyPath → Bytes → KeyPath
canon_path key_str none canon_str = parse_path canon_str
canon_path key_str (some p) canon_str =
    if bytes_eq canon_str key_str then p else parse_path canon_str

unfoldable pub store : Bytes → Resolved → Build → Build
store k none b = b
store k (some (v, srcs)) b = record b { values = put k v b.values; sources = put k srcs b.sources }

-- One round of the first loop of buildSnapshot.
unfoldable pub resolve_candidate : Bytes → Option KeyPath → SnapshotInputs → Build → Build
resolve_candidate key_str key_path is b =
    let canon_str = resolve_alias_chain key_str is.aliases in
    elim (lookup canon_str b.paths) [
      | some p ↦ b
      | none ↦
          let canon = canon_path key_str key_path canon_str in
          let (r, arena) = resolve_key canon canon_str is b.arena in
          store canon_str r (record b { paths = put canon_str canon b.paths; arena = arena })
    ]

unfoldable pub resolve_candidates : Map (Option KeyPath) → SnapshotInputs → Build → Build
resolve_candidates [] is b = b
resolve_candidates ((k, p) ∷ candidates) is b =
    resolve_candidates candidates is (resolve_candidate k p is b)

-- s.sources[canonStr]: the nil slice for a missing key
unfoldable pub sources_at : Bytes → Map (List Bytes) → List Bytes
sources_at k m = elim (lookup k m) [ none ↦ [] | some l ↦ l ]

-- One round of the second loop: the alias gets what its canonical key has.
unfoldable pub stamp_alias : Bytes → Map Bytes → Build → Build
stamp_alias alias aliases b =
    let canon = resolve_alias_chain alias aliases in
    elim (lookup canon b.values) [
      | none ↦ b
      | some v ↦ record b {
        values = put alias v b.values;
        sources = put alias (sources_at canon b.sources) b.sources;
      }
    ]

unfoldable pub stamp_aliases : Map Bytes → Map Bytes → Build → Build
stamp_aliases [] aliases b = b
stamp_aliases ((alias, target) ∷ rest) aliases b =
    stamp_aliases rest aliases (stamp_alias alias aliases b)

-- The inputs with the layers flattened and the aliases inverted.
unfoldable pub prepare : SnapshotInputs → SnapshotInputs
prepare is = record is {
  explicits = flatten_layer is.explicits;
  defaults = flatten_layer is.defaults;
  aliases_of = invert_aliases is.aliases;
}

abbrev pub empty_build : Build
empty_build = record { values = []; sources = []; paths = []; arena = some [] }

-- The values and the provenance that buildSnapshot ends with, for prepared inputs.
unfoldable pub resolve_values : SnapshotInputs → Build
resolve_values is =
    stamp_aliases is.aliases is.aliases
      (resolve_candidates (collect_candidate_keys is) is empty_build)
