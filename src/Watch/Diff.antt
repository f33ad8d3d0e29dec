-- ===== src/Watch/Diff.antt =====
-- watch.go: diffSnapshots, the paths whose value differs between two snapshots. A nil snapshot is the
-- empty one.
use recon.Prelude.Unique.{keys_where}
use recon.Prelude.{
  Bool, true, not, Option, none, some, List, [], ◌∷◌, ◌++◌, map, if◌then◌else◌, Bytes, Map, lookup,
  put,
}
use recon.KeyPath.{KeyPath, parse_path, to_string}
use recon.Value.{Value}
use recon.Snapshot.Layers.{sort_strings}
use recon.Snapshot.Reads.{Snapshot, is_key, value_at}
use recon.Registry.Equality.{values_equal}

unfoldable pub key_values_from : Snapshot → Map KeyPath → Map Value → Map Value
key_values_from s [] out = out
key_values_from s ((k, p) ∷ keys) out =
    let ps = to_string p in
    key_values_from s keys (if is_key ps s.aliases then out else put ps (value_at ps s.values) out)

-- snapshotKeyValues
unfoldable pub snapshot_key_values : Snapshot → Map Value
unfolding key_values_from
snapshot_key_values s = key_values_from s s.listed []

-- !ok || !valuesEqual(pv, v)
unfoldable pub has_changed : Option Value → Value → Bool
has_changed none v = true
has_changed (some pv) v = not (values_equal pv v)

-- The loop over the current values.
unfoldable pub changed_keys : Map Value → Map Value → List Bytes
changed_keys prev cur = keys_where (λ k v. has_changed (lookup k prev) v) cur

-- The loop over the previous values; `seen` has the keys of the current ones.
unfoldable pub gone_keys : Map Value → Map Value → List Bytes
gone_keys seen prev = keys_where (λ k v. not (is_key k seen)) prev

-- diffSnapshots, for the maps of the two snapshots
unfoldable pub diff_values : Map Value → Map Value → List KeyPath
diff_values prev cur = map parse_path (sort_strings (changed_keys prev cur ++ gone_keys cur prev))

unfoldable pub diff_snapshots : Snapshot → Snapshot → List KeyPath
diff_snapshots prev cur = diff_values (snapshot_key_values prev) (snapshot_key_values cur)
