-- ===== src/Sources/MapSource.antt =====
-- source_map.go: the source on a nested map, as a decoded configuration file is one.
use recon.Prelude.{
  ℕ, suc, ◌+◌, Bool, false, Option, none, some, List, [], ◌∷◌, ◌++◌, ◌==◌, if◌then◌else◌, Bytes,
  bytes_eq,
}
use recon.KeyPath.{KeyPath, to_string}
use recon.Value.{GoValue, GoValues, GoEntries, new_value}
use recon.Value.GoValue.{any_map, any_slice}
use recon.Value.GoValues.{go_none, go_cons}
use recon.Value.GoEntries.{go_end, go_entry}
use recon.Precedence.Merge.{go_find}
use recon.Precedence.{Source, Answer, present, absent}
use recon.Sources.Transforms.{snake_upper_prefix_transform, parse_snake_upper}
use recon.Sources.Sorting.{sort_paths}

-- The struct MapSource without its lock.
pub record MapSource : Type 0 where
  pub name : Bytes
  pub entries : GoEntries
  pub env_keys : Option Bytes

-- deepCopyMap and deepCopyValue; []string and map[string]string are copied like every slice and map
-- whose elements are leaves
unfoldable mutual
  pub deep_copy_map : GoEntries → GoEntries
  deep_copy_map go_end = go_end
  deep_copy_map (go_entry k v m) = go_entry k (deep_copy_value v) (deep_copy_map m)

  pub deep_copy_value : GoValue → GoValue
  deep_copy_value (any_map m) = any_map (deep_copy_map m)
  deep_copy_value (any_slice xs) = any_slice (deep_copy_values xs)
  deep_copy_value v = v

  pub deep_copy_values : GoValues → GoValues
  deep_copy_values go_none = go_none
  deep_copy_values (go_cons x xs) = go_cons (deep_copy_value x) (deep_copy_values xs)

-- NewMapSource
unfoldable pub new_map_source : Bytes → GoEntries → MapSource
new_map_source name m = record { name = name; entries = deep_copy_map m; env_keys = none }

-- newFileMapSource, for the fields envKeys and envPrefix of its options
unfoldable pub new_file_map_source : Bytes → GoEntries → Bool → Option Bytes → MapSource
new_file_map_source name decoded owned env_keys = record {
  name = name;
  entries = if owned then decoded else deep_copy_map decoded;
  env_keys = env_keys;
}

-- Replace and replaceOwned
unfoldable pub replace : MapSource → GoEntries → MapSource
replace s m = record s { entries = deep_copy_map m }

unfoldable pub replace_owned : MapSource → GoEntries → MapSource
replace_owned s m = record s { entries = m }

-- m[seg] for a current value that is a map
unfoldable pub entry_under : GoValue → Bytes → Option GoValue
entry_under (any_map m) seg = go_find seg m
entry_under v seg = none

-- The loop of Get over the segments; `none` once a segment is missing.
unfoldable pub walk_from : Option GoValue → KeyPath → Option GoValue
walk_from none p = none
walk_from (some cur) [] = some cur
walk_from (some cur) (seg ∷ p) = walk_from (entry_under cur seg) p

unfoldable pub walk_at : GoValue → KeyPath → Option GoValue
walk_at cur p = walk_from (some cur) p

stored_path : Option Bytes → KeyPath → KeyPath
stored_path none p = p
stored_path (some prefix) p = snake_upper_prefix_transform prefix p ∷ []

answer_of : Option GoValue → Answer
answer_of none = absent
answer_of (some v) = present (new_value v)

-- MapSource.Get
unfoldable pub map_get : MapSource → KeyPath → Answer
unfolding stored_path answer_of
map_get s [] = absent
map_get s (seg ∷ p) = answer_of (walk_at (any_map s.entries) (stored_path s.env_keys (seg ∷ p)))

-- MapSource.nativeKey
unfoldable pub native_key : MapSource → KeyPath → Bytes
native_key s p = elim s.env_keys [
  | none ↦ to_string p
  | some prefix ↦ snake_upper_prefix_transform prefix p
]

-- leafWriter.walk: the paths of the leaves below a prefix
unfoldable mutual
  pub walk_entries : GoEntries → KeyPath → List KeyPath
  walk_entries go_end prefix = []
  walk_entries (go_entry k v m) prefix = walk_value v (prefix ++ k ∷ []) ++ walk_entries m prefix

  pub walk_value : GoValue → KeyPath → List KeyPath
  walk_value (any_map m) path = walk_entries m path
  walk_value v path = path ∷ []

-- countLeaves: the leaves, and the segments of their paths
unfoldable mutual
  pub count_leaves : GoEntries → ℕ → ℕ × ℕ
  count_leaves go_end depth = (0, 0)
  count_leaves (go_entry k v m) depth =
      let (leaves, segs) = count_leaves m depth in
      let (l, s) = count_value v depth in (l + leaves, s + segs)

  pub count_value : GoValue → ℕ → ℕ × ℕ
  count_value (any_map m) depth = count_leaves m (suc depth)
  count_value v depth = (1, depth)

unfoldable pub leaf_paths : GoEntries → List KeyPath
leaf_paths m =
    let (leaves, segs) = count_leaves m 1 in if leaves == 0 then [] else walk_entries m []

-- len(p) > 0 && s.envKeyName(p) == name
keeps_name : Bytes → Bytes → Option KeyPath → Bool
keeps_name prefix name (some (seg ∷ p)) =
    bytes_eq (snake_upper_prefix_transform prefix (seg ∷ p)) name
keeps_name prefix name o = false

path_of : Option KeyPath → KeyPath
path_of none = []
path_of (some p) = p

unfoldable pub env_key_paths : Bool → Bytes → GoEntries → List KeyPath
unfolding keeps_name path_of
env_key_paths fold prefix go_end = []
env_key_paths fold prefix (go_entry name v m) =
    let rest = env_key_paths fold prefix m in
    let p = parse_snake_upper fold name prefix in
    if keeps_name prefix name p then path_of p ∷ rest else rest

unfoldable pub unsorted_keys : Bool → MapSource → List KeyPath
unsorted_keys fold s = elim s.env_keys [
  | none ↦ leaf_paths s.entries
  | some prefix ↦ env_key_paths fold prefix s.entries
]

-- MapSource.Keys; the first argument is envNamesFoldCase
unfoldable pub map_keys : Bool → MapSource → List KeyPath
map_keys fold s = sort_paths (unsorted_keys fold s)

-- The map source as the registry uses it.
unfoldable pub map_source : Bool → MapSource → Source
map_source fold s = record {
  name = s.name;
  get = map_get s;
  keys = map_keys fold s;
  native_key = some (native_key s);
}
