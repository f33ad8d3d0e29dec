-- ===== src/Snapshot/Layers.antt =====
-- snapshot.go: the layers and the aliases as the build of a snapshot reads them.
use recon.Prelude.Sorts.{sort_by}
use recon.Prelude.{
  Bool, true, false, none, some, List, [], ◌∷◌, ◌++◌, map, ltb, if◌then◌else◌, length, Bytes,
  compare_bytes, Map, lookup, put,
}
use recon.KeyPath.{KeyPath, parse_path, to_string, append}
use recon.Alias.{resolve_alias_chain}
use recon.Value.{Value, Raw, Entries, value, end, entry, GoValue, GoEntries, new_value}
use recon.Value.GoValue.{go_value, any_map, value_map, typed_map}
use recon.Value.GoEntries.{go_end, go_entry}

-- Len() > 0 of the maps
non_empty : Entries → Bool
non_empty end = false
non_empty (entry k v m) = true

go_non_empty : GoEntries → Bool
go_non_empty go_end = false
go_non_empty (go_entry k x m) = true

unfoldable pub is_non_empty_map : GoValue → Bool
unfolding non_empty go_non_empty
is_non_empty_map (go_value (value (Raw.map m) s)) = non_empty m
is_non_empty_map (go_value v) = false
is_non_empty_map (any_map m) = go_non_empty m
is_non_empty_map (value_map m) = non_empty m
is_non_empty_map (typed_map m) = go_non_empty m
is_non_empty_map x = false

unfoldable mutual
  pub flatten_into : Map GoValue → KeyPath → Value → Map GoValue
  flatten_into out p (value r s) = flatten_raw out p s r

  pub flatten_raw : Map GoValue → KeyPath → Bytes → Raw → Map GoValue
  flatten_raw out p s (Raw.map (entry k v m)) =
      flatten_entries (flatten_into out (append p (k ∷ [])) v) p m
  flatten_raw out p s r = put (to_string p) (go_value (value r s)) out

  pub flatten_entries : Map GoValue → KeyPath → Entries → Map GoValue
  flatten_entries out p end = out
  flatten_entries out p (entry k v m) = flatten_entries (flatten_into out (append p (k ∷ [])) v) p m

-- The entries that are maps, and those that are not.
unfoldable pub map_entries : Map GoValue → Map GoValue
map_entries [] = []
map_entries ((k, v) ∷ m) =
    let rest = map_entries m in if is_non_empty_map v then (k, v) ∷ rest else rest

unfoldable pub leaf_entries : Map GoValue → Map GoValue
leaf_entries [] = []
leaf_entries ((k, v) ∷ m) =
    let rest = leaf_entries m in if is_non_empty_map v then rest else (k, v) ∷ rest

-- slices.SortFunc by the number of segments of the key
insert_by_depth : Bytes → GoValue → Map GoValue → Map GoValue
insert_by_depth k v [] = (k, v) ∷ []
insert_by_depth k v ((j, w) ∷ m) =
    let rest = insert_by_depth k v m in
    if ltb (length (parse_path j)) (length (parse_path k))
    then (j, w) ∷ rest
    else (k, v) ∷ (j, w) ∷ m

unfoldable pub sort_by_depth : Map GoValue → Map GoValue
unfolding insert_by_depth
sort_by_depth [] = []
sort_by_depth ((k, v) ∷ m) = insert_by_depth k v (sort_by_depth m)

flatten_maps : Map GoValue → Map GoValue → Map GoValue
flatten_maps [] out = out
flatten_maps ((k, v) ∷ m) out = flatten_maps m (flatten_into out (parse_path k) (new_value v))

-- maps.Copy(out, m)
unfoldable pub copy_all {ℓ} : {V : Type ℓ} → Map V → Map V → Map V
copy_all [] out = out
copy_all ((k, v) ∷ m) out = copy_all m (put k v out)

unfoldable pub flatten_layer : Map GoValue → Map GoValue
unfolding flatten_maps
flatten_layer m = elim (map_entries m) [
  | [] ↦ m
  | e ∷ es ↦ copy_all (leaf_entries m) (flatten_maps (sort_by_depth (e ∷ es)) [])
]

-- byCanon[canon] = append(byCanon[canon], alias) for each alias
add_alias : Bytes → Bytes → Map (List Bytes) → Map (List Bytes)
add_alias canon alias by_canon = elim (lookup canon by_canon) [
  | none ↦ put canon (alias ∷ []) by_canon
  | some list ↦ put canon (list ++ alias ∷ []) by_canon
]

by_canonical : Map Bytes → Map Bytes → Map (List Bytes) → Map (List Bytes)
by_canonical [] aliases by_canon = by_canon
by_canonical ((alias, target) ∷ rest) aliases by_canon =
    by_canonical rest aliases (add_alias (resolve_alias_chain alias aliases) alias by_canon)

-- slices.Sort on strings
unfoldable pub sort_strings : List Bytes → List Bytes
sort_strings l = sort_by compare_bytes l

parse_lists : Map (List Bytes) → Map (List KeyPath)
parse_lists [] = []
parse_lists ((canon, list) ∷ m) = (canon, map parse_path (sort_strings list)) ∷ parse_lists m

unfoldable pub invert_aliases : Map Bytes → Map (List KeyPath)
unfolding by_canonical add_alias parse_lists
invert_aliases aliases = parse_lists (by_canonical aliases aliases [])
