-- ===== src/Precedence/Merge.antt =====
-- mergeValues: slices are concatenated and maps merged deeply, the value of higher precedence last.
use recon.Prelude.{Option, none, some, Bytes, bytes_eq, if◌then◌else◌}
use recon.Value.{
  Value, Raw, Values, Entries, value, nil, cons, end, entry, GoValue, GoValues, GoEntries,
  new_value, any,
}
use recon.Value.Raw.{slice, map}
use recon.Value.GoValue.{any_slice, any_map}
use recon.Value.GoValues.{go_none, go_cons}
use recon.Value.GoEntries.{go_end, go_entry}

-- v, ok := m[k] on a map[string]Value and on a map[string]any
unfoldable pub find : Bytes → Entries → Option Value
find k end = none
find k (entry j v m) = if bytes_eq j k then some v else find k m

unfoldable pub go_find : Bytes → GoEntries → Option GoValue
go_find k go_end = none
go_find k (go_entry j x m) = if bytes_eq j k then some x else go_find k m

-- merged[k] = x
unfoldable pub go_put : Bytes → GoValue → GoEntries → GoEntries
go_put k x go_end = go_entry k x go_end
go_put k x (go_entry j y m) = if bytes_eq j k then go_entry k x m else go_entry j y (go_put k x m)

-- append(merged, v.Any()) for each element
unfoldable pub append_any : Values → GoValues → GoValues
append_any nil xs = xs
append_any (cons v vs) xs = go_cons (any v) (append_any vs xs)

-- merged[k] = v.Any() for each entry of the lower map
unfoldable pub any_entries : Entries → GoEntries
any_entries end = go_end
any_entries (entry k v m) = go_put k (any v) (any_entries m)

-- The slice or the map of a value: `none` where AsSlice or AsMap would be an error.
unfoldable pub slice_of : Value → Option Values
slice_of (value (slice vs) s) = some vs
slice_of v = none

unfoldable pub map_of : Value → Option Entries
map_of (value (map m) s) = some m
map_of v = none

unfoldable mutual
  pub merge_values : Value → Value → Value
  merge_values lo (value r s) = merge_raw lo r s

  pub merge_raw : Value → Raw → Bytes → Value
  merge_raw lo (slice hs) s = elim (slice_of lo) [
    | some ls ↦ new_value (any_slice (append_any ls (append_any hs go_none)))
    | none ↦ value (slice hs) s
  ]
  merge_raw lo (map hm) s = elim (map_of lo) [
    | some lm ↦ new_value (any_map (merge_entries lm hm (any_entries lm)))
    | none ↦ value (map hm) s
  ]
  merge_raw lo r s = value r s

  -- The loop over the higher map: `merged` holds the lower one's entries at first.
  pub merge_entries : Entries → Entries → GoEntries → GoEntries
  merge_entries lm end merged = merged
  merge_entries lm (entry k hv hm) merged =
      merge_entries lm hm
        (go_put k (elim (find k lm) [ some lv ↦ any (merge_values lv hv) | none ↦ any hv ]) merged)
