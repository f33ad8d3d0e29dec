-- ===== src/Sources/Family.antt =====
-- source_envfamily.go: families of environment variables, each assembled into a nested map.
use recon.Prelude.{
  ℕ, zero, suc, ◌-◌, true, false, not, ◌||◌, Option, none, some, List, [], ◌∷◌, ◌++◌, ◌==◌,
  if◌then◌else◌, length, drop, Bytes, bytes_eq, starts_with,
}
use recon.KeyPath.{KeyPath, equal}
use recon.Value.{GoValue, GoEntries, new_value}
use recon.Value.GoValue.{any_map, go_string}
use recon.Value.GoEntries.{go_end, go_entry}
use recon.Precedence.{Answer, present, absent}
use recon.Precedence.Merge.{go_find, go_put}
use recon.Sources.Transforms.{to_lower}
use recon.Sources.Sorting.{sort_paths}

-- The struct EnvFamily.
pub record EnvFamily : Type 0 where
  pub target : KeyPath
  pub base : Bytes
  pub separator : Bytes

-- strings.Cut(kv, "="), with what is read of the name
unfoldable pub cut_pair : Bytes → Bytes → Option (Bytes × Bytes)
cut_pair [] name = none
cut_pair (c ∷ s) name = elim (c == b'=') [
  | true ↦ some (name, s)
  | false ↦ cut_pair s (name ++ c ∷ [])
]

-- strings.Split(s, sep) for a separator that is not empty: `skip` bytes of a separator are left to
-- step over, and `part` is what is read of the part.
unfoldable pub split_by : Bytes → ℕ → Bytes → Bytes → KeyPath
split_by sep skip [] part = part ∷ []
split_by sep (suc skip) (c ∷ s) part = split_by sep skip s part
split_by sep zero (c ∷ s) part = elim (starts_with (c ∷ s) sep) [
  | true ↦ part ∷ split_by sep (length sep - 1) s []
  | false ↦ split_by sep 0 s (part ++ c ∷ [])
]

-- m[seg].(map[string]any), or a new map
unfoldable pub nested_map : Option GoValue → GoEntries
nested_map (some (any_map m)) = m
nested_map o = go_end

-- setNestedSegments; the segments are never empty
unfoldable pub set_nested_segments : GoEntries → KeyPath → GoValue → GoEntries
set_nested_segments m [] v = m
set_nested_segments m (seg ∷ []) v = go_put seg v m
set_nested_segments m (seg ∷ next ∷ p) v =
    go_put seg (any_map (set_nested_segments (nested_map (go_find seg m)) (next ∷ p) v)) m

add_variable : Bytes → Bytes → GoEntries → Option (Bytes × Bytes) → GoEntries
add_variable base sep out none = out
add_variable base sep out (some (name, val)) =
    let prefix = base ++ sep in
    if not (starts_with name prefix) || length name == length prefix
    then out
    else set_nested_segments out
        (split_by (to_lower sep) 0 (to_lower (drop (length prefix) name)) []) (go_string val)

-- The loop of collectEnvFamily over os.Environ().
unfoldable pub collect_from : Bytes → Bytes → List Bytes → GoEntries → GoEntries
unfolding add_variable
collect_from base sep [] out = out
collect_from base sep (kv ∷ environ) out =
    collect_from base sep environ (add_variable base sep out (cut_pair kv []))

unfoldable pub collect_env_family : List Bytes → Bytes → Bytes → GoEntries
collect_env_family environ base sep = collect_from base sep environ go_end

some_map : GoEntries → Option GoEntries
some_map go_end = none
some_map (go_entry k v m) = some (go_entry k v m)

-- The map of a family that is not disabled and has a variable.
unfoldable pub family_map : List Bytes → EnvFamily → Option GoEntries
unfolding some_map
family_map environ fam =
    if bytes_eq fam.separator []
    then none
    else some_map (collect_env_family environ fam.base fam.separator)

unfoldable pub map_answer : Option GoEntries → Answer → Answer
map_answer none rest = rest
map_answer (some m) rest = present (new_value (any_map m))

-- envFamilySource.Get
unfoldable pub family_get : List Bytes → List EnvFamily → KeyPath → Answer
family_get environ [] p = absent
family_get environ (fam ∷ families) p =
    let rest = family_get environ families p in
    if equal fam.target p then map_answer (family_map environ fam) rest else rest

unfoldable pub add_target : Option GoEntries → KeyPath → List KeyPath → List KeyPath
add_target none target rest = rest
add_target (some m) target rest = target ∷ rest

unfoldable pub targets : List Bytes → List EnvFamily → List KeyPath
targets environ [] = []
targets environ (fam ∷ families) =
    add_target (family_map environ fam) fam.target (targets environ families)

-- envFamilySource.Keys
unfoldable pub family_keys : List Bytes → List EnvFamily → List KeyPath
unfolding targets
family_keys environ families = sort_paths (targets environ families)
