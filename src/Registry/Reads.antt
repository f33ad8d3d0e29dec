-- ===== src/Registry/Reads.antt =====
-- registry_get.go, and fullPath of registry_sub.go: the reads of a registry or a view of it under a
-- prefix. The nil snapshot that a registry may begin with is the empty one, which has no key.
use recon.Prelude.{
  ℕ, suc, Bool, true, false, not, ◌&&◌, Option, none, some, List, [], ◌∷◌, Bytes, Map, put, ltb,
  if◌then◌else◌,
}
use recon.Prelude.Int.{ℤ, pos, negsuc}
use recon.KeyPath.{
  KeyPath, parse_path, to_string, append, has_prefix, after, contains, open_bracket,
}
use recon.Value.{Value, Values, Entries, nil, cons, end, entry, Float, Time, Duration, GoValue, any}
use recon.Value.GoValue.{go_nil}
use recon.Value.Access.{
  Runtime, ReadError, coercion, read_closed, at_element, at_entry, Result, ok, err, as_string,
  as_int64, as_float64, as_bool, as_time, as_duration, as_slice, as_map,
}
use recon.Snapshot.Reads.{Snapshot, ReadMode, read_exact, read_get, read_section, read, is_null}
use recon.Snapshot.Reads
use recon.Registry.{State}

-- The three results of a getter.
abbrev pub Reading {ℓ} : Type ℓ → Type ℓ
Reading A = A × Bool × Option ReadError

-- fullPath
unfoldable pub full_path : KeyPath → KeyPath → KeyPath
full_path [] p = p
full_path (seg ∷ prefix) p = append (seg ∷ prefix) p

is_root : KeyPath → Bool
is_root [] = true
is_root (seg ∷ prefix) = false

-- lookupKey
unfoldable pub lookup_key : KeyPath → Snapshot → Bytes → ReadMode → Option Value
unfolding is_root
lookup_key prefix snap key mode =
    let p = full_path prefix (parse_path key) in
    if is_root prefix && not (contains open_bracket key)
    then read snap key [] mode
    else read snap (to_string p) p mode

-- Registry.get, for an open registry; `none` for a key that is not set
unfoldable pub get_mode : State → KeyPath → Bytes → ReadMode → Result (Option Value)
get_mode st prefix key mode =
    if st.closed then err read_closed else ok (lookup_key prefix st.snapshot key mode)

-- Registry.Get
unfoldable pub get : State → KeyPath → Bytes → Result (Option Value)
get st prefix key = get_mode st prefix key read_get

-- Registry.GetPath
unfoldable pub get_path : State → KeyPath → KeyPath → Result (Option Value)
get_path st prefix p =
    if st.closed then err read_closed else ok (Reads.get st.snapshot (full_path prefix p))

-- The bodies of the typed getters, for what get returns; each stands by itself in the code.
unfoldable pub string_result : Result (Option Value) → Reading Bytes
string_result (err e) = ([], false, some e)
string_result (ok none) = ([], false, none)
string_result (ok (some v)) =
    if is_null v
    then ([], true, none)
    else elim (as_string v) [ ok x ↦ (x, true, none) | err e ↦ ([], true, some e) ]

unfoldable pub get_string : State → KeyPath → Bytes → Reading Bytes
get_string st prefix key = string_result (get_mode st prefix key read_exact)

unfoldable pub int64_result : Result (Option Value) → Reading ℤ
int64_result (err e) = (pos 0, false, some e)
int64_result (ok none) = (pos 0, false, none)
int64_result (ok (some v)) =
    if is_null v
    then (pos 0, true, none)
    else elim (as_int64 v) [ ok x ↦ (x, true, none) | err e ↦ (pos 0, true, some e) ]

unfoldable pub get_int64 : State → KeyPath → Bytes → Reading ℤ
get_int64 st prefix key = int64_result (get_mode st prefix key read_exact)

-- i < math.MinInt || i > math.MaxInt, where math.MinInt is -math.MaxInt - 1
unfoldable pub overflows_int : Runtime → ℤ → Bool
overflows_int go (pos n) = ltb go.max_int n
overflows_int go (negsuc n) = ltb go.max_int n

unfoldable pub int_range : Runtime → Reading ℤ → Reading ℤ
int_range go (i, set, some e) = (pos 0, set, some e)
int_range go (i, set, none) =
    if overflows_int go i then (pos 0, set, some coercion) else (i, set, none)

-- GetInt
unfoldable pub get_int : Runtime → State → KeyPath → Bytes → Reading ℤ
unfolding int_range
get_int go st prefix key = int_range go (get_int64 st prefix key)

unfoldable pub float_result : Runtime → Result (Option Value) → Reading Float
float_result go (err e) = (0, false, some e)
float_result go (ok none) = (0, false, none)
float_result go (ok (some v)) =
    if is_null v
    then (0, true, none)
    else elim (as_float64 go v) [ ok x ↦ (x, true, none) | err e ↦ (0, true, some e) ]

unfoldable pub get_float : Runtime → State → KeyPath → Bytes → Reading Float
get_float go st prefix key = float_result go (get_mode st prefix key read_exact)

unfoldable pub bool_result : Result (Option Value) → Reading Bool
bool_result (err e) = (false, false, some e)
bool_result (ok none) = (false, false, none)
bool_result (ok (some v)) =
    if is_null v
    then (false, true, none)
    else elim (as_bool v) [ ok x ↦ (x, true, none) | err e ↦ (false, true, some e) ]

unfoldable pub get_bool : State → KeyPath → Bytes → Reading Bool
get_bool st prefix key = bool_result (get_mode st prefix key read_exact)

unfoldable pub duration_result : Runtime → Result (Option Value) → Reading Duration
duration_result go (err e) = (pos 0, false, some e)
duration_result go (ok none) = (pos 0, false, none)
duration_result go (ok (some v)) =
    if is_null v
    then (pos 0, true, none)
    else elim (as_duration go v) [ ok x ↦ (x, true, none) | err e ↦ (pos 0, true, some e) ]

unfoldable pub get_duration : Runtime → State → KeyPath → Bytes → Reading Duration
get_duration go st prefix key = duration_result go (get_mode st prefix key read_exact)

-- time.Time{}
abbrev pub zero_time : Time
zero_time = record { wall = 0; ext = pos 0; location = none }

unfoldable pub time_result : Runtime → Result (Option Value) → Reading Time
time_result go (err e) = (zero_time, false, some e)
time_result go (ok none) = (zero_time, false, none)
time_result go (ok (some v)) =
    if is_null v
    then (zero_time, true, none)
    else elim (as_time go v) [ ok x ↦ (x, true, none) | err e ↦ (zero_time, true, some e) ]

unfoldable pub get_time : Runtime → State → KeyPath → Bytes → Reading Time
get_time go st prefix key = time_result go (get_mode st prefix key read_exact)

unfoldable pub push_string : ℕ → Result Bytes → Result (List Bytes) → Result (List Bytes)
push_string i (err e) rest = err (at_element i e)
push_string i (ok s) (err e) = err e
push_string i (ok s) (ok out) = ok (s ∷ out)

-- The loop over the elements, from index i on.
unfoldable pub strings_from : ℕ → Values → Result (List Bytes)
unfolding push_string
strings_from i nil = ok []
strings_from i (cons v vs) = push_string i (as_string v) (strings_from (suc i) vs)

unfoldable pub slice_strings : Result Values → Reading (List Bytes)
slice_strings (err e) = ([], true, some e)
slice_strings (ok vs) = elim (strings_from 0 vs) [
  | ok out ↦ (out, true, none)
  | err e ↦ ([], true, some e)
]

unfoldable pub string_slice_result : Result (Option Value) → Reading (List Bytes)
unfolding slice_strings
string_slice_result (err e) = ([], false, some e)
string_slice_result (ok none) = ([], false, none)
string_slice_result (ok (some v)) =
    if is_null v then ([], true, none) else slice_strings (as_slice v)

unfoldable pub get_string_slice : State → KeyPath → Bytes → Reading (List Bytes)
get_string_slice st prefix key = string_slice_result (get_mode st prefix key read_exact)

-- The loop over the entries, with the map that is written so far.
unfoldable pub string_entries : Entries → Map Bytes → Result (Map Bytes)
string_entries end out = ok out
string_entries (entry k v m) out = elim (as_string v) [
  | err e ↦ err (at_entry k e)
  | ok s ↦ string_entries m (put k s out)
]

map_strings : Result Entries → Reading (Map Bytes)
map_strings (err e) = ([], true, some e)
map_strings (ok m) = elim (string_entries m []) [
  | ok out ↦ (out, true, none)
  | err e ↦ ([], true, some e)
]

unfoldable pub string_map_result : Result (Option Value) → Reading (Map Bytes)
unfolding map_strings
string_map_result (err e) = ([], false, some e)
string_map_result (ok none) = ([], false, none)
string_map_result (ok (some v)) = if is_null v then ([], true, none) else map_strings (as_map v)

unfoldable pub get_string_map : State → KeyPath → Bytes → Reading (Map Bytes)
get_string_map st prefix key = string_map_result (get_mode st prefix key read_section)

any_result : Result (Option Value) → Reading GoValue
any_result (err e) = (go_nil, false, some e)
any_result (ok none) = (go_nil, false, none)
any_result (ok (some v)) = (any v, true, none)

unfoldable pub get_any : State → KeyPath → Bytes → Reading GoValue
unfolding any_result
get_any st prefix key = any_result (get st prefix key)

found {ℓ} : {A : Type ℓ} → Option A → Bool
found none = false
found (some a) = true

-- IsSet
unfoldable pub is_set : State → KeyPath → Bytes → Bool
unfolding found
is_set st prefix key =
    if st.closed then false else found (lookup_key prefix st.snapshot key read_get)

-- p.After(prefix).String(): the nil path has the empty text
after_text : Option KeyPath → Bytes
after_text none = []
after_text (some p) = to_string p

keys_under : KeyPath → Map KeyPath → List Bytes
keys_under prefix [] = []
keys_under prefix ((k, p) ∷ keys) =
    let rest = keys_under prefix keys in
    if has_prefix p prefix then after_text (after p prefix) ∷ rest else rest

path_texts : Map KeyPath → List Bytes
path_texts [] = []
path_texts ((k, p) ∷ keys) = to_string p ∷ path_texts keys

-- AllKeys
unfoldable pub all_keys : State → KeyPath → List Bytes
unfolding path_texts keys_under is_root after_text
all_keys st prefix =
    if st.closed
    then []
    else if is_root prefix
    then path_texts st.snapshot.listed
    else keys_under prefix st.snapshot.listed
