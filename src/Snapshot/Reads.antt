-- ===== src/Snapshot/Reads.antt =====
-- snapshot.go: the reads of a built snapshot: Get with the values inside a parent's map and the
-- maps assembled from the keys below, and AsMap.
use recon.Prelude.{
  ℕ, suc, ◌+◌, Bool, true, false, not, ◌&&◌, Option, none, some, List, [], ◌∷◌, ◌++◌, ltb, leb,
  if◌then◌else◌, length, take, drop, Bytes, bytes_eq, starts_with, compare_bytes, Map, lookup, put,
  Ordering,
}
use recon.KeyPath.{to_string, KeyPath, parse_path, top_level_delims, delim}
use recon.Alias.{resolve_alias_chain, member}
use recon.Value.{
  Value, Raw, value, GoValue, GoEntries, new_value, with_source, source_of, unwrap_value_deep,
}
use recon.Value.GoValue.{any_map}
use recon.Value.GoEntries.{go_end}
use recon.Precedence.{src_explicit, src_default}
use recon.Precedence.Merge.{find, go_find, go_put, map_of}
use recon.Snapshot.Resolve.{sources_at}

-- The struct Snapshot without its redactor and its arena. keyStrs and keys, and lookupKeys and
-- lookupPaths, are parallel slices there; here each pair of them is one list of pairs.
pub record Snapshot : Type 0 where
  pub values : Map Value
  pub sources : Map (List Bytes)
  pub listed : Map KeyPath
  pub lookups : Map KeyPath
  pub overridden : List Bytes
  pub in_parent : List Bytes
  pub source_names : List Bytes
  pub aliases : Map Bytes
  pub secret_keys : List Bytes

unfoldable pub is_map : Value → Bool
is_map v = elim (map_of v) [ none ↦ false | some m ↦ true ]

unfoldable pub is_null : Value → Bool
is_null (value Raw.null s) = true
is_null (value r s) = false

unfoldable pub is_key {ℓ} : {V : Type ℓ} → Bytes → Map V → Bool
is_key k m = elim (lookup k m) [ none ↦ false | some v ↦ true ]

rank_names : ℕ → List Bytes → Map ℕ → Map ℕ
rank_names i [] out = out
rank_names i (n ∷ names) out = rank_names (suc i) names (put n (suc i) out)

unfoldable pub rank_index : List Bytes → Map ℕ
unfolding rank_names
rank_index names = rank_names 0 names []

rank_or : ℕ → Option ℕ → ℕ
rank_or n none = n + 1
rank_or n (some r) = r

unfoldable pub rank_for : Map ℕ → Bytes → ℕ → ℕ
unfolding rank_or
rank_for ranks name n =
    if bytes_eq name src_explicit
    then 0
    else if bytes_eq name src_default
    then n + 1
    else rank_or n (lookup name ranks)

-- srcs[0], or the empty text
unfoldable pub winner_of : List Bytes → Bytes
winner_of [] = []
winner_of (name ∷ srcs) = name

-- rankOf, with the ranks of rankIndex
unfoldable pub rank_of : Snapshot → Bytes → ℕ
rank_of s k =
    rank_for (rank_index s.source_names) (winner_of (sources_at k s.sources))
      (length s.source_names)

-- The loop of entryIn over the segments.
unfoldable pub entry_at : Value → KeyPath → Option Value
entry_at cur [] = some cur
entry_at cur (seg ∷ p) = elim (map_of cur) [
  | none ↦ none
  | some mm ↦ elim (find seg mm) [ none ↦ none | some next ↦ entry_at next p ]
]

unfoldable pub entry_in : Value → Bytes → Option Value
entry_in m rest = entry_at m (parse_path rest)

-- Whether a hit at the parent `at` replaces the one found so far: bestRank is always the rank of
-- foundAt.
replaces : Snapshot → Option (Value × Bytes) → Bytes → Bool
replaces s none at = true
replaces s (some (v, found_at)) at = leb (rank_of s at) (rank_of s found_at)

-- The entry that is found in the map of a parent, with the parent's source.
entry_from : Value → Option Value → Option Value
entry_from parent none = none
entry_from parent (some v) = some (with_source v (source_of parent))

-- The entry for a key in the map at a parent, cut at one of its delimiters.
unfoldable pub hit_at : Snapshot → Bytes → ℕ → Option Value
unfolding entry_from
hit_at s ks i = elim (lookup (take i ks) s.values) [
  | none ↦ none
  | some parent ↦
      if not (is_map parent) then none else entry_from parent (entry_in parent (drop (suc i) ks))
]

unfoldable pub walk_parents :
    Snapshot → Bytes → List ℕ → Option (Value × Bytes) → Option (Value × Bytes)
unfolding replaces
walk_parents s ks [] found = found
walk_parents s ks (i ∷ delims) found = walk_parents s ks delims (elim (hit_at s ks i) [
  | none ↦ found
  | some v ↦ if replaces s found (take i ks) then some (v, take i ks) else found
])

found_value : Option (Value × Bytes) → Option Value
found_value none = none
found_value (some (v, at)) = some v

unfoldable pub lookup_in_parent : Snapshot → Bytes → Option Value
unfolding found_value
lookup_in_parent s ks = found_value (walk_parents s ks (top_level_delims ks) none)

-- sort.SearchStrings on a sorted list: what is left from the first text that is not below prefix
unfoldable pub from_prefix : Bytes → Map KeyPath → Map KeyPath
from_prefix prefix [] = []
from_prefix prefix ((k, p) ∷ keys) = elim (compare_bytes k prefix) [
  | Ordering.lt ↦ from_prefix prefix keys
  | Ordering.eq ↦ (k, p) ∷ keys
  | Ordering.gt ↦ (k, p) ∷ keys
]

unfoldable pub below_run : Map Bytes → Bytes → Map KeyPath → Map KeyPath
below_run aliases prefix [] = []
below_run aliases prefix ((k, p) ∷ keys) =
    let rest = below_run aliases prefix keys in
    if not (starts_with k prefix) then [] else if is_key k aliases then rest else (k, p) ∷ rest

unfoldable pub keys_below : Snapshot → Map KeyPath → Bytes → Map KeyPath
keys_below s keys prefix = below_run s.aliases prefix (from_prefix prefix keys)

sub_map : Option GoValue → GoEntries
sub_map (some (any_map m)) = m
sub_map o = go_end

unfoldable pub set_nested : GoEntries → KeyPath → GoValue → GoEntries
unfolding sub_map
set_nested m [] v = m
set_nested m (seg ∷ []) v = go_put seg v m
set_nested m (seg ∷ next ∷ p) v =
    go_put seg (any_map (set_nested (sub_map (go_find seg m)) (next ∷ p) v)) m

rank_keys : Snapshot → List Bytes → Map ℕ → Map ℕ
rank_keys s [] rank = rank
rank_keys s (k ∷ keys) rank = rank_keys s keys (put k (rank_of s k) rank)

-- The cases of shadowedKeys for a key and one of its parents.
drop_pair : Bytes → Bytes → ℕ → Option ℕ → List Bytes → List Bytes
drop_pair k parent rk none out = out
drop_pair k parent rk (some ra) out =
    if ltb ra rk then k ∷ out else if ltb rk ra then parent ∷ out else out

drop_parents : Map ℕ → Bytes → ℕ → List ℕ → List Bytes → List Bytes
drop_parents rank k rk [] out = out
drop_parents rank k rk (j ∷ delims) out =
    drop_parents rank k rk delims (drop_pair k (take j k) rk (lookup (take j k) rank) out)

drop_keys : Snapshot → Map ℕ → List Bytes → List Bytes → List Bytes
drop_keys s rank [] out = out
drop_keys s rank (k ∷ keys) out =
    drop_keys s rank keys (drop_parents rank k (rank_of s k) (top_level_delims k) out)

unfoldable pub shadowed_keys : Snapshot → List Bytes → List Bytes
unfolding rank_keys drop_pair drop_parents drop_keys
shadowed_keys s keys = drop_keys s (rank_keys s keys []) keys []

unfoldable pub key_texts : Map KeyPath → List Bytes
key_texts [] = []
key_texts ((k, p) ∷ keys) = k ∷ key_texts keys

-- The variables of the loop of lookupSubtree: out, best, and bestRank, `none` for -1.
pub record Subtree : Type 0 where
  pub out : GoEntries
  pub best : Bytes
  pub best_rank : Option ℕ

is_better : ℕ → Option ℕ → Bool
is_better r none = true
is_better r (some best) = ltb r best

unfoldable pub add_leaf : Snapshot → ℕ → KeyPath → Value → Subtree → Subtree
unfolding is_better
add_leaf s n path v t =
    let r = rank_for (rank_index s.source_names) (source_of v) (length s.source_names) in
    let better = is_better r t.best_rank in
    record {
      out = set_nested t.out (drop n path) (unwrap_value_deep v);
      best = if better then source_of v else t.best;
      best_rank = if better then some r else t.best_rank;
    }

-- s.values[k]: the zero value for a missing key
unfoldable pub value_at : Bytes → Map Value → Value
value_at k m = elim (lookup k m) [ none ↦ value Raw.null [] | some v ↦ v ]

unfoldable pub assemble : Snapshot → ℕ → List Bytes → Map KeyPath → Subtree → Subtree
assemble s n shadowed [] t = t
assemble s n shadowed ((k, path) ∷ keys) t =
    assemble s n shadowed keys
      (if member k shadowed then t else add_leaf s n path (value_at k s.values) t)

subtree_value : Subtree → Value
subtree_value t = with_source (new_value (any_map t.out)) t.best

assemble_keys : Snapshot → ℕ → Map KeyPath → Option Value
unfolding assemble subtree_value
assemble_keys s n [] = none
assemble_keys s n (k ∷ keys) = some (
    subtree_value (
      assemble s n (shadowed_keys s (key_texts (k ∷ keys))) (k ∷ keys)
        (record { out = go_end; best = []; best_rank = none })))

-- p, or ks parsed where p is nil
path_or : KeyPath → Bytes → KeyPath
path_or [] ks = parse_path ks
path_or (seg ∷ p) ks = seg ∷ p

subtree_keys : Snapshot → Bytes → Map KeyPath → Map KeyPath
subtree_keys s prefix (k ∷ keys) = k ∷ keys
subtree_keys s prefix [] =
    if ltb (length s.listed) (length s.lookups) then keys_below s s.lookups prefix else []

unfoldable pub lookup_subtree : Snapshot → Bytes → KeyPath → Option Value
unfolding assemble_keys path_or subtree_keys
lookup_subtree s ks p =
    let prefix = ks ++ delim ∷ [] in
    if bytes_eq ks []
    then none
    else assemble_keys s (length (path_or p ks))
        (subtree_keys s prefix (keys_below s s.listed prefix))

pub data ReadMode : Type 0 where
  read_exact read_get read_section : ReadMode

-- mode == readExact || (mode == readGet && v.Kind() != NullKind)
unfoldable pub keeps_own : ReadMode → Value → Bool
keeps_own read_exact v = true
keeps_own read_get v = not (is_null v)
keeps_own read_section v = false

unfoldable pub or_value : Option Value → Value → Value
or_value none v = v
or_value (some w) v = w

-- A read of a key that has a value of its own, for its canonical key and path: what the keys below
-- it make of it.
unfoldable pub read_own : Snapshot → Bytes → KeyPath → ReadMode → Value → Value
read_own s canon p mode v =
    if keeps_own mode v
    then v
    else if not (member canon s.overridden)
    then v
    else or_value (lookup_subtree s canon p) v

unfoldable pub read_canonical : Snapshot → Bytes → KeyPath → ReadMode → Value → Value
read_canonical s canon p mode v =
    if member canon s.in_parent
    then or_value (lookup_in_parent s canon) (read_own s canon p mode v)
    else read_own s canon p mode v

is_empty {ℓ} : {A : Type ℓ} → List A → Bool
is_empty [] = true
is_empty (x ∷ l) = false

unfoldable pub read_set : Snapshot → Bytes → KeyPath → ReadMode → Value → Value
unfolding is_empty
read_set s ks p mode v =
    if is_empty s.in_parent && keeps_own mode v
    then v
    else if is_key ks s.aliases
    then read_canonical s (resolve_alias_chain ks s.aliases) [] mode v
    else read_canonical s ks p mode v

unfoldable pub or_below : Snapshot → Bytes → KeyPath → Option Value → Option Value
or_below s ks p (some v) = some v
or_below s ks p none = lookup_subtree s ks p

unfoldable pub own_or_below : Snapshot → Bytes → KeyPath → ReadMode → Option Value → Option Value
own_or_below s ks p mode (some v) = some (read_set s ks p mode v)
own_or_below s ks p mode none = or_below s ks p (lookup_in_parent s ks)

-- Snapshot.read; the empty path is the nil one.
unfoldable pub read : Snapshot → Bytes → KeyPath → ReadMode → Option Value
read s ks p mode = own_or_below s ks p mode (lookup ks s.values)

-- Snapshot.Get
unfoldable pub get : Snapshot → KeyPath → Option Value
get s p = read s (to_string p) p read_get

-- Snapshot.SourceFor
unfoldable pub source_for : Snapshot → KeyPath → List Bytes
source_for s p = sources_at (to_string p) s.sources

without_aliases : Map Bytes → Map KeyPath → Map KeyPath
without_aliases aliases [] = []
without_aliases aliases ((k, p) ∷ keys) =
    let rest = without_aliases aliases keys in if is_key k aliases then rest else (k, p) ∷ rest

nest_keys : Snapshot → List Bytes → Map KeyPath → GoEntries → GoEntries
nest_keys s shadowed [] out = out
nest_keys s shadowed ((k, p) ∷ keys) out =
    nest_keys s shadowed keys (
      if member k shadowed then out else set_nested out p (unwrap_value_deep (value_at k s.values)))

-- Snapshot.AsMap
unfoldable pub as_map : Snapshot → GoEntries
unfolding without_aliases nest_keys
as_map s =
    let keys = without_aliases s.aliases s.listed in
    nest_keys s (shadowed_keys s (key_texts keys)) keys go_end
