-- ===== src/Registry/PerSource.antt =====
-- per_source.go: what each source has for one key.
use recon.Prelude.{
  Bool, true, false, Option, none, some, List, [], ◌∷◌, map, if◌then◌else◌, Bytes, bytes_eq,
}
use recon.KeyPath.{KeyPath, parse_path}
use recon.Alias.{resolve_alias_chain}
use recon.Value.{Value, GoValue, new_value, with_source}
use recon.Value.Access.{Runtime, ReadError, Result, ok, err, read_closed}
use recon.Precedence.{
  Answer, Source, present, absent, failed, SnapshotInputs, merge_shadow, src_explicit, src_default,
  layer_get, source_get,
}
use recon.Snapshot.Layers.{flatten_layer, invert_aliases}
use recon.Snapshot.Reads.{source_for}
use recon.Registry.{State, full_key}
use recon.Registry.Reads.{Reading}
use recon.Registry.Generic.{GoType, TypeOf, zero_of, coerce_value_to, get_generic}

-- The error of a Get, or that of a conversion.
pub data SourceError : Type 0 where
  get_failed : Bytes → SourceError
  bad_value : ReadError → SourceError

-- The struct ValueSource[T].
pub record ValueSource (t : GoType) : Type 0 where
  pub source : Bytes
  pub value : TypeOf t
  pub is_set : Bool
  pub error : Option SourceError

-- The struct PerSource[T].
pub record PerSource (t : GoType) : Type 0 where
  pub path : KeyPath
  pub sources : List (ValueSource t)
  pub explicit : ValueSource t
  pub default : ValueSource t
  pub resolved : ValueSource t

-- ValueSource[T]{Source: name}
abbrev pub unset_entry : (t : GoType) → Bytes → ValueSource t
unset_entry t name = record { source = name; value = zero_of t; is_set = false; error = none }

-- BySource
unfoldable pub find_entry : {t : GoType} → List (ValueSource t) → Bytes → ValueSource t
find_entry {t} [] name = unset_entry t name
find_entry (e ∷ es) name =
    let rest = find_entry es name in if bytes_eq e.source name then e else rest

unfoldable pub by_source : {t : GoType} → PerSource t → Bytes → ValueSource t
by_source p name = find_entry p.sources name

-- The results of coerceValueTo as the fields Value and Err.
unfoldable pub coerced_entry : {t : GoType} → Bytes → Result (TypeOf t) → ValueSource t
coerced_entry name (ok a) = record { source = name; value = a; is_set = true; error = none }
coerced_entry {t} name (err e) = record {
  source = name;
  value = zero_of t;
  is_set = true;
  error = some (bad_value e);
}

unfoldable pub found_entry : Runtime → (t : GoType) → Bytes → Option Value → ValueSource t
found_entry go t name none = unset_entry t name
found_entry go t name (some raw) = coerced_entry name (coerce_value_to go t raw)

-- A round of the loop over the sources, for what src.Get(path) answers and sourceGet finds.
unfoldable pub answer_entry : Runtime → (t : GoType) → Bytes → Answer → Option Value → ValueSource t
unfolding found_entry
answer_entry go t name (present raw) found = found_entry go t name (some raw)
answer_entry go t name absent found = found_entry go t name found
answer_entry go t name (failed e) found = record {
  source = name;
  value = zero_of t;
  is_set = true;
  error = some (get_failed e);
}

unfoldable pub source_entry :
    Runtime → (t : GoType) → Source → KeyPath → Bytes → SnapshotInputs → ValueSource t
source_entry go t src path canon is =
    answer_entry go t src.name (src.get path) (source_get src path canon is)

-- The snapshotInputs of PerSourceFor: the fields that it does not set have their zero values.
unfoldable pub layers_of : State → SnapshotInputs
layers_of st = record {
  sources = [];
  explicits = flatten_layer st.explicits;
  defaults = flatten_layer st.defaults;
  aliases = [];
  pins = [];
  bound = [];
  secret_keys = [];
  merge = merge_shadow;
  aliases_of = invert_aliases st.aliases;
}

unfoldable pub layer_entry : Runtime → (t : GoType) → Bytes → Option GoValue → ValueSource t
layer_entry go t name none = unset_entry t []
layer_entry go t name (some raw) =
    coerced_entry name (coerce_value_to go t (with_source (new_value raw) name))

abbrev first_or_empty : List Bytes → Bytes
first_or_empty [] = []
first_or_empty (name ∷ names) = name

-- out.Resolved, for the sources that the snapshot names and the results of Get[T]
unfoldable pub resolved_entry : {t : GoType} → List Bytes → Reading (TypeOf t) → ValueSource t
resolved_entry srcs (val, set, some e) = record {
  source = [];
  value = val;
  is_set = set;
  error = some (bad_value e);
}
resolved_entry srcs (val, true, none) = record {
  source = first_or_empty srcs;
  value = val;
  is_set = true;
  error = none;
}
resolved_entry {t} srcs (val, false, none) = unset_entry t []

-- The result of PerSourceFor on an open registry.
unfoldable pub view_of : Runtime → (t : GoType) → State → KeyPath → Bytes → PerSource t
unfolding layer_entry resolved_entry
view_of go t st prefix key =
    let canon = resolve_alias_chain (full_key prefix key) st.aliases in
    let path = parse_path canon in
    let is = layers_of st in
    record {
      path = path;
      sources = map (λ src. source_entry go t src path canon is) st.sources;
      explicit = layer_entry go t src_explicit (layer_get is.explicits canon is);
      default = layer_entry go t src_default (layer_get is.defaults canon is);
      resolved = resolved_entry (source_for st.snapshot path) (get_generic go t st prefix key);
    }

-- PerSourceFor
unfoldable pub per_source_for :
    Runtime → (t : GoType) → State → KeyPath → Bytes → Result (PerSource t)
per_source_for go t st prefix key =
    if st.closed then err read_closed else ok (view_of go t st prefix key)
