-- ===== src/Registry/Getters.antt =====
-- registry_get.go: what the getters of a registry have in common.
use recon.Prelude.{
  ℕ, suc, ◌≤◌, ◌≡◌, ◌↔◌, inl, inr, refl, sym, ap, ◌∙◌, true, Option, none, some, List, [], ◌∷◌,
  ◌++◌, append_assoc, append-nil, arith, ltb, if◌then◌else◌, Bool-cases, Option-cases, Bytes,
  lookup,
}
use recon.Prelude.Int.{ℤ, pos}
use recon.KeyPath.{KeyPath, to_string, contains, open_bracket}
use recon.KeyPath.RoundTrip.{parse_path-to_string}
use recon.Value.{Value, Values, nil, cons, uint_value, new_value, with_source}
use recon.Value.GoValue.{go_uint}
use recon.Value.Decimal.{max_uint64, max_int64, parse-format}
use recon.Value.Access.{
  Runtime, Result, ok, err, as_int64, or_coercion, as_string, as_slice, at_element,
}
use recon.Snapshot.Reads.{
  Snapshot, ReadMode, read_exact, read_get, read, is_null, lookup_subtree, read_own, read_canonical,
  read_set, or_below, own_or_below, lookup_in_parent, or_value,
}
use recon.Snapshot.Reads
use recon.Registry.{State}
use recon.Registry.Reads.{
  Reading, get, get_path, get_mode, lookup_key, full_path, get_string, get_int64, get_int,
  get_float, get_bool, get_duration, get_time, get_string_slice, overflows_int, is_set, int_range,
  int64_result, string_result, bool_result, float_result, time_result, duration_result,
  string_slice_result, slice_strings, strings_from, push_string,
}
use recon.Registry.Generic.{
  string_type, bool_type, int_type, int64_type, float64_type, time_type, duration_type,
  strings_type, get_generic, coerce_value_to, zero_of, int_or_overflow, get_result, coerce_strings,
  coerce_slice, value_as_uint64,
}

-- A path that is parsed again only where it is missing makes no difference for a canonical text.
lookup_subtree-parse :
    (s : Snapshot) (p : KeyPath)
    → lookup_subtree s (to_string p) p ≡ lookup_subtree s (to_string p) []
unfolding lookup_subtree
lookup_subtree-parse s [] = refl
lookup_subtree-parse s (seg ∷ p) = rw (parse_path-to_string (seg ∷ p)) refl

read_own-parse :
    (s : Snapshot) (p : KeyPath) (mode : ReadMode) (v : Value)
    → read_own s (to_string p) [] mode v ≡ read_own s (to_string p) p mode v
unfolding read_own
read_own-parse s p mode v = rw (lookup_subtree-parse s p) refl

read_canonical-parse :
    (s : Snapshot) (p : KeyPath) (mode : ReadMode) (v : Value)
    → read_canonical s (to_string p) [] mode v ≡ read_canonical s (to_string p) p mode v
unfolding read_canonical
read_canonical-parse s p mode v = rw (read_own-parse s p mode v) refl

read_set-parse :
    (s : Snapshot) (p : KeyPath) (mode : ReadMode) (v : Value)
    → read_set s (to_string p) [] mode v ≡ read_set s (to_string p) p mode v
unfolding read_set
read_set-parse s p mode v = rw (read_canonical-parse s p mode v) refl

or_below-parse :
    (s : Snapshot) (p : KeyPath) (o : Option Value)
    → or_below s (to_string p) [] o ≡ or_below s (to_string p) p o
unfolding or_below
or_below-parse s p none = sym (lookup_subtree-parse s p)
or_below-parse s p (some v) = refl

own_or_below-parse :
    (s : Snapshot) (p : KeyPath) (mode : ReadMode) (o : Option Value)
    → own_or_below s (to_string p) [] mode o ≡ own_or_below s (to_string p) p mode o
unfolding own_or_below
own_or_below-parse s p mode none = or_below-parse s p (lookup_in_parent s (to_string p))
own_or_below-parse s p mode (some v) = ap some (read_set-parse s p mode v)

read-parse :
    (s : Snapshot) (p : KeyPath) (mode : ReadMode)
    → read s (to_string p) [] mode ≡ read s (to_string p) p mode
unfolding read
read-parse s p mode = own_or_below-parse s p mode (lookup (to_string p) s.values)

lookup_key-to_string :
    (prefix : KeyPath) (s : Snapshot) (p : KeyPath) (mode : ReadMode)
    → lookup_key prefix s (to_string p) mode
      ≡ read s (to_string (full_path prefix p)) (full_path prefix p) mode
unfolding lookup_key full_path
lookup_key-to_string (seg ∷ prefix) s p mode = rw (parse_path-to_string p) refl
lookup_key-to_string [] s p mode = elim (Bool-cases (contains open_bracket (to_string p))) [
  | inl e ↦ rw (e, parse_path-to_string p) refl
  | inr e ↦ rw e (read-parse s p mode)
]

-- Get of the canonical text of a path is GetPath of the path, in the registry and in every view of it,
-- and closed or not.
pub get-to_string :
    (st : State) (prefix p : KeyPath) → get st prefix (to_string p) ≡ get_path st prefix p
unfolding get get_mode get_path Reads.get
get-to_string st prefix p = rw (lookup_key-to_string prefix st.snapshot p read_get) refl

-- IsSet says whether Get finds the key; on a closed registry it is false.
pub is_set-get :
    (st : State) (prefix : KeyPath) (key : Bytes)
    → (is_set st prefix key ≡ true) ↔ ((v : Value) × (get st prefix key ≡ ok (some v)))
unfolding is_set get get_mode
is_set-get st prefix key = elim (Bool-cases st.closed) [
  | inl e ↦ rw e (ground arith)
  | inr e ↦ elim (Option-cases (lookup_key prefix st.snapshot key read_get)) [
    | inl h ↦ rw (e, h) (ground arith)
    | inr (v, h) ↦ rw (e, h) ((λ t. (v, refl)), λ t. refl)
  ]
]

int_result_lem :
    (go : Runtime) (r : Result (Option Value))
    → get_result go int_type r ≡ int_range go (int64_result r)
unfolding get_result int64_result int_range coerce_value_to zero_of overflows_int
int_result_lem go (err e) = refl
int_result_lem go (ok none) = ground arith
int_result_lem go (ok (some v)) = elim (Bool-cases (is_null v)) [
  | inl e ↦ rw e (ground arith)
  | inr e ↦ rw e (convert (as_int64 v))
]
  where
    convert :
        (r : Result ℤ)
        → elim (int_or_overflow go r) [ ok x ↦ (x, true, none) | err e ↦ (pos 0, true, some e) ]
          ≡ int_range go (elim r [ ok x ↦ (x, true, none) | err e ↦ (pos 0, true, some e) ])
    convert (err e) = unfold int_or_overflow int_range in refl
    convert (ok i) = elim (Bool-cases (overflows_int go i)) [
      | inl e ↦ unfold int_or_overflow int_range in rw e refl
      | inr e ↦ unfold int_or_overflow int_range in rw e refl
    ]

-- The texts written before, in front of those of the rest.
behind_texts : List Bytes → Result (List Bytes) → Result (List Bytes)
behind_texts out (err e) = err e
behind_texts out (ok rest) = ok (out ++ rest)

joined :
    (i : ℕ) (out : List Bytes) (s : Bytes) (rest : Result (List Bytes))
    → behind_texts (out ++ s ∷ []) rest ≡ behind_texts out (push_string i (ok s) rest)
unfolding behind_texts push_string
joined i out s (err e) = refl
joined i out s (ok rest) = ap ok (append_assoc out (s ∷ []) rest)

pushed :
    (i : ℕ) (vs : Values) (out : List Bytes) (r : Result Bytes)
    → ((out' : List Bytes)
        → coerce_strings (suc i) vs out' ≡ behind_texts out' (strings_from (suc i) vs))
    → elim r [ err e ↦ err (at_element i e) | ok s ↦ coerce_strings (suc i) vs (out ++ s ∷ []) ]
      ≡ behind_texts out (push_string i r (strings_from (suc i) vs))
pushed i vs out (err e) rest = unfold behind_texts push_string in refl
pushed i vs out (ok s) rest = rest (out ++ s ∷ []) ∙ joined i out s (strings_from (suc i) vs)

-- The two loops over a slice collect the same texts, and fail at the same element.
coerce_strings-strings_from :
    (i : ℕ) (vs : Values) (out : List Bytes)
    → coerce_strings i vs out ≡ behind_texts out (strings_from i vs)
unfolding coerce_strings strings_from behind_texts
coerce_strings-strings_from i nil out = ap ok (sym (append-nil out))
coerce_strings-strings_from i (cons v vs) out =
    pushed i vs out (as_string v) (coerce_strings-strings_from (suc i) vs)

as_reading : Result (List Bytes) → Reading (List Bytes)
as_reading (ok x) = (x, true, none)
as_reading (err e) = ([], true, some e)

as_reading-elim :
    (r : Result (List Bytes))
    → as_reading r ≡ (elim r [ ok x ↦ (x, true, none) | err e ↦ ([], true, some e) ])
unfolding as_reading
as_reading-elim (ok x) = refl
as_reading-elim (err e) = refl

behind_nothing : (r : Result (List Bytes)) → behind_texts [] r ≡ r
unfolding behind_texts
behind_nothing (err e) = refl
behind_nothing (ok x) = refl

slice_result_lem : (r : Result Values) → as_reading (coerce_slice r) ≡ slice_strings r
unfolding coerce_slice slice_strings
slice_result_lem (err e) = unfold as_reading in refl
slice_result_lem (ok vs) =
    ap as_reading (coerce_strings-strings_from 0 vs [] ∙ behind_nothing (strings_from 0 vs))
    ∙ as_reading-elim (strings_from 0 vs)

string_result_lem :
    (go : Runtime) (r : Result (Option Value)) → get_result go string_type r ≡ string_result r
unfolding get_result string_result coerce_value_to zero_of
string_result_lem go (err e) = refl
string_result_lem go (ok none) = refl
string_result_lem go (ok (some v)) = refl

bool_result_lem :
    (go : Runtime) (r : Result (Option Value)) → get_result go bool_type r ≡ bool_result r
unfolding get_result bool_result coerce_value_to zero_of
bool_result_lem go (err e) = refl
bool_result_lem go (ok none) = refl
bool_result_lem go (ok (some v)) = refl

int64_result_lem :
    (go : Runtime) (r : Result (Option Value)) → get_result go int64_type r ≡ int64_result r
unfolding get_result int64_result coerce_value_to zero_of
int64_result_lem go (err e) = refl
int64_result_lem go (ok none) = refl
int64_result_lem go (ok (some v)) = refl

float_result_lem :
    (go : Runtime) (r : Result (Option Value)) → get_result go float64_type r ≡ float_result go r
unfolding get_result float_result coerce_value_to zero_of
float_result_lem go (err e) = refl
float_result_lem go (ok none) = refl
float_result_lem go (ok (some v)) = refl

time_result_lem :
    (go : Runtime) (r : Result (Option Value)) → get_result go time_type r ≡ time_result go r
unfolding get_result time_result coerce_value_to zero_of
time_result_lem go (err e) = refl
time_result_lem go (ok none) = refl
time_result_lem go (ok (some v)) = refl

duration_result_lem :
    (go : Runtime) (r : Result (Option Value))
    → get_result go duration_type r ≡ duration_result go r
unfolding get_result duration_result coerce_value_to zero_of
duration_result_lem go (err e) = refl
duration_result_lem go (ok none) = refl
duration_result_lem go (ok (some v)) = refl

string_slice_result_lem :
    (go : Runtime) (r : Result (Option Value))
    → get_result go strings_type r ≡ string_slice_result r
unfolding get_result string_slice_result coerce_value_to zero_of
string_slice_result_lem go (err e) = refl
string_slice_result_lem go (ok none) = refl
string_slice_result_lem go (ok (some v)) =
    ap (λ x. if is_null v then ([], true, none) else x)
      (sym (as_reading-elim (coerce_slice (as_slice v))) ∙ slice_result_lem (as_slice v))

-- Get of one of the types is the typed getter of that name.
pub get_generic_lem :
    (go : Runtime) (st : State) (prefix : KeyPath) (key : Bytes)
    → (get_generic go string_type st prefix key ≡ get_string st prefix key)
      × (get_generic go bool_type st prefix key ≡ get_bool st prefix key)
      × (get_generic go int_type st prefix key ≡ get_int go st prefix key)
      × (get_generic go int64_type st prefix key ≡ get_int64 st prefix key)
      × (get_generic go float64_type st prefix key ≡ get_float go st prefix key)
      × (get_generic go time_type st prefix key ≡ get_time go st prefix key)
      × (get_generic go duration_type st prefix key ≡ get_duration go st prefix key)
      × (get_generic go strings_type st prefix key ≡ get_string_slice st prefix key)
unfolding get_generic get_string get_bool get_int get_int64 get_float get_time get_duration
    get_string_slice
get_generic_lem go st prefix key =
    let r = get_mode st prefix key read_exact in
    (
      string_result_lem go r,
      bool_result_lem go r,
      int_result_lem go r,
      int64_result_lem go r,
      float_result_lem go r,
      time_result_lem go r,
      duration_result_lem go r,
      string_slice_result_lem go r,
    )

-- An unsigned integer of 64 bits is read back as it was set, though the value of a large one is a text.
pub value_as_uint64-new_value :
    (u : ℕ) (name : Bytes)
    → u ≤ max_uint64
    → value_as_uint64 (with_source (new_value (go_uint u)) name) ≡ ok u
unfolding value_as_uint64 new_value uint_value with_source as_int64 or_coercion
value_as_uint64-new_value u name h = elim (Bool-cases (ltb max_int64 u)) [
  | inl e ↦ rw (e, parse-format u h) refl
  | inr e ↦ rw e refl
]
