-- ===== src/Registry/Generic.antt =====
-- registry_get.go: the generic Get[T]; a type of its type switch is a constructor of GoType.
use recon.Prelude.{
  ℕ, suc, Bool, true, false, Option, none, some, List, [], ◌∷◌, ◌++◌, ltb, if◌then◌else◌, Bytes,
}
use recon.Prelude.Int.{ℤ, pos, negsuc}
use recon.KeyPath.{KeyPath}
use recon.Value.{Value, Values, nil, cons, value, Float, Time, Duration}
use recon.Value.Raw.{null, big_uint}
use recon.Value.Decimal.{parse_uint}
use recon.Value.Access.{
  Runtime, coercion, Result, ok, err, as_string, as_int64, as_float64, as_bool, as_time,
  as_duration, or_coercion, as_slice, at_element,
}
use recon.Snapshot.Reads.{ReadMode, read_exact, read_get, is_null}
use recon.Registry.{State}
use recon.Registry.Reads.{Reading, get_mode, overflows_int, zero_time}

-- The types T that Get supports.
pub data GoType : Type 0 where
  string_type bool_type int_type int64_type uint_type uint64_type float64_type : GoType
  time_type duration_type value_type strings_type : GoType

abbrev pub TypeOf : GoType → Type 0
TypeOf string_type = Bytes
TypeOf bool_type = Bool
TypeOf int_type = ℤ
TypeOf int64_type = ℤ
TypeOf uint_type = ℕ
TypeOf uint64_type = ℕ
TypeOf float64_type = Float
TypeOf time_type = Time
TypeOf duration_type = Duration
TypeOf value_type = Value
TypeOf strings_type = List Bytes

-- var zero T
unfoldable pub zero_of : (t : GoType) → TypeOf t
zero_of string_type = []
zero_of bool_type = false
zero_of int_type = pos 0
zero_of int64_type = pos 0
zero_of uint_type = 0
zero_of uint64_type = 0
zero_of float64_type = 0
zero_of time_type = zero_time
zero_of duration_type = pos 0
zero_of value_type = value null []
zero_of strings_type = []

not_negative : Result ℤ → Result ℕ
not_negative (err e) = err e
not_negative (ok (pos n)) = ok n
not_negative (ok (negsuc n)) = err coercion

-- valueAsUint64
unfoldable pub value_as_uint64 : Value → Result ℕ
unfolding not_negative
value_as_uint64 (value (big_uint s) n) = or_coercion (parse_uint s)
value_as_uint64 v = not_negative (as_int64 v)

unfoldable pub int_or_overflow : Runtime → Result ℤ → Result ℤ
int_or_overflow go (err e) = err e
int_or_overflow go (ok i) = if overflows_int go i then err coercion else ok i

uint_or_overflow : Runtime → Result ℕ → Result ℕ
uint_or_overflow go (err e) = err e
uint_or_overflow go (ok u) = if ltb go.max_uint u then err coercion else ok u

-- The loop of coerceValueAny over the elements of a slice, with the texts written so far.
unfoldable pub coerce_strings : ℕ → Values → List Bytes → Result (List Bytes)
coerce_strings i nil out = ok out
coerce_strings i (cons v vs) out = elim (as_string v) [
  | err e ↦ err (at_element i e)
  | ok s ↦ coerce_strings (suc i) vs (out ++ s ∷ [])
]

unfoldable pub coerce_slice : Result Values → Result (List Bytes)
coerce_slice (err e) = err e
coerce_slice (ok vs) = coerce_strings 0 vs []

-- coerceValueAny with the assertion of coerceValueTo, which holds in each case
unfoldable pub coerce_value_to : Runtime → (t : GoType) → Value → Result (TypeOf t)
unfolding int_or_overflow uint_or_overflow coerce_slice
coerce_value_to go string_type v = as_string v
coerce_value_to go bool_type v = as_bool v
coerce_value_to go int_type v = int_or_overflow go (as_int64 v)
coerce_value_to go int64_type v = as_int64 v
coerce_value_to go uint_type v = uint_or_overflow go (value_as_uint64 v)
coerce_value_to go uint64_type v = value_as_uint64 v
coerce_value_to go float64_type v = as_float64 go v
coerce_value_to go time_type v = as_time go v
coerce_value_to go duration_type v = as_duration go v
coerce_value_to go value_type v = ok v
coerce_value_to go strings_type v = coerce_slice (as_slice v)

mode_of : GoType → ReadMode
mode_of value_type = read_get
mode_of t = read_exact

-- The body of Get[T], for what get returns.
unfoldable pub get_result : Runtime → (t : GoType) → Result (Option Value) → Reading (TypeOf t)
get_result go t (err e) = (zero_of t, false, some e)
get_result go t (ok none) = (zero_of t, false, none)
get_result go t (ok (some v)) =
    if is_null v then (zero_of t, true, none) else elim (coerce_value_to go t v) [
      | ok x ↦ (x, true, none)
      | err e ↦ (zero_of t, true, some e)
    ]

-- Get[T]
unfoldable pub get_generic : Runtime → (t : GoType) → State → KeyPath → Bytes → Reading (TypeOf t)
unfolding mode_of
get_generic go t st prefix key = get_result go t (get_mode st prefix key (mode_of t))
