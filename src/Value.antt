-- ===== src/Value.antt =====
-- value.go: the values that sources produce, and their conversion from and to Go values.
pub mod Decimal
pub mod Wrap
pub mod Access
pub mod Text
use recon.Prelude.{
  ℕ, ◌^◌, ◌-◌, Bool, true, false, Option, none, some, Bytes, bytes_eq, ltb, if◌then◌else◌, List, [],
  ◌∷◌, ◌++◌,
}
use recon.Prelude.Int.{ℤ, pos, negsuc}
use recon.Value.Decimal.{max_int64, format_uint, parse_uint, is_integer_text, parse_int}

-- A float64 as its bit pattern, and a time.Duration as nanoseconds.
abbrev pub Float : Type 0
Float = ℕ

-- A time.Time: its fields wall, with the mark of a monotonic reading, and ext, and what the location it
-- points to holds, `none` for the nil pointer.
pub record Time : Type 0 where
  pub wall : ℕ
  pub ext : ℤ
  pub location : Option Bytes

abbrev pub Duration : Type 0
Duration = ℤ

pub data ValueKind : Type 0 where
  null_kind string_kind int_kind float_kind bool_kind time_kind duration_kind : ValueKind
  slice_kind map_kind raw_kind : ValueKind

-- The struct Value. `Raw` joins the fields kind and raw, which always agree, and the marks bigUint
-- and bigInt of a StringKind text; `value` adds the field source.
mutual
  pub data Value : Type 0 where
    value : Raw → Bytes → Value

  pub data Raw : Type 0 where
    null : Raw
    text : Bytes → Raw
    big_uint : Bytes → Raw
    big_int : Bytes → Raw
    int : ℤ → Raw
    float : Float → Raw
    bool : Bool → Raw
    time : Time → Raw
    duration : Duration → Raw
    slice : Values → Raw
    map : Entries → Raw
    raw : Bytes → Bytes → Raw

  -- []Value
  pub data Values : Type 0 where
    nil : Values
    cons : Value → Values → Values

  -- map[string]Value
  pub data Entries : Type 0 where
    end : Entries
    entry : Bytes → Value → Entries → Entries

-- The Go values that NewValue tells apart. `typed_slice` and `typed_map` are the slices, arrays and
-- maps that it reads through reflection, `json_number` holds its text and what strconv.ParseFloat
-- makes of it, and `other` what fmt.Sprint makes of any other value.
mutual
  pub data GoValue : Type 0 where
    go_nil : GoValue
    go_value : Value → GoValue
    json_number : Bytes → Option Float → GoValue
    go_string : Bytes → GoValue
    go_bool : Bool → GoValue
    go_time : Time → GoValue
    go_duration : Duration → GoValue
    any_slice : GoValues → GoValue
    value_slice : Values → GoValue
    any_map : GoEntries → GoValue
    value_map : Entries → GoValue
    go_int : ℤ → GoValue
    go_uint : ℕ → GoValue
    go_float : Float → GoValue
    typed_slice : GoValues → GoValue
    typed_map : GoEntries → GoValue
    other : Bytes → GoValue
    raw_value : Bytes → Bytes → GoValue

  pub data GoValues : Type 0 where
    go_none : GoValues
    go_cons : GoValue → GoValues → GoValues

  pub data GoEntries : Type 0 where
    go_end : GoEntries
    go_entry : Bytes → GoValue → GoEntries → GoEntries

-- uintValue
unfoldable pub uint_value : ℕ → Value
uint_value u =
    if ltb max_int64 u then value (big_uint (format_uint u)) [] else value (int (pos u)) []

-- The last two results of numberValue, for what strconv.ParseFloat makes of the text.
float_or_text : Bytes → Option Float → Value
float_or_text s none = value (text s) []
float_or_text s (some f) = value (float f) []

uint_or_text : Bytes → Option ℕ → Value
uint_or_text s none = value (big_int s) []
uint_or_text s (some u) = uint_value u

integer_value : Bytes → Option ℤ → Option ℕ → Value
integer_value s (some i) u = value (int i) []
integer_value s none u = uint_or_text s u

-- numberValue
unfoldable pub number_value : Bytes → Option Float → Value
unfolding float_or_text uint_or_text integer_value
number_value s f =
    if is_integer_text s then integer_value s (parse_int s) (parse_uint s) else float_or_text s f

-- fmt.Sprint of a RawValue: {format [b1 b2 …]}
unfoldable pub sprint_bytes : Bytes → Bytes
sprint_bytes [] = []
sprint_bytes (c ∷ []) = format_uint c
sprint_bytes (c ∷ d ∷ s) = format_uint c ++ b' ' ∷ sprint_bytes (d ∷ s)

unfoldable pub sprint_raw : Bytes → Bytes → Bytes
sprint_raw format payload =
    b'{' ∷ format ++ (b' ' ∷ b'[' ∷ sprint_bytes payload) ++ (b']' ∷ b'}' ∷ [])

-- NewValue, numericValue and collectionValue
unfoldable mutual
  pub new_value : GoValue → Value
  new_value go_nil = value null []
  new_value (go_value v) = v
  new_value (json_number s f) = number_value s f
  new_value (go_string s) = value (text s) []
  new_value (go_bool b) = value (bool b) []
  new_value (go_time t) = value (time t) []
  new_value (go_duration d) = value (duration d) []
  new_value (any_slice xs) = value (slice (new_values xs)) []
  new_value (value_slice vs) = value (slice vs) []
  new_value (any_map m) = value (map (new_entries m)) []
  new_value (value_map m) = value (map m) []
  new_value (go_int i) = value (int i) []
  new_value (go_uint u) = uint_value u
  new_value (go_float f) = value (float f) []
  new_value (typed_slice xs) = value (slice (new_values xs)) []
  new_value (typed_map m) = value (map (new_entries m)) []
  new_value (other s) = value (text s) []
  new_value (raw_value format payload) = value (text (sprint_raw format payload)) []

  pub new_values : GoValues → Values
  new_values go_none = nil
  new_values (go_cons x xs) = cons (new_value x) (new_values xs)

  pub new_entries : GoEntries → Entries
  new_entries go_end = end
  new_entries (go_entry k x m) = entry k (new_value x) (new_entries m)

unfoldable pub with_source : Value → Bytes → Value
with_source (value r s) name = value r name

-- Value.Source
unfoldable pub source_of : Value → Bytes
source_of (value r s) = s

-- Value.Kind
unfoldable pub kind_of_raw : Raw → ValueKind
kind_of_raw null = null_kind
kind_of_raw (text s) = string_kind
kind_of_raw (big_uint s) = string_kind
kind_of_raw (big_int s) = string_kind
kind_of_raw (int i) = int_kind
kind_of_raw (float f) = float_kind
kind_of_raw (bool b) = bool_kind
kind_of_raw (time t) = time_kind
kind_of_raw (duration d) = duration_kind
kind_of_raw (slice vs) = slice_kind
kind_of_raw (map m) = map_kind
kind_of_raw (raw format payload) = raw_kind

unfoldable pub kind : Value → ValueKind
unfolding kind_of_raw
kind (value r s) = kind_of_raw r

uint_or_string : Bytes → Option ℕ → GoValue
uint_or_string s none = go_string s
uint_or_string s (some u) = go_uint u

-- Value.Any; what strconv.ParseFloat makes of the text of a bigInt is never asked for.
unfoldable pub any_of_raw : Raw → GoValue
unfolding uint_or_string
any_of_raw null = go_nil
any_of_raw (text s) = go_string s
any_of_raw (big_uint s) = uint_or_string s (parse_uint s)
any_of_raw (big_int s) = json_number s none
any_of_raw (int i) = go_int i
any_of_raw (float f) = go_float f
any_of_raw (bool b) = go_bool b
any_of_raw (time t) = go_time t
any_of_raw (duration d) = go_duration d
any_of_raw (slice vs) = value_slice vs
any_of_raw (map m) = value_map m
any_of_raw (raw format payload) = raw_value format payload

unfoldable pub any : Value → GoValue
unfolding any_of_raw
any (value r s) = any_of_raw r

-- unwrapValueDeep
unfoldable mutual
  pub unwrap_value_deep : Value → GoValue
  unwrap_value_deep (value r s) = unwrap_raw r

  pub unwrap_raw : Raw → GoValue
  unwrap_raw (slice vs) = any_slice (unwrap_values vs)
  unwrap_raw (map m) = any_map (unwrap_entries m)
  unwrap_raw r = any_of_raw r

  pub unwrap_values : Values → GoValues
  unwrap_values nil = go_none
  unwrap_values (cons v vs) = go_cons (unwrap_value_deep v) (unwrap_values vs)

  pub unwrap_entries : Entries → GoEntries
  unwrap_entries end = go_end
  unwrap_entries (entry k v m) = go_entry k (unwrap_value_deep v) (unwrap_entries m)
