-- ===== src/Value/Access.antt =====
-- value.go: the accessors AsString to AsRaw, which project a value to a Go type, and the reading of
-- a time from its text.
use recon.Prelude.{
  ℕ, Bool, true, Option, none, some, List, [], ◌∷◌, ◌++◌, Bytes, codes, if◌then◌else◌,
}
use recon.Prelude.Int.{ℤ}
use recon.Value.{Value, ValueKind, value, Values, Entries, Float, Time, Duration, kind}
use recon.Value.Raw.{text, big_uint, big_int, int, float, bool, time, duration, slice, map, raw}

-- What the accessors ask of the standard library: math.MaxInt and math.MaxUint of the target,
-- float64(i), time.Parse with a layout and a text, and time.ParseDuration.
pub record Runtime : Type 0 where
  pub max_int : ℕ
  pub max_uint : ℕ
  pub float_of_int : ℤ → Float
  pub parse_time : Bytes → Bytes → Option Time
  pub parse_duration : Bytes → Option Duration

-- ErrTypeMismatch with the kind there is and the type asked for, ErrCoercion, ErrClosed, and the
-- wrapping with the place in a slice or a map.
pub data ReadError : Type 0 where
  type_mismatch : ValueKind → Bytes → ReadError
  coercion : ReadError
  read_closed : ReadError
  at_element : ℕ → ReadError → ReadError
  at_entry : Bytes → ReadError → ReadError

pub data Result {ℓ} (A : Type ℓ) : Type ℓ where
  ok : A → Result A
  err : ReadError → Result A

unfoldable pub as_string : Value → Result Bytes
as_string (value (text s) n) = ok s
as_string (value (big_uint s) n) = ok s
as_string (value (big_int s) n) = ok s
as_string v = err (type_mismatch (kind v) (codes "string"))

unfoldable pub as_int64 : Value → Result ℤ
as_int64 (value (int i) n) = ok i
as_int64 v = err (type_mismatch (kind v) (codes "int64"))

unfoldable pub as_float64 : Runtime → Value → Result Float
as_float64 go (value (float f) n) = ok f
as_float64 go (value (int i) n) = ok (go.float_of_int i)
as_float64 go v = err (type_mismatch (kind v) (codes "float64"))

unfoldable pub as_bool : Value → Result Bool
as_bool (value (bool b) n) = ok b
as_bool v = err (type_mismatch (kind v) (codes "bool"))

abbrev pub rfc3339 : Bytes
rfc3339 = codes "2006-01-02T15:04:05Z07:00"

-- timeFallbackLayouts: those of a date, and the timeOfDayLayouts last ones
abbrev pub date_layouts : List Bytes
date_layouts =
    codes "2006-01-02T15:04:05.999999999Z07:00"
    ∷ codes "2006-01-02T15:04:05.999999999"
    ∷ codes "2006-01-02 15:04:05.999999999"
    ∷ codes "2006-01-02T15:04"
    ∷ codes "2006-01-02 15:04"
    ∷ codes "2006-01-02"
    ∷ []

abbrev pub time_of_day_layouts : List Bytes
time_of_day_layouts = codes "15:04:05.999999999" ∷ codes "15:04" ∷ []

unfoldable pub fallback_layouts : Bool → List Bytes
fallback_layouts time_of_day =
    if time_of_day then date_layouts ++ time_of_day_layouts else date_layouts

unfoldable pub first_parse : Runtime → Bytes → List Bytes → Option Time
first_parse go s [] = none
first_parse go s (layout ∷ layouts) = elim (go.parse_time layout s) [
  | some t ↦ some t
  | none ↦ first_parse go s layouts
]

-- parseTimeText; `none` for its error
unfoldable pub parse_time_text : Runtime → Bytes → Bytes → Bool → Option Time
parse_time_text go s layout time_of_day = first_parse go s (layout ∷ fallback_layouts time_of_day)

unfoldable pub or_coercion {ℓ} : {A : Type ℓ} → Option A → Result A
or_coercion none = err coercion
or_coercion (some a) = ok a

unfoldable pub as_time : Runtime → Value → Result Time
as_time go (value (time t) n) = ok t
as_time go (value (text s) n) = or_coercion (parse_time_text go s rfc3339 true)
as_time go (value (big_uint s) n) = or_coercion (parse_time_text go s rfc3339 true)
as_time go (value (big_int s) n) = or_coercion (parse_time_text go s rfc3339 true)
as_time go v = err (type_mismatch (kind v) (codes "time.Time"))

unfoldable pub as_duration : Runtime → Value → Result Duration
as_duration go (value (duration d) n) = ok d
as_duration go (value (text s) n) = or_coercion (go.parse_duration s)
as_duration go (value (big_uint s) n) = or_coercion (go.parse_duration s)
as_duration go (value (big_int s) n) = or_coercion (go.parse_duration s)
as_duration go (value (int i) n) = ok i
as_duration go v = err (type_mismatch (kind v) (codes "time.Duration"))

unfoldable pub as_slice : Value → Result Values
as_slice (value (slice vs) n) = ok vs
as_slice v = err (type_mismatch (kind v) (codes "slice"))

unfoldable pub as_map : Value → Result Entries
as_map (value (map m) n) = ok m
as_map v = err (type_mismatch (kind v) (codes "map"))

unfoldable pub as_raw : Value → Result (Bytes × Bytes)
as_raw (value (raw format payload) n) = ok (format, payload)
as_raw v = err (type_mismatch (kind v) (codes "raw"))
