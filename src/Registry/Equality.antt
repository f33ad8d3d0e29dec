-- ===== src/Registry/Equality.antt =====
-- watch.go: valuesEqual, with the reflect.DeepEqual that it calls.
use recon.Prelude.{
  Bytes, ℕ, suc, ◌*◌, ◌%◌, ◌^◌, Bool, true, false, not, ◌&&◌, ◌||◌, Option, none, some, ltb, ◌==◌,
  bytes_eq,
}
use recon.Prelude.Int.{ℤ, pos, negsuc}
use recon.Value.{Value, Raw, Values, Entries, Float, Time, value, nil, cons, end, entry}
use recon.Precedence.Merge.{find}

unfoldable pub int_eq : ℤ → ℤ → Bool
int_eq (pos m) (pos n) = m == n
int_eq (negsuc m) (negsuc n) = m == n
int_eq i j = false

unfoldable pub bool_eq : Bool → Bool → Bool
bool_eq true b = b
bool_eq false b = not b

-- The bit patterns of the NaNs and of the two zeros, without the sign.
unfoldable pub is_nan : Float → Bool
is_nan f = ltb (2047 * 2 ^ 52) (f % 2 ^ 63)

unfoldable pub float_eq : Float → Float → Bool
unfolding is_nan
float_eq f g =
    not (is_nan f) && (not (is_nan g) && (f == g || (f % 2 ^ 63 == 0 && g % 2 ^ 63 == 0)))

unfoldable pub option_eq : Option Bytes → Option Bytes → Bool
option_eq none none = true
option_eq (some a) (some b) = bytes_eq a b
option_eq a b = false

-- The fields of two times, with their locations.
unfoldable pub time_eq : Time → Time → Bool
unfolding int_eq option_eq
time_eq t u = t.wall == u.wall && (int_eq t.ext u.ext && option_eq t.location u.location)

unfoldable pub entries_size : Entries → ℕ
entries_size end = 0
entries_size (entry k v m) = suc (entries_size m)

-- reflect.DeepEqual on what two values hold, and on the structs Value that they hold. Slices and
-- maps of the same memory, which DeepEqual does not look into, are compared like others.
unfoldable mutual
  unfolding int_eq bool_eq float_eq time_eq entries_size

  pub value_eq : Value → Value → Bool
  value_eq (value r s) (value r' s') = raw_eq r r' && bytes_eq s s'

  pub raw_eq : Raw → Raw → Bool
  raw_eq Raw.null Raw.null = true
  raw_eq (Raw.text s) (Raw.text t) = bytes_eq s t
  raw_eq (Raw.big_uint s) (Raw.big_uint t) = bytes_eq s t
  raw_eq (Raw.big_int s) (Raw.big_int t) = bytes_eq s t
  raw_eq (Raw.int i) (Raw.int j) = int_eq i j
  raw_eq (Raw.float f) (Raw.float g) = float_eq f g
  raw_eq (Raw.bool b) (Raw.bool c) = bool_eq b c
  raw_eq (Raw.time t) (Raw.time u) = time_eq t u
  raw_eq (Raw.duration d) (Raw.duration e) = int_eq d e
  raw_eq (Raw.slice vs) (Raw.slice ws) = values_eq vs ws
  raw_eq (Raw.map m) (Raw.map n) = entries_size m == entries_size n && entries_in m n
  raw_eq (Raw.raw f p) (Raw.raw g q) = bytes_eq f g && bytes_eq p q
  raw_eq r r' = false

  pub values_eq : Values → Values → Bool
  values_eq nil nil = true
  values_eq (cons v vs) (cons w ws) = value_eq v w && values_eq vs ws
  values_eq vs ws = false

  pub entries_in : Entries → Entries → Bool
  entries_in end n = true
  entries_in (entry k v m) n = found_eq v (find k n) && entries_in m n

  pub found_eq : Value → Option Value → Bool
  found_eq (value r s) none = false
  found_eq (value r s) (some (value r' s')) = raw_eq r r' && bytes_eq s s'

-- valuesEqual: a different kind is a different constructor, and the source does not count.
unfoldable pub values_equal : Value → Value → Bool
values_equal (value r s) (value r' s') = raw_eq r r'
