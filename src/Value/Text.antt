-- ===== src/Value/Text.antt =====
-- value.go: the text of a value, Value.String.
use recon.Prelude.{suc, Bool, [], ◌∷◌, if◌then◌else◌, Bytes}
use recon.Prelude.Int.{ℤ, pos, negsuc}
use recon.Value.{Value, value, Raw, Float, Time}
use recon.Value.Raw.{null, text, big_uint, big_int, int, float, time}
use recon.Value.Decimal.{format_uint}

-- What the texts take from the standard library: whether f == math.Trunc(f) && math.Abs(f) < 1e21,
-- strconv.FormatFloat with the format 'f' or 'g', t.Format(time.RFC3339Nano), and fmt.Sprint.
pub record Formats : Type 0 where
  pub is_whole : Float → Bool
  pub format_plain : Float → Bytes
  pub format_general : Float → Bytes
  pub format_time : Time → Bytes
  pub sprint : Raw → Bytes

-- strconv.FormatInt(i, 10)
unfoldable pub format_int : ℤ → Bytes
format_int (pos n) = format_uint n
format_int (negsuc n) = b'-' ∷ format_uint (suc n)

-- formatFloat
unfoldable pub format_float : Formats → Float → Bytes
format_float fmt f = if fmt.is_whole f then fmt.format_plain f else fmt.format_general f

-- Value.String
unfoldable pub value_string : Formats → Value → Bytes
value_string fmt (value null n) = []
value_string fmt (value (text s) n) = s
value_string fmt (value (big_uint s) n) = s
value_string fmt (value (big_int s) n) = s
value_string fmt (value (int i) n) = format_int i
value_string fmt (value (float f) n) = format_float fmt f
value_string fmt (value (time t) n) = fmt.format_time t
value_string fmt (value r n) = fmt.sprint r
