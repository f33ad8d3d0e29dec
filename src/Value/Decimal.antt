-- ===== src/Value/Decimal.antt =====
-- strconv.FormatUint and strconv.ParseUint in base ten, and strconv.ParseInt, as far as value.go
-- uses them.
use Prim.Native.Nat.{◌/◌, ◌%◌}
use native.Mathlib.Nat.{pow-suc}
use recon.Prelude.Int.{ℤ, pos, negsuc}
use recon.Prelude.{
  true, bytes_eq, Bool, Bool-cases, inl, inr, ◌≢◌, ℕ, zero, suc, ◌+◌, ◌-◌, ◌*◌, ◌^◌, ◌<◌, ◌≤◌, ◌≡◌,
  refl, [], ◌∷◌, ◌∙◌, ap, Option, none, some, false, ◌||◌, arith, Bytes, ltb, ◌==◌, if◌then◌else◌,
}

abbrev pub max_int64 : ℕ
max_int64 = 2 ^ 63 - 1

abbrev pub max_uint64 : ℕ
max_uint64 = 2 ^ 64 - 1

-- The digits of n in front of `out`, on fuel; 20 digits are enough for 64 bits.
unfoldable pub digits : ℕ → ℕ → Bytes → Bytes
digits zero n out = out
digits (suc f) n out =
    let out' = (b'0' + n % 10) ∷ out in
    let rest = digits f (n / 10) out' in if n / 10 == 0 then out' else rest

unfoldable pub format_uint : ℕ → Bytes
format_uint n = digits 20 n []

-- The digits of a text added to n; `none` where strconv.ParseUint returns an error: at a byte that
-- is no digit, and above 64 bits.
unfoldable pub parse_digits : Bytes → ℕ → Option ℕ
parse_digits [] n = some n
parse_digits (c ∷ s) n =
    let n' = n * 10 + (c - b'0') in
    let rest = parse_digits s n' in
    if ltb c b'0' || ltb b'9' c then none else if ltb max_uint64 n' then none else rest

unfoldable pub parse_uint : Bytes → Option ℕ
parse_uint [] = none
parse_uint (c ∷ s) = parse_digits (c ∷ s) 0

digit_step :
    (d n : ℕ) (s : Bytes)
    → d < 10
    → n * 10 + d ≤ max_uint64
    → parse_digits ((b'0' + d) ∷ s) n ≡ parse_digits s (n * 10 + d)
unfolding parse_digits
digit_step d n s h k = ground arith

read-digits :
    (f n : ℕ) (out : Bytes)
    → n < 10 ^ f
    → n ≤ max_uint64
    → 0 < f
    → parse_digits (digits f n out) 0 ≡ parse_digits out n
unfolding digits
read-digits zero n out h k p = absurd (omega arith)
read-digits (suc f) n out h k p = elim (Bool-cases (n / 10 == 0)) [
  | inl small ↦
      rw small (
        digit_step (n % 10) 0 out (omega arith) (omega arith)
        ∙ ap (parse_digits out) (ground arith))
  | inr large ↦
      let tens : n / 10 < 10 ^ f = omega (arith, pow-suc 10 f) in
      rw large (
        read-digits f (n / 10) ((b'0' + n % 10) ∷ out) tens (omega arith) (enough f tens large)
        ∙ digit_step (n % 10) (n / 10) out (omega arith) (omega arith)
        ∙ ap (parse_digits out) (omega arith))
]
  where
    enough : (f : ℕ) → n / 10 < 10 ^ f → (n / 10 == 0) ≡ false → 0 < f
    enough zero lt h = ground arith
    enough (suc f) lt h = omega arith

digits-ne-nil : (f n c : ℕ) (out : Bytes) → digits f n (c ∷ out) ≢ []
unfolding digits
digits-ne-nil zero n c out = cc
digits-ne-nil (suc f) n c out = ground (arith, digits-ne-nil f (n / 10) (b'0' + n % 10) (c ∷ out))

format-ne-nil : (n : ℕ) → format_uint n ≢ []
unfolding format_uint digits
format-ne-nil n = ground (arith, digits-ne-nil 19 (n / 10) (b'0' + n % 10) [])

parse_uint-digits : (s : Bytes) → s ≢ [] → parse_uint s ≡ parse_digits s 0
unfolding parse_uint
parse_uint-digits [] h = absurd (h refl)
parse_uint-digits (c ∷ s) h = refl

-- Printing a number of 64 bits and parsing the text gives the number back.
pub parse-format : (n : ℕ) → n ≤ max_uint64 → parse_uint (format_uint n) ≡ some n
unfolding parse_digits
parse-format n h =
    parse_uint-digits (format_uint n) (format-ne-nil n)
    ∙ unfold format_uint in read-digits 20 n [] (omega arith) h (omega arith)

-- strings.TrimPrefix(s, "-"), and whether there was a minus sign
unfoldable pub trim_minus : Bytes → Bool × Bytes
trim_minus [] = (false, [])
trim_minus (c ∷ s) = if c == b'-' then (true, s) else (false, c ∷ s)

unfoldable pub all_digits : Bytes → Bool
all_digits [] = true
all_digits (c ∷ s) = if ltb c b'0' || ltb b'9' c then false else all_digits s

-- isIntegerText
unfoldable pub is_integer_text : Bytes → Bool
is_integer_text s =
    let (_, digits) = trim_minus s in if bytes_eq digits [] then false else all_digits digits

abbrev signed : Bool → ℕ → Option ℤ
signed true zero = some (pos 0)
signed true (suc n) = if ltb max_int64 n then none else some (negsuc n)
signed false n = if ltb max_int64 n then none else some (pos n)

abbrev signed? : Bool → Option ℕ → Option ℤ
signed? minus none = none
signed? minus (some n) = signed minus n

-- strconv.ParseInt(s, 10, 64), for the texts that isIntegerText accepts
unfoldable pub parse_int : Bytes → Option ℤ
parse_int s = let (minus, digits) = trim_minus s in signed? minus (parse_uint digits)

parse_digits_bound :
    (s : Bytes) (n u : ℕ) → n ≤ max_uint64 → parse_digits s n ≡ some u → u ≤ max_uint64
unfolding parse_digits
parse_digits_bound [] n u h e = ground arith
parse_digits_bound (c ∷ s) n u h e = ground (arith, parse_digits_bound s (n * 10 + (c - b'0')) u)

-- What is parsed fits in 64 bits.
pub parse_uint_bound : (s : Bytes) (u : ℕ) → parse_uint s ≡ some u → u ≤ max_uint64
unfolding parse_uint
parse_uint_bound [] u e = ground arith
parse_uint_bound (c ∷ s) u e = parse_digits_bound (c ∷ s) 0 u (omega arith) e
