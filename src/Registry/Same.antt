-- ===== src/Registry/Same.antt =====
-- watch.go: valuesEqual, described by what reflect.DeepEqual promises of two values.
use recon.Prelude.{
  ℕ, ◌*◌, ◌%◌, ◌^◌, ◌≤◌, ◌≡◌, ◌↔◌, ◌⊎◌, inl, inr, refl, sym, ap, Bool, true, false, not, ◌&&◌, ◌||◌,
  Option, none, some, [], arith, ==_iff, Bytes, bytes_eq_iff,
}
use recon.Prelude.Int.{ℤ, pos, negsuc}
use recon.Value.{Value, Raw, Values, Entries, Float, Time, value, nil, cons, end, entry}
use recon.Precedence.Merge.{find}
use recon.Registry.Equality.{
  int_eq, bool_eq, is_nan, float_eq, option_eq, time_eq, entries_size, value_eq, raw_eq, values_eq,
  entries_in, found_eq, values_equal,
}

-- A bit pattern that is no NaN, and that of a zero.
abbrev pub IsNumber : Float → Type 0
IsNumber f = f % 2 ^ 63 ≤ 2047 * 2 ^ 52

abbrev pub IsZero : Float → Type 0
IsZero f = f % 2 ^ 63 ≡ 0

-- Two numbers with f == g.
abbrev pub SameFloat : Float → Float → Type 0
SameFloat f g = IsNumber f × (IsNumber g × (f ≡ g ⊎ IsZero f × IsZero g))

abbrev pub SameTime : Time → Time → Type 0
SameTime t u = (t.wall ≡ u.wall) × ((t.ext ≡ u.ext) × (t.location ≡ u.location))

-- What two values hold is deeply equal: of the same kind, the parts equal; slices element by element;
-- maps of the same size, with an equal entry for each key.
unfoldable mutual
  pub SameValue : Value → Value → Type 0
  SameValue (value r s) (value r' s') = SameRaw r r' × (s ≡ s')

  pub SameRaw : Raw → Raw → Type 0
  SameRaw Raw.null Raw.null = Unit
  SameRaw (Raw.text s) (Raw.text t) = s ≡ t
  SameRaw (Raw.big_uint s) (Raw.big_uint t) = s ≡ t
  SameRaw (Raw.big_int s) (Raw.big_int t) = s ≡ t
  SameRaw (Raw.int i) (Raw.int j) = i ≡ j
  SameRaw (Raw.float f) (Raw.float g) = SameFloat f g
  SameRaw (Raw.bool b) (Raw.bool c) = b ≡ c
  SameRaw (Raw.time t) (Raw.time u) = SameTime t u
  SameRaw (Raw.duration d) (Raw.duration e) = d ≡ e
  SameRaw (Raw.slice vs) (Raw.slice ws) = SameValues vs ws
  SameRaw (Raw.map m) (Raw.map n) = (entries_size m ≡ entries_size n) × SameEntries m n
  SameRaw (Raw.raw f p) (Raw.raw g q) = (f ≡ g) × (p ≡ q)
  SameRaw r r' = ⊥

  pub SameValues : Values → Values → Type 0
  SameValues nil nil = Unit
  SameValues (cons v vs) (cons w ws) = SameValue v w × SameValues vs ws
  SameValues vs ws = ⊥

  pub SameEntries : Entries → Entries → Type 0
  SameEntries end n = Unit
  SameEntries (entry k v m) n = SameFound v (find k n) × SameEntries m n

  pub SameFound : Value → Option Value → Type 0
  SameFound (value r s) none = ⊥
  SameFound (value r s) (some (value r' s')) = SameRaw r r' × (s ≡ s')

-- The same payload, whatever the sources.
abbrev pub SamePayload : Value → Value → Type 0
SamePayload (value r s) (value r' s') = SameRaw r r'

both_iff : {P Q : Type 0} (a b : Bool) → (a ≡ true) ↔ P → (b ≡ true) ↔ Q → (a && b ≡ true) ↔ (P × Q)
both_iff true true p q = (λ e. (p.0 refl, q.0 refl), λ h. refl)
both_iff true false p q = (λ e. absurd (ground (arith, e)), λ h. q.1 h.1)
both_iff false b p q = (λ e. absurd (ground (arith, e)), λ h. p.1 h.0)

never : {P : Type 0} → (P → ⊥) → (false ≡ true) ↔ P
never h = (λ e. absurd (ground (arith, e)), λ p. absurd (h p))

value_of : ℤ → ℕ
value_of (pos n) = n
value_of (negsuc n) = n

is_pos : ℤ → Bool
is_pos (pos n) = true
is_pos (negsuc n) = false

int_eq_iff : (i j : ℤ) → (int_eq i j ≡ true) ↔ (i ≡ j)
unfolding int_eq value_of is_pos
int_eq_iff (pos m) (pos n) = (λ e. ap pos ((==_iff m n).0 e), λ p. (==_iff m n).1 (ap value_of p))
int_eq_iff (negsuc m) (negsuc n) =
    (λ e. ap negsuc ((==_iff m n).0 e), λ p. (==_iff m n).1 (ap value_of p))
int_eq_iff (pos m) (negsuc n) = never (λ p. ground (arith, ap is_pos p))
int_eq_iff (negsuc m) (pos n) = never (λ p. ground (arith, ap is_pos p))

bool_eq_iff : (b c : Bool) → (bool_eq b c ≡ true) ↔ (b ≡ c)
unfolding bool_eq
bool_eq_iff true c = (λ e. sym e, λ e. sym e)
bool_eq_iff false true = (λ e. absurd (ground (arith, e)), λ e. absurd (ground (arith, e)))
bool_eq_iff false false = (λ e. refl, λ e. refl)

IsNumber-iff : (f : Float) → (not (is_nan f) ≡ true) ↔ IsNumber f
unfolding is_nan
IsNumber-iff f = (λ e. ground (arith, e), λ h. ground (arith, h))

either_iff :
    {P Q : Type 0} (a b : Bool) → (a ≡ true) ↔ P → (b ≡ true) ↔ Q → (a || b ≡ true) ↔ (P ⊎ Q)
either_iff true b p q = (λ e. inl (p.0 refl), λ h. refl)
either_iff false b p q =
    (λ e. inr (q.0 e), λ h. elim h [ inl x ↦ absurd (ground (arith, p.1 x)) | inr y ↦ q.1 y ])

float_eq_iff : (f g : Float) → (float_eq f g ≡ true) ↔ SameFloat f g
unfolding float_eq
float_eq_iff f g = both_iff _ _ (IsNumber-iff f) (
    both_iff _ _ (IsNumber-iff g)
      (either_iff _ _ (==_iff f g) (both_iff _ _ (==_iff (f % 2 ^ 63) 0) (==_iff (g % 2 ^ 63) 0))))

option_eq_iff : (a b : Option Bytes) → (option_eq a b ≡ true) ↔ (a ≡ b)
unfolding option_eq
option_eq_iff none none = (λ e. refl, λ e. refl)
option_eq_iff (some a) (some b) = (
  λ e. ap some ((bytes_eq_iff a b).0 e),
  λ e. (bytes_eq_iff a b).1 (ap (λ o. elim o [ none ↦ [] | some x ↦ x ]) e),
)
option_eq_iff none (some b) = never (λ p. ground (arith, p))
option_eq_iff (some a) none = never (λ p. ground (arith, p))

time_eq_iff : (t u : Time) → (time_eq t u ≡ true) ↔ SameTime t u
unfolding time_eq
time_eq_iff t u =
    both_iff _ _ (==_iff t.wall u.wall)
      (both_iff _ _ (int_eq_iff t.ext u.ext) (option_eq_iff t.location u.location))

mutual
  unfolding value_eq SameValue

  raw_eq_iff : (r r' : Raw) → (raw_eq r r' ≡ true) ↔ SameRaw r r'
  raw_eq_iff Raw.null Raw.null = (λ e. tt, λ h. refl)
  raw_eq_iff (Raw.text s) (Raw.text t) = bytes_eq_iff s t
  raw_eq_iff (Raw.big_uint s) (Raw.big_uint t) = bytes_eq_iff s t
  raw_eq_iff (Raw.big_int s) (Raw.big_int t) = bytes_eq_iff s t
  raw_eq_iff (Raw.int i) (Raw.int j) = int_eq_iff i j
  raw_eq_iff (Raw.float f) (Raw.float g) = float_eq_iff f g
  raw_eq_iff (Raw.bool b) (Raw.bool c) = bool_eq_iff b c
  raw_eq_iff (Raw.time t) (Raw.time u) = time_eq_iff t u
  raw_eq_iff (Raw.duration d) (Raw.duration e) = int_eq_iff d e
  raw_eq_iff (Raw.slice vs) (Raw.slice ws) = values_eq_iff vs ws
  raw_eq_iff (Raw.map m) (Raw.map n) =
      both_iff _ _ (==_iff (entries_size m) (entries_size n)) (entries_in_iff m n)
  raw_eq_iff (Raw.raw f p) (Raw.raw g q) = both_iff _ _ (bytes_eq_iff f g) (bytes_eq_iff p q)
  raw_eq_iff r r' = never (λ h. h)

  value_eq_iff : (v w : Value) → (value_eq v w ≡ true) ↔ SameValue v w
  value_eq_iff (value r s) (value r' s') = both_iff _ _ (raw_eq_iff r r') (bytes_eq_iff s s')

  values_eq_iff : (vs ws : Values) → (values_eq vs ws ≡ true) ↔ SameValues vs ws
  values_eq_iff nil nil = (λ e. tt, λ h. refl)
  values_eq_iff (cons v vs) (cons w ws) = both_iff _ _ (value_eq_iff v w) (values_eq_iff vs ws)
  values_eq_iff vs ws = never (λ h. h)

  entries_in_iff : (m n : Entries) → (entries_in m n ≡ true) ↔ SameEntries m n
  entries_in_iff end n = (λ e. tt, λ h. refl)
  entries_in_iff (entry k v m) n = both_iff _ _ (found_eq_iff v (find k n)) (entries_in_iff m n)

  found_eq_iff : (v : Value) (o : Option Value) → (found_eq v o ≡ true) ↔ SameFound v o
  found_eq_iff (value r s) none = never (λ h. h)
  found_eq_iff (value r s) (some (value r' s')) = both_iff _ _ (raw_eq_iff r r') (bytes_eq_iff s s')

-- Two values are equal for the code exactly when their payloads are the same.
pub values_equal_iff : (v w : Value) → (values_equal v w ≡ true) ↔ SamePayload v w
unfolding values_equal
values_equal_iff (value r s) (value r' s') = raw_eq_iff r r'
