-- ===== src/Value/Wrap.antt =====
-- value.go: what NewValue makes of a Go value, and that wrapping what a value unwraps to gives the
-- value back.
use recon.Prelude.{
  ltb, Option, ℕ, ◌≤◌, ◌<◌, ◌≡◌, refl, ap, ap₂, Bool-cases, Option-cases, inl, inr, none, some,
  true, false, [], arith, Bytes,
}
use recon.Prelude.Int.{ℤ}
use recon.Value.Decimal.{
  max_int64, max_uint64, format_uint, parse_uint, parse_int, is_integer_text, parse-format,
  parse_uint_bound,
}
use recon.Value.{
  Float, Value, Raw, Values, Entries, value, nil, cons, end, entry, GoValue, GoValues, GoEntries,
  new_value, new_values, new_entries, unwrap_value_deep, unwrap_raw, unwrap_values, unwrap_entries,
  any_of_raw, uint_value, number_value,
}
use recon.Value.Raw.{
  null, text, big_uint, big_int, int, float, bool, time, duration, slice, map, raw,
}
use recon.Value.GoValue.{
  go_nil, go_value, json_number, any_slice, value_slice, any_map, value_map, go_uint, typed_slice,
  typed_map,
}
use recon.Value.GoValues.{go_none, go_cons}
use recon.Value.GoEntries.{go_end, go_entry}

-- A value as NewValue makes it: the marked texts are those of integers outside the range of int64,
-- and no part is of RawKind.
unfoldable mutual
  pub IsWrapped : Value → Type 0
  IsWrapped (value r s) = IsWrappedRaw r

  pub IsWrappedRaw : Raw → Type 0
  IsWrappedRaw (big_uint s) = (u : ℕ) × (s ≡ format_uint u) × (max_int64 < u) × (u ≤ max_uint64)
  IsWrappedRaw (big_int s) =
      (is_integer_text s ≡ true) × (parse_int s ≡ none) × (parse_uint s ≡ none)
  IsWrappedRaw (raw format payload) = ⊥
  IsWrappedRaw (slice vs) = AreWrapped vs
  IsWrappedRaw (map m) = AreWrappedEntries m
  IsWrappedRaw r = Unit

  pub AreWrapped : Values → Type 0
  AreWrapped nil = Unit
  AreWrapped (cons v vs) = IsWrapped v × AreWrapped vs

  pub AreWrappedEntries : Entries → Type 0
  AreWrappedEntries end = Unit
  AreWrappedEntries (entry k v m) = IsWrapped v × AreWrappedEntries m

-- The value without the names of its sources, at every depth.
unfoldable mutual
  pub unsourced : Value → Value
  unsourced (value r s) = value (unsourced_raw r) []

  pub unsourced_raw : Raw → Raw
  unsourced_raw (slice vs) = slice (unsourced_values vs)
  unsourced_raw (map m) = map (unsourced_entries m)
  unsourced_raw r = r

  pub unsourced_values : Values → Values
  unsourced_values nil = nil
  unsourced_values (cons v vs) = cons (unsourced v) (unsourced_values vs)

  pub unsourced_entries : Entries → Entries
  unsourced_entries end = end
  unsourced_entries (entry k v m) = entry k (unsourced v) (unsourced_entries m)

wrap-big_uint :
    (s : Bytes)
    → IsWrappedRaw (big_uint s)
    → new_value (any_of_raw (big_uint s)) ≡ value (big_uint s) []
unfolding new_value any_of_raw uint_value IsWrapped
wrap-big_uint s (u, e, big, fits) = rw e (ground (arith, parse-format u fits))

wrap-big_int :
    (s : Bytes)
    → IsWrappedRaw (big_int s)
    → new_value (any_of_raw (big_int s)) ≡ value (big_int s) []
unfolding new_value any_of_raw number_value IsWrapped
wrap-big_int s (integer, no_int, no_uint) = ground arith

mutual
  unfolding new_value unwrap_value_deep unsourced IsWrapped any_of_raw

  wrap_value : (v : Value) → IsWrapped v → new_value (unwrap_value_deep v) ≡ unsourced v
  wrap_value (value r s) h = wrap_raw r h

  wrap_raw : (r : Raw) → IsWrappedRaw r → new_value (unwrap_raw r) ≡ value (unsourced_raw r) []
  wrap_raw (slice vs) h = ap (λ xs. value (slice xs) []) (wrap_values vs h)
  wrap_raw (map m) h = ap (λ xs. value (map xs) []) (wrap_entries m h)
  wrap_raw (raw format payload) h = absurd h
  wrap_raw (big_uint s) h = wrap-big_uint s h
  wrap_raw (big_int s) h = wrap-big_int s h
  wrap_raw null h = refl
  wrap_raw (text s) h = refl
  wrap_raw (int i) h = refl
  wrap_raw (float f) h = refl
  wrap_raw (bool b) h = refl
  wrap_raw (time t) h = refl
  wrap_raw (duration d) h = refl

  wrap_values : (vs : Values) → AreWrapped vs → new_values (unwrap_values vs) ≡ unsourced_values vs
  wrap_values nil h = refl
  wrap_values (cons v vs) h = ap₂ cons (wrap_value v h.0) (wrap_values vs h.1)

  wrap_entries :
      (m : Entries) → AreWrappedEntries m → new_entries (unwrap_entries m) ≡ unsourced_entries m
  wrap_entries end h = refl
  wrap_entries (entry k v m) h = ap₂ (entry k) (wrap_value v h.0) (wrap_entries m h.1)

-- Wrapping the plain Go form of a value gives the value back, but for the names of its sources.
pub new_value-unwrap : (v : Value) → IsWrapped v → new_value (unwrap_value_deep v) ≡ unsourced v
new_value-unwrap = wrap_value

-- The Go values of a 64-bit program: unsigned integers fit in 64 bits, and the values inside are
-- wrapped ones.
unfoldable mutual
  pub InRange : GoValue → Type 0
  InRange (go_uint u) = u ≤ max_uint64
  InRange (go_value v) = IsWrapped v
  InRange (value_slice vs) = AreWrapped vs
  InRange (value_map m) = AreWrappedEntries m
  InRange (any_slice xs) = AllInRange xs
  InRange (typed_slice xs) = AllInRange xs
  InRange (any_map m) = EntriesInRange m
  InRange (typed_map m) = EntriesInRange m
  InRange x = Unit

  pub AllInRange : GoValues → Type 0
  AllInRange go_none = Unit
  AllInRange (go_cons x xs) = InRange x × AllInRange xs

  pub EntriesInRange : GoEntries → Type 0
  EntriesInRange go_end = Unit
  EntriesInRange (go_entry k x m) = InRange x × EntriesInRange m

uint_value-IsWrapped : (u : ℕ) → u ≤ max_uint64 → IsWrapped (uint_value u)
unfolding uint_value IsWrapped
uint_value-IsWrapped u h = elim (Bool-cases (ltb max_int64 u)) [
  | inl big ↦ rw big (u, refl, ground arith, h)
  | inr small ↦ rw small tt
]

-- The three outcomes of numberValue, with the tests that lead to them.
number-int :
    (s : Bytes) (f : Option Float) (i : ℤ)
    → is_integer_text s ≡ true
    → parse_int s ≡ some i
    → number_value s f ≡ value (int i) []
unfolding number_value
number-int s f i h e = rw (h, e)

number-uint :
    (s : Bytes) (f : Option Float) (u : ℕ)
    → is_integer_text s ≡ true
    → parse_int s ≡ none
    → parse_uint s ≡ some u
    → number_value s f ≡ uint_value u
unfolding number_value
number-uint s f u h e k = rw (h, e, k)

number-big :
    (s : Bytes) (f : Option Float)
    → is_integer_text s ≡ true
    → parse_int s ≡ none
    → parse_uint s ≡ none
    → number_value s f ≡ value (big_int s) []
unfolding number_value
number-big s f h e k = rw (h, e, k)

integer-IsWrapped :
    (s : Bytes) (f : Option Float) → is_integer_text s ≡ true → IsWrapped (number_value s f)
integer-IsWrapped s f h = elim (Option-cases (parse_int s)) [
  | inr (i, e) ↦ rw (number-int s f i h e) (unfold IsWrapped in tt)
  | inl e ↦ elim (Option-cases (parse_uint s)) [
    | inr (u, k) ↦ rw (number-uint s f u h e k) (uint_value-IsWrapped u (parse_uint_bound s u k))
    | inl k ↦ rw (number-big s f h e k) (unfold IsWrapped in (h, e, k))
  ]
]

number_value-IsWrapped : (s : Bytes) (f : Option Float) → IsWrapped (number_value s f)
number_value-IsWrapped s f = elim (Bool-cases (is_integer_text s)) [
  | inl h ↦ integer-IsWrapped s f h
  | inr h ↦ other_text f h
]
  where
    other_text : (f : Option Float) → is_integer_text s ≡ false → IsWrapped (number_value s f)
    other_text none h = unfold number_value IsWrapped in rw h tt
    other_text (some f) h = unfold number_value IsWrapped in rw h tt

mutual
  unfolding new_value IsWrapped InRange

  new_value-IsWrapped : (x : GoValue) → InRange x → IsWrapped (new_value x)
  new_value-IsWrapped go_nil h = tt
  new_value-IsWrapped (go_value v) h = h
  new_value-IsWrapped (json_number s f) h = number_value-IsWrapped s f
  new_value-IsWrapped (go_uint u) h = uint_value-IsWrapped u h
  new_value-IsWrapped (value_slice vs) h = h
  new_value-IsWrapped (value_map m) h = h
  new_value-IsWrapped (any_slice xs) h = new_values-AreWrapped xs h
  new_value-IsWrapped (typed_slice xs) h = new_values-AreWrapped xs h
  new_value-IsWrapped (any_map m) h = new_entries-AreWrapped m h
  new_value-IsWrapped (typed_map m) h = new_entries-AreWrapped m h
  new_value-IsWrapped _ h = tt

  new_values-AreWrapped : (xs : GoValues) → AllInRange xs → AreWrapped (new_values xs)
  new_values-AreWrapped go_none h = tt
  new_values-AreWrapped (go_cons x xs) h = (new_value-IsWrapped x h.0, new_values-AreWrapped xs h.1)

  new_entries-AreWrapped : (m : GoEntries) → EntriesInRange m → AreWrappedEntries (new_entries m)
  new_entries-AreWrapped go_end h = tt
  new_entries-AreWrapped (go_entry k x m) h =
      (new_value-IsWrapped x h.0, new_entries-AreWrapped m h.1)
