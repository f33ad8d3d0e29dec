-- ===== src/KeyPath.antt =====
-- path.go: key paths, their canonical text, and the segment-wise operations. A Go string is the
-- list of its bytes; the unread rest of the text stands for the index of a loop.
pub mod Brackets
pub mod Parse
pub mod RoundTrip
pub mod Canonical
pub mod Delims
pub mod Compare
pub mod Prefix
use recon.Prelude.{
  ℕ, zero, suc, ◌+◌, Bool, true, false, not, ◌&&◌, ◌||◌, List, [], ◌∷◌, ◌++◌, Option, none, some,
  length, take, drop, Bytes, codes, bytes_eq, ◌==◌, ltb, if◌then◌else◌,
}
use mathlib.Core.Option

-- The type Path.
abbrev pub KeyPath : Type 0
KeyPath = List Bytes

abbrev pub delim : ℕ
delim = b'.'

abbrev pub open_bracket : ℕ
open_bracket = b'['

abbrev pub close_bracket : ℕ
close_bracket = b']'

-- strings.IndexByte(s, c) >= 0
unfoldable pub contains : ℕ → Bytes → Bool
contains c [] = false
contains c (d ∷ s) = d == c || contains c s

-- strings.Split(s, DefaultDelimiter), with the part that is being read
unfoldable pub split_from : Bytes → Bytes → KeyPath
split_from [] part = part ∷ []
split_from (c ∷ s) part = elim (c == delim) [
  | true ↦ part ∷ split_from s []
  | false ↦ split_from s (part ++ c ∷ [])
]

-- closingBracket(s, from), for the text that begins at `from`: the offset of the bracket in it
unfoldable pub closing_bracket : Bytes → Option ℕ
closing_bracket [] = none
closing_bracket (c ∷ []) = if c == close_bracket then some 0 else none
closing_bracket (c ∷ d ∷ s) = elim (c == close_bracket) [
  | true ↦ elim (d == close_bracket) [
    | true ↦ Option.map (λ e. suc (suc e)) (closing_bracket s)
    | false ↦ some 0
  ]
  | false ↦ Option.map suc (closing_bracket (d ∷ s))
]

-- strings.ReplaceAll(seg, "]", "]]")
unfoldable pub double_brackets : Bytes → Bytes
double_brackets [] = []
double_brackets (c ∷ s) =
    if c == close_bracket
    then close_bracket ∷ close_bracket ∷ double_brackets s
    else c ∷ double_brackets s

-- strings.ReplaceAll(seg, "]]", "]")
unfoldable pub halve_brackets : Bytes → Bytes
halve_brackets [] = []
halve_brackets (c ∷ []) = c ∷ []
halve_brackets (c ∷ d ∷ s) = elim (c == close_bracket && d == close_bracket) [
  | true ↦ close_bracket ∷ halve_brackets s
  | false ↦ c ∷ halve_brackets (d ∷ s)
]

-- The loop of ParsePath, on fuel: out and buf are its variables.
unfoldable pub parse_loop : ℕ → Bytes → KeyPath → Bytes → KeyPath
parse_loop zero s out buf = out ++ buf ∷ []
parse_loop (suc f) [] out buf = out ++ buf ∷ []
parse_loop (suc f) (c ∷ s) out buf = elim (c == open_bracket) [
  | true ↦ elim (closing_bracket s) [
    | none ↦ parse_loop f s out (buf ++ c ∷ [])
    | some e ↦ parse_loop f (drop (suc e) s) out (buf ++ halve_brackets (take e s))
  ]
  | false ↦ elim (c == delim) [
    | true ↦ parse_loop f s (out ++ buf ∷ []) []
    | false ↦ parse_loop f s out (buf ++ c ∷ [])
  ]
]

unfoldable pub parse_path : Bytes → KeyPath
parse_path s =
    if bytes_eq s []
    then []
    else if not (contains open_bracket s)
    then split_from s []
    else parse_loop (length s) s [] []

unfoldable pub needs_brackets : Bytes → Bool
needs_brackets seg = contains delim seg || contains open_bracket seg

-- if i > 0 { write the delimiter }
unfoldable pub separated : ℕ → Bytes → Bytes
separated zero b = b
separated (suc i) b = b ++ delim ∷ []

-- The loop of Path.String: `i` is its index and `b` the text written so far.
unfoldable pub write_segments : ℕ → KeyPath → Bytes → Bytes
write_segments i [] b = b
write_segments i (seg ∷ p) b =
    let b' = separated i b in
    write_segments (suc i) p (
      if needs_brackets seg
      then b' ++ open_bracket ∷ (double_brackets seg ++ close_bracket ∷ [])
      else b' ++ seg)

unfoldable pub to_string : KeyPath → Bytes
to_string [] = []
to_string (seg ∷ []) =
    if bytes_eq seg []
    then open_bracket ∷ close_bracket ∷ []
    else if not (needs_brackets seg)
    then seg
    else write_segments 0 (seg ∷ []) []
to_string (seg ∷ next ∷ p) = write_segments 0 (seg ∷ next ∷ p) []

-- The inner loop of AppendCanonical, over the bytes of a segment.
unfoldable pub append_escaped : Bytes → Bytes → Bytes
append_escaped [] b = b
append_escaped (c ∷ seg) b =
    append_escaped seg ((if c == close_bracket then b ++ close_bracket ∷ [] else b) ++ c ∷ [])

unfoldable pub append_segments : ℕ → KeyPath → Bytes → Bytes
append_segments i [] b = b
append_segments i (seg ∷ p) b =
    let b' = separated i b in
    append_segments (suc i) p (
      if not (needs_brackets seg)
      then b' ++ seg
      else append_escaped seg (b' ++ open_bracket ∷ []) ++ close_bracket ∷ [])

unfoldable pub append_canonical : KeyPath → Bytes → Bytes
append_canonical [] b = b
append_canonical (seg ∷ []) b =
    if bytes_eq seg []
    then b ++ open_bracket ∷ close_bracket ∷ []
    else append_segments 0 (seg ∷ []) b
append_canonical (seg ∷ next ∷ p) b = append_segments 0 (seg ∷ next ∷ p) b

-- The loop of topLevelDelims, on fuel: `i` is the index of the text that is left. The walk's
-- callback is the caller's recursion over the result.
unfoldable pub delims_from : ℕ → ℕ → Bytes → List ℕ
delims_from zero i s = []
delims_from (suc f) i [] = []
delims_from (suc f) i (c ∷ s) = elim (c == open_bracket) [
  | true ↦ elim (closing_bracket s) [
    | none ↦ delims_from f (suc i) s
    | some e ↦ delims_from f (i + suc (suc e)) (drop (suc e) s)
  ]
  | false ↦ elim (c == delim) [
    | true ↦ i ∷ delims_from f (suc i) s
    | false ↦ delims_from f (suc i) s
  ]
]

unfoldable pub top_level_delims : Bytes → List ℕ
top_level_delims s = delims_from (length s) 0 s

-- Path.Equal: the lengths, then each segment
unfoldable pub equal_from : KeyPath → KeyPath → Bool
equal_from [] q = true
equal_from (seg ∷ p) [] = false
equal_from (seg ∷ p) (seg' ∷ q) = if bytes_eq seg seg' then equal_from p q else false

unfoldable pub equal : KeyPath → KeyPath → Bool
equal p q = if length p == length q then equal_from p q else false

unfoldable pub has_prefix : KeyPath → KeyPath → Bool
has_prefix p prefix = if ltb (length p) (length prefix) then false else equal_from prefix p

-- Path.After; `none` is the nil slice
unfoldable pub after : KeyPath → KeyPath → Option KeyPath
after p prefix =
    if not (has_prefix p prefix)
    then none
    else if length prefix == 0
    then some p
    else some (drop (length prefix) p)

-- Path.Append; the result is a fresh slice
unfoldable pub append : KeyPath → KeyPath → KeyPath
append p seg = p ++ seg
