-- ===== src/Sources/Transforms.antt =====
-- transforms.go, and hasEnvPrefix of source_env.go: a path as a flat name, and the path of an
-- environment variable's name. strings.ToUpper, strings.ToLower and strings.EqualFold act on the
-- ASCII letters here; the bytes of other characters are kept.
use recon.Prelude.{
  ℕ, ◌+◌, ◌-◌, Bool, true, false, ◌&&◌, ◌||◌, Option, none, some, [], ◌∷◌, ◌++◌, ltb, leb, ◌==◌,
  if◌then◌else◌, length, take, drop, Bytes, bytes_eq, starts_with,
}
use recon.KeyPath.{KeyPath}

unfoldable pub upper_byte : ℕ → ℕ
upper_byte c = if ltb c b'a' || ltb b'z' c then c else c - 32

unfoldable pub lower_byte : ℕ → ℕ
lower_byte c = if ltb c b'A' || ltb b'Z' c then c else c + 32

-- strings.ToUpper and strings.ToLower on ASCII texts; of other texts they map the letters of Unicode
-- too, which the model leaves as they are.
unfoldable pub to_upper : Bytes → Bytes
to_upper [] = []
to_upper (c ∷ s) = upper_byte c ∷ to_upper s

unfoldable pub to_lower : Bytes → Bytes
to_lower [] = []
to_lower (c ∷ s) = lower_byte c ∷ to_lower s

-- strings.Join(p, sep), for a separator of one byte
unfoldable pub join_from : ℕ → Bytes → KeyPath → Bytes
join_from sep seg [] = seg
join_from sep seg (next ∷ p) = seg ++ sep ∷ join_from sep next p

unfoldable pub join : ℕ → KeyPath → Bytes
join sep [] = []
join sep (seg ∷ p) = join_from sep seg p

-- strings.Split(s, sep), for a separator of one byte, with the part that is being read
unfoldable pub split_on : ℕ → Bytes → Bytes → KeyPath
split_on sep [] part = part ∷ []
split_on sep (c ∷ s) part = elim (c == sep) [
  | true ↦ part ∷ split_on sep s []
  | false ↦ split_on sep s (part ++ c ∷ [])
]

abbrev pub underscore : ℕ
underscore = b'_'

abbrev pub KeyTransform : Type 0
KeyTransform = KeyPath → Bytes

unfoldable pub snake_upper_transform : KeyTransform
snake_upper_transform p = to_upper (join underscore p)

unfoldable pub snake_upper_prefix_transform : Bytes → KeyTransform
snake_upper_prefix_transform [] p = snake_upper_transform p
snake_upper_prefix_transform (c ∷ prefix) [] = c ∷ prefix
snake_upper_prefix_transform (c ∷ prefix) (seg ∷ p) =
    (c ∷ prefix) ++ to_upper (join underscore (seg ∷ p))

unfoldable pub kebab_transform : KeyTransform
kebab_transform p = join b'-' p

-- DotTransform and IdentityTransform
unfoldable pub dot_transform : KeyTransform
dot_transform p = join b'.' p

-- hasEnvPrefix; the first argument is envNamesFoldCase, under which strings.EqualFold is that of ASCII
unfoldable pub has_env_prefix : Bool → Bytes → Bytes → Bool
has_env_prefix true name prefix =
    leb (length prefix) (length name)
    && bytes_eq (to_lower (take (length prefix) name)) (to_lower prefix)
has_env_prefix false name prefix = starts_with name prefix

unfoldable pub lower_segments : KeyPath → KeyPath
lower_segments [] = []
lower_segments (seg ∷ p) = to_lower seg ∷ lower_segments p

unfoldable pub split_name : Bytes → KeyPath
split_name [] = []
split_name (c ∷ name) = lower_segments (split_on underscore (c ∷ name) [])

-- parseSnakeUpper; `none` is the nil path
unfoldable pub parse_snake_upper : Bool → Bytes → Bytes → Option KeyPath
unfolding split_name
parse_snake_upper fold name [] = some (split_name name)
parse_snake_upper fold name (c ∷ prefix) =
    if has_env_prefix fold name (c ∷ prefix)
    then some (split_name (drop (length (c ∷ prefix)) name))
    else none
