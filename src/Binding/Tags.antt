-- ===== src/Binding/Tags.antt =====
-- tags.go: ParseTag, the reading of a struct tag.
use recon.Prelude.{
  ℕ, zero, suc, Bool, true, false, ◌&&◌, ◌||◌, Option, none, some, List, [], ◌∷◌, ◌++◌, ltb, leb,
  ◌==◌, if◌then◌else◌, length, drop, Bytes, codes, bytes_eq,
}

-- strings.Cut at a separator of one byte: what is in front, what is behind, and whether there is a comma
unfoldable pub cut_at : ℕ → Bytes → Bytes × Option Bytes
cut_at sep [] = ([], none)
cut_at sep (c ∷ s) =
    let (name, rest) = cut_at sep s in if c == sep then ([], some s) else (c ∷ name, rest)

-- The white space of ASCII: tab to carriage return, and the blank.
unfoldable pub is_space : ℕ → Bool
is_space c = c == 32 || (leb 9 c && leb c 13)

-- The last bytes of the other white space that unicode.IsSpace knows, behind the bytes in front: U+0085
-- and U+00A0; U+1680; U+2000 to U+200A, U+2028, U+2029 and U+202F; U+205F; U+3000.
unfoldable pub is_wide_space : ℕ → ℕ → ℕ → Bool
is_wide_space c d e =
    (c == 225 && d == 154 && e == 128)
    || (c == 226 && d == 128 && (leb 128 e && leb e 138 || e == 168 || e == 169 || e == 175))
    || (c == 226 && d == 129 && e == 159)
    || (c == 227 && d == 128 && e == 128)

-- The number of bytes of a white space from 128 on, whose first byte is c; 0 for none.
unfoldable pub wide_width : ℕ → Bytes → ℕ
wide_width c [] = 0
wide_width c (d ∷ []) = if c == 194 && (d == 133 || d == 160) then 2 else 0
wide_width c (d ∷ e ∷ s) =
    if c == 194 && (d == 133 || d == 160) then 2 else if is_wide_space c d e then 3 else 0

-- The number of bytes of the white space that a text starts with; 0 for none.
unfoldable pub space_width : Bytes → ℕ
space_width [] = 0
space_width (c ∷ s) = if is_space c then 1 else if ltb c 128 then 0 else wide_width c s

-- Whether a text is white space alone; the fuel is its length.
unfoldable pub all_space : ℕ → Bytes → Bool
all_space f [] = true
all_space zero (c ∷ s) = false
all_space (suc f) (c ∷ s) = elim (space_width (c ∷ s)) [
  | zero ↦ false
  | suc w ↦ all_space f (drop w s)
]

-- strings.TrimLeftFunc with unicode.IsSpace; the fuel is the length of the text.
unfoldable pub trim_left : ℕ → Bytes → Bytes
trim_left f [] = []
trim_left zero (c ∷ s) = c ∷ s
trim_left (suc f) (c ∷ s) = elim (space_width (c ∷ s)) [
  | zero ↦ c ∷ s
  | suc w ↦ trim_left f (drop w s)
]

-- strings.TrimRightFunc: white space is recognised from its end as from its start.
unfoldable pub trim_right : Bytes → Bytes
trim_right [] = []
trim_right (c ∷ s) =
    let rest = trim_right s in if all_space (suc (length s)) (c ∷ s) then [] else c ∷ rest

-- strings.TrimSpace
unfoldable pub trim_space : Bytes → Bytes
trim_space s = let t = trim_right s in trim_left (length t) t

-- The struct FieldTag.
pub record FieldTag : Type 0 where
  pub name : Bytes
  pub skip : Bool
  pub path : Bytes
  pub source : Bytes
  pub format : Bytes
  pub aliases : List Bytes
  pub transform : Bytes
  pub inline : Bool
  pub omit_empty : Bool
  pub required : Bool
  pub not_empty : Bool
  pub has_default : Bool
  pub default_value : Bytes
  pub secret : Bool
  pub immutable : Bool
  pub expand : Bool
  pub from_file : Bool
  pub unset : Bool
  pub deprecated : Bool
  pub deprecation_message : Bytes
  pub validate : Bytes
  pub layout : Bytes
  pub base64 : Bool
  pub hex : Bool
  pub separator : Bytes
  pub kv_separator : Bytes

-- var ft FieldTag
abbrev pub no_tag : FieldTag
no_tag = record {
  name = [];
  skip = false;
  path = [];
  source = [];
  format = [];
  aliases = [];
  transform = [];
  inline = false;
  omit_empty = false;
  required = false;
  not_empty = false;
  has_default = false;
  default_value = [];
  secret = false;
  immutable = false;
  expand = false;
  from_file = false;
  unset = false;
  deprecated = false;
  deprecation_message = [];
  validate = [];
  layout = [];
  base64 = false;
  hex = false;
  separator = [];
  kv_separator = [];
}

-- The loop over the aliases, on fuel; a round takes at least a byte off.
unfoldable pub alias_parts : ℕ → Bytes → List Bytes
alias_parts zero s = []
alias_parts (suc f) s =
    let (raw, rest) = cut_at b';' s in
    let a = trim_space raw in
    let more : List Bytes = elim rest [ none ↦ [] | some t ↦ alias_parts f t ] in
    if bytes_eq a [] then more else a ∷ more

-- The options that need no value.
unfoldable pub flag_option : Bytes → Option Bytes → FieldTag → Option FieldTag
flag_option key value ft =
    if bytes_eq key (codes "required")
    then some (record ft { required = true })
    else if bytes_eq key (codes "notEmpty")
    then some (record ft { not_empty = true })
    else if bytes_eq key (codes "default")
    then some (record ft {
      has_default = true;
      default_value = elim value [ none ↦ ft.default_value | some v ↦ v ];
    })
    else if bytes_eq key (codes "secret")
    then some (record ft { secret = true })
    else if bytes_eq key (codes "immutable")
    then some (record ft { immutable = true })
    else if bytes_eq key (codes "expand")
    then some (record ft { expand = true })
    else if bytes_eq key (codes "fromFile")
    then some (record ft { from_file = true })
    else if bytes_eq key (codes "unset")
    then some (record ft { unset = true })
    else if bytes_eq key (codes "inline")
    then some (record ft { inline = true })
    else if bytes_eq key (codes "omitempty")
    then some (record ft { omit_empty = true })
    else if bytes_eq key (codes "base64")
    then some (record ft { base64 = true })
    else if bytes_eq key (codes "hex")
    then some (record ft { hex = true })
    else if bytes_eq key (codes "deprecated")
    then some (record ft {
      deprecated = true;
      deprecation_message = elim value [ none ↦ ft.deprecation_message | some v ↦ v ];
    })
    else none

-- The options with a value.
unfoldable pub value_option : Bytes → Bytes → FieldTag → FieldTag
unfolding alias_parts
value_option key value ft =
    if bytes_eq key (codes "path")
    then record ft { path = value }
    else if bytes_eq key (codes "source")
    then record ft { source = value }
    else if bytes_eq key (codes "format")
    then record ft { format = value }
    else if bytes_eq key (codes "transform")
    then record ft { transform = value }
    else if bytes_eq key (codes "layout")
    then record ft { layout = value }
    else if bytes_eq key (codes "validate")
    then record ft { validate = value }
    else if bytes_eq key (codes "separator")
    then record ft { separator = value }
    else if bytes_eq key (codes "kvSeparator")
    then record ft { kv_separator = value }
    else if bytes_eq key (codes "aliases")
    then record ft { aliases = ft.aliases ++ alias_parts (suc (length value)) value }
    else ft

unfoldable pub with_value : Bytes → Option Bytes → FieldTag → FieldTag
with_value key none ft = ft
with_value key (some value) ft = value_option key value ft

unfoldable pub trimmed : Option Bytes → Option Bytes
trimmed none = none
trimmed (some v) = some (trim_space v)

-- One round of the loop of ParseTag, for an option as it stands between the commas.
unfoldable pub apply_option : Bytes → FieldTag → FieldTag
unfolding flag_option with_value value_option trimmed
apply_option raw ft =
    let opt = trim_space raw in
    let (k, v) = cut_at b'=' opt in
    let key = trim_space k in
    let value = trimmed v in
    if bytes_eq opt []
    then ft
    else elim (flag_option key value ft) [ none ↦ with_value key value ft | some ft' ↦ ft' ]

-- The loop of ParseTag on fuel, for the text behind a comma.
unfoldable pub apply_options : ℕ → Option Bytes → FieldTag → FieldTag
apply_options f none ft = ft
apply_options zero (some s) ft = ft
apply_options (suc f) (some s) ft =
    let (raw, rest) = cut_at b',' s in apply_options f rest (apply_option raw ft)

-- ParseTag
unfoldable pub parse_tag : Bytes → FieldTag
parse_tag s =
    let (name, rest) = cut_at b',' s in
    let trimmed_name = trim_space name in
    if bytes_eq s []
    then no_tag
    else if bytes_eq s (codes "-")
    then record no_tag { skip = true }
    else if bytes_eq trimmed_name (codes "-")
    then record no_tag { name = trimmed_name; skip = true }
    else apply_options (suc (length s)) rest (record no_tag { name = trimmed_name })
