-- ===== src/Codecs/Table.antt =====
-- codec.go and format.go: the operations of the table.
use recon.Prelude.{
  ℕ, suc, Bool, true, ◌&&◌, ◌||◌, Option, none, some, List, [], ◌∷◌, ltb, if◌then◌else◌, Bytes,
  codes, bytes_eq, Map, lookup, put, remove,
}
use recon.Alias.{member}
use recon.Sources.Transforms.{to_lower}

-- The interface Codec, without Decode and Encode.
pub record Codec : Type 0 where
  pub name : Bytes
  pub extensions : List Bytes

-- The struct Codecs without its lock.
pub record Codecs : Type 0 where
  pub by_name : Map Codec
  pub order : Map ℕ
  pub next : ℕ

-- Register; `none` is the nil codec
unfoldable pub register : Option Codec → Codecs → Codecs
register none t = t
register (some c) t = record {
  by_name = put c.name c t.by_name;
  order = put c.name (suc t.next) t.order;
  next = suc t.next;
}

register_all : List (Option Codec) → Codecs → Codecs
register_all [] t = t
register_all (c ∷ codecs) t = register_all codecs (register c t)

-- NewCodecs
unfoldable pub new_codecs : List (Option Codec) → Codecs
unfolding register_all
new_codecs initial = register_all initial (record { by_name = []; order = []; next = 0 })

unfoldable pub unregister : Bytes → Codecs → Codecs
unregister name t = record t { by_name = remove name t.by_name; order = remove name t.order }

-- ByName
unfoldable pub codec_by_name : Bytes → Codecs → Option Codec
codec_by_name name t = lookup name t.by_name

abbrev pub format_yaml : Bytes
format_yaml = codes "yaml"

abbrev pub format_toml : Bytes
format_toml = codes "toml"

abbrev pub format_json : Bytes
format_json = codes "json"

abbrev pub format_jsonc : Bytes
format_jsonc = codes "jsonc"

abbrev pub format_dotenv : Bytes
format_dotenv = codes "dotenv"

-- extToFormat
unfoldable pub ext_to_format : Bytes → Option Bytes
ext_to_format ext =
    if bytes_eq ext (codes ".yaml") || bytes_eq ext (codes ".yml")
    then some format_yaml
    else if bytes_eq ext (codes ".toml")
    then some format_toml
    else if bytes_eq ext (codes ".json")
    then some format_json
    else if bytes_eq ext (codes ".jsonc") || bytes_eq ext (codes ".json5")
    then some format_jsonc
    else if bytes_eq ext (codes ".env")
    then some format_dotenv
    else none

-- c.order[name]: zero for a missing name
order_or_zero : Option ℕ → ℕ
order_or_zero none = 0
order_or_zero (some n) = n

unfoldable pub order_of : Bytes → Map ℕ → ℕ
unfolding order_or_zero
order_of name order = order_or_zero (lookup name order)

-- slices.Contains(codec.Extensions(), ext)
unfoldable pub claims : Bytes → Codec → Bool
claims ext c = member ext c.extensions

-- best == nil || c.order[name] > bestOrder
unfoldable pub is_newer : ℕ → Option (Codec × ℕ) → Bool
is_newer n none = true
is_newer n (some (c, best)) = ltb best n

-- The loop of ByExtension, with best and bestOrder.
unfoldable pub best_claimant : Bytes → Map ℕ → Map Codec → Option (Codec × ℕ) → Option (Codec × ℕ)
best_claimant ext order [] best = best
best_claimant ext order ((name, codec) ∷ by_name) best = best_claimant ext order by_name (
    if claims ext codec && is_newer (order_of name order) best
    then some (codec, order_of name order)
    else best)

named_format : Map Codec → Option Bytes → Option Codec
named_format by_name none = none
named_format by_name (some name) = lookup name by_name

unfoldable pub best_or_named : Option (Codec × ℕ) → Option Codec → Option Codec
best_or_named none named = named
best_or_named (some (c, n)) named = some c

-- ByExtension
unfoldable pub codec_by_extension : Bytes → Codecs → Option Codec
unfolding named_format
codec_by_extension extension t =
    let ext = to_lower extension in
    best_or_named (best_claimant ext t.order t.by_name none)
      (named_format t.by_name (ext_to_format ext))

unfoldable pub codec_names : Map Codec → List Bytes
codec_names [] = []
codec_names ((name, c) ∷ by_name) = name ∷ codec_names by_name

-- lookupCodec; `none` for the nil table, and in the result for ErrUnsupportedFormat
unfoldable pub lookup_codec : Option Codecs → Bytes → Option Codec
lookup_codec none format = none
lookup_codec (some t) format = codec_by_name format t
