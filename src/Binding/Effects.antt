-- ===== src/Binding/Effects.antt =====
-- tags.go: ParseTag has the effect of each option of a tag.
use recon.Prelude.{
  ℕ, suc, ◌≡◌, refl, ap, ◌∙◌, true, false, none, List, [], ◌∷◌, ◌++◌, map, arith, ◌==◌, length, All,
  Bytes, codes, bytes_eq,
}
use recon.KeyPath.{contains}
use recon.Binding.Tags.{
  FieldTag, no_tag, cut_at, trim_space, trim_left, trim_right, is_space, space_width, all_space,
  flag_option, value_option, with_value, trimmed, alias_parts, apply_option, parse_tag,
}
use recon.Binding.Options.{behind, apply_all, HasNoComma, parse_tag-options}

-- An option of a tag, as the documentation of FieldTag lists them.
pub data TagOption : Type 0 where
  is_required is_not_empty marks_default is_secret is_immutable is_expanded is_from_file : TagOption
  is_unset is_inline is_omitted_empty is_base64 is_hex is_deprecated : TagOption
  default_to deprecated_with with_path with_source with_format : Bytes → TagOption
  with_transform with_layout with_validate with_separator with_kv_separator : Bytes → TagOption
  with_alias : Bytes → TagOption

-- The option as it is written in a tag.
unfoldable pub option_text : TagOption → Bytes
option_text is_required = codes "required"
option_text is_not_empty = codes "notEmpty"
option_text marks_default = codes "default"
option_text is_secret = codes "secret"
option_text is_immutable = codes "immutable"
option_text is_expanded = codes "expand"
option_text is_from_file = codes "fromFile"
option_text is_unset = codes "unset"
option_text is_inline = codes "inline"
option_text is_omitted_empty = codes "omitempty"
option_text is_base64 = codes "base64"
option_text is_hex = codes "hex"
option_text is_deprecated = codes "deprecated"
option_text (default_to v) = codes "default=" ++ v
option_text (deprecated_with v) = codes "deprecated=" ++ v
option_text (with_path v) = codes "path=" ++ v
option_text (with_source v) = codes "source=" ++ v
option_text (with_format v) = codes "format=" ++ v
option_text (with_transform v) = codes "transform=" ++ v
option_text (with_layout v) = codes "layout=" ++ v
option_text (with_validate v) = codes "validate=" ++ v
option_text (with_separator v) = codes "separator=" ++ v
option_text (with_kv_separator v) = codes "kvSeparator=" ++ v
option_text (with_alias v) = codes "aliases=" ++ v

-- What the option means: the field that it sets.
unfoldable pub effect : TagOption → FieldTag → FieldTag
effect is_required ft = record ft { required = true }
effect is_not_empty ft = record ft { not_empty = true }
effect marks_default ft = record ft { has_default = true }
effect is_secret ft = record ft { secret = true }
effect is_immutable ft = record ft { immutable = true }
effect is_expanded ft = record ft { expand = true }
effect is_from_file ft = record ft { from_file = true }
effect is_unset ft = record ft { unset = true }
effect is_inline ft = record ft { inline = true }
effect is_omitted_empty ft = record ft { omit_empty = true }
effect is_base64 ft = record ft { base64 = true }
effect is_hex ft = record ft { hex = true }
effect is_deprecated ft = record ft { deprecated = true }
effect (default_to v) ft = record ft { has_default = true; default_value = v }
effect (deprecated_with v) ft = record ft { deprecated = true; deprecation_message = v }
effect (with_path v) ft = record ft { path = v }
effect (with_source v) ft = record ft { source = v }
effect (with_format v) ft = record ft { format = v }
effect (with_transform v) ft = record ft { transform = v }
effect (with_layout v) ft = record ft { layout = v }
effect (with_validate v) ft = record ft { validate = v }
effect (with_separator v) ft = record ft { separator = v }
effect (with_kv_separator v) ft = record ft { kv_separator = v }
effect (with_alias v) ft = record ft { aliases = ft.aliases ++ v ∷ [] }

unfoldable pub effects : List TagOption → FieldTag → FieldTag
effects [] ft = ft
effects (o ∷ os) ft = effects os (effect o ft)

-- A text without a comma, and without white space at its ends.
abbrev pub IsValueText : Bytes → Type 0
IsValueText v = HasNoComma v × ((trim_right v ≡ v) × (trim_space v ≡ v))

-- The value of an option can be written in a tag; an alias is not empty and has no semicolon.
abbrev pub IsWritable : TagOption → Type 0
IsWritable (default_to v) = IsValueText v
IsWritable (deprecated_with v) = IsValueText v
IsWritable (with_path v) = IsValueText v
IsWritable (with_source v) = IsValueText v
IsWritable (with_format v) = IsValueText v
IsWritable (with_transform v) = IsValueText v
IsWritable (with_layout v) = IsValueText v
IsWritable (with_validate v) = IsValueText v
IsWritable (with_separator v) = IsValueText v
IsWritable (with_kv_separator v) = IsValueText v
IsWritable (with_alias v) = IsValueText v × ((contains b';' v ≡ false) × (bytes_eq v [] ≡ false))
IsWritable o = Unit

option_text-HasNoComma : (o : TagOption) → IsWritable o → HasNoComma (option_text o)
unfolding option_text contains
option_text-HasNoComma (default_to v) h = h.0
option_text-HasNoComma (deprecated_with v) h = h.0
option_text-HasNoComma (with_path v) h = h.0
option_text-HasNoComma (with_source v) h = h.0
option_text-HasNoComma (with_format v) h = h.0
option_text-HasNoComma (with_transform v) h = h.0
option_text-HasNoComma (with_layout v) h = h.0
option_text-HasNoComma (with_validate v) h = h.0
option_text-HasNoComma (with_separator v) h = h.0
option_text-HasNoComma (with_kv_separator v) h = h.0
option_text-HasNoComma (with_alias v) h = h.0.0
option_text-HasNoComma is_required h = refl
option_text-HasNoComma is_not_empty h = refl
option_text-HasNoComma marks_default h = refl
option_text-HasNoComma is_secret h = refl
option_text-HasNoComma is_immutable h = refl
option_text-HasNoComma is_expanded h = refl
option_text-HasNoComma is_from_file h = refl
option_text-HasNoComma is_unset h = refl
option_text-HasNoComma is_inline h = refl
option_text-HasNoComma is_omitted_empty h = refl
option_text-HasNoComma is_base64 h = refl
option_text-HasNoComma is_hex h = refl
option_text-HasNoComma is_deprecated h = refl

-- The value that ParseTag takes from behind the equals sign.
value_text : (v : Bytes) → IsValueText v → trim_space (trim_right v) ≡ v
value_text v h = ap trim_space h.1.0 ∙ h.1.1

cut_at-none : (sep : ℕ) (v : Bytes) → contains sep v ≡ false → cut_at sep v ≡ (v, none)
unfolding cut_at contains
cut_at-none sep [] h = refl
cut_at-none sep (c ∷ v) h =
    let here : (c == sep) ≡ false = ground (arith, h) in
    rw here (rw (cut_at-none sep v (ground (arith, h, here))) refl)

alias_parts-one :
    (f : ℕ) (v : Bytes)
    → contains b';' v ≡ false
    → trim_space v ≡ v
    → bytes_eq v [] ≡ false
    → alias_parts (suc f) v ≡ v ∷ []
unfolding alias_parts
alias_parts-one f v h e n = rw (cut_at-none b';' v h) (rw e (rw n refl))

apply_option-effect :
    (o : TagOption) (ft : FieldTag) → IsWritable o → apply_option (option_text o) ft ≡ effect o ft
unfolding apply_option flag_option value_option with_value trimmed option_text effect cut_at
    trim_space trim_left trim_right is_space space_width all_space bytes_eq
apply_option-effect is_required ft h = refl
apply_option-effect is_not_empty ft h = refl
apply_option-effect marks_default ft h = refl
apply_option-effect is_secret ft h = refl
apply_option-effect is_immutable ft h = refl
apply_option-effect is_expanded ft h = refl
apply_option-effect is_from_file ft h = refl
apply_option-effect is_unset ft h = refl
apply_option-effect is_inline ft h = refl
apply_option-effect is_omitted_empty ft h = refl
apply_option-effect is_base64 ft h = refl
apply_option-effect is_hex ft h = refl
apply_option-effect is_deprecated ft h = refl
apply_option-effect (default_to v) ft h =
    ap (λ x. record ft { has_default = true; default_value = x }) (value_text v h)
apply_option-effect (deprecated_with v) ft h =
    ap (λ x. record ft { deprecated = true; deprecation_message = x }) (value_text v h)
apply_option-effect (with_path v) ft h = ap (λ x. record ft { path = x }) (value_text v h)
apply_option-effect (with_source v) ft h = ap (λ x. record ft { source = x }) (value_text v h)
apply_option-effect (with_format v) ft h = ap (λ x. record ft { format = x }) (value_text v h)
apply_option-effect (with_transform v) ft h = ap (λ x. record ft { transform = x }) (value_text v h)
apply_option-effect (with_layout v) ft h = ap (λ x. record ft { layout = x }) (value_text v h)
apply_option-effect (with_validate v) ft h = ap (λ x. record ft { validate = x }) (value_text v h)
apply_option-effect (with_separator v) ft h = ap (λ x. record ft { separator = x }) (value_text v h)
apply_option-effect (with_kv_separator v) ft h =
    ap (λ x. record ft { kv_separator = x }) (value_text v h)
apply_option-effect (with_alias v) ft (h, (c, n)) =
    ap (λ x. record ft { aliases = ft.aliases ++ alias_parts (suc (length x)) x }) (value_text v h)
    ∙ ap (λ l. record ft { aliases = ft.aliases ++ l }) (alias_parts-one (length v) v c h.1.1 n)

apply_all-effects :
    (os : List TagOption) (ft : FieldTag)
    → All IsWritable os
    → apply_all (map option_text os) ft ≡ effects os ft
unfolding apply_all effects
apply_all-effects [] ft h = refl
apply_all-effects (o ∷ os) ft (h, hs) =
    ap (apply_all (map option_text os)) (apply_option-effect o ft h)
    ∙ apply_all-effects os (effect o ft) hs

texts-HaveNoComma : (os : List TagOption) → All IsWritable os → All HasNoComma (map option_text os)
texts-HaveNoComma [] h = tt
texts-HaveNoComma (o ∷ os) (h, hs) = (option_text-HasNoComma o h, texts-HaveNoComma os hs)

-- A tag that is written as a name and options is read as a tag with that name, without the white space
-- around it, and with the fields that the options set, in their order. The name has no comma and is not
-- a dash; the values of the options have no commas and no white space at their ends, and an alias is
-- not empty and has no semicolon.
pub parse_tag-effects :
    (name : Bytes) (os : List TagOption)
    → HasNoComma name
    → bytes_eq (trim_space name) (codes "-") ≡ false
    → All IsWritable os
    → parse_tag (name ++ behind (map option_text os))
      ≡ effects os (record no_tag { name = trim_space name })
parse_tag-effects name os h d w =
    parse_tag-options name (map option_text os) h (texts-HaveNoComma os w) d
    ∙ apply_all-effects os (record no_tag { name = trim_space name }) w
