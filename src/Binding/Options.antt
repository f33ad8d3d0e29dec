-- ===== src/Binding/Options.antt =====
-- tags.go: ParseTag reads a tag as its name and its options.
use recon.Prelude.{
  ℕ, zero, suc, ◌≤◌, ◌≡◌, inl, inr, refl, sym, ap, ◌∙◌, true, false, Option, none, some, List, [],
  ◌∷◌, ◌++◌, arith, ◌==◌, Bool-cases, length, length-append, All, Bytes, codes, bytes_eq,
  bytes_eq_iff,
}
use recon.KeyPath.{contains}
use recon.Binding.Tags.{
  trim_right, trim_left, FieldTag, no_tag, cut_at, trim_space, trim_left, trim_right, is_space,
  space_width, all_space, apply_option, apply_options, parse_tag,
}

-- The options of a tag, each behind a comma.
unfoldable pub behind : List Bytes → Bytes
behind [] = []
behind (o ∷ os) = b',' ∷ o ++ behind os

-- The effect of the options on a tag, from the first to the last.
unfoldable pub apply_all : List Bytes → FieldTag → FieldTag
apply_all [] ft = ft
apply_all (o ∷ os) ft = apply_all os (apply_option o ft)

-- A text that a comma does not divide.
abbrev pub HasNoComma : Bytes → Type 0
HasNoComma s = contains b',' s ≡ false

-- What strings.Cut finds behind the first text.
unfoldable rest_of : List Bytes → Option Bytes
rest_of [] = none
rest_of (o ∷ os) = some (o ++ behind os)

cut_at-behind :
    (s : Bytes) (os : List Bytes) → HasNoComma s → cut_at b',' (s ++ behind os) ≡ (s, rest_of os)
unfolding cut_at contains behind rest_of
cut_at-behind [] [] h = refl
cut_at-behind [] (o ∷ os) h = refl
cut_at-behind (c ∷ s) os h =
    let here : (c == b',') ≡ false = ground (arith, h) in
    rw here (rw (cut_at-behind s os (ground (arith, h, here))) refl)

apply_options-apply_all :
    (f : ℕ) (os : List Bytes) (ft : FieldTag)
    → All HasNoComma os
    → length (behind os) ≤ f
    → apply_options f (rest_of os) ft ≡ apply_all os ft
unfolding apply_options rest_of apply_all behind
apply_options-apply_all f [] ft h l = refl
apply_options-apply_all zero (o ∷ os) ft h l = absurd (omega (arith, l))
apply_options-apply_all (suc f) (o ∷ os) ft (h, hs) l =
    ap (λ p. apply_options f p.1 (apply_option p.0 ft)) (cut_at-behind o os h)
    ∙ apply_options-apply_all f os (apply_option o ft) hs
        (omega (arith, l, length-append o (behind os)))

dash : bytes_eq (trim_space (codes "-")) (codes "-") ≡ true
unfolding bytes_eq trim_space trim_left trim_right is_space space_width all_space
dash = refl

is_not_dash :
    (s name : Bytes) (rest : Option Bytes)
    → cut_at b',' s ≡ (name, rest)
    → bytes_eq (trim_space name) (codes "-") ≡ false
    → bytes_eq s (codes "-") ≡ false
is_not_dash s name rest h hd = elim (Bool-cases (bytes_eq s (codes "-"))) [
  | inl e ↦
      let is_dash : s ≡ codes "-" = (bytes_eq_iff s (codes "-")).0 e in
      let same : codes "-" ≡ name =
        (unfold cut_at in ap (λ p. p.0) (sym (ap (cut_at b',') is_dash) ∙ h)) in
      let found : bytes_eq (trim_space name) (codes "-") ≡ true =
        ap (λ n. bytes_eq (trim_space n) (codes "-")) (sym same) ∙ dash in
      absurd (ground (arith, hd, found))
  | inr e ↦ e
]

parse_tag-cut :
    (s name : Bytes) (rest : Option Bytes)
    → cut_at b',' s ≡ (name, rest)
    → bytes_eq (trim_space name) (codes "-") ≡ false
    → bytes_eq s [] ≡ false
    → parse_tag s ≡ apply_options (suc (length s)) rest (record no_tag { name = trim_space name })
unfolding parse_tag
parse_tag-cut s name rest h hd he = rw he (rw (is_not_dash s name rest h hd) (rw h (rw hd refl)))

parse_tag-empty :
    (name : Bytes) (os : List Bytes)
    → bytes_eq (name ++ behind os) [] ≡ true
    → parse_tag (name ++ behind os) ≡ apply_all os (record no_tag { name = trim_space name })
unfolding parse_tag apply_all behind trim_space trim_left trim_right bytes_eq
parse_tag-empty [] [] h = refl
parse_tag-empty [] (o ∷ os) h = absurd (ground (arith, h))
parse_tag-empty (c ∷ name) os h = absurd (ground (arith, h))

-- A tag of a name and of options that have no commas, whose name is not a dash, is read as a tag with
-- that name without its white space, on which each option has had its effect, in their order.
pub parse_tag-options :
    (name : Bytes) (os : List Bytes)
    → HasNoComma name
    → All HasNoComma os
    → bytes_eq (trim_space name) (codes "-") ≡ false
    → parse_tag (name ++ behind os) ≡ apply_all os (record no_tag { name = trim_space name })
unfolding parse_tag
parse_tag-options name os hn hs hd = elim (Bool-cases (bytes_eq (name ++ behind os) [])) [
  | inl e ↦ parse_tag-empty name os e
  | inr e ↦
      parse_tag-cut (name ++ behind os) name (rest_of os) (cut_at-behind name os hn) hd e
      ∙ apply_options-apply_all (suc (length (name ++ behind os))) os _ hs
          (omega (arith, length-append name (behind os)))
]
