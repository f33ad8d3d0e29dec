-- ===== src/Sources/RoundTrip.antt =====
-- transforms.go and source_env.go: the name of an environment variable and its path.
use recon.Prelude.{
  length-append, bytes_eq_refl, take-append, drop-append, Bool, ℕ, ◌<◌, ◌≡◌, ◌≢◌, ◌⊎◌, refl, sym,
  ap, ap₂, ◌∙◌, true, false, some, [], ◌∷◌, ◌++◌, append_assoc, append-nil, arith, ◌==◌, All, Bytes,
  starts_with,
}
use recon.KeyPath.{KeyPath}
use recon.Sources.Transforms.{
  snake_upper_prefix_transform, has_env_prefix, upper_byte, lower_byte, to_upper, to_lower, join,
  join_from, split_on, underscore, snake_upper_transform, lower_segments, parse_snake_upper,
  split_name,
}

-- A segment that survives the way to a variable's name and back: ASCII, no underscore, and no upper-case
-- letter.
abbrev pub IsPlainByte : ℕ → Type 0
IsPlainByte c = (c ≢ underscore) × (((c < b'A') ⊎ (b'Z' < c)) × (c < 128))

abbrev pub IsPlainSegment : Bytes → Type 0
IsPlainSegment seg = All IsPlainByte seg

lower_upper : (c : ℕ) → IsPlainByte c → lower_byte (upper_byte c) ≡ c
unfolding lower_byte upper_byte
lower_upper c h = ground arith

upper_underscore : (c : ℕ) → IsPlainByte c → (upper_byte c == underscore) ≡ false
unfolding upper_byte
upper_underscore c h = ground arith

to_lower-to_upper : (s : Bytes) → IsPlainSegment s → to_lower (to_upper s) ≡ s
unfolding to_lower to_upper
to_lower-to_upper [] h = refl
to_lower-to_upper (c ∷ s) (h, hs) = ap₂ (λ a b. a ∷ b) (lower_upper c h) (to_lower-to_upper s hs)

to_upper-append : (s t : Bytes) → to_upper (s ++ t) ≡ to_upper s ++ to_upper t
unfolding to_upper
to_upper-append [] t = refl
to_upper-append (c ∷ s) t = ap (λ r. upper_byte c ∷ r) (to_upper-append s t)

split_step :
    (c : ℕ) (s part : Bytes)
    → (c == underscore) ≡ false
    → split_on underscore (c ∷ s) part ≡ split_on underscore s (part ++ c ∷ [])
unfolding split_on
split_step c s part h = ground (arith, h)

-- A segment in upper case is read into the part.
split_segment :
    (seg rest part : Bytes)
    → IsPlainSegment seg
    → split_on underscore (to_upper seg ++ rest) part
      ≡ split_on underscore rest (part ++ to_upper seg)
unfolding to_upper
split_segment [] rest part h = ap (split_on underscore rest) (sym (append-nil part))
split_segment (c ∷ seg) rest part (h, hs) =
    split_step (upper_byte c) (to_upper seg ++ rest) part (upper_underscore c h)
    ∙ split_segment seg rest (part ++ upper_byte c ∷ []) hs
    ∙ ap (split_on underscore rest) (append_assoc part (upper_byte c ∷ []) (to_upper seg))

split_separator :
    (t part : Bytes)
    → split_on underscore (to_upper (underscore ∷ t)) part
      ≡ part ∷ split_on underscore (to_upper t) []
unfolding split_on to_upper upper_byte
split_separator t part = refl

abbrev pub upper_segments : KeyPath → KeyPath
upper_segments [] = []
upper_segments (seg ∷ p) = to_upper seg ∷ upper_segments p

split-join :
    (seg : Bytes) (p : KeyPath)
    → All IsPlainSegment (seg ∷ p)
    → split_on underscore (to_upper (join_from underscore seg p)) [] ≡ upper_segments (seg ∷ p)
unfolding join_from
split-join seg [] (h, hs) =
    ap (λ t. split_on underscore t []) (sym (append-nil (to_upper seg)))
    ∙ split_segment seg [] [] h
    ∙ unfold split_on in refl
split-join seg (next ∷ p) (h, hs) =
    ap (λ t. split_on underscore t [])
      (to_upper-append seg (underscore ∷ join_from underscore next p))
    ∙ split_segment seg (to_upper (underscore ∷ join_from underscore next p)) [] h
    ∙ split_separator (join_from underscore next p) (to_upper seg)
    ∙ ap (λ r. to_upper seg ∷ r) (split-join next p hs)

lower-upper_segments : (p : KeyPath) → All IsPlainSegment p → lower_segments (upper_segments p) ≡ p
unfolding lower_segments
lower-upper_segments [] h = refl
lower-upper_segments (seg ∷ p) (h, hs) =
    ap₂ (λ a b. a ∷ b) (to_lower-to_upper seg h) (lower-upper_segments p hs)

pub name-ne-nil : (p : KeyPath) → p ≢ [] → p ≢ [] ∷ [] → to_upper (join underscore p) ≢ []
unfolding to_upper join join_from
name-ne-nil [] h k = absurd (h refl)
name-ne-nil ([] ∷ []) h k = absurd (k refl)
name-ne-nil ([] ∷ next ∷ p) h k = ground arith
name-ne-nil ((c ∷ seg) ∷ []) h k = ground arith
name-ne-nil ((c ∷ seg) ∷ next ∷ p) h k = ground arith

split_text :
    (name : Bytes)
    → name ≢ []
    → parse_snake_upper false name [] ≡ some (lower_segments (split_on underscore name []))
unfolding parse_snake_upper
split_text [] h = absurd (h refl)
split_text (c ∷ name) h = refl

read_name :
    (p : KeyPath)
    → All IsPlainSegment p
    → p ≢ [] ∷ []
    → parse_snake_upper false (snake_upper_transform p) [] ≡ some p
unfolding snake_upper_transform
read_name [] h k = unfold parse_snake_upper to_upper join in refl
read_name (seg ∷ p) h k =
    split_text (to_upper (join underscore (seg ∷ p))) (name-ne-nil (seg ∷ p) (cc) k)
    ∙ unfold join in
      ap some (ap lower_segments (split-join seg p h) ∙ lower-upper_segments (seg ∷ p) h)

starts_with-append : (a b : Bytes) → starts_with (a ++ b) a ≡ true
unfolding starts_with
starts_with-append [] b = refl
starts_with-append (c ∷ a) b = ground (arith, starts_with-append a b)

pub has_env_prefix-append : (fold : Bool) (a b : Bytes) → has_env_prefix fold (a ++ b) a ≡ true
unfolding has_env_prefix
has_env_prefix-append true a b =
    rw (take-append a b, bytes_eq_refl (to_lower a)) (ground (arith, length-append a b))
has_env_prefix-append false a b = starts_with-append a b

unprefix :
    (fold : Bool) (prefix name : Bytes)
    → parse_snake_upper fold (prefix ++ name) prefix ≡ some (split_name name)
unfolding parse_snake_upper
unprefix fold [] name = refl
unprefix fold (c ∷ prefix) name =
    rw (has_env_prefix-append fold (c ∷ prefix) name, drop-append prefix name) refl

pub prefixed :
    (prefix : Bytes) (p : KeyPath)
    → snake_upper_prefix_transform prefix p ≡ prefix ++ snake_upper_transform p
unfolding snake_upper_prefix_transform snake_upper_transform
prefixed [] p = refl
prefixed (c ∷ prefix) [] = unfold join to_upper in sym (append-nil (c ∷ prefix))
prefixed (c ∷ prefix) (seg ∷ p) = refl

-- The path of the variable that stands for a path is that path, if its segments are ASCII, have no
-- underscore and no upper-case letter, and it is not the path of one empty segment.
pub parse_snake_upper-snake_upper_prefix_transform :
    (fold : Bool) (prefix : Bytes) (p : KeyPath)
    → All IsPlainSegment p
    → p ≢ [] ∷ []
    → parse_snake_upper fold (snake_upper_prefix_transform prefix p) prefix ≡ some p
unfolding split_name
parse_snake_upper-snake_upper_prefix_transform fold prefix p h k =
    ap (λ name. parse_snake_upper fold name prefix) (prefixed prefix p)
    ∙ unprefix fold prefix (snake_upper_transform p)
    ∙ sym (unprefix false [] (snake_upper_transform p))
    ∙ read_name p h k
