-- ===== src/KeyPath/Canonical.antt =====
-- AppendCanonical writes what Path.String returns.
use recon.Prelude.{
  if◌then◌else◌, false, ℕ, zero, suc, ◌≡◌, refl, ap, ◌∙◌, sym, Bool-cases, inl, inr, [], ◌∷◌, ◌++◌,
  arith, Bytes, ◌==◌, ==_iff, append_assoc, append-nil,
}
use recon.KeyPath.{
  KeyPath, open_bracket, close_bracket, needs_brackets, double_brackets, separated, append_escaped,
  append_segments, append_canonical, write_segments, to_string,
}

append_escaped_lem : (seg b : Bytes) → append_escaped seg b ≡ b ++ double_brackets seg
unfolding append_escaped double_brackets
append_escaped_lem [] b = sym (append-nil b)
append_escaped_lem (c ∷ seg) b = elim (Bool-cases (c == close_bracket)) [
  | inl e ↦ rw e (
      append_escaped_lem seg ((b ++ close_bracket ∷ []) ++ c ∷ [])
      ∙ simp append_assoc
          (ap (λ d. b ++ close_bracket ∷ d ∷ double_brackets seg) ((==_iff c close_bracket).0 e)))
  | inr e ↦
      rw e (append_escaped_lem seg (b ++ c ∷ []) ∙ append_assoc b (c ∷ []) (double_brackets seg))
]

separated-append : (i : ℕ) (b b' : Bytes) → separated i (b ++ b') ≡ b ++ separated i b'
unfolding separated
separated-append zero b b' = refl
separated-append (suc i) b b' = append_assoc b b' _

-- One round of each loop, in the same form.
abbrev written : Bytes → Bytes
written seg =
    if needs_brackets seg then open_bracket ∷ (double_brackets seg ++ close_bracket ∷ []) else seg

append_step :
    (i : ℕ) (seg : Bytes) (p : KeyPath) (b : Bytes)
    → append_segments i (seg ∷ p) b ≡ append_segments (suc i) p (separated i b ++ written seg)
unfolding append_segments
append_step i seg p b = elim (Bool-cases (needs_brackets seg)) [
  | inl e ↦ rw e (rw append_escaped_lem (simp append_assoc))
  | inr e ↦ rw e refl
]

write_step :
    (i : ℕ) (seg : Bytes) (p : KeyPath) (b : Bytes)
    → write_segments i (seg ∷ p) b ≡ write_segments (suc i) p (separated i b ++ written seg)
unfolding write_segments
write_step i seg p b = elim (Bool-cases (needs_brackets seg)) [
  | inl e ↦ rw e refl
  | inr e ↦ rw e refl
]

append_segments_lem :
    (i : ℕ) (p : KeyPath) (b b' : Bytes)
    → append_segments i p (b ++ b') ≡ b ++ write_segments i p b'
append_segments_lem i [] b b' = unfold append_segments write_segments in refl
append_segments_lem i (seg ∷ p) b b' =
    append_step i seg p (b ++ b')
    ∙ ap (append_segments (suc i) p) (
        ap (λ t. t ++ written seg) (separated-append i b b')
        ∙ append_assoc b (separated i b') (written seg))
    ∙ append_segments_lem (suc i) p b (separated i b' ++ written seg)
    ∙ ap (λ t. b ++ t) (sym (write_step i seg p b'))

single_segment : (seg : Bytes) → needs_brackets seg ≡ false → write_segments 0 (seg ∷ []) [] ≡ seg
unfolding write_segments separated
single_segment seg e = rw e refl

-- The text is the canonical one, behind what the buffer held.
pub append_canonical_lem : (p : KeyPath) (b : Bytes) → append_canonical p b ≡ b ++ to_string p
unfolding append_canonical to_string
append_canonical_lem [] b = sym (append-nil b)
append_canonical_lem (seg ∷ []) b =
    ground (arith, append_segments_lem 0 (seg ∷ []) b [], append-nil b, single_segment seg)
append_canonical_lem (seg ∷ next ∷ p) b =
    ap (append_segments 0 (seg ∷ next ∷ p)) (sym (append-nil b))
    ∙ append_segments_lem 0 (seg ∷ next ∷ p) b []
