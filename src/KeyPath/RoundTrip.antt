-- ===== src/KeyPath/RoundTrip.antt =====
-- Path.String and ParsePath are inverse on every path.
use recon.Prelude.{
  ℕ, zero, suc, ◌≤◌, ◌≡◌, ◌≢◌, refl, ap, ap₂, subst, ◌∙◌, ◌⊎◌, true, Bool-cases, false, some, inl,
  inr, [], ◌∷◌, ◌++◌, arith, Bytes, bytes_eq, bytes_eq_iff, length, drop, take, append_assoc,
  append-nil, length-append, take-append, if◌then◌else◌,
}
use recon.KeyPath.{
  KeyPath, delim, open_bracket, close_bracket, contains, needs_brackets, double_brackets,
  closing_bracket, halve_brackets, parse_loop, parse_path, separated, write_segments, to_string,
}
use recon.KeyPath.Brackets.{NoClose, closing-double, halve-double}
use recon.KeyPath.Parse.{parse_loop_fuel, parse_path_loop}

-- One segment of the canonical text, and the text of the segments that follow one.
unfoldable pub segment_text : Bytes → Bytes
segment_text seg =
    if needs_brackets seg then open_bracket ∷ double_brackets seg ++ close_bracket ∷ [] else seg

unfoldable pub tail_text : KeyPath → Bytes
tail_text [] = []
tail_text (seg ∷ p) = delim ∷ segment_text seg ++ tail_text p

write_step :
    (i : ℕ) (seg : Bytes) (p : KeyPath) (b : Bytes)
    → write_segments i (seg ∷ p) b ≡ write_segments (suc i) p (separated i b ++ segment_text seg)
unfolding write_segments segment_text
write_step i seg p b = elim (Bool-cases (needs_brackets seg)) [
  | inl e ↦ rw e refl
  | inr e ↦ rw e refl
]

pub write_segments_tail :
    (i : ℕ) (p : KeyPath) (b : Bytes) → write_segments (suc i) p b ≡ b ++ tail_text p
unfolding tail_text
write_segments_tail i [] b = unfold write_segments in rw append-nil
write_segments_tail i (seg ∷ p) b =
    write_step (suc i) seg p b
    ∙ write_segments_tail (suc i) p (separated (suc i) b ++ segment_text seg)
    ∙ unfold separated in simp append_assoc

pub plain_segment_text : (seg : Bytes) → needs_brackets seg ≡ false → segment_text seg ≡ seg
unfolding segment_text
plain_segment_text seg h = rw h

pub bracketed_segment_text :
    (seg : Bytes)
    → needs_brackets seg ≡ true
    → segment_text seg ≡ open_bracket ∷ double_brackets seg ++ close_bracket ∷ []
unfolding segment_text
bracketed_segment_text seg h = rw h

-- Path.String joins the texts of the segments; only the path of one empty segment differs.
pub to_string_joined :
    (seg : Bytes) (p : KeyPath)
    → (seg ≢ []) ⊎ (p ≢ [])
    → to_string (seg ∷ p) ≡ segment_text seg ++ tail_text p
unfolding to_string tail_text separated
to_string_joined seg [] h = ground (
  arith,
  bytes_eq_iff seg [],
  append-nil (segment_text seg),
  plain_segment_text seg,
  write_step 0 seg [] [],
  write_segments_tail 0 [] (segment_text seg),
)
to_string_joined seg (next ∷ p) h =
    write_step 0 seg (next ∷ p) [] ∙ write_segments_tail 0 (next ∷ p) (segment_text seg)

plain_step :
    (f c : ℕ) (s : Bytes) (out : KeyPath) (buf : Bytes)
    → c ≢ open_bracket
    → c ≢ delim
    → parse_loop (suc f) (c ∷ s) out buf ≡ parse_loop f s out (buf ++ c ∷ [])
unfolding parse_loop
plain_step f c s out buf h k = ground arith

pub delim_step :
    (f : ℕ) (s : Bytes) (out : KeyPath) (buf : Bytes)
    → parse_loop (suc f) (delim ∷ s) out buf ≡ parse_loop f s (out ++ buf ∷ []) []
unfolding parse_loop
delim_step f s out buf = refl

bracket_step :
    (f e : ℕ) (s : Bytes) (out : KeyPath) (buf : Bytes)
    → closing_bracket s ≡ some e
    → parse_loop (suc f) (open_bracket ∷ s) out buf
      ≡ parse_loop f (drop (suc e) s) out (buf ++ halve_brackets (take e s))
unfolding parse_loop
bracket_step f e s out buf h = ground arith

pub needs_brackets-cons :
    (c : ℕ) (seg : Bytes)
    → needs_brackets (c ∷ seg) ≡ false
    → (c ≢ open_bracket) × (c ≢ delim) × (needs_brackets seg ≡ false)
unfolding needs_brackets contains
needs_brackets-cons c seg h = (λ e. ground arith, λ e. ground arith, ground arith)

-- A segment that needs no brackets is read byte by byte.
read_plain :
    (f : ℕ) (seg rest : Bytes) (out : KeyPath) (buf : Bytes)
    → needs_brackets seg ≡ false
    → length (seg ++ rest) ≤ f
    → parse_loop f (seg ++ rest) out buf ≡ parse_loop (length rest) rest out (buf ++ seg)
read_plain f [] rest out buf n h =
    rw append-nil (parse_loop_fuel f (length rest) rest out buf h (omega arith))
read_plain (suc f) (c ∷ seg) rest out buf n h =
    let plain = needs_brackets-cons c seg n in
    plain_step f c (seg ++ rest) out buf plain.0 plain.1
    ∙ read_plain f seg rest out (buf ++ c ∷ []) plain.2 (omega arith)
    ∙ ap (parse_loop (length rest) rest out) (append_assoc buf (c ∷ []) seg)
read_plain zero (c ∷ seg) rest out buf n h = absurd (omega arith)

pub drop_past : (s : Bytes) (c : ℕ) (rest : Bytes) → drop (suc (length s)) (s ++ c ∷ rest) ≡ rest
drop_past [] c rest = refl
drop_past (d ∷ s) c rest = drop_past s c rest

-- A bracketed segment is read in one step.
read_bracketed :
    (f : ℕ) (seg rest : Bytes) (out : KeyPath) (buf : Bytes)
    → NoClose rest
    → length (open_bracket ∷ double_brackets seg ++ close_bracket ∷ rest) ≤ f
    → parse_loop f (open_bracket ∷ double_brackets seg ++ close_bracket ∷ rest) out buf
      ≡ parse_loop (length rest) rest out (buf ++ seg)
read_bracketed zero seg rest out buf n h = absurd (omega arith)
read_bracketed (suc f) seg rest out buf n h =
    let doubled = double_brackets seg in
    let s = doubled ++ close_bracket ∷ rest in
    let room : length rest ≤ f = omega (arith, length-append doubled (close_bracket ∷ rest)) in
    bracket_step f (length doubled) s out buf (closing-double seg rest n)
    ∙ ap₂ (λ t seg'. parse_loop f t out (buf ++ seg')) (drop_past doubled close_bracket rest)
        (ap halve_brackets (take-append doubled (close_bracket ∷ rest)) ∙ halve-double seg)
    ∙ parse_loop_fuel f (length rest) rest out (buf ++ seg) room (omega arith)

pub bracketed_rest :
    (seg rest : Bytes)
    → needs_brackets seg ≡ true
    → segment_text seg ++ rest ≡ open_bracket ∷ double_brackets seg ++ close_bracket ∷ rest
bracketed_rest seg rest h =
    rw (bracketed_segment_text seg h)
      (ap (λ t. open_bracket ∷ t) (append_assoc (double_brackets seg) (close_bracket ∷ []) rest))

pub read_segment :
    (f : ℕ) (seg rest : Bytes) (out : KeyPath) (buf : Bytes)
    → NoClose rest
    → length (segment_text seg ++ rest) ≤ f
    → parse_loop f (segment_text seg ++ rest) out buf
      ≡ parse_loop (length rest) rest out (buf ++ seg)
read_segment f seg rest out buf n h = elim (Bool-cases (needs_brackets seg)) [
  | inl e ↦
      let text = bracketed_rest seg rest e in
      ap (λ t. parse_loop f t out buf) text
      ∙ read_bracketed f seg rest out buf n (subst (λ t. length t ≤ f) text h)
  | inr e ↦
      let text = ap (λ t. t ++ rest) (plain_segment_text seg e) in
      ap (λ t. parse_loop f t out buf) text
      ∙ read_plain f seg rest out buf e (subst (λ t. length t ≤ f) text h)
]

pub tail_text-NoClose : (p : KeyPath) → NoClose (tail_text p)
unfolding tail_text
tail_text-NoClose [] = tt
tail_text-NoClose (seg ∷ p) = omega arith

read_tail :
    (f : ℕ) (p : KeyPath) (out : KeyPath) (buf : Bytes)
    → length (tail_text p) ≤ f
    → parse_loop f (tail_text p) out buf ≡ out ++ buf ∷ p
unfolding tail_text
read_tail zero [] out buf h = unfold parse_loop in refl
read_tail (suc f) [] out buf h = unfold parse_loop in refl
read_tail zero (seg ∷ p) out buf h = absurd (omega arith)
read_tail (suc f) (seg ∷ p) out buf h =
    delim_step f (segment_text seg ++ tail_text p) out buf
    ∙ read_segment f seg (tail_text p) (out ++ buf ∷ []) [] (tail_text-NoClose p) (omega arith)
    ∙ read_tail (length (tail_text p)) p (out ++ buf ∷ []) seg (omega arith)
    ∙ append_assoc out (buf ∷ []) (seg ∷ p)

-- ParsePath is its loop, also on the canonical text of a path.
read_text :
    (s : Bytes) (p : KeyPath) → s ≢ [] → parse_loop (length s) s [] [] ≡ p → parse_path s ≡ p
read_text [] p h e = absurd (h refl)
read_text (c ∷ s) p h e = parse_path_loop c s ∙ e

joined-ne-nil :
    (seg : Bytes) (p : KeyPath) → (seg ≢ []) ⊎ (p ≢ []) → segment_text seg ++ tail_text p ≢ []
unfolding segment_text tail_text needs_brackets contains
joined-ne-nil [] [] h e = ground arith
joined-ne-nil [] (next ∷ p) h e = ground arith
joined-ne-nil (c ∷ seg) p h e = ground arith

read_joined :
    (seg : Bytes) (p : KeyPath) → (seg ≢ []) ⊎ (p ≢ []) → parse_path (to_string (seg ∷ p)) ≡ seg ∷ p
read_joined seg p h =
    let text = segment_text seg ++ tail_text p in
    ap parse_path (to_string_joined seg p h)
    ∙ read_text text (seg ∷ p) (joined-ne-nil seg p h) (
        read_segment (length text) seg (tail_text p) [] [] (tail_text-NoClose p) (omega arith)
        ∙ read_tail (length (tail_text p)) p [] seg (omega arith))

-- Reading what Path.String writes gives the path back, for every path.
pub parse_path-to_string : (p : KeyPath) → parse_path (to_string p) ≡ p
parse_path-to_string [] = unfold parse_path to_string bytes_eq in refl
parse_path-to_string ([] ∷ []) =
    unfold parse_path to_string needs_brackets contains parse_loop closing_bracket halve_brackets
      bytes_eq in
    refl
parse_path-to_string ([] ∷ seg ∷ p) = read_joined [] (seg ∷ p) (inr (cc))
parse_path-to_string ((c ∷ seg) ∷ p) = read_joined (c ∷ seg) p (inl (cc))
