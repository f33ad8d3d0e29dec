-- ===== src/KeyPath/Delims.antt =====
-- topLevelDelims: the delimiters that it finds in a canonical text are the ends of its segments.
use recon.Prelude.{
  bytes_eq, bytes_eq, ℕ, zero, suc, ◌+◌, ◌≤◌, ◌≡◌, refl, ap, ap₂, subst, ◌∙◌, sym, Bool-cases,
  false, true, inl, inr, some, List, [], ◌∷◌, ◌++◌, arith, Bytes, length, drop, take, map,
  append_assoc, append-nil, length-append, take-append, ◌≢◌, Option-cases, length-drop_le,
}
use recon.KeyPath.{
  KeyPath, delim, open_bracket, close_bracket, needs_brackets, double_brackets, closing_bracket,
  delims_from, top_level_delims, to_string,
}
use recon.KeyPath.Brackets.{NoClose, closing-double}
use recon.KeyPath.RoundTrip.{
  segment_text, tail_text, to_string_joined, needs_brackets-cons, plain_segment_text,
  bracketed_rest, bracketed_segment_text, tail_text-NoClose, drop_past,
}

delims_fuel :
    (f g i : ℕ) (s : Bytes) → length s ≤ f → length s ≤ g → delims_from f i s ≡ delims_from g i s
unfolding delims_from
delims_fuel zero zero i s h k = refl
delims_fuel zero (suc g) i [] h k = refl
delims_fuel zero (suc g) i (c ∷ s) h k = absurd (omega arith)
delims_fuel (suc f) zero i [] h k = refl
delims_fuel (suc f) zero i (c ∷ s) h k = absurd (omega arith)
delims_fuel (suc f) (suc g) i [] h k = refl
delims_fuel (suc f) (suc g) i (c ∷ s) h k = elim (Option-cases (closing_bracket s)) [
  | inl e ↦ ground (arith, delims_fuel f g (suc i) s)
  | inr (e, found) ↦ ground (
    arith,
    length-drop_le (suc e) s,
    delims_fuel f g (suc i) s,
    delims_fuel f g (i + suc (suc e)) (drop (suc e) s),
  )
]

plain_step :
    (f i c : ℕ) (s : Bytes)
    → c ≢ open_bracket
    → c ≢ delim
    → delims_from (suc f) i (c ∷ s) ≡ delims_from f (suc i) s
unfolding delims_from
plain_step f i c s h k = ground arith

bracket_step :
    (f i e : ℕ) (s : Bytes)
    → closing_bracket s ≡ some e
    → delims_from (suc f) i (open_bracket ∷ s) ≡ delims_from f (i + suc (suc e)) (drop (suc e) s)
unfolding delims_from
bracket_step f i e s h = ground arith

delim_step : (f i : ℕ) (s : Bytes) → delims_from (suc f) i (delim ∷ s) ≡ i ∷ delims_from f (suc i) s
unfolding delims_from
delim_step f i s = refl

skip_plain :
    (f i : ℕ) (seg rest : Bytes)
    → needs_brackets seg ≡ false
    → length (seg ++ rest) ≤ f
    → delims_from f i (seg ++ rest) ≡ delims_from (length rest) (i + length seg) rest
skip_plain f i [] rest n h =
    delims_fuel f (length rest) i rest h (omega arith)
    ∙ ap (λ j. delims_from (length rest) j rest) (omega arith)
skip_plain (suc f) i (c ∷ seg) rest n h =
    let plain = needs_brackets-cons c seg n in
    plain_step f i c (seg ++ rest) plain.0 plain.1
    ∙ skip_plain f (suc i) seg rest plain.2 (omega arith)
    ∙ ap (λ j. delims_from (length rest) j rest) (omega arith)
skip_plain zero i (c ∷ seg) rest n h = absurd (omega arith)

skip_bracketed :
    (f i : ℕ) (seg rest : Bytes)
    → NoClose rest
    → length (open_bracket ∷ double_brackets seg ++ close_bracket ∷ rest) ≤ f
    → delims_from f i (open_bracket ∷ double_brackets seg ++ close_bracket ∷ rest)
      ≡ delims_from (length rest) (i + suc (suc (length (double_brackets seg)))) rest
skip_bracketed zero i seg rest n h = absurd (omega arith)
skip_bracketed (suc f) i seg rest n h =
    let doubled = double_brackets seg in
    let room : length rest ≤ f = omega (arith, length-append doubled (close_bracket ∷ rest)) in
    bracket_step f i (length doubled) (doubled ++ close_bracket ∷ rest) (closing-double seg rest n)
    ∙ ap (delims_from f (i + suc (suc (length doubled)))) (drop_past doubled close_bracket rest)
    ∙ delims_fuel f (length rest) (i + suc (suc (length doubled))) rest room (omega arith)

bracketed_length :
    (seg : Bytes)
    → needs_brackets seg ≡ true
    → suc (suc (length (double_brackets seg))) ≡ length (segment_text seg)
bracketed_length seg e =
    rw (bracketed_segment_text seg e)
      (omega (arith, length-append (double_brackets seg) (close_bracket ∷ [])))

-- No delimiter is found inside the text of a segment.
skip_segment :
    (f i : ℕ) (seg rest : Bytes)
    → NoClose rest
    → length (segment_text seg ++ rest) ≤ f
    → delims_from f i (segment_text seg ++ rest)
      ≡ delims_from (length rest) (i + length (segment_text seg)) rest
skip_segment f i seg rest n h = elim (Bool-cases (needs_brackets seg)) [
  | inl e ↦
      let text = bracketed_rest seg rest e in
      ap (delims_from f i) text
      ∙ skip_bracketed f i seg rest n (subst (λ t. length t ≤ f) text h)
      ∙ ap (λ j. delims_from (length rest) (i + j) rest) (bracketed_length seg e)
  | inr e ↦
      let text = ap (λ t. t ++ rest) (plain_segment_text seg e) in
      ap (delims_from f i) text
      ∙ skip_plain f i seg rest e (subst (λ t. length t ≤ f) text h)
      ∙ ap (λ t. delims_from (length rest) (i + length t) rest) (sym (plain_segment_text seg e))
]

-- The text of the segments of a path, joined.
unfoldable pub joined : KeyPath → Bytes
joined [] = []
joined (seg ∷ p) = segment_text seg ++ tail_text p

-- The ways to cut a path in two parts, the first of which begins with `done`.
unfoldable pub splits : KeyPath → KeyPath → List (KeyPath × KeyPath)
splits done [] = []
splits done (seg ∷ p) = (done, seg ∷ p) ∷ splits (done ++ seg ∷ []) p

-- s[:i] and s[i+1:], as the callers cut the text at a delimiter.
abbrev pub cut : Bytes → ℕ → Bytes × Bytes
cut s i = (take i s, drop (suc i) s)

abbrev pub texts : KeyPath × KeyPath → Bytes × Bytes
texts (q, r) = (joined q, joined r)

tail-append :
    (p : KeyPath) (seg : Bytes)
    → tail_text (p ++ seg ∷ []) ≡ tail_text p ++ delim ∷ segment_text seg
unfolding tail_text
tail-append [] seg = ap (λ t. delim ∷ t) (append-nil (segment_text seg))
tail-append (s ∷ p) seg =
    ap (λ t. delim ∷ segment_text s ++ t) (tail-append p seg)
    ∙ sym (append_assoc (delim ∷ segment_text s) (tail_text p) (delim ∷ segment_text seg))

joined-append :
    (first : Bytes) (p : KeyPath) (seg : Bytes)
    → joined ((first ∷ p) ++ seg ∷ []) ≡ joined (first ∷ p) ++ delim ∷ segment_text seg
unfolding joined
joined-append first p seg =
    ap (λ t. segment_text first ++ t) (tail-append p seg)
    ∙ sym (append_assoc (segment_text first) (tail_text p) (delim ∷ segment_text seg))

cut_here :
    (text left right : Bytes)
    → text ≡ left ++ delim ∷ right
    → cut text (length left) ≡ (left, right)
cut_here text left right e =
    rw e (
      ap₂ (λ (a b : Bytes). (a, b)) (take-append left (delim ∷ right)) (drop_past left delim right))

cuts_of_tail :
    (first : Bytes) (done p : KeyPath) (text : Bytes)
    → text ≡ joined (first ∷ done) ++ tail_text p
    → map
        (cut text)
        (delims_from (length (tail_text p)) (length (joined (first ∷ done))) (tail_text p))
      ≡ map texts (splits (first ∷ done) p)
unfolding splits tail_text joined
cuts_of_tail first done [] text e = unfold delims_from in refl
cuts_of_tail first done (seg ∷ p) text e =
    let left = joined (first ∷ done) in
    let rest = segment_text seg ++ tail_text p in
    let left' = joined (first ∷ done ++ seg ∷ []) in
    let next = joined-append first done seg in
    let here = cut_here text left rest e in
    let position : suc (length left) + length (segment_text seg) ≡ length left' =
      rw next (omega (arith, length-append left (delim ∷ segment_text seg))) in
    ap (map (cut text)) (delim_step (length rest) (length left) rest)
    ∙ ap₂ (λ c cs. c ∷ cs) here
        (ap (map (cut text)) (
            skip_segment (length rest) (suc (length left)) seg (tail_text p) (tail_text-NoClose p)
              (omega arith)
            ∙ ap (λ j. delims_from (length (tail_text p)) j (tail_text p)) position)
          ∙ cuts_of_tail first (done ++ seg ∷ []) p text (
              e
              ∙ sym (append_assoc left (delim ∷ segment_text seg) (tail_text p))
              ∙ ap (λ t. t ++ tail_text p) (sym next)))

cuts_of_text :
    (seg : Bytes) (p : KeyPath) (text : Bytes)
    → text ≡ segment_text seg ++ tail_text p
    → map (cut text) (top_level_delims text) ≡ map texts (splits (seg ∷ []) p)
unfolding top_level_delims
cuts_of_text seg p text e =
    let first : joined (seg ∷ []) ≡ segment_text seg =
      unfold joined tail_text in append-nil (segment_text seg) in
    ap (map (cut text)) (
      ap (λ t. delims_from (length t) 0 t) e
      ∙ skip_segment (length (segment_text seg ++ tail_text p)) 0 seg (tail_text p)
          (tail_text-NoClose p) (omega arith)
      ∙ ap (λ j. delims_from (length (tail_text p)) j (tail_text p)) (rw first (omega arith)))
    ∙ cuts_of_tail seg [] p text (e ∙ ap (λ t. t ++ tail_text p) (sym first))

-- Cutting the canonical text of a path at the delimiters found gives the texts of all the ways to
-- cut the path itself into two non-empty parts, in order.
pub top_level_delims_lem :
    (seg : Bytes) (p : KeyPath)
    → map (cut (to_string (seg ∷ p))) (top_level_delims (to_string (seg ∷ p)))
      ≡ map texts (splits (seg ∷ []) p)
top_level_delims_lem [] [] =
    unfold to_string bytes_eq top_level_delims delims_from closing_bracket splits in refl
top_level_delims_lem [] (next ∷ p) =
    cuts_of_text [] (next ∷ p) _ (to_string_joined [] (next ∷ p) (inr (cc)))
top_level_delims_lem (c ∷ seg) p =
    cuts_of_text (c ∷ seg) p _ (to_string_joined (c ∷ seg) p (inl (cc)))
