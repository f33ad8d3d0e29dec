-- ===== src/KeyPath/Compare.antt =====
-- comparePaths and sortPaths of path.go: the order of paths is the order of their canonical texts,
-- also where it is found without building them.
use recon.Prelude.{
  bytes_eq_refl, ◌≡◌, ◌≢◌, refl, ap, ◌∙◌, sym, Bool, true, false, ◌||◌, Bool-cases, inl, inr, [],
  ◌∷◌, ◌++◌, arith, Bytes, bytes_eq, bytes_eq_iff, ◌==◌, compare, Ordering, lt, eq, gt,
  compare_bytes, All, if◌then◌else◌, ap₂,
}
use recon.KeyPath.{KeyPath, delim, needs_brackets, to_string}
use recon.KeyPath.RoundTrip.{tail_text, to_string_joined, plain_segment_text, needs_brackets-cons}

-- slices.ContainsFunc(p, needsBrackets)
unfoldable pub any_needs_brackets : KeyPath → Bool
any_needs_brackets [] = false
any_needs_brackets (seg ∷ p) = needs_brackets seg || any_needs_brackets p

unfoldable pub bracketed : KeyPath → Bool
bracketed [] = false
bracketed (seg ∷ []) = bytes_eq seg [] || needs_brackets seg
bracketed (seg ∷ next ∷ p) = any_needs_brackets (seg ∷ next ∷ p)

-- i+1 == len(p), for the segments behind the current one
unfoldable pub is_last : KeyPath → Bool
is_last [] = true
is_last (seg ∷ p) = false

-- The comparison of two segments that differ, behind their common prefix; `a` and `b` are the
-- segments that follow them. The first clause is not reached.
unfoldable pub compare_segments : Bytes → Bytes → KeyPath → KeyPath → Ordering
compare_segments [] [] a b = eq
compare_segments [] (d ∷ sb) a b = if is_last a then lt else compare delim d
compare_segments (c ∷ sa) [] a b = if is_last b then gt else compare c delim
compare_segments (c ∷ sa) (d ∷ sb) a b = elim (c == d) [
  | true ↦ compare_segments sa sb a b
  | false ↦ compare c d
]

unfoldable pub compare_from : KeyPath → KeyPath → Ordering
compare_from [] [] = eq
compare_from [] (sb ∷ b) = lt
compare_from (sa ∷ a) [] = gt
compare_from (sa ∷ a) (sb ∷ b) = elim (bytes_eq sa sb) [
  | true ↦ compare_from a b
  | false ↦ compare_segments sa sb a b
]

unfoldable pub compare_paths : KeyPath → KeyPath → Ordering
compare_paths a b =
    if bracketed a || bracketed b
    then compare_bytes (to_string a) (to_string b)
    else compare_from a b

compare_same : (s x y : Bytes) → compare_bytes (s ++ x) (s ++ y) ≡ compare_bytes x y
unfolding compare_bytes
compare_same [] x y = refl
compare_same (c ∷ s) x y = ground (arith, compare_same s x y)

abbrev Plain : KeyPath → Type 0
Plain = All (λ seg. needs_brackets seg ≡ false)

any_needs_brackets-Plain : (p : KeyPath) → any_needs_brackets p ≡ false → Plain p
unfolding any_needs_brackets
any_needs_brackets-Plain [] h = tt
any_needs_brackets-Plain (seg ∷ p) h = (ground arith, any_needs_brackets-Plain p (ground arith))

compare_differing :
    (sa sb : Bytes) (a b : KeyPath)
    → needs_brackets sa ≡ false
    → needs_brackets sb ≡ false
    → sa ≢ sb
    → compare_bytes (sa ++ tail_text a) (sb ++ tail_text b) ≡ compare_segments sa sb a b
unfolding compare_bytes compare_segments tail_text is_last
compare_differing [] [] a b na nb h = absurd (h refl)
compare_differing [] (d ∷ sb) [] b na nb h = refl
compare_differing [] (d ∷ sb) (s ∷ a) b na nb h =
    let d-plain = (needs_brackets-cons d sb nb).1 in ground arith
compare_differing (c ∷ sa) [] a [] na nb h = refl
compare_differing (c ∷ sa) [] a (s ∷ b) na nb h =
    let c-plain = (needs_brackets-cons c sa na).1 in ground arith
compare_differing (c ∷ sa) (d ∷ sb) a b na nb h =
    let na' = (needs_brackets-cons c sa na).2 in
    let nb' = (needs_brackets-cons d sb nb).2 in ground (arith, compare_differing sa sb a b na' nb')

compare_delim :
    (sa sb : Bytes) (a b : KeyPath)
    → needs_brackets sa ≡ false
    → needs_brackets sb ≡ false
    → compare_bytes (tail_text (sa ∷ a)) (tail_text (sb ∷ b))
      ≡ compare_bytes (sa ++ tail_text a) (sb ++ tail_text b)
unfolding compare_bytes tail_text
compare_delim sa sb a b na nb =
    ap₂ (λ s s'. compare_bytes (s ++ tail_text a) (s' ++ tail_text b)) (plain_segment_text sa na)
      (plain_segment_text sb nb)

-- One round: two first segments, what follows them, and the comparison of what follows.
compare_round :
    (sa sb : Bytes) (a b : KeyPath)
    → needs_brackets sa ≡ false
    → needs_brackets sb ≡ false
    → compare_bytes (tail_text a) (tail_text b) ≡ compare_from a b
    → compare_bytes (sa ++ tail_text a) (sb ++ tail_text b) ≡ compare_from (sa ∷ a) (sb ∷ b)
unfolding compare_from
compare_round sa sb a b na nb rest = elim (Bool-cases (bytes_eq sa sb)) [
  | inl e ↦
      let same : sa ≡ sb = (bytes_eq_iff sa sb).0 e in
      rw (e, compare_from)
        (ap (λ s. compare_bytes (sa ++ tail_text a) (s ++ tail_text b)) (sym same)
          ∙ compare_same sa (tail_text a) (tail_text b)
          ∙ rest)
  | inr e ↦
      rw (e, compare_from)
        (compare_differing sa sb a b na nb (λ same. ground (arith, bytes_eq_iff sa sb)))
]

compare_tails :
    (a b : KeyPath)
    → Plain a
    → Plain b
    → compare_bytes (tail_text a) (tail_text b) ≡ compare_from a b
compare_tails [] [] pa pb = unfold compare_from compare_bytes tail_text in refl
compare_tails [] (sb ∷ b) pa pb = unfold compare_from compare_bytes tail_text in refl
compare_tails (sa ∷ a) [] pa pb = unfold compare_from compare_bytes tail_text in refl
compare_tails (sa ∷ a) (sb ∷ b) (na, pa) (nb, pb) =
    compare_delim sa sb a b na nb ∙ compare_round sa sb a b na nb (compare_tails a b pa pb)

-- The text of a path that is not bracketed.
plain_text :
    (seg : Bytes) (p : KeyPath)
    → bracketed (seg ∷ p) ≡ false
    → to_string (seg ∷ p) ≡ seg ++ tail_text p
unfolding bracketed any_needs_brackets
plain_text [] [] h = ground (arith, bytes_eq_refl [])
plain_text (c ∷ seg) [] h =
    to_string_joined (c ∷ seg) [] (inl (cc))
    ∙ ap (λ s. s ++ tail_text []) (plain_segment_text (c ∷ seg) (ground arith))
plain_text seg (next ∷ p) h =
    to_string_joined seg (next ∷ p) (inr (cc))
    ∙ ap (λ s. s ++ tail_text (next ∷ p)) (plain_segment_text seg (ground arith))

bracketed-Plain : (p : KeyPath) → bracketed p ≡ false → Plain p
unfolding bracketed any_needs_brackets
bracketed-Plain [] h = tt
bracketed-Plain (seg ∷ []) h = (ground arith, tt)
bracketed-Plain (seg ∷ next ∷ p) h = any_needs_brackets-Plain (seg ∷ next ∷ p) h

compare_nil :
    (seg : Bytes) (p : KeyPath)
    → bracketed (seg ∷ p) ≡ false
    → (compare_bytes [] (seg ++ tail_text p) ≡ lt) × (compare_bytes (seg ++ tail_text p) [] ≡ gt)
unfolding compare_bytes tail_text bracketed
compare_nil [] [] h = absurd (ground (arith, bytes_eq_refl []))
compare_nil [] (next ∷ p) h = (refl, refl)
compare_nil (c ∷ seg) p h = (refl, refl)

compare_plain :
    (a b : KeyPath)
    → bracketed a ≡ false
    → bracketed b ≡ false
    → compare_from a b ≡ compare_bytes (to_string a) (to_string b)
compare_plain [] [] pa pb = unfold compare_from compare_bytes to_string in refl
compare_plain [] (sb ∷ b) pa pb =
    unfold compare_from to_string in
    sym (ap (compare_bytes []) (plain_text sb b pb) ∙ (compare_nil sb b pb).0)
compare_plain (sa ∷ a) [] pa pb =
    unfold compare_from to_string in
    sym (ap (λ s. compare_bytes s []) (plain_text sa a pa) ∙ (compare_nil sa a pa).1)
compare_plain (sa ∷ a) (sb ∷ b) pa pb =
    let plain-a = bracketed-Plain (sa ∷ a) pa in
    let plain-b = bracketed-Plain (sb ∷ b) pb in
    sym (
      ap₂ compare_bytes (plain_text sa a pa) (plain_text sb b pb)
      ∙ compare_round sa sb a b plain-a.0 plain-b.0 (compare_tails a b plain-a.1 plain-b.1))

-- Comparing two paths gives the order of their canonical texts.
pub compare_paths_lem :
    (a b : KeyPath) → compare_paths a b ≡ compare_bytes (to_string a) (to_string b)
unfolding compare_paths
compare_paths_lem a b = ground (arith, compare_plain a b)
