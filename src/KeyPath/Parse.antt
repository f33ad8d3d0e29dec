-- ===== src/KeyPath/Parse.antt =====
-- ParsePath: the loop needs no more fuel than the text is long, and the fast path for a text
-- without brackets agrees with it.
use recon.Prelude.{
  ℕ, zero, suc, ◌≤◌, ◌≡◌, refl, Option-cases, false, inl, inr, [], ◌∷◌, ◌++◌, arith, Bytes,
  bytes_eq_iff, length, drop, take, append_assoc, length-drop_le,
}
use recon.KeyPath.{
  KeyPath, open_bracket, contains, closing_bracket, split_from, halve_brackets, parse_loop,
  parse_path,
}

-- Fuel beyond the length of the text changes nothing.
pub parse_loop_fuel :
    (f g : ℕ) (s : Bytes) (out : KeyPath) (buf : Bytes)
    → length s ≤ f
    → length s ≤ g
    → parse_loop f s out buf ≡ parse_loop g s out buf
unfolding parse_loop
parse_loop_fuel zero zero s out buf h k = refl
parse_loop_fuel zero (suc g) [] out buf h k = refl
parse_loop_fuel zero (suc g) (c ∷ s) out buf h k = absurd (omega arith)
parse_loop_fuel (suc f) zero [] out buf h k = refl
parse_loop_fuel (suc f) zero (c ∷ s) out buf h k = absurd (omega arith)
parse_loop_fuel (suc f) (suc g) [] out buf h k = refl
parse_loop_fuel (suc f) (suc g) (c ∷ s) out buf h k = elim (Option-cases (closing_bracket s)) [
  | inl e ↦
      ground (
        arith,
        parse_loop_fuel f g s out (buf ++ c ∷ []),
        parse_loop_fuel f g s (out ++ buf ∷ []) [],
      )
  | inr (e, found) ↦ ground (
    arith,
    length-drop_le (suc e) s,
    parse_loop_fuel f g s out (buf ++ c ∷ []),
    parse_loop_fuel f g s (out ++ buf ∷ []) [],
    parse_loop_fuel f g (drop (suc e) s) out (buf ++ halve_brackets (take e s)),
  )
]

-- The fast path: on a text without an opening bracket the loop splits at the delimiters.
pub parse_loop-split :
    (f : ℕ) (s : Bytes) (out : KeyPath) (buf : Bytes)
    → length s ≤ f
    → contains open_bracket s ≡ false
    → parse_loop f s out buf ≡ out ++ split_from s buf
unfolding parse_loop split_from contains
parse_loop-split zero [] out buf h k = refl
parse_loop-split zero (c ∷ s) out buf h k = absurd (omega arith)
parse_loop-split (suc f) [] out buf h k = refl
parse_loop-split (suc f) (c ∷ s) out buf h k = ground (
  arith,
  parse_loop-split f s out (buf ++ c ∷ []),
  parse_loop-split f s (out ++ buf ∷ []) [],
  append_assoc out (buf ∷ []) (split_from s []),
)

-- ParsePath is its loop on every text but the empty one.
pub parse_path_loop :
    (c : ℕ) (s : Bytes) → parse_path (c ∷ s) ≡ parse_loop (length (c ∷ s)) (c ∷ s) [] []
unfolding parse_path
parse_path_loop c s =
    ground (arith, bytes_eq_iff (c ∷ s) [], parse_loop-split (length (c ∷ s)) (c ∷ s) [] [])
