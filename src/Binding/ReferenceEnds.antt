-- ===== src/Binding/ReferenceEnds.antt =====
-- expand.go: the expansion of references ends, and leaves the text as it is when it fails.
use recon.Prelude.{
  ℕ, zero, suc, ◌≤◌, ◌≡◌, refl, Bool, true, false, ◌&&◌, Option, none, some, [], ◌∷◌, ◌++◌, arith,
  ◌==◌, length, Bytes, codes,
}
use recon.Binding.Tags.{cut_at}
use recon.Binding.Expansion.{up_to_brace}
use recon.Binding.Ends.{RestIn, found_rest, more_room, up_to_brace-RestIn}
use recon.Binding.References.{
  Reader, Reference, ReferenceError, resolved, unresolved, out_of_fuel, required_text,
  text_or_error, modified, expand_required, expand_or_error, resolve_expand_expr, up_to_reference,
  references_loop, text_and_error, expand_value_refs,
}

unfoldable is_done : Reference → Bool
is_done out_of_fuel = false
is_done e = true

expand_required-is_done : (r : Reader) (key : Bytes) → is_done (expand_required r key) ≡ true
unfolding is_done expand_required required_text
expand_required-is_done r key = ground arith

expand_or_error-is_done :
    (r : Reader) (key msg : Bytes) → is_done (expand_or_error r key msg) ≡ true
unfolding is_done expand_or_error text_or_error
expand_or_error-is_done r key msg = ground arith

modified-is_done :
    (r : Reader) (expr key : Bytes) (m : Option Bytes) → is_done (modified r expr key m) ≡ true
unfolding is_done modified
modified-is_done r expr key none = expand_required-is_done r key
modified-is_done r expr key (some []) = expand_required-is_done r expr
modified-is_done r expr key (some (c ∷ rest)) =
    ground (arith, expand_required-is_done r expr, expand_or_error-is_done r key rest)

resolve_expand_expr-is_done :
    (r : Reader) (expr : Bytes) → is_done (resolve_expand_expr r expr) ≡ true
unfolding resolve_expand_expr
resolve_expand_expr-is_done r expr =
    modified-is_done r expr (cut_at b':' expr).0 (cut_at b':' expr).1

-- What is behind a reference is shorter than the text.
up_to_reference-RestIn : (c : ℕ) (s : Bytes) → RestIn (length s) (up_to_reference (c ∷ s))
unfolding up_to_reference
up_to_reference-RestIn c [] = tt
up_to_reference-RestIn c (d ∷ s) =
    found_rest (suc (length s)) (c == b'$' && d == b'{') c s (up_to_reference (d ∷ s)) (omega arith)
      (more_room (length s) (up_to_reference (d ∷ s)) (up_to_reference-RestIn d s))

after_resolve :
    (o : Reference) (next : Bytes → Reference)
    → is_done o ≡ true
    → ((out : Bytes) → is_done (next out) ≡ true)
    → is_done (elim o [
      | resolved out ↦ next out
      | unresolved e ↦ unresolved e
      | out_of_fuel ↦ out_of_fuel
    ])
      ≡ true
unfolding is_done
after_resolve (resolved out) next h k = k out
after_resolve (unresolved e) next h k = refl
after_resolve out_of_fuel next h k = h

module _ (r : Reader) (f : ℕ) where
  -- The rest of a round, given that the loop ends on all shorter texts.
  after_brace :
      (b lit rest : Bytes) (o : Option (Bytes × Bytes))
      → RestIn f o
      → ((s b' : Bytes) → length s ≤ f → is_done (references_loop r f s b') ≡ true)
      → is_done (elim o [
        | none ↦ resolved ((b ++ lit) ++ codes "${" ++ rest)
        | some (expr, rest') ↦ elim (resolve_expand_expr r expr) [
          | resolved out ↦ references_loop r f rest' ((b ++ lit) ++ out)
          | unresolved e ↦ unresolved e
          | out_of_fuel ↦ out_of_fuel
        ]
      ])
        ≡ true
  after_brace b lit rest none h k = unfold is_done in refl
  after_brace b lit rest (some (expr, rest')) h k =
      after_resolve (resolve_expand_expr r expr)
        (λ out. references_loop r f rest' ((b ++ lit) ++ out)) (resolve_expand_expr-is_done r expr)
        (λ out. k rest' ((b ++ lit) ++ out) h)

  shorter : (m n : ℕ) (o : Option (Bytes × Bytes)) → m ≤ n → RestIn m o → RestIn n o
  shorter m n none h k = tt
  shorter m n (some (lit, rest)) h k = omega (arith, h, k)

  after_reference :
      (b s : Bytes) (o : Option (Bytes × Bytes))
      → RestIn f o
      → ((s' b' : Bytes) → length s' ≤ f → is_done (references_loop r f s' b') ≡ true)
      → is_done (elim o [
        | none ↦ resolved (b ++ s)
        | some (lit, rest) ↦ elim (up_to_brace rest) [
          | none ↦ resolved ((b ++ lit) ++ codes "${" ++ rest)
          | some (expr, rest') ↦ elim (resolve_expand_expr r expr) [
            | resolved out ↦ references_loop r f rest' ((b ++ lit) ++ out)
            | unresolved e ↦ unresolved e
            | out_of_fuel ↦ out_of_fuel
          ]
        ]
      ])
        ≡ true
  after_reference b s none h k = unfold is_done in refl
  after_reference b s (some (lit, rest)) h k =
      after_brace b lit rest (up_to_brace rest)
        (shorter (length rest) f (up_to_brace rest) h (up_to_brace-RestIn rest)) k

references_loop-is_done :
    (r : Reader) (f : ℕ) (s b : Bytes) → length s ≤ f → is_done (references_loop r f s b) ≡ true
unfolding references_loop
references_loop-is_done r zero [] b h = unfold is_done in refl
references_loop-is_done r (suc f) [] b h = unfold is_done in refl
references_loop-is_done r zero (c ∷ s) b h = absurd (omega (arith, h))
references_loop-is_done r (suc f) (c ∷ s) b h =
    after_reference r f b (c ∷ s) (up_to_reference (c ∷ s))
      (shorter r f (length s) f (up_to_reference (c ∷ s)) (omega (arith, h))
        (up_to_reference-RestIn c s))
      (λ s' b' k. references_loop-is_done r f s' b' k)

-- A text and an error, with which the text is the one given.
abbrev pub IsOutcome : Bytes → Option (Bytes × Option ReferenceError) → Type 0
IsOutcome s o =
    (t : Bytes) × (e : Option ReferenceError) × (o ≡ some (t, e))
    × ((x : ReferenceError) → e ≡ some x → t ≡ s)

text_and_error-IsOutcome :
    (s : Bytes) (o : Reference) → is_done o ≡ true → IsOutcome s (text_and_error s o)
unfolding is_done text_and_error
text_and_error-IsOutcome s (resolved t) h = (t, none, refl, λ x e. absurd (ground (arith, e)))
text_and_error-IsOutcome s (unresolved e) h = (s, some e, refl, λ x k. refl)
text_and_error-IsOutcome s out_of_fuel h = absurd (ground (arith, h))

expanded_text-IsOutcome :
    (s : Bytes) (loop : Reference) (o : Option (Bytes × Bytes))
    → is_done loop ≡ true
    → IsOutcome s (elim o [ none ↦ some (s, none) | some cut ↦ text_and_error s loop ])
expanded_text-IsOutcome s loop none h = (s, none, refl, λ x k. refl)
expanded_text-IsOutcome s loop (some cut) h = text_and_error-IsOutcome s loop h

-- Expanding the references of a text ends, with a text and no error, or with the text unchanged and an
-- error.
pub expand_value_refs-IsOutcome : (s : Bytes) (r : Reader) → IsOutcome s (expand_value_refs s r)
unfolding expand_value_refs
expand_value_refs-IsOutcome s r =
    expanded_text-IsOutcome s _ (up_to_reference s)
      (references_loop-is_done r (length s) s [] (omega arith))
