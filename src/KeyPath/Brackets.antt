-- ===== src/KeyPath/Brackets.antt =====
-- path.go: brackets inside a bracketed segment are doubled, found and halved again.
use mathlib.Core.Option
use recon.Prelude.{ℕ, suc, ◌≡◌, ◌≢◌, refl, some, [], ◌∷◌, ◌++◌, arith, Bytes, length}
use recon.KeyPath.{close_bracket, closing_bracket, double_brackets, halve_brackets}

-- A text that does not go on with a closing bracket.
abbrev pub NoClose : Bytes → Type 0
NoClose [] = Unit
NoClose (c ∷ s) = c ≢ close_bracket

closing_skip :
    (c : ℕ) (s : Bytes)
    → c ≢ close_bracket
    → closing_bracket (c ∷ s) ≡ Option.map suc (closing_bracket s)
unfolding closing_bracket
closing_skip c [] h = ground arith
closing_skip c (d ∷ s) h = ground arith

closing_here : (s : Bytes) → NoClose s → closing_bracket (close_bracket ∷ s) ≡ some 0
unfolding closing_bracket
closing_here [] h = ground arith
closing_here (c ∷ s) h = ground arith

closing_doubled :
    (s : Bytes)
    → closing_bracket (close_bracket ∷ close_bracket ∷ s)
      ≡ Option.map (λ e. suc (suc e)) (closing_bracket s)
unfolding closing_bracket
closing_doubled s = refl

-- The bracket that closes a doubled segment is found behind it.
pub closing-double :
    (seg rest : Bytes)
    → NoClose rest
    → closing_bracket (double_brackets seg ++ close_bracket ∷ rest)
      ≡ some (length (double_brackets seg))
unfolding double_brackets
closing-double [] rest h = closing_here rest h
closing-double (c ∷ seg) rest h =
    let text = double_brackets seg ++ close_bracket ∷ rest in
    ground (arith, closing_doubled text, closing_skip c text, closing-double seg rest h)

halve_skip : (c : ℕ) (s : Bytes) → c ≢ close_bracket → halve_brackets (c ∷ s) ≡ c ∷ halve_brackets s
unfolding halve_brackets
halve_skip c [] h = refl
halve_skip c (d ∷ s) h = ground arith

halve_doubled :
    (s : Bytes)
    → halve_brackets (close_bracket ∷ close_bracket ∷ s) ≡ close_bracket ∷ halve_brackets s
unfolding halve_brackets
halve_doubled s = refl

-- Halving undoes doubling.
pub halve-double : (seg : Bytes) → halve_brackets (double_brackets seg) ≡ seg
unfolding double_brackets
halve-double [] = unfold halve_brackets in refl
halve-double (c ∷ seg) =
    let text = double_brackets seg in
    ground (arith, halve_doubled text, halve_skip c text, halve-double seg)
