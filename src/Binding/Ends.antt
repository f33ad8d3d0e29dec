-- ===== src/Binding/Ends.antt =====
-- path_expansion.go: the expansion of variables ends on every text.
use recon.Prelude.{
  ℕ, zero, suc, ◌≤◌, ◌≡◌, inl, inr, refl, sym, ap, ◌∙◌, subst, Bool, true, false, Option, none,
  some, [], ◌∷◌, ◌++◌, append_assoc, append-nil, arith, ◌==◌, if◌then◌else◌, Bool-cases, length,
  Bytes,
}
use recon.KeyPath.{contains}
use recon.Binding.Expansion.{
  Shell, Expanded, expanded, refused, no_home, out_of_fuel, is_var_byte, is_var_first_byte,
  span_name, up_to_brace, eval_braced, find_shell_op, expand_loop, expand_vars, getenv, apply_op,
  eval_op, ShellOp, default_if_empty, alternative_if_full, error_if_empty, default_if_unset,
  alternative_if_set,
}

-- A text, or the error of ${name:?message} for a variable that is unset or empty; no other error, and not
-- the end of the fuel.
abbrev pub Ends : Shell → Expanded → Type 0
Ends sh (expanded t) = Unit
Ends sh (refused name message) = getenv sh name ≡ []
Ends sh (no_home name) = ⊥
Ends sh out_of_fuel = ⊥

span_name-length : (s : Bytes) → length (span_name s).1 ≤ length s
unfolding span_name
span_name-length [] = omega arith
span_name-length (c ∷ s) = elim (Bool-cases (is_var_byte c)) [
  | inl e ↦ rw e (omega (arith, span_name-length s))
  | inr e ↦ rw e (omega arith)
]

-- The rest behind a brace is shorter.
abbrev pub RestIn : ℕ → Option (Bytes × Bytes) → Type 0
RestIn n none = Unit
RestIn n (some (expr, rest)) = length rest ≤ n

pub found_rest :
    (n : ℕ) (b : Bool) (c : ℕ) (s : Bytes) (o : Option (Bytes × Bytes))
    → length s ≤ n
    → RestIn n o
    → RestIn n
        (if b then some ([], s) else elim o [ none ↦ none | some (expr, t) ↦ some (c ∷ expr, t) ])
found_rest n true c s o h k = h
found_rest n false c s none h k = tt
found_rest n false c s (some (expr, t)) h k = k

pub more_room : (n : ℕ) (o : Option (Bytes × Bytes)) → RestIn n o → RestIn (suc n) o
more_room n none h = tt
more_room n (some (expr, rest)) h = omega (arith, h)

pub up_to_brace-RestIn : (s : Bytes) → RestIn (length s) (up_to_brace s)
unfolding up_to_brace
up_to_brace-RestIn [] = tt
up_to_brace-RestIn (c ∷ s) =
    found_rest (suc (length s)) (c == b'}') c s (up_to_brace s) (omega arith)
      (more_room (length s) (up_to_brace s) (up_to_brace-RestIn s))

found_text : Option Bytes → Bytes
found_text o = elim o [ none ↦ [] | some val ↦ val ]

apply_op-Ends :
    (sh : Shell) (name : Bytes) (op : ShellOp) (rhs : Bytes) (o : Option Bytes)
    → found_text o ≡ getenv sh name
    → Ends sh (apply_op name op rhs o)
unfolding apply_op found_text
apply_op-Ends sh name default_if_empty rhs none h = tt
apply_op-Ends sh name default_if_empty rhs (some []) h = tt
apply_op-Ends sh name default_if_empty rhs (some (c ∷ val)) h = tt
apply_op-Ends sh name default_if_unset rhs none h = tt
apply_op-Ends sh name default_if_unset rhs (some val) h = tt
apply_op-Ends sh name error_if_empty rhs none h = sym h
apply_op-Ends sh name error_if_empty rhs (some []) h = sym h
apply_op-Ends sh name error_if_empty rhs (some (c ∷ val)) h = tt
apply_op-Ends sh name alternative_if_full rhs none h = tt
apply_op-Ends sh name alternative_if_full rhs (some []) h = tt
apply_op-Ends sh name alternative_if_full rhs (some (c ∷ val)) h = tt
apply_op-Ends sh name alternative_if_set rhs none h = tt
apply_op-Ends sh name alternative_if_set rhs (some val) h = tt

eval_op-Ends :
    (sh : Shell) (expr : Bytes) (o : Option (Bytes × ShellOp × Bytes)) → Ends sh (eval_op sh expr o)
unfolding eval_op
eval_op-Ends sh expr none = tt
eval_op-Ends sh expr (some (name, op, rhs)) =
    apply_op-Ends sh name op rhs (sh.find_variable name) (unfold found_text getenv in refl)

eval_braced-Ends : (sh : Shell) (expr : Bytes) → Ends sh (eval_braced sh expr)
unfolding eval_braced
eval_braced-Ends sh expr = eval_op-Ends sh expr (find_shell_op expr)

choose :
    (sh : Shell) (p q : Expanded) (x : Bool)
    → Ends sh p
    → Ends sh q
    → Ends sh (elim x [ true ↦ p | false ↦ q ])
choose sh p q true h k = h
choose sh p q false h k = k

after_eval :
    (sh : Shell) (e : Expanded) (k : Bytes → Expanded)
    → Ends sh e
    → ((out : Bytes) → Ends sh (k out))
    → Ends sh (elim e [
      | expanded out ↦ k out
      | refused name message ↦ refused name message
      | no_home name ↦ no_home name
      | out_of_fuel ↦ out_of_fuel
    ])
after_eval sh (expanded out) k h t = t out
after_eval sh (refused name message) k h t = h
after_eval sh (no_home name) k h t = h
after_eval sh out_of_fuel k h t = h

braced-Ends :
    (sh : Shell) (f n : ℕ) (s b : Bytes) (o : Option (Bytes × Bytes))
    → RestIn n o
    → ((rest b : Bytes) → length rest ≤ n → Ends sh (expand_loop sh f rest b))
    → Ends sh (elim o [
      | none ↦ expanded s
      | some (expr, rest) ↦ elim (eval_braced sh expr) [
        | expanded out ↦ expand_loop sh f rest (b ++ out)
        | refused name message ↦ refused name message
        | no_home name ↦ no_home name
        | out_of_fuel ↦ out_of_fuel
      ]
    ])
braced-Ends sh f n s b none h rec = tt
braced-Ends sh f n s b (some (expr, rest)) h rec =
    after_eval sh (eval_braced sh expr) (λ out. expand_loop sh f rest (b ++ out))
      (eval_braced-Ends sh expr) (λ out. rec rest (b ++ out) h)

-- With as much fuel as the text has bytes, the loop ends.
expand_loop-Ends :
    (sh : Shell) (f : ℕ) (s b : Bytes) → length s ≤ f → Ends sh (expand_loop sh f s b)
unfolding expand_loop
expand_loop-Ends sh zero [] b h = tt
expand_loop-Ends sh (suc f) [] b h = tt
expand_loop-Ends sh zero (c ∷ s) b h = absurd (omega (arith, h))
expand_loop-Ends sh (suc f) (c ∷ []) b h = tt
expand_loop-Ends sh (suc f) (c ∷ d ∷ s) b h =
    let plain = expand_loop-Ends sh f (d ∷ s) (b ++ c ∷ []) (omega (arith, h)) in
    let named =
      expand_loop-Ends sh f (span_name s).1 (b ++ getenv sh (d ∷ (span_name s).0))
        (omega (arith, h, span_name-length s)) in
    let braced =
      braced-Ends sh f (length s) (b ++ c ∷ d ∷ s) b (up_to_brace s) (up_to_brace-RestIn s)
        (λ rest b' k. expand_loop-Ends sh f rest b' (omega (arith, h, k))) in
    choose sh _ _ (c == b'$')
      (choose sh _ _ (d == b'{') braced (choose sh _ _ (is_var_first_byte d) named plain)) plain

second_case : (p q : Expanded) (x : Bool) → x ≡ false → elim x [ true ↦ p | false ↦ q ] ≡ q
second_case p q true h = absurd (ground (arith, h))
second_case p q false h = refl

-- A text without a dollar sign is left as it is by the loop, as expandVars does without it.
expand_loop-plain :
    (sh : Shell) (f : ℕ) (s b : Bytes)
    → contains b'$' s ≡ false
    → length s ≤ f
    → expand_loop sh f s b ≡ expanded (b ++ s)
unfolding expand_loop contains
expand_loop-plain sh f [] b h l = ap expanded (sym (append-nil b))
expand_loop-plain sh zero (c ∷ s) b h l = absurd (omega (arith, l))
expand_loop-plain sh (suc f) (c ∷ []) b h l = refl
expand_loop-plain sh (suc f) (c ∷ d ∷ s) b h l =
    second_case _ _ (c == b'$') (ground (arith, h))
    ∙ expand_loop-plain sh f (d ∷ s) (b ++ c ∷ []) (ground (arith, h)) (omega (arith, l))
    ∙ ap expanded (append_assoc b (c ∷ []) (d ∷ s))

expand_vars-loop : (sh : Shell) (s : Bytes) → expand_vars sh s ≡ expand_loop sh (length s) s []
unfolding expand_vars
expand_vars-loop sh s = elim (Bool-cases (contains b'$' s)) [
  | inl e ↦ rw e refl
  | inr e ↦ rw e (sym (expand_loop-plain sh (length s) s [] e (omega arith)))
]

-- Expanding the variables of a text ends, with a text or with the error of ${name:?message} for a variable
-- that is unset or empty, and is the loop of the code on every text, also where there is no dollar sign.
pub expand_vars-Ends :
    (sh : Shell) (s : Bytes)
    → Ends sh (expand_vars sh s) × (expand_vars sh s ≡ expand_loop sh (length s) s [])
expand_vars-Ends sh s = (
  subst (Ends sh) (sym (expand_vars-loop sh s)) (expand_loop-Ends sh (length s) s [] (omega arith)),
  expand_vars-loop sh s,
)
