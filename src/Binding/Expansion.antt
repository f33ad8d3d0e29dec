-- ===== src/Binding/Expansion.antt =====
-- path_expansion.go: the expansion of a path as a shell does it.
use recon.Prelude.{
  ℕ, zero, suc, Bool, true, false, not, ◌&&◌, ◌||◌, Option, none, some, [], ◌∷◌, ◌++◌, leb, ◌==◌,
  if◌then◌else◌, length, drop, Bytes, codes, starts_with,
}
use recon.KeyPath.{contains}

-- What the expansion asks of the process: os.LookupEnv, os.UserHomeDir and the home of user.Lookup,
-- `none` for an unset variable and for an error.
pub record Shell : Type 0 where
  pub find_variable : Bytes → Option Bytes
  pub home : Option Bytes
  pub home_of : Bytes → Option Bytes

-- A result: the text, the error of ${name:?message}, that of a home directory, and for the model the
-- end of the fuel.
pub data Expanded : Type 0 where
  expanded : Bytes → Expanded
  refused : Bytes → Bytes → Expanded
  no_home : Bytes → Expanded
  out_of_fuel : Expanded

-- os.Getenv: the empty text for an unset variable
unfoldable pub getenv : Shell → Bytes → Bytes
getenv sh name = elim (sh.find_variable name) [ none ↦ [] | some val ↦ val ]

unfoldable pub is_var_first_byte : ℕ → Bool
is_var_first_byte c = c == b'_' || (leb b'A' c && leb c b'Z') || (leb b'a' c && leb c b'z')

unfoldable pub is_var_byte : ℕ → Bool
is_var_byte c = is_var_first_byte c || (leb b'0' c && leb c b'9')

-- The bytes of a name at the start of a text, and the rest.
unfoldable pub span_name : Bytes → Bytes × Bytes
span_name [] = ([], [])
span_name (c ∷ s) =
    let (name, rest) = span_name s in if is_var_byte c then (c ∷ name, rest) else ([], c ∷ s)

pub data ShellOp : Type 0 where
  default_if_empty alternative_if_full error_if_empty default_if_unset alternative_if_set : ShellOp

-- The operator at the start of a text, with the word behind it, in the order of the code's list.
unfoldable pub shell_op : Bytes → Option (ShellOp × Bytes)
shell_op s =
    if starts_with s (codes ":-")
    then some (default_if_empty, drop 2 s)
    else if starts_with s (codes ":+")
    then some (alternative_if_full, drop 2 s)
    else if starts_with s (codes ":?")
    then some (error_if_empty, drop 2 s)
    else if starts_with s (codes "-")
    then some (default_if_unset, drop 1 s)
    else if starts_with s (codes "+")
    then some (alternative_if_set, drop 1 s)
    else none

unfoldable pub named_op : Bytes → Option (ShellOp × Bytes) → Option (Bytes × ShellOp × Bytes)
named_op name none = none
named_op name (some (op, rhs)) = some (name, op, rhs)

-- findShellOp: the name, the operator and the word; `none` for -1
unfoldable pub find_shell_op : Bytes → Option (Bytes × ShellOp × Bytes)
unfolding named_op
find_shell_op [] = none
find_shell_op (c ∷ s) =
    let (name, rest) = span_name s in
    if not (is_var_first_byte c) then none else named_op (c ∷ name) (shell_op rest)

-- The cases of evalBraced for an operator, what the variable holds, and whether that is a text that is
-- not empty.
unfoldable pub apply_op : Bytes → ShellOp → Bytes → Option Bytes → Expanded
apply_op name default_if_empty rhs none = expanded rhs
apply_op name default_if_empty rhs (some []) = expanded rhs
apply_op name default_if_empty rhs (some (c ∷ val)) = expanded (c ∷ val)
apply_op name default_if_unset rhs none = expanded rhs
apply_op name default_if_unset rhs (some val) = expanded val
apply_op name error_if_empty rhs none = refused name rhs
apply_op name error_if_empty rhs (some []) = refused name rhs
apply_op name error_if_empty rhs (some (c ∷ val)) = expanded (c ∷ val)
apply_op name alternative_if_full rhs none = expanded []
apply_op name alternative_if_full rhs (some []) = expanded []
apply_op name alternative_if_full rhs (some (c ∷ val)) = expanded rhs
apply_op name alternative_if_set rhs none = expanded []
apply_op name alternative_if_set rhs (some val) = expanded rhs

unfoldable pub eval_op : Shell → Bytes → Option (Bytes × ShellOp × Bytes) → Expanded
eval_op sh expr none = expanded (getenv sh expr)
eval_op sh expr (some (name, op, rhs)) = apply_op name op rhs (sh.find_variable name)

-- evalBraced
unfoldable pub eval_braced : Shell → Bytes → Expanded
unfolding eval_op apply_op
eval_braced sh expr = eval_op sh expr (find_shell_op expr)

-- The text up to the first closing brace, and the rest behind it.
unfoldable pub up_to_brace : Bytes → Option (Bytes × Bytes)
up_to_brace [] = none
up_to_brace (c ∷ s) =
    let rest = up_to_brace s in
    if c == b'}'
    then some ([], s)
    else elim rest [ none ↦ none | some (expr, t) ↦ some (c ∷ expr, t) ]

-- The loop of expandVars with expandBraced, on fuel, for the text that is left and the one written.
unfoldable pub expand_loop : Shell → ℕ → Bytes → Bytes → Expanded
expand_loop sh f [] b = expanded b
expand_loop sh zero (c ∷ s) b = out_of_fuel
expand_loop sh (suc f) (c ∷ []) b = expanded (b ++ c ∷ [])
expand_loop sh (suc f) (c ∷ d ∷ s) b = elim (c == b'$') [
  | false ↦ expand_loop sh f (d ∷ s) (b ++ c ∷ [])
  | true ↦ elim (d == b'{') [
    | true ↦ elim (up_to_brace s) [
      | none ↦ expanded (b ++ c ∷ d ∷ s)
      | some (expr, rest) ↦ elim (eval_braced sh expr) [
        | expanded out ↦ expand_loop sh f rest (b ++ out)
        | refused name message ↦ refused name message
        | no_home name ↦ no_home name
        | out_of_fuel ↦ out_of_fuel
      ]
    ]
    | false ↦ elim (is_var_first_byte d) [
      | true ↦ expand_loop sh f (span_name s).1 (b ++ getenv sh (d ∷ (span_name s).0))
      | false ↦ expand_loop sh f (d ∷ s) (b ++ c ∷ [])
    ]
  ]
]

-- expandVars
unfoldable pub expand_vars : Shell → Bytes → Expanded
expand_vars sh s = if not (contains b'$' s) then expanded s else expand_loop sh (length s) s []

-- The text of a user's name up to the first separator, and the rest from it on.
unfoldable pub up_to_separator : Bytes → Bytes × Bytes
up_to_separator [] = ([], [])
up_to_separator (c ∷ s) =
    let (name, rest) = up_to_separator s in
    if c == b'/' || c == 92 then ([], c ∷ s) else (c ∷ name, rest)

home_text : Bytes → Bytes → Option Bytes → Expanded
home_text name rest none = no_home name
home_text name rest (some home) = expanded (home ++ rest)

tilde_home : Shell → Bytes × Bytes → Expanded
tilde_home sh ([], rest) = home_text [] rest sh.home
tilde_home sh (c ∷ name, rest) = home_text (c ∷ name) rest (sh.home_of (c ∷ name))

-- expandTilde
unfoldable pub expand_tilde : Shell → Bytes → Expanded
unfolding tilde_home home_text
expand_tilde sh [] = expanded []
expand_tilde sh (c ∷ path) =
    if c == b'~' then tilde_home sh (up_to_separator path) else expanded (c ∷ path)

then_vars : Shell → Expanded → Expanded
then_vars sh (expanded path) = expand_vars sh path
then_vars sh e = e

-- expandShellPath
unfoldable pub expand_shell_path : Shell → Bytes → Expanded
unfolding then_vars
expand_shell_path sh [] = expanded []
expand_shell_path sh (c ∷ path) = then_vars sh (expand_tilde sh (c ∷ path))
