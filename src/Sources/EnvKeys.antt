-- ===== src/Sources/EnvKeys.antt =====
-- source_env.go: Keys lists the paths of the variables that are set.
use recon.Prelude.{
  ◌≡◌, ◌≢◌, refl, sym, ap, ◌∙◌, subst, Bool, true, Option, none, some, List, [], ◌∷◌, arith, All,
  Bytes, Map,
}
use mathlib.Core.List.{Memᴰ}
use mathlib.Core.List.Memᴰ.{head, tail, not-nil}
use recon.KeyPath.{KeyPath, to_string}
use recon.Value.{new_value}
use recon.Value.GoValue.{go_string}
use recon.Precedence.{present}
use recon.Sources.Transforms.{
  snake_upper_prefix_transform, has_env_prefix, parse_snake_upper, snake_upper_transform,
}
use recon.Sources.RoundTrip.{
  IsPlainSegment, parse_snake_upper-snake_upper_prefix_transform, prefixed, has_env_prefix-append,
  name-ne-nil,
}
use recon.Sources.SortLaws.{sort_keyed-mem}
use recon.Sources.Family.{cut_pair}
use recon.Sources.Environment.{
  Process, EnvOptions, OsEnvSource, new_os_env_source, base_transform, base_parser, parsed_name,
  variable_path, add_path, found_keys, second_of, variable_answer, found_variable, collect_keys,
  env_get,
}

second_of-mem :
    (k : Bytes) (p : KeyPath) (ps : Map KeyPath) → Memᴰ (k, p) ps → Memᴰ p (second_of ps)
unfolding second_of
second_of-mem k p [] m = absurd (not-nil m)
second_of-mem k p ((j, q) ∷ ps) (head e) = head (ap (λ a. a.1) e)
second_of-mem k p ((j, q) ∷ ps) (tail m) = tail (second_of-mem k p ps m)

add_path-mem :
    (o : Option KeyPath) (e : Bytes × KeyPath) (found : Map KeyPath)
    → Memᴰ e found
    → Memᴰ e (add_path o found)
unfolding add_path
add_path-mem none e found m = m
add_path-mem (some []) e found m = m
add_path-mem (some (seg ∷ p)) e found m = tail m

found_keys-mem :
    (fold : Bool) (s : OsEnvSource) (environ : List Bytes) (kv seg : Bytes) (p : KeyPath)
    → Memᴰ kv environ
    → variable_path fold s (cut_pair kv []) ≡ some (seg ∷ p)
    → Memᴰ (to_string (seg ∷ p), seg ∷ p) (found_keys fold s environ)
unfolding found_keys
found_keys-mem fold s [] kv seg p m h = absurd (not-nil m)
found_keys-mem fold s (v ∷ environ) kv seg p (head e) h =
    subst (λ o. Memᴰ (to_string (seg ∷ p), seg ∷ p) (add_path o (found_keys fold s environ)))
      (sym (ap (λ t. variable_path fold s (cut_pair t [])) (sym e) ∙ h))
      (unfold add_path in head refl)
found_keys-mem fold s (v ∷ environ) kv seg p (tail m) h =
    add_path-mem (variable_path fold s (cut_pair v [])) _ _
      (found_keys-mem fold s environ kv seg p m h)

-- The options of WithEnvPrefix alone.
abbrev pub prefix_options : Bytes → EnvOptions
prefix_options prefix = record { prefix = prefix; transform = none; parser = none; vars = [] }

abbrev pub prefix_source : Bool → Bytes → OsEnvSource
prefix_source fold prefix = new_os_env_source fold (prefix_options prefix)

prefix_path :
    (fold : Bool) (prefix name val : Bytes) (p : KeyPath)
    → name ≢ []
    → has_env_prefix fold name prefix ≡ true
    → parse_snake_upper fold name prefix ≡ some p
    → variable_path fold (prefix_source fold prefix) (some (name, val)) ≡ some p
unfolding variable_path parsed_name new_os_env_source base_parser
prefix_path fold prefix [] val p n h e = absurd (n refl)
prefix_path fold prefix (c ∷ name) val p n h e = rw (h, e) (ground arith)

full-ne-nil :
    (prefix : Bytes) (p : KeyPath)
    → p ≢ []
    → p ≢ [] ∷ []
    → snake_upper_prefix_transform prefix p ≢ []
full-ne-nil [] p h k e =
    name-ne-nil p h k (unfold snake_upper_prefix_transform snake_upper_transform in e)
full-ne-nil (c ∷ prefix) p h k e = absurd (ground (arith, sym (prefixed (c ∷ prefix) p) ∙ e))

variable_answer-found :
    (proc : Process) (name val : Bytes)
    → name ≢ []
    → proc.find_variable name ≡ some val
    → variable_answer proc name ≡ present (new_value (go_string val))
unfolding variable_answer found_variable
variable_answer-found proc [] val h e = absurd (h refl)
variable_answer-found proc (c ∷ name) val h e = rw e refl

-- In a source with a prefix, or without one, and no other options: a variable of the environment
-- whose name stands for a path of ASCII segments without underscores and upper-case letters, which is
-- not the path of no segment or of one empty one, is listed as that path, and Get of the path is the
-- variable's text, provided that looking the name up finds it.
pub collect_keys-mem :
    (proc : Process) (prefix kv val : Bytes) (p : KeyPath)
    → All IsPlainSegment p
    → p ≢ []
    → p ≢ [] ∷ []
    → Memᴰ kv proc.environ
    → cut_pair kv [] ≡ some (snake_upper_prefix_transform prefix p, val)
    → proc.find_variable (snake_upper_prefix_transform prefix p) ≡ some val
    → Memᴰ p (collect_keys proc (prefix_source proc.fold_case prefix))
      × (env_get proc (prefix_source proc.fold_case prefix) p ≡ present (new_value (go_string val)))
unfolding collect_keys env_get new_os_env_source base_transform
collect_keys-mem proc prefix kv val [] h n k m e l = absurd (n refl)
collect_keys-mem proc prefix kv val (seg ∷ p) h n k m e l =
    let fold = proc.fold_case in
    let s = prefix_source fold prefix in
    let name = snake_upper_prefix_transform prefix (seg ∷ p) in
    let not_empty = full-ne-nil prefix (seg ∷ p) n k in
    let starts : has_env_prefix fold name prefix ≡ true =
      subst (λ t. has_env_prefix fold t prefix ≡ true) (sym (prefixed prefix (seg ∷ p)))
        (has_env_prefix-append fold prefix (snake_upper_transform (seg ∷ p))) in
    let path : variable_path fold s (cut_pair kv []) ≡ some (seg ∷ p) =
      ap (variable_path fold s) e
      ∙ prefix_path fold prefix name val (seg ∷ p) not_empty starts
          (parse_snake_upper-snake_upper_prefix_transform fold prefix (seg ∷ p) h k) in
    let found = found_keys-mem fold s proc.environ kv seg p m path in
    (
      second_of-mem (to_string (seg ∷ p)) (seg ∷ p) _ ((sort_keyed-mem _ _).1 found),
      variable_answer-found proc name val not_empty l,
    )
