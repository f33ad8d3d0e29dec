-- ===== src/Sources/Environment.antt =====
-- source_env.go: the source on the process environment, with its cache of keys.
use recon.Prelude.{
  ℕ, Bool, true, false, not, ◌&&◌, ◌||◌, Option, none, some, List, [], ◌∷◌, ltb, if◌then◌else◌,
  length, Bytes, bytes_eq, Map, lookup, put,
}
use recon.KeyPath.{KeyPath, parse_path, to_string}
use recon.Value.{new_value}
use recon.Value.GoValue.{go_string}
use recon.Precedence.{Answer, present, absent}
use recon.Sources.Transforms.{
  KeyTransform, snake_upper_prefix_transform, parse_snake_upper, has_env_prefix,
}
use recon.Sources.Sorting.{sort_keyed}
use recon.Sources.Family.{cut_pair}

-- The process at one time: os.Environ(), env.OSEnv().Lookup, and envNamesFoldCase.
pub record Process : Type 0 where
  pub environ : List Bytes
  pub find_variable : Bytes → Option Bytes
  pub fold_case : Bool

-- The struct envOptions.
pub record EnvOptions : Type 0 where
  pub prefix : Bytes
  pub transform : Option KeyTransform
  pub parser : Option (Bytes → Option KeyPath)
  pub vars : Map Bytes

-- The struct OSEnvSource without its lock; `keys` is `none` while cached is false.
pub record OsEnvSource : Type 0 where
  pub prefix : Bytes
  pub transform : KeyTransform
  pub parse : Bytes → Option KeyPath
  pub scoped : Bool
  pub keys : Option (List KeyPath)

-- inverse[name] = key
unfoldable pub inverse_vars : Map Bytes → Map Bytes → Map Bytes
inverse_vars [] inverse = inverse
inverse_vars ((key, name) ∷ vars) inverse = inverse_vars vars (put name key inverse)

unfoldable pub base_transform : EnvOptions → KeyTransform
base_transform cfg = elim cfg.transform [
  | none ↦ snake_upper_prefix_transform cfg.prefix
  | some t ↦ t
]

unfoldable pub base_parser : Bool → EnvOptions → Bytes → Option KeyPath
base_parser fold cfg = elim cfg.parser [
  | none ↦ λ name. parse_snake_upper fold name cfg.prefix
  | some p ↦ p
]

unfoldable pub vars_transform : EnvOptions → KeyTransform
vars_transform cfg p = elim (lookup (to_string p) cfg.vars) [
  | some name ↦ name
  | none ↦ base_transform cfg p
]

unfoldable pub vars_parser : Bool → EnvOptions → Bytes → Option KeyPath
vars_parser fold cfg name = elim (lookup name (inverse_vars cfg.vars [])) [
  | some key ↦ some (parse_path key)
  | none ↦ base_parser fold cfg name
]

has_parser : Option (Bytes → Option KeyPath) → Bool
has_parser none = false
has_parser (some p) = true

-- NewOSEnvSource
unfoldable pub new_os_env_source : Bool → EnvOptions → OsEnvSource
unfolding has_parser
new_os_env_source fold cfg =
    let explicit = ltb 0 (length cfg.vars) in
    record {
      prefix = if explicit then [] else cfg.prefix;
      transform = if explicit then vars_transform cfg else base_transform cfg;
      parse = if explicit then vars_parser fold cfg else base_parser fold cfg;
      scoped = not (bytes_eq cfg.prefix []) || explicit || has_parser cfg.parser;
      keys = none;
    }

unfoldable pub found_variable : Option Bytes → Answer
found_variable none = absent
found_variable (some val) = present (new_value (go_string val))

unfoldable pub variable_answer : Process → Bytes → Answer
variable_answer proc [] = absent
variable_answer proc (c ∷ name) = found_variable (proc.find_variable (c ∷ name))

-- OSEnvSource.Get
unfoldable pub env_get : Process → OsEnvSource → KeyPath → Answer
unfolding variable_answer found_variable
env_get proc s [] = absent
env_get proc s (seg ∷ p) = variable_answer proc (s.transform (seg ∷ p))

-- The path of a variable's name, `none` for a name that is skipped.
unfoldable pub parsed_name : Bool → OsEnvSource → Bytes → Option KeyPath
parsed_name fold s name =
    if not (bytes_eq s.prefix []) && not (has_env_prefix fold name s.prefix)
    then none
    else s.parse name

unfoldable pub variable_path : Bool → OsEnvSource → Option (Bytes × Bytes) → Option KeyPath
variable_path fold s none = none
variable_path fold s (some ([], val)) = none
variable_path fold s (some (c ∷ name, val)) = parsed_name fold s (c ∷ name)

unfoldable pub add_path : Option KeyPath → Map KeyPath → Map KeyPath
add_path none found = found
add_path (some []) found = found
add_path (some (seg ∷ p)) found = (to_string (seg ∷ p), seg ∷ p) ∷ found

unfoldable pub found_keys : Bool → OsEnvSource → List Bytes → Map KeyPath
found_keys fold s [] = []
found_keys fold s (kv ∷ environ) =
    add_path (variable_path fold s (cut_pair kv [])) (found_keys fold s environ)

unfoldable pub second_of : Map KeyPath → List KeyPath
second_of [] = []
second_of ((k, p) ∷ ps) = p ∷ second_of ps

-- collectKeys
unfoldable pub collect_keys : Process → OsEnvSource → List KeyPath
collect_keys proc s = second_of (sort_keyed (found_keys proc.fold_case s proc.environ))

-- OSEnvSource.Refresh, with its result
unfoldable pub refresh : Process → OsEnvSource → ℕ × OsEnvSource
refresh proc s = let keys = collect_keys proc s in (length keys, record s { keys = some keys })

-- OSEnvSource.Keys
unfoldable pub env_keys : Process → OsEnvSource → List KeyPath × OsEnvSource
env_keys proc s = elim s.keys [
  | some keys ↦ (keys, s)
  | none ↦ (collect_keys proc s, record s { keys = some (collect_keys proc s) })
]
