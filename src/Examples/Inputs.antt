-- ===== src/Examples/Inputs.antt =====
-- The map, environment and family sources on concrete inputs.
use recon.Prelude.{
  ◌≡◌, ◌↔◌, inl, inr, refl, sym, ap, ◌∙◌, true, false, none, some, [], ◌∷◌, arith, if◌then◌else◌,
  Bytes, codes, bytes_eq, bytes_eq_iff,
}
use mathlib.Core.List.{Memᴰ}
use mathlib.Core.List.Memᴰ.{head}
use recon.Value.{GoValue, GoEntries, new_value}
use recon.Value.GoValue.{any_map, go_string, go_bool}
use recon.Value.GoEntries.{go_end, go_entry}
use recon.Precedence.{present}
use recon.Precedence.Merge.{go_find}
use recon.Sources.MapSource.{MapSource, map_keys, map_get, walk_at}
use recon.Sources.Leaves.{Distinct, is_leaf, map_keys-mem}
use recon.Sources.Transforms.{snake_upper_prefix_transform, to_upper, upper_byte, join, join_from}
use recon.Sources.Environment.{Process, collect_keys, env_get}
use recon.Sources.EnvKeys.{prefix_source, collect_keys-mem}
use recon.Sources.Family.{EnvFamily, cut_pair, set_nested_segments, family_keys, family_get}
use recon.Sources.Nested.{walk_at-set_nested_segments-Diverge}
use recon.Sources.Listed.{Answers, family_keys-mem}

abbrev server : GoEntries
server = go_entry (codes "port") (go_string (codes "80")) go_end

abbrev file : MapSource
file = record {
  name = codes "file";
  entries =
      go_entry (codes "server") (any_map server) (go_entry (codes "debug") (go_bool true) go_end);
  env_keys = none;
}

file-Distinct : Distinct file.entries
unfolding Distinct go_find bytes_eq
file-Distinct = (refl, (refl, tt, tt), (refl, tt, tt))

map_keys-mem_example : Memᴰ (codes "server" ∷ codes "port" ∷ []) (map_keys false file) ↔ (
    (v : GoValue) × (walk_at (any_map file.entries) (codes "server" ∷ codes "port" ∷ []) ≡ some v)
    × (is_leaf v ≡ true)
    × (map_get file (codes "server" ∷ codes "port" ∷ []) ≡ present (new_value v)))
map_keys-mem_example =
    map_keys-mem false file (codes "server" ∷ codes "port" ∷ []) refl file-Distinct

abbrev variable : Bytes
variable = codes "APP_DB=x"

abbrev process : Process
process = record {
  environ = variable ∷ [];
  find_variable = λ name. if bytes_eq name (codes "APP_DB") then some (codes "x") else none;
  fold_case = false;
}

variable_name : snake_upper_prefix_transform (codes "APP_") (codes "db" ∷ []) ≡ codes "APP_DB"
unfolding snake_upper_prefix_transform to_upper upper_byte join join_from
variable_name = refl

variable_cut : cut_pair variable [] ≡ some (codes "APP_DB", codes "x")
unfolding cut_pair
variable_cut = refl

variable_found : process.find_variable (codes "APP_DB") ≡ some (codes "x")
unfolding bytes_eq
variable_found = refl

collect_keys-mem_example :
    Memᴰ (codes "db" ∷ []) (collect_keys process (prefix_source false (codes "APP_")))
    × (env_get process (prefix_source false (codes "APP_")) (codes "db" ∷ [])
        ≡ present (new_value (go_string (codes "x"))))
collect_keys-mem_example =
    collect_keys-mem process (codes "APP_") variable (codes "x") (codes "db" ∷ [])
      (
        (
          (ground arith, (inr (omega arith), omega arith)),
          ((ground arith, (inr (omega arith), omega arith)), tt),
        ),
        tt,
      )
      (cc) (cc) (head refl) (variable_cut ∙ ap (λ n. some (n, codes "x")) (sym variable_name))
      (ap process.find_variable variable_name ∙ variable_found)

walk_at-set_nested_segments-Diverge_example :
    walk_at
      (any_map (set_nested_segments server (codes "host" ∷ codes "name" ∷ []) (go_bool true)))
      (codes "port" ∷ [])
    ≡ walk_at (any_map server) (codes "port" ∷ [])
walk_at-set_nested_segments-Diverge_example =
    walk_at-set_nested_segments-Diverge server (codes "host" ∷ codes "name" ∷ [])
      (codes "port" ∷ []) (go_bool true)
      (inl (λ e. absurd (ground (arith, (bytes_eq_iff (codes "host") (codes "port")).1 e))))

abbrev family : EnvFamily
family = record { target = codes "http" ∷ []; base = codes "APP_HTTP"; separator = codes "__" }

family_keys-mem_example :
    Memᴰ (codes "http" ∷ []) (family_keys (codes "APP_HTTP__PORT=80" ∷ []) (family ∷ []))
    ↔ Answers (family_get (codes "APP_HTTP__PORT=80" ∷ []) (family ∷ []) (codes "http" ∷ []))
family_keys-mem_example =
    family_keys-mem (codes "APP_HTTP__PORT=80" ∷ []) (family ∷ []) (codes "http" ∷ [])
