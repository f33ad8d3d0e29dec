-- ===== src/Examples/Paths.antt =====
-- path.go, alias.go and value.go on concrete inputs.
use recon.Prelude.{
  ◌≤◌, ◌≡◌, ◌↔◌, inl, inr, refl, subst, false, none, some, [], ◌∷◌, ◌++◌, map, Bool-cases, Bytes,
  codes, bytes_eq, bytes_eq_iff, compare_bytes, Map, lookup, put,
}
use recon.KeyPath.{
  double_brackets, separated, needs_brackets, write_segments, KeyPath, parse_path, parse_loop,
  to_string, append_canonical, top_level_delims, contains,
}
use recon.KeyPath.RoundTrip.{parse_path-to_string}
use recon.KeyPath.Parse.{parse_path_loop}
use recon.KeyPath.Canonical.{append_canonical_lem}
use recon.KeyPath.Compare.{compare_paths, compare_paths_lem}
use recon.KeyPath.Delims.{cut, texts, splits, top_level_delims_lem}
use recon.Alias.{
  max_alias_depth, resolve_alias_chain, validate_no_alias_cycle, validate_loop, member,
}
use recon.Alias.Chains.{Depth, last, link, Acyclic, Reaches, resolve-is_canonical_iff}
use recon.Alias.Cycles.{IsShort, validate_iff, put-Acyclic}
use recon.Value.Decimal.{max_uint64}
use recon.Value.{GoValue}
use recon.Value.GoValue.{any_slice, go_uint, go_string}
use recon.Value.GoValues.{go_none, go_cons}

abbrev dotted : KeyPath
dotted = codes "my.key" ∷ codes "a]b" ∷ [] ∷ codes "x[" ∷ []

bracketed_text : to_string dotted ≡ codes "[my.key].a]b..[x[]"
unfolding to_string write_segments needs_brackets contains separated double_brackets
bracketed_text = refl

parse_path-to_string_example : parse_path (to_string dotted) ≡ dotted
parse_path-to_string_example = parse_path-to_string dotted

parse_path_loop_example : parse_path (codes "a.b") ≡ parse_loop 3 (codes "a.b") [] []
parse_path_loop_example = parse_path_loop b'a' (codes ".b")

append_canonical_example : append_canonical dotted (codes "k=") ≡ codes "k=" ++ to_string dotted
append_canonical_example = append_canonical_lem dotted (codes "k=")

abbrev server_port : KeyPath
server_port = codes "server" ∷ codes "port" ∷ []

abbrev server_host : KeyPath
server_host = codes "server" ∷ codes "host" ∷ []

compare_paths_example :
    compare_paths server_port server_host
    ≡ compare_bytes (to_string server_port) (to_string server_host)
compare_paths_example = compare_paths_lem server_port server_host

top_level_delims_example :
    map (cut (to_string dotted)) (top_level_delims (to_string dotted))
    ≡ map texts (splits (codes "my.key" ∷ []) (codes "a]b" ∷ [] ∷ codes "x[" ∷ []))
top_level_delims_example =
    top_level_delims_lem (codes "my.key") (codes "a]b" ∷ [] ∷ codes "x[" ∷ [])

-- An alias graph with one link, old → new.
abbrev one_alias : Map Bytes
one_alias = (codes "old", codes "new") ∷ []

new_free : lookup (codes "new") one_alias ≡ none
unfolding lookup bytes_eq
new_free = refl

old_links : lookup (codes "old") one_alias ≡ some (codes "new")
unfolding lookup bytes_eq
old_links = refl

other_free : (k : Bytes) → bytes_eq (codes "old") k ≡ false → lookup k one_alias ≡ none
unfolding lookup
other_free k e = rw e refl

new_ends : Depth one_alias (codes "new") 0
new_ends = last new_free

old_ends : Depth one_alias (codes "old") 1
old_ends = link old_links new_ends

one_alias-Acyclic : Acyclic one_alias
one_alias-Acyclic k = elim (Bool-cases (bytes_eq (codes "old") k)) [
  | inl e ↦ (1, subst (λ j. Depth one_alias j 1) ((bytes_eq_iff (codes "old") k).0 e) old_ends)
  | inr e ↦ (0, last (other_free k e))
]

resolve_example :
    (lookup (resolve_alias_chain (codes "old") one_alias) one_alias ≡ none) ↔ (1 ≤ max_alias_depth)
resolve_example = resolve-is_canonical_iff (codes "old") one_alias old_ends

validate_example :
    (validate_no_alias_cycle (codes "new") (codes "old") one_alias ≡ none)
    ↔ ((¬ Reaches one_alias (codes "old") (codes "new")) × IsShort one_alias (codes "old"))
validate_example = validate_iff (codes "new") (codes "old") one_alias one_alias-Acyclic

abbrev two_aliases : Map Bytes
two_aliases = put (codes "older") (codes "old") one_alias

older_accepted : validate_no_alias_cycle (codes "older") (codes "old") one_alias ≡ none
unfolding validate_no_alias_cycle validate_loop lookup bytes_eq member
older_accepted = refl

put-Acyclic_example :
    Acyclic two_aliases
    × (resolve_alias_chain (codes "older") two_aliases
        ≡ resolve_alias_chain (codes "old") two_aliases)
    × (lookup (resolve_alias_chain (codes "older") two_aliases) two_aliases ≡ none)
put-Acyclic_example =
    put-Acyclic (codes "older") (codes "old") one_alias one_alias-Acyclic older_accepted

-- A list of an integer above the range of int64 and a text.
abbrev big_list : GoValue
big_list = any_slice (go_cons (go_uint max_uint64) (go_cons (go_string (codes "x")) go_none))
