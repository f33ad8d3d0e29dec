-- ===== src/Sources/Flags.antt =====
-- source_flag.go: the source on a parser of command-line flags.
use recon.Prelude.{
  not, ◌&&◌, Option, none, some, List, [], ◌∷◌, map, ◌==◌, if◌then◌else◌, Bytes, codes,
}
use recon.KeyPath.{KeyPath, parse_path, equal}
use recon.Value.{GoValue, new_value}
use recon.Precedence.{Answer, present, absent}
use recon.Sources.Sorting.{sort_paths}

-- The interface FlagAdapter, which the program of a caller implements: Names, and Lookup with `none`
-- for a flag that was not set.
pub record FlagAdapter : Type 0 where
  pub names : List Bytes
  pub find_flag : Bytes → Option GoValue

pub record FlagSource : Type 0 where
  pub adapter : FlagAdapter
  pub name : Bytes
  pub transform : Bytes → KeyPath

unfoldable pub default_flag_path_transform : Bytes → KeyPath
default_flag_path_transform [] = parse_path []
default_flag_path_transform (c ∷ []) = parse_path (if c == b'-' then [] else c ∷ [])
default_flag_path_transform (c ∷ d ∷ name) =
    parse_path
      (if c == b'-' && d == b'-' then name else if c == b'-' then d ∷ name else c ∷ d ∷ name)

-- NewFlagSource on an adapter, with the options' name and transform
unfoldable pub new_flag_source : FlagAdapter → Option Bytes → Option (Bytes → KeyPath) → FlagSource
new_flag_source adapter name transform = record {
  adapter = adapter;
  name = elim name [ none ↦ codes "flags" | some n ↦ n ];
  transform = elim transform [ none ↦ default_flag_path_transform | some t ↦ t ];
}

-- The loop of Get over the names.
unfoldable pub first_flag : FlagSource → KeyPath → List Bytes → Answer
first_flag s p [] = absent
first_flag s p (name ∷ names) =
    let rest = first_flag s p names in
    if not (equal (s.transform name) p)
    then rest
    else elim (s.adapter.find_flag name) [ none ↦ rest | some raw ↦ present (new_value raw) ]

unfoldable pub flag_get : FlagSource → KeyPath → Answer
flag_get s p = first_flag s p s.adapter.names

-- FlagSource.Keys
unfoldable pub flag_keys : FlagSource → List KeyPath
flag_keys s = sort_paths (map s.transform s.adapter.names)
