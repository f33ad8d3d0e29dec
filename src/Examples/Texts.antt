-- ===== src/Examples/Texts.antt =====
-- Struct tags and the expansion of variables on concrete texts.
use recon.Prelude.{
  map, ◌≡◌, refl, false, none, some, List, [], ◌∷◌, ◌++◌, if◌then◌else◌, length, All, codes,
  bytes_eq,
}
use recon.KeyPath.{contains}
use recon.Binding.Expansion.{Shell, expand_vars, expand_loop}
use recon.Binding.Ends.{Ends, expand_vars-Ends}
use recon.Binding.Tags.{
  no_tag, parse_tag, trim_space, trim_left, trim_right, is_space, space_width, all_space,
}
use recon.Binding.Options.{behind, HasNoComma}
use recon.Binding.Effects.{
  TagOption, is_required, default_to, with_alias, IsWritable, option_text, effects,
  parse_tag-effects,
}

abbrev shell : Shell
shell = record {
  find_variable = λ name. if bytes_eq name (codes "HOME") then some (codes "/root") else none;
  home = some (codes "/root");
  home_of = λ name. none;
}

expand_vars-Ends_example :
    Ends shell (expand_vars shell (codes "$HOME/${X:?not set}"))
    × (expand_vars shell (codes "$HOME/${X:?not set}")
        ≡ expand_loop shell (length (codes "$HOME/${X:?not set}")) (codes "$HOME/${X:?not set}") [])
expand_vars-Ends_example = expand_vars-Ends shell (codes "$HOME/${X:?not set}")

abbrev options : List TagOption
options = is_required ∷ default_to (codes "80") ∷ with_alias (codes "p") ∷ []

options-AreWritable : All IsWritable options
unfolding contains trim_space trim_left trim_right is_space space_width all_space bytes_eq
options-AreWritable = (tt, ((refl, (refl, refl)), (((refl, (refl, refl)), (refl, refl)), tt)))

port_trimmed : bytes_eq (trim_space (codes " port")) (codes "-") ≡ false
unfolding bytes_eq trim_space trim_left trim_right is_space space_width all_space
port_trimmed = refl

port-HasNoComma : HasNoComma (codes " port")
unfolding contains
port-HasNoComma = refl

parse_tag-effects_example :
    parse_tag (codes " port" ++ behind (map option_text options))
    ≡ effects options (record no_tag { name = trim_space (codes " port") })
parse_tag-effects_example =
    parse_tag-effects (codes " port") options port-HasNoComma port_trimmed options-AreWritable
