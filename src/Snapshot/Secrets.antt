-- ===== src/Snapshot/Secrets.antt =====
-- snapshot.go: which keys are secret.
use recon.Prelude.{
  ℕ, Bool, true, false, not, ◌&&◌, ◌||◌, List, [], ◌∷◌, if◌then◌else◌, take, Bytes, bytes_eq, Map,
}
use recon.KeyPath.{top_level_delims}
use recon.Alias.{resolve_alias_chain, member}

-- The struct secretMatcher.
pub record SecretMatcher : Type 0 where
  pub keys : List Bytes
  pub aliases : Map Bytes

unfoldable pub marked_alias : List Bytes → Map Bytes → Map Bytes → Bytes → Bool
marked_alias keys [] aliases ks = false
marked_alias keys ((alias, canon) ∷ rest) aliases ks =
    (member alias keys && bytes_eq (resolve_alias_chain canon aliases) ks)
    || marked_alias keys rest aliases ks

unfoldable pub marked : SecretMatcher → Bytes → Bool
marked m ks = member ks m.keys || marked_alias m.keys m.aliases m.aliases ks

unfoldable pub any_marked : SecretMatcher → Bytes → List ℕ → Bool
any_marked m ks [] = false
any_marked m ks (i ∷ delims) = marked m (take i ks) || any_marked m ks delims

unfoldable pub matches : SecretMatcher → Bytes → Bool
matches m ks = marked m ks || any_marked m ks (top_level_delims ks)

unfoldable pub no_keys : List Bytes → Bool
no_keys [] = true
no_keys (k ∷ keys) = false

unfoldable pub has : SecretMatcher → Bytes → Bool
has m ks =
    let canon = resolve_alias_chain ks m.aliases in
    if no_keys m.keys
    then false
    else if matches m ks
    then true
    else if not (bytes_eq canon ks)
    then matches m canon
    else false
