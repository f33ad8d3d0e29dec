-- ===== src/Registry/Rollback.antt =====
-- The writes of a registry are atomic: one that fails leaves every layer as it was.
use recon.Prelude.Int.{ℤ}
use recon.Prelude.{
  ◌≡◌, inl, inr, refl, ap, Option, none, some, arith, Option-cases, Bytes, bytes_eq_iff, Map,
  lookup, put, remove, lookup-put, lookup-remove,
}
use recon.KeyPath.{KeyPath}
use recon.Value.{GoValue}
use recon.Precedence.{Source}
use recon.Snapshot.Reads.{Snapshot}
use recon.Prelude.{bytes_eq_iff}
use recon.Snapshot.Views.{build_snapshot}
use recon.Registry.{
  State, RegistryError, rebuild, install, candidate_error, undo_or, commit, restore_entry,
  inputs_of,
}
use recon.Registry.Writes.{
  set, set_default, set_values, set_defaults, unset, register_alias, pin_source, unpin, add_source,
  insert_source, remove_source,
}

-- A write of the registry, through a view with the prefix that `run` has.
pub data Command : Type 0 where
  set_key set_default_key : Bytes → GoValue → Command
  set_all set_all_defaults : Map GoValue → Command
  unset_key unpin_key : Bytes → Command
  alias_key pin_key : Bytes → Bytes → Command
  add : Option Source → Command
  insert : ℤ → Option Source → Command
  remove_named : Bytes → Command

unfoldable pub run : Command → KeyPath → State → Option RegistryError × State
run (set_key key v) prefix st = set prefix key v st
run (set_default_key key v) prefix st = set_default prefix key v st
run (set_all values) prefix st = set_values prefix values st
run (set_all_defaults values) prefix st = set_defaults prefix values st
run (unset_key key) prefix st = unset prefix key st
run (unpin_key key) prefix st = unpin prefix key st
run (alias_key alias canonical) prefix st = register_alias prefix alias canonical st
run (pin_key key name) prefix st = pin_source prefix key name st
run (add s) prefix st = add_source s st
run (insert at s) prefix st = insert_source at s st
run (remove_named name) prefix st = remove_source name st

-- The registry reads the same: the sources in their order, every entry of every layer, the
-- snapshot, and nothing was done outside.
pub record Unchanged (st st' : State) : Type 0 where
  pub sources : st'.sources ≡ st.sources
  pub explicits : (k : Bytes) → lookup k st'.explicits ≡ lookup k st.explicits
  pub defaults : (k : Bytes) → lookup k st'.defaults ≡ lookup k st.defaults
  pub aliases : (k : Bytes) → lookup k st'.aliases ≡ lookup k st.aliases
  pub pins : (k : Bytes) → lookup k st'.pins ≡ lookup k st.pins
  pub snapshot : st'.snapshot ≡ st.snapshot
  pub effects : st'.effects ≡ st.effects

abbrev pub IsAtomic : State → Option RegistryError × State → Type 0
IsAtomic st r = (e : RegistryError) → r.0 ≡ some e → Unchanged st r.1

install-error :
    (st : State) (candidate : Snapshot) (o : Option RegistryError) (e : RegistryError)
    → (install st candidate o).0 ≡ some e
    → (install st candidate o).1 ≡ st
unfolding install
install-error st candidate none e h = absurd (ground arith)
install-error st candidate (some e') e h = refl

undo_or-error :
    (undo done : State → State) (st st' : State) (o : Option RegistryError) (e : RegistryError)
    → ((e' : RegistryError) → o ≡ some e' → st' ≡ st)
    → (undo_or undo done o st').0 ≡ some e
    → (undo_or undo done o st').1 ≡ undo st
unfolding undo_or
undo_or-error undo done st st' none e same h = absurd (ground arith)
undo_or-error undo done st st' (some e') e same h = ap undo (same e' refl)

pub commit-error :
    (st : State) (undo done : State → State) (e : RegistryError)
    → (commit st undo done).0 ≡ some e
    → (commit st undo done).1 ≡ undo st
unfolding commit rebuild
commit-error st undo done e h =
    undo_or-error undo done st (rebuild st).1 (rebuild st).0 e
      (install-error st (build_snapshot (inputs_of st))
        (candidate_error st (build_snapshot (inputs_of st))))
      h

module _ {ℓ} {V : Type ℓ} where
  -- Undoing a change of one entry gives every entry back.
  pub restore_entry-put :
      (m : Map V) (k j : Bytes) (v : V)
      → lookup j (restore_entry (put k v m) k (lookup k m)) ≡ lookup j m
  unfolding restore_entry
  restore_entry-put m k j v = elim (Option-cases (lookup k m)) [
    | inl e ↦ ground (arith, e, bytes_eq_iff k j, lookup-remove k j (put k v m), lookup-put k j v m)
    | inr (w, e) ↦
        ground (arith, e, bytes_eq_iff k j, lookup-put k j w (put k v m), lookup-put k j v m)
  ]

  pub restore_entry-remove :
      (m : Map V) (k j : Bytes) → lookup j (restore_entry (remove k m) k (lookup k m)) ≡ lookup j m
  unfolding restore_entry
  restore_entry-remove m k j = elim (Option-cases (lookup k m)) [
    | inl e ↦
        ground (arith, e, bytes_eq_iff k j, lookup-remove k j (remove k m), lookup-remove k j m)
    | inr (w, e) ↦
        ground (arith, e, bytes_eq_iff k j, lookup-put k j w (remove k m), lookup-remove k j m)
  ]

  pub put-remove :
      (m : Map V) (k j : Bytes) (v : V)
      → lookup k m ≡ some v
      → lookup j (put k v (remove k m)) ≡ lookup j m
  put-remove m k j v e =
      ground (arith, e, bytes_eq_iff k j, lookup-put k j v (remove k m), lookup-remove k j m)
