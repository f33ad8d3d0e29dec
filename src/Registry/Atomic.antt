-- ===== src/Registry/Atomic.antt =====
-- Every write of a registry that fails leaves it as it was.
use recon.Prelude.{Option-cases, inl, inr}
use recon.Prelude.{
  ◌≡◌, inl, inr, refl, sym, subst, Bool, true, false, not, Option, none, List, ◌==◌, if◌then◌else◌,
  Option-cases, length, Bytes, Map, lookup,
}
use recon.KeyPath.{KeyPath}
use recon.Alias.{validate_no_alias_cycle}
use recon.Value.{GoValue}
use recon.Value.GoValue.{go_nil}
use recon.Precedence.{Source}
use recon.Registry.{State, RegistryError, commit, restore_entry, write_entry, full_key}
use recon.Registry.Writes.{
  set, set_default, set_values, set_defaults, unset, register_alias, pin_source, unpin, when_open,
  with_explicits, with_defaults, with_aliases, with_pins, with_sources, has_source,
}
use recon.Registry.Rollback.{
  Unchanged, IsAtomic, commit-error, restore_entry-put, restore_entry-remove, put-remove,
}

module _ (st : State) where
  pub unchanged : Unchanged st st
  unchanged = record {
    sources = refl;
    explicits = λ k. refl;
    defaults = λ k. refl;
    aliases = λ k. refl;
    pins = λ k. refl;
    snapshot = refl;
    effects = refl;
  }

  pub same-IsAtomic : (o : Option RegistryError) → IsAtomic st (o, st)
  same-IsAtomic o e h = unchanged

  -- A write that is skipped in one case.
  if-IsAtomic :
      (b : Bool) (o : Option RegistryError) (r : Option RegistryError × State)
      → IsAtomic st r
      → IsAtomic st (if b then (o, st) else r)
  if-IsAtomic true o r h = same-IsAtomic o
  if-IsAtomic false o r h = h

  pub when_open-IsAtomic :
      (r : Option RegistryError × State) → IsAtomic st r → IsAtomic st (when_open st r)
  unfolding when_open
  when_open-IsAtomic r h = if-IsAtomic st.closed _ r h

  pub commit-IsAtomic :
      (st' : State) (undo done : State → State)
      → Unchanged st (undo st')
      → IsAtomic st (commit st' undo done)
  commit-IsAtomic st' undo done h e f =
      subst (Unchanged st) (sym (commit-error st' undo done e f)) h

  explicits_back :
      (m m' : Map GoValue)
      → ((k : Bytes) → lookup k m' ≡ lookup k st.explicits)
      → Unchanged st (with_explicits m' (with_explicits m st))
  unfolding with_explicits
  explicits_back m m' h = record {
    sources = refl;
    explicits = h;
    defaults = λ k. refl;
    aliases = λ k. refl;
    pins = λ k. refl;
    snapshot = refl;
    effects = refl;
  }

  defaults_back :
      (m m' : Map GoValue)
      → ((k : Bytes) → lookup k m' ≡ lookup k st.defaults)
      → Unchanged st (with_defaults m' (with_defaults m st))
  unfolding with_defaults
  defaults_back m m' h = record {
    sources = refl;
    explicits = λ k. refl;
    defaults = h;
    aliases = λ k. refl;
    pins = λ k. refl;
    snapshot = refl;
    effects = refl;
  }

  aliases_back :
      (m m' : Map Bytes)
      → ((k : Bytes) → lookup k m' ≡ lookup k st.aliases)
      → Unchanged st (with_aliases m' (with_aliases m st))
  unfolding with_aliases
  aliases_back m m' h = record {
    sources = refl;
    explicits = λ k. refl;
    defaults = λ k. refl;
    aliases = h;
    pins = λ k. refl;
    snapshot = refl;
    effects = refl;
  }

  pins_back :
      (m m' : Map Bytes)
      → ((k : Bytes) → lookup k m' ≡ lookup k st.pins)
      → Unchanged st (with_pins m' (with_pins m st))
  unfolding with_pins
  pins_back m m' h = record {
    sources = refl;
    explicits = λ k. refl;
    defaults = λ k. refl;
    aliases = λ k. refl;
    pins = h;
    snapshot = refl;
    effects = refl;
  }

  pub sources_back :
      (l l' : List Source) → l' ≡ st.sources → Unchanged st (with_sources l' (with_sources l st))
  unfolding with_sources
  sources_back l l' h = record {
    sources = h;
    explicits = λ k. refl;
    defaults = λ k. refl;
    aliases = λ k. refl;
    pins = λ k. refl;
    snapshot = refl;
    effects = refl;
  }

  restore_entry-write :
      (m : Map GoValue) (k j : Bytes) (v : GoValue)
      → lookup j (restore_entry (write_entry m k v) k (lookup k m)) ≡ lookup j m
  unfolding write_entry
  restore_entry-write m k j go_nil = restore_entry-remove m k j
  restore_entry-write m k j v = restore_entry-put m k j v

  pub set-IsAtomic :
      (prefix : KeyPath) (key : Bytes) (v : GoValue) → IsAtomic st (set prefix key v st)
  unfolding set
  set-IsAtomic prefix key v = when_open-IsAtomic _ (
      commit-IsAtomic _ _ _
        (explicits_back _ _ (λ j. restore_entry-write st.explicits (full_key prefix key) j v)))

  pub set_default-IsAtomic :
      (prefix : KeyPath) (key : Bytes) (v : GoValue) → IsAtomic st (set_default prefix key v st)
  unfolding set_default
  set_default-IsAtomic prefix key v = when_open-IsAtomic _ (
      commit-IsAtomic _ _ _
        (defaults_back _ _ (λ j. restore_entry-write st.defaults (full_key prefix key) j v)))

  pub set_values-IsAtomic :
      (prefix : KeyPath) (values : Map GoValue) → IsAtomic st (set_values prefix values st)
  unfolding set_values
  set_values-IsAtomic prefix values = when_open-IsAtomic _ (
      if-IsAtomic (length values == 0) _ _ (commit-IsAtomic _ _ _ (explicits_back _ _ (λ k. refl))))

  pub set_defaults-IsAtomic :
      (prefix : KeyPath) (values : Map GoValue) → IsAtomic st (set_defaults prefix values st)
  unfolding set_defaults
  set_defaults-IsAtomic prefix values =
      when_open-IsAtomic _ (
        if-IsAtomic (length values == 0) _ _
          (commit-IsAtomic _ _ _ (defaults_back _ _ (λ k. refl))))

  pub unset-IsAtomic : (prefix : KeyPath) (key : Bytes) → IsAtomic st (unset prefix key st)
  unfolding unset
  unset-IsAtomic prefix key = elim (Option-cases (lookup (full_key prefix key) st.explicits)) [
    | inl e ↦ rw e (when_open-IsAtomic _ (same-IsAtomic none))
    | inr (v, e) ↦ rw e (
        when_open-IsAtomic _ (
          commit-IsAtomic _ _ _
            (explicits_back _ _ (λ j. put-remove st.explicits (full_key prefix key) j v e))))
  ]

  pub unpin-IsAtomic : (prefix : KeyPath) (key : Bytes) → IsAtomic st (unpin prefix key st)
  unfolding unpin
  unpin-IsAtomic prefix key = elim (Option-cases (lookup (full_key prefix key) st.pins)) [
    | inl e ↦ rw e (when_open-IsAtomic _ (same-IsAtomic none))
    | inr (v, e) ↦ rw e (
        when_open-IsAtomic _ (
          commit-IsAtomic _ _ _
            (pins_back _ _ (λ j. put-remove st.pins (full_key prefix key) j v e))))
  ]

  pub pin_source-IsAtomic :
      (prefix : KeyPath) (key name : Bytes) → IsAtomic st (pin_source prefix key name st)
  unfolding pin_source
  pin_source-IsAtomic prefix key name = when_open-IsAtomic _ (
      if-IsAtomic (not (has_source name st.sources)) _ _ (
        commit-IsAtomic _ _ _
          (pins_back _ _ (λ j. restore_entry-put st.pins (full_key prefix key) j name))))

  pub register_alias-IsAtomic :
      (prefix : KeyPath) (alias canonical : Bytes)
      → IsAtomic st (register_alias prefix alias canonical st)
  unfolding register_alias
  register_alias-IsAtomic prefix alias canonical =
      let fa = full_key prefix alias in
      let fc = full_key prefix canonical in
      elim (Option-cases (validate_no_alias_cycle fa fc st.aliases)) [
        | inl e ↦ rw e (
            when_open-IsAtomic _ (
              commit-IsAtomic _ _ _ (aliases_back _ _ (λ j. restore_entry-put st.aliases fa j fc))))
        | inr (chain, e) ↦ rw e (when_open-IsAtomic _ (same-IsAtomic _))
      ]
