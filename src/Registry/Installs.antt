-- ===== src/Registry/Installs.antt =====
-- What every successful rebuild establishes, every successful write establishes.
use recon.Prelude.Int.{ℤ}
use recon.Prelude.{Option-cases, inl, inr}
use recon.Prelude.{
  ◌≡◌, inl, inr, refl, Bool, true, false, not, Option, none, some, List, arith, ◌==◌, if◌then◌else◌,
  Option-cases, length, Bytes, lookup,
}
use recon.KeyPath.{KeyPath}
use recon.Alias.{validate_no_alias_cycle}
use recon.Precedence.{Source}
use recon.Registry.{State, RegistryError, Effect, rebuild, undo_or, commit, full_key}
use recon.Registry.Writes.{
  keep, set, set_default, set_values, set_defaults, unset, register_alias, pin_source, unpin,
  add_source, insert_source, remove_source, when_open, has_source, check_source_name, find_source,
  subscribe, unsubscribe, close_source,
}
use recon.Registry.Rollback.{
  Command, run, set_key, set_default_key, set_all, set_all_defaults, unset_key, unpin_key,
  alias_key, pin_key, add, insert, remove_named,
}

-- A property of registries that a successful rebuild establishes, and that does not ask for effects.
module _ (P : State → Type 0) (installs : (st : State) → (rebuild st).0 ≡ none → P (rebuild st).1)
    (ignores : (st : State) (l : List Effect) → P st → P (record st { effects = l })) where
  abbrev IsInstalled : Option RegistryError × State → Type 0
  IsInstalled r = r.0 ≡ none → P r.1

  abbrev Keeps : (State → State) → Type 0
  Keeps f = (st : State) → P st → P (f st)

  undo_or-IsInstalled :
      (undo done : State → State) (o : Option RegistryError) (st : State)
      → Keeps done
      → IsInstalled (o, st)
      → IsInstalled (undo_or undo done o st)
  unfolding undo_or
  undo_or-IsInstalled undo done none st k h e = k st (h refl)
  undo_or-IsInstalled undo done (some err) st k h e = absurd (ground arith)

  commit-IsInstalled :
      (st : State) (undo done : State → State) → Keeps done → IsInstalled (commit st undo done)
  unfolding commit
  commit-IsInstalled st undo done k =
      undo_or-IsInstalled undo done (rebuild st).0 (rebuild st).1 k (installs st)

  keep-Keeps : Keeps keep
  unfolding keep
  keep-Keeps st h = h

  if_keeps : (b : Bool) (st st' : State) → P st → P st' → P (if b then st else st')
  if_keeps true st st' h h' = h
  if_keeps false st st' h h' = h'

  subscribe-Keeps : (name : Bytes) → Keeps (subscribe name)
  unfolding subscribe
  subscribe-Keeps name st h = if_keeps st.watching _ st (ignores st _ h) h

  close_source-Keeps : (name : Bytes) → Keeps (λ st. close_source name (unsubscribe name st))
  unfolding close_source unsubscribe
  close_source-Keeps name st h = ignores _ _ (if_keeps st.watching _ st (ignores st _ h) h)

  error-IsInstalled : (st : State) (e : RegistryError) → IsInstalled (some e, st)
  error-IsInstalled st e h = absurd (ground arith)

  module _ (st : State) (before : P st) where
    if-IsInstalled :
        (b : Bool) (r r' : Option RegistryError × State)
        → IsInstalled r
        → IsInstalled r'
        → IsInstalled (if b then r else r')
    if-IsInstalled true r r' h h' = h
    if-IsInstalled false r r' h h' = h'

    when_open-IsInstalled :
        (r : Option RegistryError × State) → IsInstalled r → IsInstalled (when_open st r)
    unfolding when_open
    when_open-IsInstalled r h =
        if-IsInstalled st.closed _ r (error-IsInstalled st RegistryError.registry_closed) h

    open_commit :
        (st' : State) (undo : State → State) → IsInstalled (when_open st (commit st' undo keep))
    open_commit st' undo = when_open-IsInstalled _ (commit-IsInstalled st' undo keep keep-Keeps)

    set_layer-IsInstalled :
        (b : Bool) (st' : State) (undo : State → State)
        → IsInstalled (when_open st (if b then (none, st) else commit st' undo keep))
    set_layer-IsInstalled b st' undo =
        when_open-IsInstalled _
          (if-IsInstalled b _ _ (λ e. before) (commit-IsInstalled st' undo keep keep-Keeps))

    unset-IsInstalled : (prefix : KeyPath) (key : Bytes) → IsInstalled (unset prefix key st)
    unfolding unset
    unset-IsInstalled prefix key = elim (Option-cases (lookup (full_key prefix key) st.explicits)) [
      | inl e ↦ rw e (when_open-IsInstalled _ (λ f. before))
      | inr (v, e) ↦ rw e (open_commit _ _)
    ]

    unpin-IsInstalled : (prefix : KeyPath) (key : Bytes) → IsInstalled (unpin prefix key st)
    unfolding unpin
    unpin-IsInstalled prefix key = elim (Option-cases (lookup (full_key prefix key) st.pins)) [
      | inl e ↦ rw e (when_open-IsInstalled _ (λ f. before))
      | inr (v, e) ↦ rw e (open_commit _ _)
    ]

    pin_source-IsInstalled :
        (prefix : KeyPath) (key name : Bytes) → IsInstalled (pin_source prefix key name st)
    unfolding pin_source
    pin_source-IsInstalled prefix key name = when_open-IsInstalled _ (
        if-IsInstalled (not (has_source name st.sources)) _ _ (error-IsInstalled st _)
          (commit-IsInstalled _ _ keep keep-Keeps))

    register_alias-IsInstalled :
        (prefix : KeyPath) (alias canonical : Bytes)
        → IsInstalled (register_alias prefix alias canonical st)
    unfolding register_alias
    register_alias-IsInstalled prefix alias canonical =
        elim (Option-cases (
          validate_no_alias_cycle (full_key prefix alias) (full_key prefix canonical) st.aliases)) [
            | inl e ↦ rw e (open_commit _ _)
            | inr (chain, e) ↦ rw e (when_open-IsInstalled _ (error-IsInstalled st _))
          ]

    add_source-IsInstalled : (s : Option Source) → IsInstalled (add_source s st)
    unfolding add_source
    add_source-IsInstalled none = when_open-IsInstalled _ (error-IsInstalled st _)
    add_source-IsInstalled (some s) = elim (Option-cases (check_source_name s.name st.sources)) [
      | inl e ↦ rw e (when_open-IsInstalled _ (commit-IsInstalled _ _ _ (subscribe-Keeps s.name)))
      | inr (err, e) ↦ rw e (when_open-IsInstalled _ (error-IsInstalled st _))
    ]

    insert_source-IsInstalled : (at : ℤ) (s : Option Source) → IsInstalled (insert_source at s st)
    unfolding insert_source
    insert_source-IsInstalled at none = when_open-IsInstalled _ (error-IsInstalled st _)
    insert_source-IsInstalled at (some s) =
        elim (Option-cases (check_source_name s.name st.sources)) [
          | inl e ↦
              rw e (when_open-IsInstalled _ (commit-IsInstalled _ _ _ (subscribe-Keeps s.name)))
          | inr (err, e) ↦ rw e (when_open-IsInstalled _ (error-IsInstalled st _))
        ]

    remove_source-IsInstalled : (name : Bytes) → IsInstalled (remove_source name st)
    unfolding remove_source
    remove_source-IsInstalled name = elim (Option-cases (find_source name 0 st.sources)) [
      | inl e ↦ rw e (when_open-IsInstalled _ (λ f. before))
      | inr ((i, s), e) ↦
          rw e (when_open-IsInstalled _ (commit-IsInstalled _ _ _ (close_source-Keeps name)))
    ]

  -- A write that succeeds leaves a registry with the property, provided that it had it before.
  pub run-IsInstalled :
      (c : Command) (prefix : KeyPath) (st : State) → P st → IsInstalled (run c prefix st)
  unfolding run set set_default set_values set_defaults
  run-IsInstalled (set_key key v) prefix st h = open_commit st h _ _
  run-IsInstalled (set_default_key key v) prefix st h = open_commit st h _ _
  run-IsInstalled (set_all values) prefix st h = set_layer-IsInstalled st h (length values == 0) _ _
  run-IsInstalled (set_all_defaults values) prefix st h =
      set_layer-IsInstalled st h (length values == 0) _ _
  run-IsInstalled (unset_key key) prefix st h = unset-IsInstalled st h prefix key
  run-IsInstalled (unpin_key key) prefix st h = unpin-IsInstalled st h prefix key
  run-IsInstalled (alias_key alias canonical) prefix st h =
      register_alias-IsInstalled st h prefix alias canonical
  run-IsInstalled (pin_key key name) prefix st h = pin_source-IsInstalled st h prefix key name
  run-IsInstalled (add s) prefix st h = add_source-IsInstalled st h s
  run-IsInstalled (insert at s) prefix st h = insert_source-IsInstalled st h at s
  run-IsInstalled (remove_named name) prefix st h = remove_source-IsInstalled st h name
