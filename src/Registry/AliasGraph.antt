-- ===== src/Registry/AliasGraph.antt =====
-- Whatever is written to a registry, its aliases form no cycle.
use recon.Prelude.Int.{ℤ}
use recon.Prelude.{Bool-cases, Option-cases, inl, inr}
use recon.Prelude.{
  ℕ, ◌≡◌, inl, inr, refl, sym, ap, ◌∙◌, subst, Bool, true, false, not, Option, none, some, List,
  arith, ◌==◌, if◌then◌else◌, Bool-cases, Option-cases, length, Bytes, Map, lookup, put,
}
use recon.KeyPath.{KeyPath}
use recon.Alias.{validate_no_alias_cycle}
use recon.Alias.Chains.{Depth, last, link, Acyclic}
use recon.Alias.Cycles.{put-Acyclic}
use recon.Precedence.{Source}
use recon.Value.{GoValue}
use recon.Snapshot.Reads.{Snapshot}
use recon.Snapshot.Views.{build_snapshot}
use recon.Registry.{
  State, RegistryError, rebuild, install, candidate_error, undo_or, commit, inputs_of, full_key,
}
use recon.Registry.Writes.{
  keep, set, set_default, set_values, set_defaults, unset, register_alias, pin_source, unpin,
  add_source, insert_source, remove_source, when_open, has_source, check_source_name, find_source,
  subscribe, unsubscribe, close_source, with_explicits, with_defaults, with_pins, with_sources,
  with_aliases,
}
use recon.Registry.Rollback.{
  Command, run, set_key, set_default_key, set_all, set_all_defaults, unset_key, unpin_key,
  alias_key, pin_key, add, insert, remove_named,
}
use recon.Registry.AtomicSources.{run-IsAtomic}

Depth-same :
    (m m' : Map Bytes) {k : Bytes} {n : ℕ}
    → ((j : Bytes) → lookup j m' ≡ lookup j m)
    → Depth m k n
    → Depth m' k n
Depth-same m m' {k} same (last e) = last (same k ∙ e)
Depth-same m m' {k} same (link e d) = link (same k ∙ e) (Depth-same m m' same d)

Acyclic-same :
    (m m' : Map Bytes) → ((j : Bytes) → lookup j m' ≡ lookup j m) → Acyclic m → Acyclic m'
Acyclic-same m m' same h k = let (n, d) = h k in (n, Depth-same m m' same d)

abbrev KeepsAliases : (State → State) → Type 0
KeepsAliases f = (st : State) → (f st).aliases ≡ st.aliases

install-aliases :
    (st : State) (candidate : Snapshot) (o : Option RegistryError)
    → (install st candidate o).1.aliases ≡ st.aliases
unfolding install
install-aliases st candidate none = refl
install-aliases st candidate (some e) = refl

undo_or-aliases :
    (undo done : State → State) (o : Option RegistryError) (st : State)
    → KeepsAliases undo
    → KeepsAliases done
    → (undo_or undo done o st).1.aliases ≡ st.aliases
unfolding undo_or
undo_or-aliases undo done none st u d = d st
undo_or-aliases undo done (some e) st u d = u st

commit-aliases :
    (st : State) (undo done : State → State)
    → KeepsAliases undo
    → KeepsAliases done
    → (commit st undo done).1.aliases ≡ st.aliases
unfolding commit rebuild
commit-aliases st undo done u d =
    undo_or-aliases undo done (rebuild st).0 (rebuild st).1 u d
    ∙ install-aliases st (build_snapshot (inputs_of st))
        (candidate_error st (build_snapshot (inputs_of st)))

-- A registration that is accepted leaves the graph with the new alias.
undo_or-ok :
    (undo done : State → State) (o : Option RegistryError) (st : State)
    → (undo_or undo done o st).0 ≡ none
    → KeepsAliases done
    → (undo_or undo done o st).1.aliases ≡ st.aliases
unfolding undo_or
undo_or-ok undo done none st e d = d st
undo_or-ok undo done (some err) st e d = absurd (ground arith)

commit-ok :
    (st : State) (undo : State → State)
    → (commit st undo keep).0 ≡ none
    → (commit st undo keep).1.aliases ≡ st.aliases
unfolding commit rebuild
commit-ok st undo e =
    undo_or-ok undo keep (rebuild st).0 (rebuild st).1 e (λ st'. unfold keep in refl)
    ∙ install-aliases st (build_snapshot (inputs_of st))
        (candidate_error st (build_snapshot (inputs_of st)))

if-aliases :
    (b : Bool) (r r' : Option RegistryError × State) (m : Map Bytes)
    → r.1.aliases ≡ m
    → r'.1.aliases ≡ m
    → (if b then r else r').1.aliases ≡ m
if-aliases true r r' m h h' = h
if-aliases false r r' m h h' = h'

if-same :
    (b : Bool) (st st' : State)
    → st.aliases ≡ st'.aliases
    → (if b then st else st').aliases ≡ st'.aliases
if-same true st st' h = h
if-same false st st' h = refl

subscribe-aliases : (name : Bytes) → KeepsAliases (subscribe name)
unfolding subscribe
subscribe-aliases name st = if-same st.watching _ st refl

removed-aliases : (name : Bytes) → KeepsAliases (λ st. close_source name (unsubscribe name st))
unfolding close_source unsubscribe
removed-aliases name st = if-same st.watching _ st refl

module _ (st : State) where
  when_open-aliases :
      (r : Option RegistryError × State)
      → r.1.aliases ≡ st.aliases
      → (when_open st r).1.aliases ≡ st.aliases
  unfolding when_open
  when_open-aliases r h = if-aliases st.closed _ r st.aliases refl h

  commit_layer :
      (f : State → State) (undo : State → State)
      → KeepsAliases f
      → KeepsAliases undo
      → (commit (f st) undo keep).1.aliases ≡ st.aliases
  commit_layer f undo k u = commit-aliases (f st) undo keep u (λ st'. unfold keep in refl) ∙ k st

  commit_sources :
      (f undo done : State → State)
      → KeepsAliases f
      → KeepsAliases undo
      → KeepsAliases done
      → (commit (f st) undo done).1.aliases ≡ st.aliases
  commit_sources f undo done k u d = commit-aliases (f st) undo done u d ∙ k st

  unset-aliases : (prefix : KeyPath) (key : Bytes) → (unset prefix key st).1.aliases ≡ st.aliases
  unfolding unset with_explicits
  unset-aliases prefix key = elim (Option-cases (lookup (full_key prefix key) st.explicits)) [
    | inl e ↦ rw e (when_open-aliases _ refl)
    | inr (v, e) ↦
        rw e (when_open-aliases _ (commit_layer (with_explicits _) _ (λ s. refl) (λ s. refl)))
  ]

  unpin-aliases : (prefix : KeyPath) (key : Bytes) → (unpin prefix key st).1.aliases ≡ st.aliases
  unfolding unpin with_pins
  unpin-aliases prefix key = elim (Option-cases (lookup (full_key prefix key) st.pins)) [
    | inl e ↦ rw e (when_open-aliases _ refl)
    | inr (v, e) ↦ rw e (when_open-aliases _ (commit_layer (with_pins _) _ (λ s. refl) (λ s. refl)))
  ]

  add_source-aliases : (s : Option Source) → (add_source s st).1.aliases ≡ st.aliases
  unfolding add_source with_sources
  add_source-aliases none = when_open-aliases _ refl
  add_source-aliases (some s) = elim (Option-cases (check_source_name s.name st.sources)) [
    | inl e ↦ rw e (
        when_open-aliases _ (
          commit_sources (with_sources _) _ _ (λ s'. refl) (λ s'. refl) (subscribe-aliases s.name)))
    | inr (err, e) ↦ rw e (when_open-aliases _ refl)
  ]

  insert_source-aliases :
      (at : ℤ) (s : Option Source) → (insert_source at s st).1.aliases ≡ st.aliases
  unfolding insert_source with_sources
  insert_source-aliases at none = when_open-aliases _ refl
  insert_source-aliases at (some s) = elim (Option-cases (check_source_name s.name st.sources)) [
    | inl e ↦ rw e (
        when_open-aliases _ (
          commit_sources (with_sources _) _ _ (λ s'. refl) (λ s'. refl) (subscribe-aliases s.name)))
    | inr (err, e) ↦ rw e (when_open-aliases _ refl)
  ]

  remove_source-aliases : (name : Bytes) → (remove_source name st).1.aliases ≡ st.aliases
  unfolding remove_source with_sources
  remove_source-aliases name = elim (Option-cases (find_source name 0 st.sources)) [
    | inl e ↦ rw e (when_open-aliases _ refl)
    | inr ((i, s), e) ↦ rw e (
        when_open-aliases _
          (commit_sources (with_sources _) _ _ (λ s'. refl) (λ s'. refl) (removed-aliases name)))
  ]

  set-aliases :
      (prefix : KeyPath) (key : Bytes) (v : GoValue) → (set prefix key v st).1.aliases ≡ st.aliases
  unfolding set with_explicits
  set-aliases prefix key v =
      when_open-aliases _ (commit_layer (with_explicits _) _ (λ s. refl) (λ s. refl))

  set_default-aliases :
      (prefix : KeyPath) (key : Bytes) (v : GoValue)
      → (set_default prefix key v st).1.aliases ≡ st.aliases
  unfolding set_default with_defaults
  set_default-aliases prefix key v =
      when_open-aliases _ (commit_layer (with_defaults _) _ (λ s. refl) (λ s. refl))

  set_values-aliases :
      (prefix : KeyPath) (values : Map GoValue)
      → (set_values prefix values st).1.aliases ≡ st.aliases
  unfolding set_values with_explicits
  set_values-aliases prefix values = when_open-aliases _ (
      if-aliases (length values == 0) _ _ st.aliases refl
        (commit_layer (with_explicits _) _ (λ s. refl) (λ s. refl)))

  set_defaults-aliases :
      (prefix : KeyPath) (values : Map GoValue)
      → (set_defaults prefix values st).1.aliases ≡ st.aliases
  unfolding set_defaults with_defaults
  set_defaults-aliases prefix values = when_open-aliases _ (
      if-aliases (length values == 0) _ _ st.aliases refl
        (commit_layer (with_defaults _) _ (λ s. refl) (λ s. refl)))

  pin_source-aliases :
      (prefix : KeyPath) (key name : Bytes) → (pin_source prefix key name st).1.aliases ≡ st.aliases
  unfolding pin_source with_pins
  pin_source-aliases prefix key name = when_open-aliases _ (
      if-aliases (not (has_source name st.sources)) _ _ st.aliases refl
        (commit_layer (with_pins _) _ (λ s. refl) (λ s. refl)))

  when_open-ok : (r : Option RegistryError × State) → (when_open st r).0 ≡ none → when_open st r ≡ r
  unfolding when_open
  when_open-ok r h = elim (Bool-cases st.closed) [
    | inl e ↦ absurd (ground arith)
    | inr e ↦ ground arith
  ]

abbrev registered :
    Bytes → Bytes → State → (State → State) → Option (List KeyPath) → Option RegistryError × State
registered fa fc st undo o = elim o [
  | some chain ↦ (some (RegistryError.alias_cycle chain), st)
  | none ↦ commit (with_aliases (put fa fc st.aliases) st) undo keep
]

-- What RegisterAlias does in an open registry.
register_open :
    (fa fc : Bytes) (st : State) (undo : State → State) (o : Option (List KeyPath))
    → o ≡ validate_no_alias_cycle fa fc st.aliases
    → Acyclic st.aliases
    → (registered fa fc st undo o).0 ≡ none
    → Acyclic (registered fa fc st undo o).1.aliases
unfolding with_aliases
register_open fa fc st undo (some chain) same h e = absurd (ground arith)
register_open fa fc st undo none same h e =
    subst Acyclic (sym (commit-ok (with_aliases (put fa fc st.aliases) st) undo e))
      (put-Acyclic fa fc st.aliases h (sym same)).0

register_alias-ok :
    (prefix : KeyPath) (alias canonical : Bytes) (st : State)
    → Acyclic st.aliases
    → (register_alias prefix alias canonical st).0 ≡ none
    → Acyclic (register_alias prefix alias canonical st).1.aliases
unfolding register_alias
register_alias-ok prefix alias canonical st h e =
    let fa = full_key prefix alias in
    let fc = full_key prefix canonical in
    let ok = when_open-ok st _ e in
    subst (λ r. Acyclic r.1.aliases) (sym ok)
      (register_open fa fc st _ (validate_no_alias_cycle fa fc st.aliases) refl h
        (sym (ap (λ r. r.0) ok) ∙ e))

-- No write makes a cycle of aliases, whether it succeeds or fails.
pub run-Acyclic :
    (c : Command) (prefix : KeyPath) (st : State)
    → Acyclic st.aliases
    → Acyclic (run c prefix st).1.aliases
unfolding run
run-Acyclic (set_key key v) prefix st h = subst Acyclic (sym (set-aliases st prefix key v)) h
run-Acyclic (set_default_key key v) prefix st h =
    subst Acyclic (sym (set_default-aliases st prefix key v)) h
run-Acyclic (set_all values) prefix st h =
    subst Acyclic (sym (set_values-aliases st prefix values)) h
run-Acyclic (set_all_defaults values) prefix st h =
    subst Acyclic (sym (set_defaults-aliases st prefix values)) h
run-Acyclic (unset_key key) prefix st h = subst Acyclic (sym (unset-aliases st prefix key)) h
run-Acyclic (unpin_key key) prefix st h = subst Acyclic (sym (unpin-aliases st prefix key)) h
run-Acyclic (pin_key key name) prefix st h =
    subst Acyclic (sym (pin_source-aliases st prefix key name)) h
run-Acyclic (add s) prefix st h = subst Acyclic (sym (add_source-aliases st s)) h
run-Acyclic (insert at s) prefix st h = subst Acyclic (sym (insert_source-aliases st at s)) h
run-Acyclic (remove_named name) prefix st h = subst Acyclic (sym (remove_source-aliases st name)) h
run-Acyclic (alias_key alias canonical) prefix st h =
    elim (Option-cases (register_alias prefix alias canonical st).0) [
      | inl e ↦ register_alias-ok prefix alias canonical st h e
      | inr (err, e) ↦
          Acyclic-same st.aliases (register_alias prefix alias canonical st).1.aliases
            (run-IsAtomic (alias_key alias canonical) prefix st err (unfold run in e)).aliases h
    ]
