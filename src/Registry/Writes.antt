-- ===== src/Registry/Writes.antt =====
-- registry.go and registry_set.go: the writes of a registry. Each begins with the test that the
-- registry is open and ends with a rebuild, which is undone when it fails.
use recon.Prelude.Int.{ℤ, pos, negsuc}
use recon.Prelude.{
  ℕ, suc, Bool, false, not, ◌||◌, Option, none, some, List, [], ◌∷◌, ◌++◌, ltb, ◌==◌, if◌then◌else◌,
  length, take, drop, Bytes, bytes_eq, Map, lookup, put, remove,
}
use recon.KeyPath.{KeyPath}
use recon.Alias.{validate_no_alias_cycle}
use recon.Value.{GoValue}
use recon.Precedence.{Source, src_explicit, src_default}
use recon.Registry.{
  State, RegistryError, registry_closed, invalid_path, source_conflict, pin_error, alias_cycle,
  subscribed, unsubscribed, source_closed, full_key, restore_entry, write_entry, commit,
}

-- if err := r.validateNotClosed(); err != nil { return err }
unfoldable pub when_open : State → Option RegistryError × State → Option RegistryError × State
when_open st r = if st.closed then (some registry_closed, st) else r

unfoldable pub with_explicits : Map GoValue → State → State
with_explicits m st = record st { explicits = m }

unfoldable pub with_defaults : Map GoValue → State → State
with_defaults m st = record st { defaults = m }

unfoldable pub with_aliases : Map Bytes → State → State
with_aliases m st = record st { aliases = m }

unfoldable pub with_pins : Map Bytes → State → State
with_pins m st = record st { pins = m }

unfoldable pub with_sources : List Source → State → State
with_sources sources st = record st { sources = sources }

unfoldable pub keep : State → State
keep st = st

-- Registry.Set and SetDefault
unfoldable pub set : KeyPath → Bytes → GoValue → State → Option RegistryError × State
set prefix key v st =
    let fk = full_key prefix key in
    let m = write_entry st.explicits fk v in
    when_open st (
      commit (with_explicits m st) (with_explicits (restore_entry m fk (lookup fk st.explicits)))
        keep)

unfoldable pub set_default : KeyPath → Bytes → GoValue → State → Option RegistryError × State
set_default prefix key v st =
    let fk = full_key prefix key in
    let m = write_entry st.defaults fk v in
    when_open st (
      commit (with_defaults m st) (with_defaults (restore_entry m fk (lookup fk st.defaults))) keep)

-- The loop of setLayer over the values.
unfoldable pub write_all : KeyPath → Map GoValue → Map GoValue → Map GoValue
write_all prefix [] m = m
write_all prefix ((key, v) ∷ values) m =
    write_all prefix values (write_entry m (full_key prefix key) v)

-- SetValues and SetDefaults: setLayer on one of the layers
unfoldable pub set_values : KeyPath → Map GoValue → State → Option RegistryError × State
set_values prefix values st = when_open st (
    if length values == 0
    then (none, st)
    else commit (with_explicits (write_all prefix values st.explicits) st)
        (with_explicits st.explicits) keep)

unfoldable pub set_defaults : KeyPath → Map GoValue → State → Option RegistryError × State
set_defaults prefix values st = when_open st (
    if length values == 0
    then (none, st)
    else commit (with_defaults (write_all prefix values st.defaults) st) (with_defaults st.defaults)
        keep)

unfoldable pub unset : KeyPath → Bytes → State → Option RegistryError × State
unset prefix key st =
    let fk = full_key prefix key in
    let m = remove fk st.explicits in
    when_open st (elim (lookup fk st.explicits) [
      | none ↦ (none, st)
      | some prev ↦ commit (with_explicits m st) (with_explicits (put fk prev m)) keep
    ])

unfoldable pub register_alias : KeyPath → Bytes → Bytes → State → Option RegistryError × State
register_alias prefix alias canonical st =
    let fa = full_key prefix alias in
    let fc = full_key prefix canonical in
    let m = put fa fc st.aliases in
    when_open st (elim (validate_no_alias_cycle fa fc st.aliases) [
      | some chain ↦ (some (alias_cycle chain), st)
      | none ↦
          commit (with_aliases m st) (with_aliases (restore_entry m fa (lookup fa st.aliases))) keep
    ])

unfoldable pub has_source : Bytes → List Source → Bool
has_source name [] = false
has_source name (s ∷ sources) = bytes_eq s.name name || has_source name sources

unfoldable pub pin_source : KeyPath → Bytes → Bytes → State → Option RegistryError × State
pin_source prefix key name st =
    let fk = full_key prefix key in
    let m = put fk name st.pins in
    when_open st (
      if not (has_source name st.sources)
      then (some (pin_error name), st)
      else commit (with_pins m st) (with_pins (restore_entry m fk (lookup fk st.pins))) keep)

unfoldable pub unpin : KeyPath → Bytes → State → Option RegistryError × State
unpin prefix key st =
    let fk = full_key prefix key in
    let m = remove fk st.pins in
    when_open st (elim (lookup fk st.pins) [
      | none ↦ (none, st)
      | some prev ↦ commit (with_pins m st) (with_pins (put fk prev m)) keep
    ])

unfoldable pub is_reserved_source_name : Bytes → Bool
is_reserved_source_name name = bytes_eq name src_explicit || bytes_eq name src_default

unfoldable pub check_source_name : Bytes → List Source → Option RegistryError
check_source_name name sources =
    if bytes_eq name []
    then some invalid_path
    else if is_reserved_source_name name
    then some (source_conflict name)
    else if has_source name sources
    then some (source_conflict name)
    else none

-- r.state.watch.subscribeLocked and unsubscribeLocked, if there is a watch engine
unfoldable pub subscribe : Bytes → State → State
subscribe name st = if st.watching then record st { effects = subscribed name ∷ st.effects } else st

unfoldable pub unsubscribe : Bytes → State → State
unsubscribe name st =
    if st.watching then record st { effects = unsubscribed name ∷ st.effects } else st

unfoldable pub close_source : Bytes → State → State
close_source name st = record st { effects = source_closed name ∷ st.effects }

-- l[:len(l)-1]
unfoldable pub without_last {ℓ} : {A : Type ℓ} → List A → List A
without_last [] = []
without_last (x ∷ []) = []
without_last (x ∷ y ∷ l) = x ∷ without_last (y ∷ l)

-- A nil Source is `none`.
unfoldable pub add_source : Option Source → State → Option RegistryError × State
add_source none st = when_open st (some invalid_path, st)
add_source (some s) st =
    let sources = st.sources ++ s ∷ [] in
    when_open st (elim (check_source_name s.name st.sources) [
      | some e ↦ (some e, st)
      | none ↦
          commit (with_sources sources st) (with_sources (without_last sources)) (subscribe s.name)
    ])

-- slices.Insert and slices.Delete of one element
unfoldable pub insert_at {ℓ} : {A : Type ℓ} → ℕ → A → List A → List A
insert_at i x l = take i l ++ x ∷ drop i l

unfoldable pub delete_at {ℓ} : {A : Type ℓ} → ℕ → List A → List A
delete_at i l = take i l ++ drop (suc i) l

unfoldable pub clamp : ℤ → ℕ → ℕ
clamp (negsuc i) n = 0
clamp (pos i) n = if ltb n i then n else i

unfoldable pub insert_source : ℤ → Option Source → State → Option RegistryError × State
insert_source at none st = when_open st (some invalid_path, st)
insert_source at (some s) st =
    let i = clamp at (length st.sources) in
    let sources = insert_at i s st.sources in
    when_open st (elim (check_source_name s.name st.sources) [
      | some e ↦ (some e, st)
      | none ↦
          commit (with_sources sources st) (with_sources (delete_at i sources)) (subscribe s.name)
    ])

-- The index and the first source of that name.
unfoldable pub find_source : Bytes → ℕ → List Source → Option (ℕ × Source)
find_source name i [] = none
find_source name i (s ∷ sources) =
    let rest = find_source name (suc i) sources in
    if bytes_eq s.name name then some (i, s) else rest

unfoldable pub remove_source : Bytes → State → Option RegistryError × State
remove_source name st = when_open st (elim (find_source name 0 st.sources) [
  | none ↦ (none, st)
  | some (i, removed) ↦
      let sources = delete_at i st.sources in
      commit (with_sources sources st) (with_sources (insert_at i removed sources))
        (λ st'. close_source name (unsubscribe name st'))
])
