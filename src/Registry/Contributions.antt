-- ===== src/Registry/Contributions.antt =====
-- per_source.go: the view of the sources of a key agrees with the resolution of the key.
use recon.Prelude.{
  ◌≡◌, ◌≢◌, refl, sym, ap, ◌∙◌, true, false, Option, none, some, List, [], ◌∷◌, map, if◌then◌else◌,
  All, Bytes,
}
use recon.KeyPath.{KeyPath, parse_path}
use recon.Alias.{resolve_alias_chain}
use recon.Value.{Value}
use recon.Value.Access.{Runtime, Result, ok, err}
use recon.Precedence.{
  Source, Answer, present, absent, failed, SnapshotInputs, source_get, aliases_at, contributions,
}
use recon.Snapshot.Resolve.{prepare}
use recon.Registry.{State, inputs_of, full_key}
use recon.Registry.Generic.{GoType, TypeOf, coerce_value_to}
use recon.Registry.PerSource.{
  ValueSource, PerSource, source_entry, answer_entry, found_entry, coerced_entry, layers_of,
  view_of, per_source_for,
}

-- The entries with IsSet.
unfoldable pub set_entries : {t : GoType} → List (ValueSource t) → List (ValueSource t)
set_entries [] = []
set_entries (e ∷ es) = let rest = set_entries es in if e.is_set then e ∷ rest else rest

-- What a source contributes, converted.
unfoldable pub as_entry : Runtime → (t : GoType) → Bytes × Value → ValueSource t
as_entry go t (name, v) = coerced_entry name (coerce_value_to go t v)

-- The Get of the source does not fail at the path.
abbrev pub DoesAnswer : KeyPath → Source → Type 0
DoesAnswer p s = (e : Bytes) → s.get p ≢ failed e

coerced_entry-is_set :
    (t : GoType) (name : Bytes) (r : Result (TypeOf t))
    → (coerced_entry {t = t} name r).is_set ≡ true
unfolding coerced_entry
coerced_entry-is_set t name (ok a) = refl
coerced_entry-is_set t name (err e) = refl

source_get-present :
    (s : Source) (p : KeyPath) (k : Bytes) (is : SnapshotInputs) (v : Value)
    → s.get p ≡ present v
    → source_get s p k is ≡ some v
unfolding source_get
source_get-present s p k is v h = rw (h, source_get) refl

source_entry-found :
    (go : Runtime) (t : GoType) (s : Source) (p : KeyPath) (k : Bytes) (is : SnapshotInputs)
    (a : Answer)
    → s.get p ≡ a
    → DoesAnswer p s
    → source_entry go t s p k is ≡ found_entry go t s.name (source_get s p k is)
unfolding source_entry answer_entry
source_entry-found go t s p k is (present v) e h =
    ap (λ a. answer_entry go t s.name a (source_get s p k is)) e
    ∙ ap (found_entry go t s.name) (sym (source_get-present s p k is v e))
source_entry-found go t s p k is absent e h =
    ap (λ a. answer_entry go t s.name a (source_get s p k is)) e
source_entry-found go t s p k is (failed f) e h = absurd (h f e)

-- The two inputs have the same aliases, which are all that the sources are asked with.
source_get-layers_of :
    (st : State) (s : Source) (p : KeyPath) (k : Bytes)
    → source_get s p k (layers_of st) ≡ source_get s p k (prepare (inputs_of st))
unfolding source_get aliases_at layers_of prepare inputs_of
source_get-layers_of st s p k = refl

-- Of one more source the entry is kept if the source contributes.
set_entries-cons :
    (go : Runtime) (t : GoType) (s : Source) (o : Option Value) (es : List (ValueSource t))
    → set_entries (found_entry go t s.name o ∷ es)
      ≡ elim o [ none ↦ set_entries es | some v ↦ as_entry go t (s.name, v) ∷ set_entries es ]
unfolding set_entries found_entry as_entry
set_entries-cons go t s none es = refl
set_entries-cons go t s (some v) es =
    rw (coerced_entry-is_set t s.name (coerce_value_to go t v)) refl

picked :
    (go : Runtime) (t : GoType) (n : Bytes) (o : Option Value) (es : List (ValueSource t))
    (cs : List (Bytes × Value))
    → es ≡ map (as_entry go t) cs
    → elim o [ none ↦ es | some v ↦ as_entry go t (n, v) ∷ es ]
      ≡ map (as_entry go t) (elim o [ none ↦ cs | some v ↦ (n, v) ∷ cs ])
picked go t n none es cs h = h
picked go t n (some v) es cs h = ap (λ l. as_entry go t (n, v) ∷ l) h

set_entries-contributions :
    (go : Runtime) (t : GoType) (st : State) (p : KeyPath) (k : Bytes) (sources : List Source)
    → All (DoesAnswer p) sources
    → set_entries (map (λ s. source_entry go t s p k (layers_of st)) sources)
      ≡ map (as_entry go t) (contributions sources p k (prepare (inputs_of st)))
unfolding contributions
set_entries-contributions go t st p k [] h = unfold set_entries in refl
set_entries-contributions go t st p k (s ∷ sources) (h, hs) =
    let is = layers_of st in
    let rest = set_entries-contributions go t st p k sources hs in
    let others = map (λ s. source_entry go t s p k is) sources in
    ap (λ e. set_entries (e ∷ others)) (source_entry-found go t s p k is (s.get p) refl h)
    ∙ set_entries-cons go t s (source_get s p k is) others
    ∙ rw (source_get-layers_of st s p k)
        (picked go t s.name (source_get s p k (prepare (inputs_of st))) _ _ rest)

-- On an open registry PerSourceFor succeeds, at the canonical key of its key, and if no source fails
-- there, the entries that are set are what the sources contribute to the resolution of that key, in
-- the order of precedence and converted.
pub per_source_for-contributions :
    (go : Runtime) (t : GoType) (st : State) (prefix : KeyPath) (key : Bytes)
    → st.closed ≡ false
    → All
        (DoesAnswer (parse_path (resolve_alias_chain (full_key prefix key) st.aliases)))
        st.sources
    → (per : PerSource t) × (per_source_for go t st prefix key ≡ ok per)
      × (per.path ≡ parse_path (resolve_alias_chain (full_key prefix key) st.aliases))
      × (set_entries per.sources
          ≡ map (as_entry go t) (
              contributions st.sources per.path
                (resolve_alias_chain (full_key prefix key) st.aliases)
                (prepare (inputs_of st))))
unfolding per_source_for view_of
per_source_for-contributions go t st prefix key h hs =
    let canon = resolve_alias_chain (full_key prefix key) st.aliases in
    (
      view_of go t st prefix key,
      rw h refl,
      refl,
      set_entries-contributions go t st (parse_path canon) canon st.sources hs,
    )
