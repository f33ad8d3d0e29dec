-- ===== src/Precedence/Laws.antt =====
-- resolveKey: where the value of a key comes from, on every branch.
use recon.Prelude.{
  ◌≡◌, ◌≢◌, inl, inr, refl, sym, ap, ◌∙◌, subst, Option, none, some, List, [], ◌∷◌, ◌++◌, arith,
  Bool-cases, Option-cases, Bytes, bytes_eq, bytes_eq_iff, lookup,
}
use recon.KeyPath.{KeyPath}
use recon.Precedence.{
  some, Option, ◌∷◌, KeyPath, Bytes, List, Source, SnapshotInputs, MergeStrategy, merge_shadow,
  merge_append, merge_replace, Resolved, layer_get, source_get, contributions, src_explicit,
  src_default, resolve_default, resolve_append, resolve_pinned, resolve_key, merge_contributions,
  fold_descending, resolve_chain,
}
use recon.Precedence.Shadow.{names, first_of, AreNamed, skip, supply, resolve_shadow_lem}
use recon.Value.{Value, value, GoValue, new_value, with_source, source_of}

-- The first name of the provenance is that of the value, for a result that is there.
abbrev pub IsSourced : Resolved → Type 0
IsSourced none = Unit
IsSourced (some (v, srcs)) = (rest : List Bytes) × (srcs ≡ source_of v ∷ rest)

source-with_source : (v : Value) (n : Bytes) → source_of (with_source v n) ≡ n
unfolding source_of with_source
source-with_source (value r s) n = refl

sourced : (v : Value) (n : Bytes) (rest : List Bytes) → IsSourced (some (with_source v n, n ∷ rest))
sourced v n rest = (rest, ap (λ s. s ∷ rest) (sym (source-with_source v n)))

default_none :
    (k : Bytes) (is : SnapshotInputs)
    → layer_get is.defaults k is ≡ none
    → resolve_default k is ≡ none
unfolding resolve_default
default_none k is e = ground arith

default_some :
    (k : Bytes) (is : SnapshotInputs) (raw : GoValue)
    → layer_get is.defaults k is ≡ some raw
    → resolve_default k is ≡ some (with_source (new_value raw) src_default, src_default ∷ [])
unfolding resolve_default
default_some k is raw e = ground arith

resolve_default-IsSourced : (k : Bytes) (is : SnapshotInputs) → IsSourced (resolve_default k is)
resolve_default-IsSourced k is = elim (Option-cases (layer_get is.defaults k is)) [
  | inl e ↦ rw (default_none k is e) tt
  | inr (raw, e) ↦ rw (default_some k is raw e) (sourced (new_value raw) src_default [])
]

first_of-IsSourced :
    (cs : List (Bytes × Value)) (r : Resolved) → IsSourced r → IsSourced (first_of cs r)
first_of-IsSourced [] r h = h
first_of-IsSourced ((n, v) ∷ cs) r h = sourced v n (names cs)

merge-IsSourced : (cs : List (Bytes × Value)) → IsSourced (merge_contributions cs)
unfolding merge_contributions
merge-IsSourced [] = tt
merge-IsSourced ((n, v) ∷ cs) = sourced (fold_descending v cs) n (names cs)

module _ (p : KeyPath) (k : Bytes) (is : SnapshotInputs) where
  pinned-IsSourced :
      (sources : List Source) (pin : Bytes) → IsSourced (resolve_pinned sources pin p k is)
  unfolding resolve_pinned
  pinned-IsSourced [] pin = tt
  pinned-IsSourced (s ∷ sources) pin = elim (Bool-cases (bytes_eq s.name pin)) [
    | inr e ↦ rw e (pinned-IsSourced sources pin)
    | inl e ↦ elim (Option-cases (source_get s p k is)) [
      | inl none_there ↦ rw (e, none_there) tt
      | inr (v, found) ↦ rw (e, found) (sourced v s.name [])
    ]
  ]

  chain-IsSourced :
      (m : MergeStrategy) (arena : Option (List Bytes))
      → AreNamed is.sources
      → IsSourced (resolve_chain m p k is arena).0
  unfolding resolve_chain
  chain-IsSourced merge_append arena h = unfold resolve_append in merge-IsSourced _
  chain-IsSourced merge_shadow arena h =
      rw (resolve_shadow_lem p k is arena h)
        (first_of-IsSourced _ _ (resolve_default-IsSourced k is))
  chain-IsSourced merge_replace arena h =
      rw (resolve_shadow_lem p k is arena h)
        (first_of-IsSourced _ _ (resolve_default-IsSourced k is))

  -- The three layers, from the top.
  pub key_explicit :
      (arena : Option (List Bytes)) (raw : GoValue)
      → layer_get is.explicits k is ≡ some raw
      → (resolve_key p k is arena).0
        ≡ some (with_source (new_value raw) src_explicit, src_explicit ∷ [])
  unfolding resolve_key
  key_explicit arena raw e = ground arith

  pub key_pinned :
      (arena : Option (List Bytes)) (pin : Bytes)
      → layer_get is.explicits k is ≡ none
      → lookup k is.pins ≡ some pin
      → (resolve_key p k is arena).0 ≡ resolve_pinned is.sources pin p k is
  unfolding resolve_key
  key_pinned arena pin e f = ground arith

  pub key_chain :
      (arena : Option (List Bytes))
      → layer_get is.explicits k is ≡ none
      → lookup k is.pins ≡ none
      → (resolve_key p k is arena).0 ≡ (resolve_chain is.merge p k is arena).0
  unfolding resolve_key
  key_chain arena e f = ground arith

  key-IsSourced :
      (arena : Option (List Bytes)) → AreNamed is.sources → IsSourced (resolve_key p k is arena).0
  key-IsSourced arena h = elim (Option-cases (layer_get is.explicits k is)) [
    | inr (raw, e) ↦ rw (key_explicit arena raw e) (sourced (new_value raw) src_explicit [])
    | inl e ↦ elim (Option-cases (lookup k is.pins)) [
      | inr (pin, f) ↦ rw (key_pinned arena pin e f) (pinned-IsSourced is.sources pin)
      | inl f ↦ rw (key_chain arena e f) (chain-IsSourced is.merge arena h)
    ]
  ]

  -- A key that is found has its value's source first in its provenance, under either strategy
  -- and whichever layer supplied it.
  pub resolve_key-source :
      (arena : Option (List Bytes)) (v : Value) (srcs : List Bytes)
      → AreNamed is.sources
      → (resolve_key p k is arena).0 ≡ some (v, srcs)
      → (rest : List Bytes) × (srcs ≡ source_of v ∷ rest)
  resolve_key-source arena v srcs h e = subst IsSourced e (key-IsSourced arena h)

  pinned-source :
      (sources : List Source) (pin : Bytes) (v : Value) (srcs : List Bytes)
      → resolve_pinned sources pin p k is ≡ some (v, srcs)
      → (source_of v ≡ pin) × (srcs ≡ pin ∷ [])
  unfolding resolve_pinned
  pinned-source [] pin v srcs h = absurd (ground arith)
  pinned-source (s ∷ sources) pin v srcs h = elim (Bool-cases (bytes_eq s.name pin)) [
    | inr e ↦ pinned-source sources pin v srcs (ground arith)
    | inl e ↦ elim (Option-cases (source_get s p k is)) [
      | inl none_there ↦ absurd (ground arith)
      | inr (w, found) ↦ (
        ground (arith, source-with_source w s.name, bytes_eq_iff s.name pin),
        ground (arith, bytes_eq_iff s.name pin),
      )
    ]
  ]

  -- A pinned key without an override is supplied by the source of that name or not at all: no
  -- other source and no default answers for it.
  pub resolve_key-pinned :
      (arena : Option (List Bytes)) (pin : Bytes) (v : Value) (srcs : List Bytes)
      → layer_get is.explicits k is ≡ none
      → lookup k is.pins ≡ some pin
      → (resolve_key p k is arena).0 ≡ some (v, srcs)
      → (source_of v ≡ pin) × (srcs ≡ pin ∷ [])
  unfolding resolve_key
  resolve_key-pinned arena pin v srcs e f h = pinned-source is.sources pin v srcs (ground arith)

  pub chain_shadow :
      (arena : Option (List Bytes))
      → is.merge ≡ merge_shadow
      → AreNamed is.sources
      → (resolve_chain is.merge p k is arena).0
        ≡ first_of (contributions is.sources p k is) (resolve_default k is)
  chain_shadow arena m named =
      ap (λ x. (resolve_chain x p k is arena).0) m
      ∙ unfold resolve_chain in resolve_shadow_lem p k is arena named

module _ (p : KeyPath) (k : Bytes) (is : SnapshotInputs) where
  chain_arena :
      (m : MergeStrategy) (a b : Option (List Bytes))
      → AreNamed is.sources
      → (resolve_chain m p k is a).0 ≡ (resolve_chain m p k is b).0
  unfolding resolve_chain
  chain_arena merge_append a b h = refl
  chain_arena merge_shadow a b h =
      resolve_shadow_lem p k is a h ∙ sym (resolve_shadow_lem p k is b h)
  chain_arena merge_replace a b h =
      resolve_shadow_lem p k is a h ∙ sym (resolve_shadow_lem p k is b h)

  -- What the arena holds has no influence on the result.
  pub resolve_key-arena :
      (a b : Option (List Bytes))
      → AreNamed is.sources
      → (resolve_key p k is a).0 ≡ (resolve_key p k is b).0
  resolve_key-arena a b h = elim (Option-cases (layer_get is.explicits k is)) [
    | inr (raw, e) ↦ key_explicit p k is a raw e ∙ sym (key_explicit p k is b raw e)
    | inl e ↦ elim (Option-cases (lookup k is.pins)) [
      | inr (pin, f) ↦ key_pinned p k is a pin e f ∙ sym (key_pinned p k is b pin e f)
      | inl f ↦ key_chain p k is a e f ∙ chain_arena is.merge a b h ∙ sym (key_chain p k is b e f)
    ]
  ]

All-snoc : (ss : List Source) (s : Source) → AreNamed ss → s.name ≢ [] → AreNamed (ss ++ s ∷ [])
All-snoc [] s hs h = (h, tt)
All-snoc (t ∷ ss) s (ht, hs) h = (ht, All-snoc ss s hs h)

module _ (p : KeyPath) (k : Bytes) (is : SnapshotInputs) where
  -- The inputs after AddSource.
  abbrev pub with_last : Source → SnapshotInputs
  with_last s = record is { sources = is.sources ++ s ∷ [] }

  layer_get_last :
      (s : Source) → layer_get is.explicits k (with_last s) ≡ layer_get is.explicits k is
  unfolding layer_get
  layer_get_last s = refl

  source_get_last : (s t : Source) → source_get t p k (with_last s) ≡ source_get t p k is
  unfolding source_get
  source_get_last s t = refl

  contributions_first :
      (ss : List Source) (s : Source) (n : Bytes) (v : Value) (cs : List (Bytes × Value))
      → contributions ss p k is ≡ (n, v) ∷ cs
      → (rest : List (Bytes × Value)) × (contributions (ss ++ s ∷ []) p k (with_last s)
          ≡ (n, v) ∷ rest)
  contributions_first [] s n v cs c = absurd (unfold contributions in ground arith)
  contributions_first (t ∷ ss) s n v cs c = elim (Option-cases (source_get t p k is)) [
    | inl e ↦
        let (rest, r) = contributions_first ss s n v cs (sym (skip t ss p k is e) ∙ c) in
        (rest, skip t (ss ++ s ∷ []) p k (with_last s) (source_get_last s t ∙ e) ∙ r)
    | inr (w, e) ↦
        let r = supply t (ss ++ s ∷ []) p k (with_last s) w (source_get_last s t ∙ e) in
        let same = sym (supply t ss p k is w e) ∙ c in
        (contributions (ss ++ s ∷ []) p k (with_last s), r ∙ cc)
  ]

  -- Under the default strategy a key without override and pin has the value of the first source
  -- that has it, whatever sources of lower precedence are added behind the others.
  pub resolve_key-add_source :
      (arena : Option (List Bytes)) (s : Source) (n : Bytes) (v : Value) (cs : List (Bytes × Value))
      → AreNamed is.sources
      → s.name ≢ []
      → is.merge ≡ merge_shadow
      → layer_get is.explicits k is ≡ none
      → lookup k is.pins ≡ none
      → contributions is.sources p k is ≡ (n, v) ∷ cs
      → (rest : List Bytes) × ((resolve_key p k
            (record is { sources = is.sources ++ s ∷ [] })
            arena).0
          ≡ some (with_source v n, n ∷ rest))
        × ((resolve_key p k is arena).0 ≡ some (with_source v n, n ∷ names cs))
  resolve_key-add_source arena s n v cs named h m e f c =
      let is' = with_last s in
      let (rest, c') = contributions_first is.sources s n v cs c in
      let e' : layer_get is'.explicits k is' ≡ none = layer_get_last s ∙ e in
      (
        names rest,
        key_chain p k is' arena e' f
            ∙ chain_shadow p k is' arena m (All-snoc is.sources s named h)
            ∙ ap (λ l. first_of l (resolve_default k is')) c',
        key_chain p k is arena e f
            ∙ chain_shadow p k is arena m named
            ∙ ap (λ l. first_of l (resolve_default k is)) c,
      )
