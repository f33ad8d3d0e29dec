-- ===== src/Snapshot/Canonical.antt =====
-- The first loop of buildSnapshot: every canonical key of a candidate gets what resolveKey finds for
-- it, and no other key gets anything.
use recon.Precedence.Laws.{resolve_key-arena}
use recon.Precedence.Shadow.{AreNamed}
use recon.Prelude.{
  Option-cases, lookup-put, subst, ◌⊎◌, bytes_eq_refl, arith, ◌≡◌, inl, inr, refl, sym, ap, ◌∙◌,
  true, false, Option, none, some, List, [], ◌∷◌, if◌then◌else◌, Bool-cases, All, Bytes, bytes_eq,
  bytes_eq_iff, Map, lookup, put,
}
use mathlib.Core.Option
use recon.KeyPath.{KeyPath, parse_path, to_string}
use recon.KeyPath.RoundTrip.{parse_path-to_string}
use recon.Alias.{resolve_alias_chain, member}
use recon.Value.{Value}
use recon.Precedence.{Source, SnapshotInputs, Resolved, resolve_key}
use recon.Snapshot.Resolve.{
  resolve_candidates, resolve_candidate, empty_build, store, Build, canon_path, add_keys, add_set,
  add_paths, add_sources, collect_candidate_keys,
}

-- The path of a candidate, where there is one, spells its key.
abbrev pub Spells : Bytes × Option KeyPath → Type 0
Spells (k, none) = Unit
Spells (k, some p) = k ≡ to_string p

abbrev pub AreSpelled : Map (Option KeyPath) → Type 0
AreSpelled = All Spells

put-AreSpelled :
    (k : Bytes) (o : Option KeyPath) (m : Map (Option KeyPath))
    → Spells (k, o)
    → AreSpelled m
    → AreSpelled (put k o m)
unfolding put
put-AreSpelled k o [] h hs = (h, tt)
put-AreSpelled k o ((j, w) ∷ m) h (hj, hs) = elim (Bool-cases (bytes_eq j k)) [
  | inl e ↦ rw e (h, hs)
  | inr e ↦ rw e (hj, put-AreSpelled k o m h hs)
]

add_keys-AreSpelled {ℓ} :
    {V : Type ℓ} (m : Map V) (out : Map (Option KeyPath))
    → AreSpelled out
    → AreSpelled (add_keys m out)
unfolding add_keys
add_keys-AreSpelled [] out h = h
add_keys-AreSpelled ((k, v) ∷ m) out h =
    add_keys-AreSpelled m (put k none out) (put-AreSpelled k none out tt h)

add_set-AreSpelled :
    (set : List Bytes) (out : Map (Option KeyPath)) → AreSpelled out → AreSpelled (add_set set out)
unfolding add_set
add_set-AreSpelled [] out h = h
add_set-AreSpelled (k ∷ set) out h =
    add_set-AreSpelled set (put k none out) (put-AreSpelled k none out tt h)

add_paths-AreSpelled :
    (ps : List KeyPath) (out : Map (Option KeyPath))
    → AreSpelled out
    → AreSpelled (add_paths ps out)
unfolding add_paths
add_paths-AreSpelled [] out h = h
add_paths-AreSpelled (p ∷ ps) out h =
    add_paths-AreSpelled ps (put (to_string p) (some p) out)
      (put-AreSpelled (to_string p) (some p) out refl h)

add_sources-AreSpelled :
    (ss : List Source) (out : Map (Option KeyPath))
    → AreSpelled out
    → AreSpelled (add_sources ss out)
unfolding add_sources
add_sources-AreSpelled [] out h = h
add_sources-AreSpelled (s ∷ ss) out h =
    add_sources-AreSpelled ss (add_paths s.keys out) (add_paths-AreSpelled s.keys out h)

pub collect-AreSpelled : (is : SnapshotInputs) → AreSpelled (collect_candidate_keys is)
unfolding collect_candidate_keys
collect-AreSpelled is = add_sources-AreSpelled is.sources _ (
    add_set-AreSpelled is.bound _ (
      add_keys-AreSpelled is.aliases _
        (add_keys-AreSpelled is.defaults _ (add_keys-AreSpelled is.explicits [] tt))))

-- Whatever the candidate, its canonical key is resolved under the path that the key spells.
canon_path_lem :
    (k : Bytes) (o : Option KeyPath) (canon : Bytes)
    → Spells (k, o)
    → canon_path k o canon ≡ parse_path canon
unfolding canon_path
canon_path_lem k none canon h = refl
canon_path_lem k (some p) canon h = elim (Bool-cases (bytes_eq canon k)) [
  | inl e ↦ rw e (sym (ap parse_path ((bytes_eq_iff canon k).0 e ∙ h) ∙ parse_path-to_string p))
  | inr e ↦ rw e refl
]

-- What a key resolves to on its own.
abbrev pub resolved_key : SnapshotInputs → Bytes → Resolved
resolved_key is k = (resolve_key (parse_path k) k is none).0

abbrev pub value_of : Resolved → Option Value
value_of = Option.map (λ r. r.0)

abbrev pub names_of : Resolved → Option (List Bytes)
names_of = Option.map (λ r. r.1)

abbrev pub only_in : List Bytes → Bytes → Resolved → Resolved
only_in seen k r = if member k seen then r else none

-- What the loop has stored once it has been through the canonical keys `seen`, where `find` is what
-- each key resolves to.
record Stored (find : Bytes → Resolved) (seen : List Bytes) (b : Build) : Type 0 where
  values : (k : Bytes) → lookup k b.values ≡ value_of (only_in seen k (find k))
  sources : (k : Bytes) → lookup k b.sources ≡ names_of (only_in seen k (find k))
  new : (k : Bytes) → lookup k b.paths ≡ none → member k seen ≡ false
  old : (k : Bytes) (p : KeyPath) → lookup k b.paths ≡ some p → member k seen ≡ true

module _ (find : Bytes → Resolved) (seen : List Bytes) where
  member-known :
      (canon k : Bytes) → member canon seen ≡ true → member k (canon ∷ seen) ≡ member k seen
  unfolding member
  member-known canon k h = ground (arith, bytes_eq_iff canon k)

  Stored-known :
      (b : Build) (canon : Bytes) (q : KeyPath)
      → Stored find seen b
      → lookup canon b.paths ≡ some q
      → Stored find (canon ∷ seen) b
  Stored-known b canon q h e = record {
    values = λ k. rw (member-known canon k (h.old canon q e)) (h.values k);
    sources = λ k. rw (member-known canon k (h.old canon q e)) (h.sources k);
    new = λ k f. member-known canon k (h.old canon q e) ∙ h.new k f;
    old = λ k p f. member-known canon k (h.old canon q e) ∙ h.old k p f;
  }

  member_self : (canon : Bytes) → member canon (canon ∷ seen) ≡ true
  unfolding member
  member_self canon = rw (bytes_eq_refl canon) refl

  member-other :
      (canon k : Bytes) → bytes_eq canon k ≡ false → member k (canon ∷ seen) ≡ member k seen
  unfolding member
  member-other canon k h = rw h refl

  -- The fields of the state after a store.
  lookup-store_values :
      (canon k : Bytes) (r : Resolved) (b : Build)
      → lookup canon b.values ≡ none
      → lookup k (store canon r b).values
        ≡ (if bytes_eq canon k then value_of r else lookup k b.values)
  unfolding store
  lookup-store_values canon k none b h = ground (arith, bytes_eq_iff canon k)
  lookup-store_values canon k (some (v, srcs)) b h = lookup-put canon k v b.values

  lookup-store_sources :
      (canon k : Bytes) (r : Resolved) (b : Build)
      → lookup canon b.sources ≡ none
      → lookup k (store canon r b).sources
        ≡ (if bytes_eq canon k then names_of r else lookup k b.sources)
  unfolding store
  lookup-store_sources canon k none b h = ground (arith, bytes_eq_iff canon k)
  lookup-store_sources canon k (some (v, srcs)) b h = lookup-put canon k srcs b.sources

  store-paths : (canon : Bytes) (r : Resolved) (b : Build) → (store canon r b).paths ≡ b.paths
  unfolding store
  store-paths canon none b = refl
  store-paths canon (some (v, srcs)) b = refl

  lookup-put_cases {ℓ} :
      {V : Type ℓ} (canon k : Bytes) (v : V) (m : Map V)
      → ((canon ≡ k) × (lookup k (put canon v m) ≡ some v))
        ⊎ ((bytes_eq canon k ≡ false) × (lookup k (put canon v m) ≡ lookup k m))
  lookup-put_cases canon k v m = elim (Bool-cases (bytes_eq canon k)) [
    | inl e ↦ inl ((bytes_eq_iff canon k).0 e, lookup-put canon k v m ∙ rw e refl)
    | inr e ↦ inr (e, lookup-put canon k v m ∙ rw e refl)
  ]

  -- A field of the state after the store of a key that is new.
  stored_at {ℓ} :
      {A : Type ℓ} (field : Resolved → Option A) (canon k : Bytes) (before after : Option A)
      → field none ≡ none
      → before ≡ field (only_in seen k (find k))
      → after ≡ (if bytes_eq canon k then field (find canon) else before)
      → after ≡ field (only_in (canon ∷ seen) k (find k))
  unfolding member
  stored_at field canon k before after f h e = elim (Bool-cases (bytes_eq canon k)) [
    | inl same ↦ e ∙ rw same (ap (λ j. field (find j)) ((bytes_eq_iff canon k).0 same))
    | inr other ↦ e ∙ rw other h
  ]

  Stored-new :
      (b : Build) (canon : Bytes) (p : KeyPath) (arena : Option (List Bytes))
      → Stored find seen b
      → lookup canon b.paths ≡ none
      → Stored find
          (canon ∷ seen)
          (store canon (find canon) (record b { paths = put canon p b.paths; arena = arena }))
  Stored-new b canon p arena h e =
      let b' : Build = record b { paths = put canon p b.paths; arena = arena } in
      let fresh = h.new canon e in
      let no_value : lookup canon b.values ≡ none = h.values canon ∙ rw fresh refl in
      let no_source : lookup canon b.sources ≡ none = h.sources canon ∙ rw fresh refl in
      record {
        values = λ k.
            stored_at value_of canon k (lookup k b.values) _ refl (h.values k)
              (lookup-store_values canon k (find canon) b' no_value);
        sources = λ k.
            stored_at names_of canon k (lookup k b.sources) _ refl (h.sources k)
              (lookup-store_sources canon k (find canon) b' no_source);
        new = λ k f.
            let f' = ap (lookup k) (sym (store-paths canon (find canon) b')) ∙ f in
            elim (lookup-put_cases canon k p b.paths) [
              | inl (same, there) ↦ absurd (ground (arith, f', there))
              | inr (other, kept) ↦ member-other canon k other ∙ h.new k (sym kept ∙ f')
            ];
        old = λ k q f.
            let f' = ap (lookup k) (sym (store-paths canon (find canon) b')) ∙ f in
            elim (lookup-put_cases canon k p b.paths) [
              | inl (same, there) ↦
                  subst (λ j. member j (canon ∷ seen) ≡ true) same (member_self canon)
              | inr (other, kept) ↦ member-other canon k other ∙ h.old k q (sym kept ∙ f')
            ];
      }

-- The canonical keys of the candidates, the last one first, before those of `seen`.
unfoldable pub canonical_keys : SnapshotInputs → Map (Option KeyPath) → List Bytes → List Bytes
canonical_keys is [] seen = seen
canonical_keys is ((k, o) ∷ cs) seen =
    canonical_keys is cs (resolve_alias_chain k is.aliases ∷ seen)

candidate_new :
    (k : Bytes) (o : Option KeyPath) (is : SnapshotInputs) (b : Build)
    → lookup (resolve_alias_chain k is.aliases) b.paths ≡ none
    → resolve_candidate k o is b ≡ (
        let canon = resolve_alias_chain k is.aliases in
        let p = canon_path k o canon in
        store canon
          (resolve_key p canon is b.arena).0
          (record b { paths = put canon p b.paths; arena = (resolve_key p canon is b.arena).1 }))
unfolding resolve_candidate
candidate_new k o is b e = rw (e, resolve_candidate) refl

module _ (is : SnapshotInputs) (named : AreNamed is.sources) where
  known_round :
      (k : Bytes) (o : Option KeyPath) (b : Build) (q : KeyPath)
      → lookup (resolve_alias_chain k is.aliases) b.paths ≡ some q
      → resolve_candidate k o is b ≡ b
  unfolding resolve_candidate
  known_round k o b q e = ground arith

  new_round :
      (k : Bytes) (o : Option KeyPath) (b : Build)
      → Spells (k, o)
      → lookup (resolve_alias_chain k is.aliases) b.paths ≡ none
      → (p : KeyPath) × (arena : Option (List Bytes)) × (resolve_candidate k o is b
          ≡ store
              (resolve_alias_chain k is.aliases)
              (resolved_key is (resolve_alias_chain k is.aliases))
              (record b {
                paths = put (resolve_alias_chain k is.aliases) p b.paths;
                arena = arena;
              }))
  new_round k o b h e =
      let canon = resolve_alias_chain k is.aliases in
      let p = canon_path k o canon in
      let same : (resolve_key p canon is b.arena).0 ≡ resolved_key is canon =
        ap (λ q. (resolve_key q canon is b.arena).0) (canon_path_lem k o canon h)
        ∙ resolve_key-arena (parse_path canon) canon is b.arena none named in
      (
        p,
        (resolve_key p canon is b.arena).1,
        candidate_new k o is b e
            ∙ ap
                (λ r. store canon r (record b {
                  paths = put canon p b.paths;
                  arena = (resolve_key p canon is b.arena).1;
                }))
                same,
      )

  Stored-candidates :
      (cs : Map (Option KeyPath)) (seen : List Bytes) (b : Build)
      → AreSpelled cs
      → Stored (resolved_key is) seen b
      → Stored (resolved_key is) (canonical_keys is cs seen) (resolve_candidates cs is b)
  unfolding canonical_keys resolve_candidates
  Stored-candidates [] seen b h st = st
  Stored-candidates ((k, o) ∷ cs) seen b (h, hs) st =
      let canon = resolve_alias_chain k is.aliases in
      Stored-candidates cs (canon ∷ seen) (resolve_candidate k o is b) hs
        (elim (Option-cases (lookup canon b.paths)) [
          | inr (q, e) ↦
              rw (known_round k o b q e) (Stored-known (resolved_key is) seen b canon q st e)
          | inl e ↦
              let (p, arena, round) = new_round k o b h e in
              rw round (Stored-new (resolved_key is) seen b canon p arena st e)
        ])

Stored-empty : (find : Bytes → Resolved) → Stored find [] empty_build
Stored-empty find = record {
  values = λ k. unfold lookup member in refl;
  sources = λ k. unfold lookup member in refl;
  new = λ k e. unfold member in refl;
  old = λ k p e. absurd (unfold lookup in ground arith);
}

-- After the first loop a key has the value and the provenance that resolveKey finds for it, if it is
-- the canonical key of a candidate, and nothing otherwise.
pub resolve_candidates_lem :
    (is : SnapshotInputs)
    → AreNamed is.sources
    → (k : Bytes)
    → (lookup k (resolve_candidates (collect_candidate_keys is) is empty_build).values
        ≡ value_of
            (only_in (canonical_keys is (collect_candidate_keys is) []) k (resolved_key is k)))
      × (lookup k (resolve_candidates (collect_candidate_keys is) is empty_build).sources
          ≡ names_of
              (only_in (canonical_keys is (collect_candidate_keys is) []) k (resolved_key is k)))
resolve_candidates_lem is named k =
    let cs = collect_candidate_keys is in
    let st =
      Stored-candidates is named cs [] empty_build (collect-AreSpelled is)
        (Stored-empty (resolved_key is)) in
    (st.values k, st.sources k)
