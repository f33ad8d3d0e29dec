-- ===== src/Snapshot/Values.antt =====
-- buildSnapshot: the values that it ends with.
use recon.Prelude.{
  ℕ, suc, ◌≡◌, inl, inr, refl, sym, ap, ◌∙◌, subst, true, false, Option, none, some, List, [], ◌∷◌,
  arith, Bool-cases, Option-cases, All, Bytes, bytes_eq, bytes_eq_iff, Map, lookup,
}
use recon.Alias.{resolve_loop, resolve_alias_chain, member}
use recon.KeyPath.{KeyPath}
use recon.Precedence.{SnapshotInputs}
use recon.Precedence.Shadow.{AreNamed}
use recon.Snapshot.Resolve.{resolve_candidates, collect_candidate_keys, empty_build, resolve_values}
use recon.Snapshot.Canonical.{
  resolved_key, value_of, only_in, canonical_keys, resolve_candidates_lem,
}
use recon.Snapshot.Stamp.{AreShort, canonical-no_alias, stamp_canonical, stamp_alias_lem}

-- The keys that the first loop resolves are no aliases.
module _ (is : SnapshotInputs) (short : AreShort is.aliases) where
  canonical_keys-no_alias :
      (cs : Map (Option KeyPath)) (seen : List Bytes)
      → All (λ k. lookup k is.aliases ≡ none) seen
      → All (λ k. lookup k is.aliases ≡ none) (canonical_keys is cs seen)
  unfolding canonical_keys
  canonical_keys-no_alias [] seen h = h
  canonical_keys-no_alias ((k, o) ∷ cs) seen h =
      canonical_keys-no_alias cs (resolve_alias_chain k is.aliases ∷ seen)
        (canonical-no_alias is.aliases short k, h)

  member-no_alias :
      (k : Bytes) (ks : List Bytes)
      → All (λ j. lookup j is.aliases ≡ none) ks
      → member k ks ≡ true
      → lookup k is.aliases ≡ none
  unfolding member
  member-no_alias k [] h e = absurd (ground arith)
  member-no_alias k (j ∷ ks) (hj, hs) e = elim (Bool-cases (bytes_eq j k)) [
    | inl same ↦ subst (λ i. lookup i is.aliases ≡ none) ((bytes_eq_iff j k).0 same) hj
    | inr other ↦ member-no_alias k ks hs (ground arith)
  ]

  alias_not_seen :
      (a t : Bytes)
      → lookup a is.aliases ≡ some t
      → member a (canonical_keys is (collect_candidate_keys is) []) ≡ false
  alias_not_seen a t e =
      let keys = canonical_keys is (collect_candidate_keys is) [] in
      elim (Bool-cases (member a keys)) [
        | inr f ↦ f
        | inl f ↦
            let g =
              member-no_alias a keys (canonical_keys-no_alias (collect_candidate_keys is) [] tt)
                f in
            absurd (ground (arith, g))
      ]

resolve_loop_stop :
    (n : ℕ) (k : Bytes) (m : Map Bytes) → lookup k m ≡ none → resolve_loop (suc n) k m ≡ k
unfolding resolve_loop
resolve_loop_stop n k m e = ground arith

resolve_no_alias : (k : Bytes) (m : Map Bytes) → lookup k m ≡ none → resolve_alias_chain k m ≡ k
unfolding resolve_alias_chain
resolve_no_alias k m e = resolve_loop_stop 31 k m e

-- With named sources and aliases whose chains end within the budget, every key of the snapshot has
-- the value that resolveKey finds for its canonical key, provided that it is the canonical key of
-- a candidate; so an alias and its canonical key always read the same.
pub resolve_values_lem :
    (is : SnapshotInputs)
    → AreNamed is.sources
    → AreShort is.aliases
    → (k : Bytes)
    → lookup k (resolve_values is).values
      ≡ value_of (
          only_in
            (canonical_keys is (collect_candidate_keys is) [])
            (resolve_alias_chain k is.aliases)
            (resolved_key is (resolve_alias_chain k is.aliases)))
unfolding resolve_values
resolve_values_lem is named short k =
    let first = resolve_candidates (collect_candidate_keys is) is empty_build in
    let canon = resolve_alias_chain k is.aliases in
    let stored = (resolve_candidates_lem is named canon).0 in
    elim (Option-cases (lookup k is.aliases)) [
      | inl e ↦
          stamp_canonical is.aliases is.aliases k first e
          ∙ ap (λ j. lookup j first.values) (sym (resolve_no_alias k is.aliases e))
          ∙ stored
      | inr (t, e) ↦
          let fresh : lookup k first.values ≡ none =
            (resolve_candidates_lem is named k).0 ∙ rw (alias_not_seen is short k t e) refl in
          stamp_alias_lem is.aliases k t first short e fresh ∙ stored
    ]
