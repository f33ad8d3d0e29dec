-- ===== src/Alias/Cycles.antt =====
-- validateNoAliasCycle: what it accepts, and that accepted aliases keep every chain finite.
use recon.Prelude.{
  ℕ, zero, suc, ◌≤◌, ◌<◌, ◌≡◌, ◌≢◌, ◌↔◌, refl, ◌∙◌, subst, ◌⊎◌, inl, inr, none, some, arith, Bytes,
  true, false, bytes_eq, bytes_eq_iff, Map, lookup, put, lookup-put, lookup-put_self, Option-cases,
  Bool-cases, List, [], ◌∷◌, ◌++◌, All,
}
use recon.KeyPath.{KeyPath, parse_path}
use recon.Alias.{
  max_alias_depth, resolve_alias_chain, member, validate_loop, validate_no_alias_cycle,
}
use recon.Alias.Chains.{
  Depth, last, link, Acyclic, Depth-unique, Reaches, here, step, Reaches-next, Reaches-last,
  resolve-link, resolve-is_canonical_iff,
}

-- A key whose chain ends within the budget, with room for one more link.
abbrev pub IsShort : Map Bytes → Bytes → Type 0
IsShort m k = (d : ℕ) × Depth m k d × (d < max_alias_depth)

module _ (alias : Bytes) (m : Map Bytes) where
  -- A walk that finds no fault has seen the whole chain, and the alias is not on it.
  walk_sound :
      (n : ℕ) (cur : Bytes) (visited : List Bytes) (chain : List KeyPath)
      → cur ≢ alias
      → validate_loop n alias cur visited chain m ≡ none
      → (d : ℕ) × Depth m cur d × (d < n) × (¬ Reaches m cur alias)
  unfolding validate_loop
  walk_sound zero cur visited chain h e = absurd (ground arith)
  walk_sound (suc n) cur visited chain h e = elim (Option-cases (lookup cur m)) [
    | inl f ↦ (0, last f, omega arith, λ r. Reaches-last r h f)
    | inr (next, f) ↦
        let next' = next ∷ visited in
        let chain' = chain ++ parse_path next ∷ [] in
        let differs : next ≢ alias = λ same. ground (arith, bytes_eq_iff next alias) in
        let rest : validate_loop n alias next next' chain' m ≡ none = ground arith in
        let (d, deep, small, avoids) = walk_sound n next next' chain' differs rest in
        (suc d, link f deep, omega arith, λ r. avoids (Reaches-next r h f))
  ]

  -- What the walk has seen lies behind it on the chain.
  abbrev IsBehind : ℕ → Bytes → Type 0
  IsBehind d v = (v ≡ alias) ⊎ ((a : ℕ) × Depth m v a × (d ≤ a))

  weaken : (d : ℕ) (vs : List Bytes) → All (IsBehind (suc d)) vs → All (IsBehind d) vs
  weaken d [] h = tt
  weaken d (v ∷ vs) (inl e, h) = (inl e, weaken d vs h)
  weaken d (v ∷ vs) (inr (a, deep, le), h) = (inr (a, deep, omega arith), weaken d vs h)

  member-IsBehind :
      (d : ℕ) (k : Bytes) (vs : List Bytes)
      → All (IsBehind d) vs
      → member k vs ≡ true
      → IsBehind d k
  unfolding member
  member-IsBehind d k [] h e = absurd (ground arith)
  member-IsBehind d k (v ∷ vs) (hv, h) e = elim (Bool-cases (bytes_eq v k)) [
    | inl same ↦ subst (IsBehind d) ((bytes_eq_iff v k).0 same) hv
    | inr other ↦ member-IsBehind d k vs h (ground arith)
  ]

  not_seen :
      (d : ℕ) (next : Bytes) (vs : List Bytes)
      → Depth m next d
      → next ≢ alias
      → All (IsBehind (suc d)) vs
      → member next vs ≡ false
  not_seen d next vs deep h behind = elim (Bool-cases (member next vs)) [
    | inr e ↦ e
    | inl e ↦ elim (member-IsBehind (suc d) next vs behind e) [
      | inl same ↦ absurd (h same)
      | inr (a, deep', le) ↦ absurd (omega (arith, Depth-unique deep deep'))
    ]
  ]

  -- On a finite chain that is short enough and avoids the alias, the walk finds no fault.
  walk_complete :
      (n : ℕ) (cur : Bytes) (visited : List Bytes) (chain : List KeyPath) {d : ℕ}
      → Depth m cur d
      → All (IsBehind d) visited
      → d < n
      → ¬ Reaches m cur alias
      → validate_loop n alias cur visited chain m ≡ none
  unfolding validate_loop
  walk_complete zero cur visited chain deep behind small avoids = absurd (omega arith)
  walk_complete (suc n) cur visited chain (last e) behind small avoids = ground arith
  walk_complete (suc n) cur visited chain (link {next = next} {n = d} e deep) behind small avoids =
      let differs : next ≢ alias = λ same. avoids (step e (subst (Reaches m next) same here)) in
      let fresh = not_seen d next visited deep differs behind in
      let rest =
        walk_complete n next (next ∷ visited) (chain ++ parse_path next ∷ []) deep
          (inr (d, deep, omega arith), weaken d visited behind) (omega arith)
          (λ r. avoids (step e r)) in
      ground (arith, bytes_eq_iff next alias)

differs_of : {a b : Bytes} → bytes_eq a b ≡ false → b ≢ a
differs_of {a} {b} h e = ground (arith, bytes_eq_iff a b)

-- In a graph without cycles an alias is accepted exactly when the chain of the key it names does
-- not lead back to it and has fewer than 32 links.
pub validate_iff :
    (alias canonical : Bytes) (m : Map Bytes)
    → Acyclic m
    → (validate_no_alias_cycle alias canonical m ≡ none)
      ↔ ((¬ Reaches m canonical alias) × IsShort m canonical)
unfolding validate_no_alias_cycle
validate_iff alias canonical m acyclic = elim (Bool-cases (bytes_eq alias canonical)) [
  | inl same ↦
      let e : canonical ≡ alias = ground (arith, bytes_eq_iff alias canonical) in
      rw same (λ f. absurd (ground arith), λ p. absurd (p.0 (subst (Reaches m canonical) e here)))
  | inr other ↦ rw other (
    λ f.
        let (d, deep, small, avoids) =
          walk_sound alias m 32 canonical (alias ∷ []) _ (differs_of other) f in
        (avoids, (d, deep, omega arith)),
    λ (avoids, (d, deep, small)).
        walk_complete alias m 32 canonical (alias ∷ []) _ deep (inl refl, tt) small avoids,
  )
]

-- One more link from a key that no chain of the rest passes.
module _ (alias canonical : Bytes) (m : Map Bytes) where
  lookup_other : (k : Bytes) → k ≢ alias → lookup k (put alias canonical m) ≡ lookup k m
  lookup_other k h = rw lookup-put (ground (arith, bytes_eq_iff alias k))

  Depth-put :
      {k : Bytes} {d : ℕ} → Depth m k d → ¬ Reaches m k alias → Depth (put alias canonical m) k d
  Depth-put {k} (last e) avoids =
      last (lookup_other k (λ same. avoids (subst (Reaches m k) same here)) ∙ e)
  Depth-put {k} (link e deep) avoids =
      link (lookup_other k (λ same. avoids (subst (Reaches m k) same here)) ∙ e)
        (Depth-put deep (λ r. avoids (step e r)))

  Depth-extends :
      {k : Bytes} {d c : ℕ}
      → Depth (put alias canonical m) canonical c
      → Depth m k d
      → (n : ℕ) × Depth (put alias canonical m) k n
  Depth-extends {k} {c = c} deep (last e) = elim (Bool-cases (bytes_eq k alias)) [
    | inl same ↦
        let e' : lookup k (put alias canonical m) ≡ some canonical =
          rw ((bytes_eq_iff k alias).0 same) (lookup-put_self alias canonical m) in
        (suc c, link e' deep)
    | inr other ↦ (0, last (lookup_other k (ground (arith, bytes_eq_iff k alias)) ∙ e))
  ]
  Depth-extends {k} {c = c} deep (link e rest) = elim (Bool-cases (bytes_eq k alias)) [
    | inl same ↦
        let e' : lookup k (put alias canonical m) ≡ some canonical =
          rw ((bytes_eq_iff k alias).0 same) (lookup-put_self alias canonical m) in
        (suc c, link e' deep)
    | inr other ↦
        let (n, rest') = Depth-extends deep rest in
        (suc n, link (lookup_other k (ground (arith, bytes_eq_iff k alias)) ∙ e) rest')
  ]

  -- Registering an accepted alias keeps the graph free of cycles; the alias then resolves to what
  -- its canonical key resolves to, which is no alias.
  pub put-Acyclic :
      Acyclic m
      → validate_no_alias_cycle alias canonical m ≡ none
      → Acyclic (put alias canonical m)
        × (resolve_alias_chain alias (put alias canonical m)
            ≡ resolve_alias_chain canonical (put alias canonical m))
        × (lookup (resolve_alias_chain alias (put alias canonical m)) (put alias canonical m)
            ≡ none)
  put-Acyclic acyclic accepted =
      let m' = put alias canonical m in
      let (avoids, (d, deep, small)) = (validate_iff alias canonical m acyclic).0 accepted in
      let deep' = Depth-put deep avoids in
      let here' = lookup-put_self alias canonical m in
      (
        λ k. Depth-extends deep' (acyclic k).1,
        resolve-link alias canonical m' here' deep' small,
        (resolve-is_canonical_iff alias m' (link here' deep')).1 small,
      )
