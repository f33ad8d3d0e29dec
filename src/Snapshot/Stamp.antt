-- ===== src/Snapshot/Stamp.antt =====
-- The second loop of buildSnapshot: every alias has what its canonical key has.
use recon.Prelude.{
  ℕ, ◌≤◌, ◌≡◌, ◌⊎◌, inl, inr, refl, sym, ap, ap₂, ◌∙◌, subst, false, Option, none, some, [], ◌∷◌,
  arith, Bool-cases, Option-cases, Bytes, bytes_eq, bytes_eq_iff, Map, lookup, put, lookup-put,
  lookup-put_self,
}
use recon.Alias.{max_alias_depth, resolve_alias_chain}
use recon.Alias.Chains.{Depth, resolve-is_canonical_iff}
use recon.Value.{Value}
use recon.Snapshot.Resolve.{Build, stamp_alias, stamp_aliases}

-- Every chain of aliases ends within the budget.
abbrev pub AreShort : Map Bytes → Type 0
AreShort m = (k : Bytes) → (n : ℕ) × Depth m k n × (n ≤ max_alias_depth)

pub canonical-no_alias :
    (m : Map Bytes) → AreShort m → (k : Bytes) → lookup (resolve_alias_chain k m) m ≡ none
canonical-no_alias m short k =
    let (n, deep, le) = short k in (resolve-is_canonical_iff k m deep).1 le

-- The value that an alias ends with: that of its canonical key, if there is one.
pub settled : Option Value → Option Value → Option Value
settled none own = own
settled (some v) own = some v

stamp_none :
    (alias : Bytes) (aliases : Map Bytes) (b : Build)
    → lookup (resolve_alias_chain alias aliases) b.values ≡ none
    → stamp_alias alias aliases b ≡ b
unfolding stamp_alias
stamp_none alias aliases b e = ground arith

stamp_some :
    (alias : Bytes) (aliases : Map Bytes) (b : Build) (v : Value)
    → lookup (resolve_alias_chain alias aliases) b.values ≡ some v
    → (stamp_alias alias aliases b).values ≡ put alias v b.values
unfolding stamp_alias
stamp_some alias aliases b v e = ground arith

module _ (aliases : Map Bytes) where
  stamp_other :
      (alias k : Bytes) (b : Build)
      → bytes_eq alias k ≡ false
      → lookup k (stamp_alias alias aliases b).values ≡ lookup k b.values
  stamp_other alias k b h =
      elim (Option-cases (lookup (resolve_alias_chain alias aliases) b.values)) [
        | inl e ↦ rw (stamp_none alias aliases b e) refl
        | inr (v, e) ↦
            ap (lookup k) (stamp_some alias aliases b v e)
            ∙ lookup-put alias k v b.values
            ∙ rw h refl
      ]

  stamp_self :
      (alias : Bytes) (b : Build)
      → lookup alias (stamp_alias alias aliases b).values
        ≡ settled (lookup (resolve_alias_chain alias aliases) b.values) (lookup alias b.values)
  unfolding settled
  stamp_self alias b = elim (Option-cases (lookup (resolve_alias_chain alias aliases) b.values)) [
    | inl e ↦ rw (stamp_none alias aliases b e) (rw e refl)
    | inr (v, e) ↦
        ap (lookup alias) (stamp_some alias aliases b v e)
        ∙ lookup-put_self alias v b.values
        ∙ rw e refl
  ]

  not_head :
      (alias t k : Bytes) (rest : Map Bytes)
      → lookup k ((alias, t) ∷ rest) ≡ none
      → (bytes_eq alias k ≡ false) × (lookup k rest ≡ none)
  unfolding lookup
  not_head alias t k rest h = (ground arith, ground arith)

  -- A key that is no alias keeps its value.
  pub stamp_canonical :
      (list : Map Bytes) (k : Bytes) (b : Build)
      → lookup k list ≡ none
      → lookup k (stamp_aliases list aliases b).values ≡ lookup k b.values
  unfolding stamp_aliases
  stamp_canonical [] k b h = refl
  stamp_canonical ((alias, t) ∷ rest) k b h =
      let (other, h') = not_head alias t k rest h in
      stamp_canonical rest k (stamp_alias alias aliases b) h' ∙ stamp_other alias k b other

  module _ (a : Bytes) where
    abbrev final : Build → Option Value
    final b = settled (lookup (resolve_alias_chain a aliases) b.values) (lookup a b.values)

    settled-settled : (o own : Option Value) → settled o (settled o own) ≡ settled o own
    unfolding settled
    settled-settled none own = refl
    settled-settled (some v) own = refl

    -- One round changes nothing about what the alias ends with, and gives it that if it is its own.
    round :
        (alias : Bytes) (b : Build)
        → bytes_eq alias (resolve_alias_chain a aliases) ≡ false
        → (final (stamp_alias alias aliases b) ≡ final b)
          × ((lookup a (stamp_alias alias aliases b).values ≡ final b)
              ⊎ (lookup a (stamp_alias alias aliases b).values ≡ lookup a b.values))
    round alias b h = elim (Bool-cases (bytes_eq alias a)) [
      | inl e ↦
          let same = (bytes_eq_iff alias a).0 e in
          let own : lookup a (stamp_alias alias aliases b).values ≡ final b =
            subst (λ x. lookup a (stamp_alias x aliases b).values ≡ final b) (sym same)
              (stamp_self a b) in
          (
            ap₂ settled (stamp_other alias (resolve_alias_chain a aliases) b h) own
                ∙ settled-settled (lookup (resolve_alias_chain a aliases) b.values)
                    (lookup a b.values),
            inl own,
          )
      | inr e ↦
          let kept = stamp_other alias a b e in
          (ap₂ settled (stamp_other alias (resolve_alias_chain a aliases) b h) kept, inr kept)
    ]

    stays :
        (list : Map Bytes) (b : Build)
        → lookup (resolve_alias_chain a aliases) list ≡ none
        → lookup a b.values ≡ final b
        → lookup a (stamp_aliases list aliases b).values ≡ final b
    unfolding stamp_aliases
    stays [] b h e = e
    stays ((alias, t) ∷ rest) b h e =
        let (other, h') = not_head alias t (resolve_alias_chain a aliases) rest h in
        let (same, own) = round alias b other in
        let e' : lookup a (stamp_alias alias aliases b).values
            ≡ final (stamp_alias alias aliases b) =
          elim own [ inl x ↦ x ∙ sym same | inr x ↦ x ∙ e ∙ sym same ] in
        stays rest (stamp_alias alias aliases b) h' e' ∙ same

    pub reaches :
        (list : Map Bytes) (b : Build) (t : Bytes)
        → lookup (resolve_alias_chain a aliases) list ≡ none
        → lookup a list ≡ some t
        → lookup a (stamp_aliases list aliases b).values ≡ final b
    unfolding stamp_aliases
    reaches [] b t h e = absurd (unfold lookup in ground arith)
    reaches ((alias, t') ∷ rest) b t h e =
        let (other, h') = not_head alias t' (resolve_alias_chain a aliases) rest h in
        let b' = stamp_alias alias aliases b in
        let (same, own) = round alias b other in
        elim (Bool-cases (bytes_eq alias a)) [
          | inl f ↦
              let mine : lookup a b'.values ≡ final b =
                subst (λ x. lookup a (stamp_alias x aliases b).values ≡ final b)
                  (sym ((bytes_eq_iff alias a).0 f)) (stamp_self a b) in
              stays rest b' h' (mine ∙ sym same) ∙ same
          | inr f ↦ reaches rest b' t h' (past alias t' rest f e) ∙ same
        ]
      where
        past :
            (alias t' : Bytes) (rest : Map Bytes)
            → bytes_eq alias a ≡ false
            → lookup a ((alias, t') ∷ rest) ≡ some t
            → lookup a rest ≡ some t
        past alias t' rest f e = unfold lookup in ground arith

-- Where an alias had nothing before, it ends with what its canonical key has.
pub stamp_alias_lem :
    (aliases : Map Bytes) (a t : Bytes) (b : Build)
    → AreShort aliases
    → lookup a aliases ≡ some t
    → lookup a b.values ≡ none
    → lookup a (stamp_aliases aliases aliases b).values
      ≡ lookup (resolve_alias_chain a aliases) b.values
stamp_alias_lem aliases a t b short e fresh =
    reaches aliases a aliases b t (canonical-no_alias aliases short a) e
    ∙ ap (settled (lookup (resolve_alias_chain a aliases) b.values)) fresh
    ∙ or_none (lookup (resolve_alias_chain a aliases) b.values)
  where
    or_none : (o : Option Value) → settled o none ≡ o
    or_none none = unfold settled in refl
    or_none (some v) = unfold settled in refl
