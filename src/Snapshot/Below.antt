-- ===== src/Snapshot/Below.antt =====
-- secretMatcher: a secret covers the keys below it and the aliases of what it covers.
use recon.Prelude.{
  inl, inr, Bool-cases, bytes_eq_iff, Bool-cases, ◌↔◌, ℕ, ◌≡◌, ◌≢◌, ◌⊎◌, refl, sym, ap, ◌∙◌, subst,
  Bool, true, false, ◌||◌, List, [], ◌∷◌, ◌++◌, map, append_assoc, append-nil, arith, take, Bytes,
  Map,
}
use recon.KeyPath.{append, KeyPath, to_string, top_level_delims}
use recon.KeyPath.RoundTrip.{to_string_joined}
use recon.KeyPath.Delims.{joined, cut, texts, splits, top_level_delims_lem}
use recon.Alias.{resolve_alias_chain, member}
use recon.Snapshot.Secrets.{has, no_keys, SecretMatcher, marked, marked_alias, any_marked, matches}

module _ (m : SecretMatcher) where
  -- Whether the left text of one of the cuts is marked.
  unfoldable any_left : List (Bytes × Bytes) → Bool
  any_left [] = false
  any_left ((l, r) ∷ cuts) = marked m l || any_left cuts

  any_marked-cut :
      (ks : Bytes) (delims : List ℕ) → any_marked m ks delims ≡ any_left (map (cut ks) delims)
  unfolding any_marked any_left
  any_marked-cut ks [] = refl
  any_marked-cut ks (i ∷ delims) = ap (λ b. marked m (take i ks) || b) (any_marked-cut ks delims)

  left_is_cut :
      (done p q : KeyPath) (next : Bytes)
      → marked m (joined (done ++ p)) ≡ true
      → any_left (map texts (splits done (p ++ next ∷ q))) ≡ true
  unfolding any_left splits
  left_is_cut done [] q next h =
      let h' : marked m (joined done) ≡ true =
        subst (λ x. marked m (joined x) ≡ true) (append-nil done) h in
      rw h' refl
  left_is_cut done (s ∷ p) q next h =
      let rest =
        left_is_cut (done ++ s ∷ []) p q next
          (subst (λ x. marked m (joined x) ≡ true) (sym (append_assoc done (s ∷ []) p)) h) in
      ground (arith, rest)

  matches-below :
      (seg : Bytes) (p q : KeyPath)
      → (seg ≢ []) ⊎ (p ≢ [])
      → marked m (to_string (seg ∷ p)) ≡ true
      → matches m (to_string ((seg ∷ p) ++ q)) ≡ true
  unfolding matches joined
  matches-below seg p [] h e =
      let e' : marked m (to_string (seg ∷ p ++ [])) ≡ true =
        subst (λ x. marked m (to_string (seg ∷ x)) ≡ true) (sym (append-nil p)) e in
      rw e' refl
  matches-below seg p (next ∷ q) h e =
      let text = to_string (seg ∷ p ++ next ∷ q) in
      let left : marked m (joined (seg ∷ p)) ≡ true =
        subst (λ t. marked m t ≡ true) (to_string_joined seg p h) e in
      let found : any_marked m text (top_level_delims text) ≡ true =
        any_marked-cut text (top_level_delims text)
        ∙ ap any_left (top_level_delims_lem seg (p ++ next ∷ q))
        ∙ left_is_cut (seg ∷ []) p q next left in
      ground (arith, found)

no_alias_marked : (rest aliases : Map Bytes) (ks : Bytes) → marked_alias [] rest aliases ks ≡ false
unfolding marked_alias member
no_alias_marked [] aliases ks = refl
no_alias_marked ((a, c) ∷ rest) aliases ks = no_alias_marked rest aliases ks

nothing_marked :
    (keys : List Bytes) (aliases : Map Bytes) (ks : Bytes)
    → no_keys keys ≡ true
    → marked (record { keys = keys; aliases = aliases }) ks ≡ false
unfolding no_keys marked member
nothing_marked [] aliases ks e = no_alias_marked aliases aliases ks
nothing_marked (k ∷ keys) aliases ks e = absurd (ground arith)

module _ (m : SecretMatcher) (none_there : no_keys m.keys ≡ true) where
  no_cut_marked : (ks : Bytes) (delims : List ℕ) → any_marked m ks delims ≡ false
  unfolding any_marked
  no_cut_marked ks [] = refl
  no_cut_marked ks (i ∷ delims) =
      ground
        (arith, nothing_marked m.keys m.aliases (take i ks) none_there, no_cut_marked ks delims)

  nothing_matches : (ks : Bytes) → matches m ks ≡ false
  unfolding matches
  nothing_matches ks =
      ground (
        arith,
        nothing_marked m.keys m.aliases ks none_there,
        no_cut_marked ks (top_level_delims ks),
      )

has_match : (m : SecretMatcher) (ks : Bytes) → matches m ks ≡ true → has m ks ≡ true
unfolding has
has_match m ks h = elim (Bool-cases (no_keys m.keys)) [
  | inl e ↦ absurd (ground (arith, nothing_matches m e ks))
  | inr e ↦ ground arith
]

-- A marked path makes itself and every path below it secret, but for the path of one empty
-- segment, whose text is not that of the first segment of the paths below it.
pub has-append :
    (m : SecretMatcher) (seg : Bytes) (p q : KeyPath)
    → (seg ≢ []) ⊎ (p ≢ [])
    → marked m (to_string (seg ∷ p)) ≡ true
    → has m (to_string (append (seg ∷ p) q)) ≡ true
unfolding append
has-append m seg p q h e = has_match m (to_string ((seg ∷ p) ++ q)) (matches-below m seg p q h e)

match_of :
    (m : SecretMatcher) (ks : Bytes)
    → has m ks ≡ true
    → (matches m ks ≡ true) ⊎ (matches m (resolve_alias_chain ks m.aliases) ≡ true)
unfolding has
match_of m ks h = elim (Bool-cases (matches m ks)) [ inl e ↦ inl e | inr e ↦ inr (ground arith) ]

has_alias :
    (m : SecretMatcher) (ks : Bytes)
    → matches m (resolve_alias_chain ks m.aliases) ≡ true
    → has m ks ≡ true
unfolding has
has_alias m ks h = elim (Bool-cases (no_keys m.keys)) [
  | inl e ↦ absurd (ground (arith, nothing_matches m e (resolve_alias_chain ks m.aliases)))
  | inr e ↦ ground (arith, bytes_eq_iff (resolve_alias_chain ks m.aliases) ks)
]

-- A key is secret exactly when it or the key that it is an alias of matches.
pub has_iff :
    (m : SecretMatcher) (ks : Bytes)
    → (has m ks ≡ true)
      ↔ ((matches m ks ≡ true) ⊎ (matches m (resolve_alias_chain ks m.aliases) ≡ true))
has_iff m ks = (match_of m ks, λ e. elim e [ inl h ↦ has_match m ks h | inr h ↦ has_alias m ks h ])
