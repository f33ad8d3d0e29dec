-- ===== src/Alias/Chains.antt =====
-- Alias chains as derivations, and where resolveAliasChain ends.
use recon.Prelude.{
  ℕ, zero, suc, ◌≤◌, ◌<◌, ◌≡◌, ◌≢◌, ◌↔◌, refl, ap, ◌∙◌, sym, subst, none, some, arith, Bytes, Map,
  lookup,
}
use recon.Alias.{max_alias_depth, resolve_loop, resolve_alias_chain}

-- The chain from a key ends, at a key that is no alias, after this number of links.
pub data Depth (m : Map Bytes) : Bytes → ℕ → Type 0 where
  last : {k : Bytes} → lookup k m ≡ none → Depth m k zero
  link : {k next : Bytes} {n : ℕ} → lookup k m ≡ some next → Depth m next n → Depth m k (suc n)

-- No chain goes round in a cycle: each ends.
abbrev pub Acyclic : Map Bytes → Type 0
Acyclic m = (k : Bytes) → (n : ℕ) × Depth m k n

pub Depth-unique : {m : Map Bytes} {k : Bytes} {a b : ℕ} → Depth m k a → Depth m k b → a ≡ b
Depth-unique (last e) (last f) = refl
Depth-unique (last e) (link f d) = cc
Depth-unique (link e c) (last f) = cc
Depth-unique {m} (link {next = j} e c) (link {next = k} {n = b} f d) =
    let same : k ≡ j = cc in ap suc (Depth-unique c (subst (λ i. Depth m i b) same d))

-- Within the budget the result is no alias; a longer chain leaves the walk at an alias.
resolve_loop_end :
    (n a : ℕ) (k : Bytes) (m : Map Bytes)
    → Depth m k a
    → (lookup (resolve_loop n k m) m ≡ none) ↔ (a ≤ n)
unfolding resolve_loop
resolve_loop_end zero zero k m (last e) = (λ _. omega arith, λ _. e)
resolve_loop_end zero (suc a) k m (link e d) = (λ f. cc, λ h. absurd (omega arith))
resolve_loop_end (suc n) zero k m (last e) = (λ _. omega arith, λ _. ground arith)
resolve_loop_end (suc n) (suc a) k m (link {next = next} e d) =
    ground (arith, resolve_loop_end n a next m d)

-- Where the chain from a key passes.
pub data Reaches (m : Map Bytes) : Bytes → Bytes → Type 0 where
  here : {k : Bytes} → Reaches m k k
  step : {k next j : Bytes} → lookup k m ≡ some next → Reaches m next j → Reaches m k j

-- A chain has one way to go.
pub Reaches-next :
    {m : Map Bytes} {k j next : Bytes}
    → Reaches m k j
    → k ≢ j
    → lookup k m ≡ some next
    → Reaches m next j
Reaches-next here h e = absurd (h refl)
Reaches-next {m} {j = j} {next = next} (step {next = i} f r) h e =
    let same : i ≡ next = cc in subst (λ x. Reaches m x j) same r

pub Reaches-last : {m : Map Bytes} {k j : Bytes} → Reaches m k j → k ≢ j → lookup k m ≢ none
Reaches-last here h e = h refl
Reaches-last (step f r) h e = cc

resolve_loop_more :
    (n a : ℕ) (k : Bytes) (m : Map Bytes)
    → Depth m k a
    → a ≤ n
    → resolve_loop (suc n) k m ≡ resolve_loop n k m
unfolding resolve_loop
resolve_loop_more zero zero k m (last e) h = ground arith
resolve_loop_more (suc n) zero k m (last e) h = ground arith
resolve_loop_more zero (suc a) k m (link e d) h = absurd (omega arith)
resolve_loop_more (suc n) (suc a) k m (link {next = next} e d) h =
    ground (arith, resolve_loop_more n a next m d)

-- Resolving an alias is resolving the key it names, where the budget allows.
resolve_loop_link :
    (n : ℕ) (k next : Bytes) (m : Map Bytes)
    → lookup k m ≡ some next
    → resolve_loop (suc n) k m ≡ resolve_loop n next m
unfolding resolve_loop
resolve_loop_link n k next m e = ground arith

pub resolve-link :
    {a : ℕ} (k next : Bytes) (m : Map Bytes)
    → lookup k m ≡ some next
    → Depth m next a
    → a < max_alias_depth
    → resolve_alias_chain k m ≡ resolve_alias_chain next m
unfolding resolve_alias_chain
resolve-link {a} k next m e d h =
    resolve_loop_link 31 k next m e ∙ sym (resolve_loop_more 31 a next m d (omega arith))

-- A chain is followed to its end, a key that is no alias, exactly when it has no more links than
-- the budget.
pub resolve-is_canonical_iff :
    {a : ℕ} (k : Bytes) (m : Map Bytes)
    → Depth m k a
    → (lookup (resolve_alias_chain k m) m ≡ none) ↔ (a ≤ max_alias_depth)
unfolding resolve_alias_chain
resolve-is_canonical_iff {a} k m d = resolve_loop_end 32 a k m d
