-- ===== src/Sources/Nested.antt =====
-- source_envfamily.go: what setNestedSegments stores is found at its segments, and nothing else is
-- disturbed.
use recon.Prelude.{
  ◌≡◌, ◌≢◌, ◌⊎◌, inl, inr, refl, ap, ◌∙◌, subst, Option, none, some, [], ◌∷◌, arith, Bytes,
  bytes_eq_iff,
}
use recon.KeyPath.{KeyPath}
use recon.Value.{GoValue, GoEntries}
use recon.Value.GoValue.{any_map}
use recon.Precedence.Merge.{go_find, go_put}
use recon.Precedence.MergeLaws.{go_find-go_put, go_find_here}
use recon.Sources.MapSource.{walk_at, walk_from, entry_under}
use recon.Sources.Family.{set_nested_segments, nested_map}

-- The value that is stored at some segments is found there, whatever the map held before.
pub walk_at-set_nested_segments :
    (m : GoEntries) (p : KeyPath) (v : GoValue)
    → p ≢ []
    → walk_at (any_map (set_nested_segments m p v)) p ≡ some v
unfolding walk_at walk_from entry_under set_nested_segments
walk_at-set_nested_segments m [] v h = absurd (h refl)
walk_at-set_nested_segments m (seg ∷ []) v h = ap (λ o. walk_from o []) (go_find_here seg v m)
walk_at-set_nested_segments m (seg ∷ next ∷ p) v h =
    let sub = set_nested_segments (nested_map (go_find seg m)) (next ∷ p) v in
    ap (λ o. walk_from o (next ∷ p)) (go_find_here seg (any_map sub) m)
    ∙ walk_at-set_nested_segments (nested_map (go_find seg m)) (next ∷ p) v (cc)

-- Two paths of which neither begins with the other.
abbrev pub Diverge : KeyPath → KeyPath → Type 0
Diverge [] q = ⊥
Diverge (seg ∷ p) [] = ⊥
Diverge (seg ∷ p) (seg' ∷ q) = (seg ≢ seg') ⊎ ((seg ≡ seg') × Diverge p q)

-- A value that is no map has nothing below it, like the empty map that replaces it.
below-nested_map :
    (o : Option GoValue) (seg : Bytes) (q : KeyPath)
    → walk_at (any_map (nested_map o)) (seg ∷ q) ≡ walk_from o (seg ∷ q)
unfolding walk_at walk_from entry_under nested_map go_find
below-nested_map none seg q = refl
below-nested_map (some (any_map m)) seg q = refl
below-nested_map (some v) seg q = refl

other_segment :
    (j k : Bytes) (x : GoValue) (m : GoEntries) → j ≢ k → go_find k (go_put j x m) ≡ go_find k m
other_segment j k x m h = go_find-go_put k j x m ∙ ground (arith, bytes_eq_iff j k)

-- What is stored at some segments does not change what is found at segments that diverge from them.
pub walk_at-set_nested_segments-Diverge :
    (m : GoEntries) (p q : KeyPath) (v : GoValue)
    → Diverge p q
    → walk_at (any_map (set_nested_segments m p v)) q ≡ walk_at (any_map m) q
unfolding walk_at walk_from entry_under set_nested_segments
walk_at-set_nested_segments-Diverge m [] q v h = absurd h
walk_at-set_nested_segments-Diverge m (seg ∷ p) [] v h = absurd h
walk_at-set_nested_segments-Diverge m (seg ∷ []) (seg' ∷ q) v (inl h) =
    ap (λ o. walk_from o q) (other_segment seg seg' v m h)
walk_at-set_nested_segments-Diverge m (seg ∷ []) (seg' ∷ q) v (inr (e, h)) = absurd h
walk_at-set_nested_segments-Diverge m (seg ∷ next ∷ p) (seg' ∷ q) v (inl h) =
    let sub = set_nested_segments (nested_map (go_find seg m)) (next ∷ p) v in
    ap (λ o. walk_from o q) (other_segment seg seg' (any_map sub) m h)
walk_at-set_nested_segments-Diverge m (seg ∷ next ∷ p) (seg' ∷ []) v (inr (e, h)) = absurd h
walk_at-set_nested_segments-Diverge m (seg ∷ next ∷ p) (seg' ∷ next' ∷ q) v (inr (e, h)) =
    let sub = set_nested_segments (nested_map (go_find seg m)) (next ∷ p) v in
    let below = nested_map (go_find seg m) in
    subst
      (λ k.
        walk_from (go_find k (go_put seg (any_map sub) m)) (next' ∷ q)
        ≡ walk_from (go_find k m) (next' ∷ q))
      e
      (ap (λ o. walk_from o (next' ∷ q)) (go_find_here seg (any_map sub) m)
        ∙ walk_at-set_nested_segments-Diverge below (next ∷ p) (next' ∷ q) v h
        ∙ below-nested_map (go_find seg m) next' q)
