-- ===== src/Codecs/Recent.antt =====
-- codec.go: of the codecs that claim an extension, the one registered last is selected.
use recon.Prelude.Unique.{IsUnique, put-IsUnique, remove-IsUnique}
use recon.Prelude.{
  ℕ, suc, ◌≤◌, ◌<◌, ◌≡◌, inl, inr, refl, ap, ◌∙◌, subst, Bool, true, false, ◌&&◌, Option, none,
  some, [], ◌∷◌, arith, if◌then◌else◌, Bool-cases, Bytes, bytes_eq, bytes_eq_iff, bytes_eq_refl,
  Map, lookup, put, remove, lookup-put, lookup-remove, lookup-put_self,
}
use recon.Sources.Transforms.{to_lower}
use recon.Codecs.Table.{
  Codec, Codecs, register, unregister, order_of, claims, is_newer, best_claimant, best_or_named,
  codec_by_extension, codec_by_name,
}

-- What the table's operations keep: each name stands once in it, and no codec is newer than `next`.
abbrev pub IsSound : Codecs → Type 0
IsSound t = IsUnique t.by_name × ((name : Bytes) → order_of name t.order ≤ t.next)

order_of-put :
    (k j : Bytes) (n : ℕ) (order : Map ℕ)
    → order_of j (put k n order) ≡ (if bytes_eq k j then n else order_of j order)
unfolding order_of
order_of-put k j n order = ground (arith, lookup-put k j n order)

-- No codec but the one of the given name is as new as n.
Older : Bytes → ℕ → Map ℕ → Type 0
Older name n order = (j : Bytes) → bytes_eq name j ≡ false → order_of j order < n

-- A claimant that is newer than all the others stays the best.
best_stays :
    (ext : Bytes) (order : Map ℕ) (c : Codec) (n : ℕ) (m : Map Codec)
    → lookup c.name m ≡ none
    → Older c.name n order
    → best_claimant ext order m (some (c, n)) ≡ some (c, n)
unfolding best_claimant is_newer lookup Older
best_stays ext order c n [] absent older = refl
best_stays ext order c n ((name, codec) ∷ m) absent older =
    elim (Bool-cases (bytes_eq name c.name)) [
      | inl e ↦ absurd (ground (arith, e))
      | inr e ↦
          let newer : order_of name order < n =
            older name (ground (arith, bytes_eq_iff name c.name, bytes_eq_iff c.name name)) in
          let passed : (claims ext codec && is_newer (order_of name order) (some (c, n))) ≡ false =
            ground (arith, newer) in
          ap
            (λ b.
              best_claimant ext order m
                (if b then some (codec, order_of name order) else some (c, n)))
            passed
          ∙ best_stays ext order c n m (ground (arith, e)) older
    ]

still_better :
    (b : Bool) (n k : ℕ) (w : Codec) (best : Option (Codec × ℕ))
    → k < n
    → is_newer n best ≡ true
    → is_newer n (if b then some (w, k) else best) ≡ true
unfolding is_newer
still_better true n k w best newer h = ground (arith, newer)
still_better false n k w best newer h = h

first_is_best :
    (ext : Bytes) (order : Map ℕ) (c : Codec) (n : ℕ) (m : Map Codec) (best : Option (Codec × ℕ))
    → claims ext c ≡ true
    → order_of c.name order ≡ n
    → lookup c.name m ≡ none
    → Older c.name n order
    → is_newer n best ≡ true
    → best_claimant ext order ((c.name, c) ∷ m) best ≡ some (c, n)
unfolding best_claimant
first_is_best ext order c n m best claim newest absent older h =
    rw (claim, newest, h) (best_stays ext order c n m absent older)

best_is_put :
    (ext : Bytes) (order : Map ℕ) (c : Codec) (n : ℕ) (m : Map Codec) (best : Option (Codec × ℕ))
    → claims ext c ≡ true
    → order_of c.name order ≡ n
    → IsUnique m
    → Older c.name n order
    → is_newer n best ≡ true
    → best_claimant ext order (put c.name c m) best ≡ some (c, n)
unfolding best_claimant put Older
best_is_put ext order c n [] best claim newest u older h =
    first_is_best ext order c n [] best claim newest (unfold lookup in refl) older h
best_is_put ext order c n ((j, w) ∷ m) best claim newest (fresh, u) older h =
    elim (Bool-cases (bytes_eq j c.name)) [
      | inl e ↦
          let absent : lookup c.name m ≡ none =
            subst (λ x. lookup x m ≡ none) ((bytes_eq_iff j c.name).0 e) fresh in
          rw e (first_is_best ext order c n m best claim newest absent older h)
      | inr e ↦
          let newer : order_of j order < n =
            older j (ground (arith, e, bytes_eq_iff j c.name, bytes_eq_iff c.name j)) in
          rw e
            (best_is_put ext order c n m _ claim newest u older (still_better _ n _ w best newer h))
    ]

-- The table keeps each name once, with an order up to `next`: it does so when it is made, and
-- registering and unregistering keep it so.
pub register-IsSound : (c : Option Codec) (t : Codecs) → IsSound t → IsSound (register c t)
unfolding register
register-IsSound none t h = h
register-IsSound (some c) t (u, bound) = (
  put-IsUnique c.name c t.by_name u,
  λ j. ground (arith, order_of-put c.name j (suc t.next) t.order, bound j),
)

order_of-remove :
    (k j : Bytes) (order : Map ℕ)
    → order_of j (remove k order) ≡ (if bytes_eq k j then 0 else order_of j order)
unfolding order_of
order_of-remove k j order = ground (arith, lookup-remove k j order)

unregister-IsSound : (name : Bytes) (t : Codecs) → IsSound t → IsSound (unregister name t)
unfolding unregister
unregister-IsSound name t (u, bound) =
    (remove-IsUnique name t.by_name u, λ j. ground (arith, order_of-remove name j t.order, bound j))

-- In a table in which each name stands once and no order is above `next`, as registering and
-- unregistering keep it, a codec that is registered is found by its name and by each extension that it
-- claims, whatever other codecs claim the extension.
pub register-IsRecent :
    (c : Codec) (t : Codecs)
    → IsSound t
    → ((o : Option Codec) → IsSound (register o t))
      × ((name : Bytes) → IsSound (unregister name t))
      × (codec_by_name c.name (register (some c) t) ≡ some c)
      × ((extension : Bytes)
          → claims (to_lower extension) c ≡ true
          → codec_by_extension extension (register (some c) t) ≡ some c)
unfolding codec_by_extension codec_by_name register best_or_named
register-IsRecent c t sound = (
  (λ o. register-IsSound o t sound),
  (λ name. unregister-IsSound name t sound),
  lookup-put_self c.name c t.by_name,
  λ extension claim.
      let order = put c.name (suc t.next) t.order in
      let newest : order_of c.name order ≡ suc t.next =
        order_of-put c.name c.name (suc t.next) t.order ∙ ground (arith, bytes_eq_refl c.name) in
      let older : Older c.name (suc t.next) order =
        unfold Older in
        (λ j e. ground (arith, order_of-put c.name j (suc t.next) t.order, sound.1 j, e)) in
      let best =
        best_is_put (to_lower extension) order c (suc t.next) t.by_name none claim newest sound.0
          older (unfold is_newer in refl) in
      rw best refl,
)
