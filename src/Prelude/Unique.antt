-- ===== src/Prelude/Unique.antt =====
-- Go maps as association lists in which each key stands once.
use mathlib.Core.Path.{◌≡◌, refl, sym, subst, ◌∙◌}
use mathlib.Core.Logic.{◌↔◌, ◌⊎◌, inl, inr}
use mathlib.Core.Bool.{Bool, true, false}
use mathlib.Core.List.{List, [], ◌∷◌, Memᴰ}
use mathlib.Core.List.Memᴰ.{head, tail, cases_cons, not-nil}
use mathlib.Core.Option.{Option, none, some}
use native.Mathlib.Omega.{arith}
use recon.Prelude.Tests.{if◌then◌else◌, Bool-cases}
use recon.Prelude.Strings.{Bytes, bytes_eq, bytes_eq_iff}
use recon.Prelude.Maps.{Map, lookup, put, remove, lookup-put, lookup-remove}

module _ {ℓ} {V : Type ℓ} where
  abbrev pub IsUnique : Map V → Type ℓ
  IsUnique [] = Unit
  IsUnique ((k, v) ∷ m) = (lookup k m ≡ none) × IsUnique m

  pub put-IsUnique : (k : Bytes) (v : V) (m : Map V) → IsUnique m → IsUnique (put k v m)
  unfolding put lookup
  put-IsUnique k v [] u = (refl, tt)
  put-IsUnique k v ((j, w) ∷ m) (fresh, u) = elim (Bool-cases (bytes_eq j k)) [
    | inl e ↦ rw e (subst (λ x. lookup x m ≡ none) ((bytes_eq_iff j k).0 e) fresh, u)
    | inr e ↦ rw e (
      lookup-put k j v m ∙ ground (arith, fresh, bytes_eq_iff j k, bytes_eq_iff k j),
      put-IsUnique k v m u,
    )
  ]

  pub remove-IsUnique : (k : Bytes) (m : Map V) → IsUnique m → IsUnique (remove k m)
  unfolding remove
  remove-IsUnique k [] u = tt
  remove-IsUnique k ((j, w) ∷ m) (fresh, u) = elim (Bool-cases (bytes_eq j k)) [
    | inl e ↦ rw e (remove-IsUnique k m u)
    | inr e ↦ rw e (lookup-remove k j m ∙ ground (arith, fresh), remove-IsUnique k m u)
  ]

abbrev pub Holds {ℓ} : {V : Type ℓ} → (V → Bool) → Option V → Type 0
Holds test none = ⊥
Holds test (some v) = test v ≡ true

module _ {ℓ} {V : Type ℓ} (test : Bytes → V → Bool) where
  -- The keys of a map whose entries pass a test, in the order of the map.
  unfoldable pub keys_where : Map V → List Bytes
  keys_where [] = []
  keys_where ((k, v) ∷ m) = let rest = keys_where m in if test k v then k ∷ rest else rest

  -- The key of the first entry, with the keys of the others.
  first_key :
      (b : Bool) (k j : Bytes) (keys : List Bytes)
      → Memᴰ k (if b then j ∷ keys else keys) ↔ (((k ≡ j) × (b ≡ true)) ⊎ Memᴰ k keys)
  first_key true k j keys = (
    λ m. elim (cases_cons m) [ inl e ↦ inl (e, refl) | inr m' ↦ inr m' ],
    λ h. elim h [ inl (e, t) ↦ head e | inr m ↦ tail m ],
  )
  first_key false k j keys =
      (λ m. inr m, λ h. elim h [ inl (e, t) ↦ absurd (ground arith) | inr m ↦ m ])

  pub keys_where-mem :
      (k : Bytes) (m : Map V) → IsUnique m → Memᴰ k (keys_where m) ↔ Holds (test k) (lookup k m)
  unfolding keys_where lookup
  keys_where-mem k [] u = (λ m. not-nil m, λ h. absurd h)
  keys_where-mem k ((j, w) ∷ m) (fresh, u) =
      let ih = keys_where-mem k m u in
      let first = first_key (test j w) k j (keys_where m) in
      elim (Bool-cases (bytes_eq j k)) [
        | inl e ↦ rw e (
            let same = (bytes_eq_iff j k).0 e in
            let missing : lookup k m ≡ none = subst (λ x. lookup x m ≡ none) same fresh in
            (
              (λ h. elim (first.0 h) [
                | inl t ↦ subst (λ x. test x w ≡ true) same t.1
                | inr h' ↦ absurd (subst (Holds (test k)) missing (ih.0 h'))
              ]),
              λ h. first.1 (inl (sym same, subst (λ x. test x w ≡ true) (sym same) h)),
            ))
        | inr e ↦ rw e (
          (λ h. elim (first.0 h) [
            | inl t ↦ absurd (ground (arith, bytes_eq_iff j k, sym t.0))
            | inr h' ↦ ih.0 h'
          ]),
          λ h. first.1 (inr (ih.1 h)),
        )
      ]
