-- ===== src/Prelude/Sorts.antt =====
-- slices.Sort and slices.SortFunc: an insertion sort stands for the library's sort, which orders in the
-- same way what the comparison tells apart. Sorting neither loses nor adds an element.
use Prim.Native.Nat.{Ordering}
use mathlib.Core.Path.{◌≡◌}
use mathlib.Core.Logic.{◌↔◌, ◌⊎◌, inl, inr}
use mathlib.Core.List.{List, [], ◌∷◌, Memᴰ}
use mathlib.Core.List.Memᴰ.{head, tail, cases_cons}

module _ {ℓ} {A : Type ℓ} where
  -- The cases of an insertion for the order of the first element and the new one; `rest` has the new
  -- one among the other elements.
  unfoldable pub place : Ordering → A → A → List A → List A → List A
  place Ordering.lt x y ys rest = y ∷ rest
  place Ordering.eq x y ys rest = x ∷ y ∷ ys
  place Ordering.gt x y ys rest = x ∷ y ∷ ys

  unfoldable pub insert_by : (A → A → Ordering) → A → List A → List A
  insert_by cmp x [] = x ∷ []
  insert_by cmp x (y ∷ ys) = place (cmp y x) x y ys (insert_by cmp x ys)

  unfoldable pub sort_by : (A → A → Ordering) → List A → List A
  sort_by cmp [] = []
  sort_by cmp (x ∷ xs) = insert_by cmp x (sort_by cmp xs)

module _ {ℓ} {A : Type ℓ} where
  place-mem :
      (o : Ordering) (x y z : A) (ys rest : List A)
      → Memᴰ z rest ↔ ((z ≡ x) ⊎ Memᴰ z ys)
      → Memᴰ z (place o x y ys rest) ↔ ((z ≡ x) ⊎ Memᴰ z (y ∷ ys))
  unfolding place
  place-mem o x y z ys rest h = (to o, from o)
    where
      to : (o : Ordering) → Memᴰ z (place o x y ys rest) → (z ≡ x) ⊎ Memᴰ z (y ∷ ys)
      to Ordering.lt m =
          unfold place in
          elim (cases_cons m) [
            | inl e ↦ inr (head e)
            | inr m' ↦ elim (h.0 m') [ inl e ↦ inl e | inr t ↦ inr (tail t) ]
          ]
      to Ordering.eq m = cases_cons m
      to Ordering.gt m = cases_cons m

      from : (o : Ordering) → (z ≡ x) ⊎ Memᴰ z (y ∷ ys) → Memᴰ z (place o x y ys rest)
      from Ordering.lt (inl e) = tail (h.1 (inl e))
      from Ordering.lt (inr (head e)) = head e
      from Ordering.lt (inr (tail m)) = tail (h.1 (inr m))
      from Ordering.eq (inl e) = head e
      from Ordering.eq (inr m) = tail m
      from Ordering.gt (inl e) = head e
      from Ordering.gt (inr m) = tail m

  insert_by-mem :
      (cmp : A → A → Ordering) (x z : A) (ys : List A)
      → Memᴰ z (insert_by cmp x ys) ↔ ((z ≡ x) ⊎ Memᴰ z ys)
  unfolding insert_by
  insert_by-mem cmp x z [] = (cases_cons, λ h. elim h [ inl e ↦ head e | inr m ↦ tail m ])
  insert_by-mem cmp x z (y ∷ ys) =
      place-mem (cmp y x) x y z ys (insert_by cmp x ys) (insert_by-mem cmp x z ys)

  pub sort_by-mem :
      (cmp : A → A → Ordering) (z : A) (xs : List A) → Memᴰ z (sort_by cmp xs) ↔ Memᴰ z xs
  unfolding sort_by
  sort_by-mem cmp z [] = (λ m. m, λ m. m)
  sort_by-mem cmp z (x ∷ xs) = (
    λ m. elim ((insert_by-mem cmp x z (sort_by cmp xs)).0 m) [
      | inl e ↦ head e
      | inr m' ↦ tail ((sort_by-mem cmp z xs).0 m')
    ],
    λ m.
        (insert_by-mem cmp x z (sort_by cmp xs)).1
          (elim (cases_cons m) [ inl e ↦ inl e | inr m' ↦ inr ((sort_by-mem cmp z xs).1 m') ]),
  )
