-- ===== src/Registry/AtomicSources.antt =====
-- AddSource, InsertSource and RemoveSource put the list of the sources back when the rebuild fails.
use recon.Prelude.Int.{ℤ, pos, negsuc}
use recon.Prelude.{Bool-cases, Option-cases, inl, inr}
use recon.Prelude.{
  ℕ, zero, suc, ◌+◌, ◌≤◌, ◌≡◌, inl, inr, refl, ap, subst, Option, none, some, List, [], ◌∷◌, ◌++◌,
  arith, Bool-cases, Option-cases, length, Bytes, bytes_eq,
}
use recon.KeyPath.{KeyPath}
use recon.Precedence.{Source}
use recon.Registry.{State, RegistryError}
use recon.Registry.Writes.{
  add_source, insert_source, remove_source, check_source_name, without_last, insert_at, delete_at,
  clamp, find_source,
}
use recon.Registry.Rollback.{
  Command, run, Unchanged, IsAtomic, set_key, set_default_key, set_all, set_all_defaults, unset_key,
  unpin_key, alias_key, pin_key, add, insert, remove_named,
}
use recon.Registry.Atomic.{
  same-IsAtomic, when_open-IsAtomic, commit-IsAtomic, sources_back, set-IsAtomic,
  set_default-IsAtomic, set_values-IsAtomic, set_defaults-IsAtomic, unset-IsAtomic, unpin-IsAtomic,
  pin_source-IsAtomic, register_alias-IsAtomic,
}

module _ {ℓ} {A : Type ℓ} where
  without_last-snoc : (l : List A) (x : A) → without_last (l ++ x ∷ []) ≡ l
  unfolding without_last
  without_last-snoc [] x = refl
  without_last-snoc (y ∷ []) x = refl
  without_last-snoc (y ∷ z ∷ l) x = ap (λ t. y ∷ t) (without_last-snoc (z ∷ l) x)

  pub delete_at-insert_at :
      (i : ℕ) (x : A) (l : List A) → i ≤ length l → delete_at i (insert_at i x l) ≡ l
  unfolding delete_at insert_at
  delete_at-insert_at zero x l h = refl
  delete_at-insert_at (suc i) x [] h = absurd (omega arith)
  delete_at-insert_at (suc i) x (y ∷ l) h =
      ap (λ t. y ∷ t) (delete_at-insert_at i x l (omega arith))

clamp_le : (i : ℤ) (n : ℕ) → clamp i n ≤ n
unfolding clamp
clamp_le (negsuc i) n = omega arith
clamp_le (pos i) n = ground arith

-- The source that is found stands at its index, counted from n.
found_at :
    (name : Bytes) (n : ℕ) (l : List Source) (i : ℕ) (s : Source)
    → find_source name n l ≡ some (i, s)
    → (j : ℕ) × (i ≡ n + j) × (insert_at j s (delete_at j l) ≡ l)
unfolding find_source insert_at delete_at
found_at name n [] i s h = absurd (ground arith)
found_at name n (t ∷ l) i s h = elim (Bool-cases (bytes_eq t.name name)) [
  | inl e ↦ (0, ground arith, ap (λ x. x ∷ l) (ground arith))
  | inr e ↦
      let (j, same, back) = found_at name (suc n) l i s (ground arith) in
      (suc j, omega arith, ap (λ x. t ∷ x) back)
]

module _ (st : State) where
  pub add_source-IsAtomic : (s : Option Source) → IsAtomic st (add_source s st)
  unfolding add_source
  add_source-IsAtomic none = when_open-IsAtomic st _ (same-IsAtomic st _)
  add_source-IsAtomic (some s) = elim (Option-cases (check_source_name s.name st.sources)) [
    | inl e ↦ rw e (
        when_open-IsAtomic st _
          (commit-IsAtomic st _ _ _ (sources_back st _ _ (without_last-snoc st.sources s))))
    | inr (err, e) ↦ rw e (when_open-IsAtomic st _ (same-IsAtomic st _))
  ]

  pub insert_source-IsAtomic : (at : ℤ) (s : Option Source) → IsAtomic st (insert_source at s st)
  unfolding insert_source
  insert_source-IsAtomic at none = when_open-IsAtomic st _ (same-IsAtomic st _)
  insert_source-IsAtomic at (some s) =
      let i = clamp at (length st.sources) in
      elim (Option-cases (check_source_name s.name st.sources)) [
        | inl e ↦ rw e (
            when_open-IsAtomic st _ (
              commit-IsAtomic st _ _ _ (
                sources_back st _ _
                  (delete_at-insert_at i s st.sources (clamp_le at (length st.sources))))))
        | inr (err, e) ↦ rw e (when_open-IsAtomic st _ (same-IsAtomic st _))
      ]

  pub remove_source-IsAtomic : (name : Bytes) → IsAtomic st (remove_source name st)
  unfolding remove_source
  remove_source-IsAtomic name = elim (Option-cases (find_source name 0 st.sources)) [
    | inl e ↦ rw e (when_open-IsAtomic st _ (same-IsAtomic st none))
    | inr ((i, s), e) ↦
        let (j, same, back) = found_at name 0 st.sources i s e in
        let at_i : j ≡ i = omega arith in
        rw e (
          when_open-IsAtomic st _ (
            commit-IsAtomic st _ _ _ (
              sources_back st _ _
                (subst (λ x. insert_at x s (delete_at x st.sources) ≡ st.sources) at_i back))))
  ]

-- A write that returns an error leaves the registry as it was: its sources, every entry of the
-- overrides, defaults, aliases and pins, and the snapshot; nothing is subscribed or closed.
pub run-IsAtomic :
    (c : Command) (prefix : KeyPath) (st : State) (e : RegistryError)
    → (run c prefix st).0 ≡ some e
    → Unchanged st (run c prefix st).1
unfolding run
run-IsAtomic (set_key key v) prefix st = set-IsAtomic st prefix key v
run-IsAtomic (set_default_key key v) prefix st = set_default-IsAtomic st prefix key v
run-IsAtomic (set_all values) prefix st = set_values-IsAtomic st prefix values
run-IsAtomic (set_all_defaults values) prefix st = set_defaults-IsAtomic st prefix values
run-IsAtomic (unset_key key) prefix st = unset-IsAtomic st prefix key
run-IsAtomic (unpin_key key) prefix st = unpin-IsAtomic st prefix key
run-IsAtomic (alias_key alias canonical) prefix st =
    register_alias-IsAtomic st prefix alias canonical
run-IsAtomic (pin_key key name) prefix st = pin_source-IsAtomic st prefix key name
run-IsAtomic (add s) prefix st = add_source-IsAtomic st s
run-IsAtomic (insert at s) prefix st = insert_source-IsAtomic st at s
run-IsAtomic (remove_named name) prefix st = remove_source-IsAtomic st name
