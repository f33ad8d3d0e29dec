-- ===== src/Registry/Names.antt =====
-- The names of the sources of a registry: distinct, not empty, and none of the reserved labels.
use recon.Registry.AtomicSources.{insert_source-IsAtomic, add_source-IsAtomic}
use recon.Registry.Rollback.{IsAtomic}
use recon.Prelude.Int.{ℤ}
use recon.Prelude.{Option-cases, inl, inr, bytes_eq_iff}
use recon.Prelude.{
  ℕ, zero, suc, ◌≡◌, ◌≢◌, inl, inr, refl, sym, ap, subst, Bool, true, false, Option, none, some,
  List, [], ◌∷◌, ◌++◌, arith, if◌then◌else◌, Option-cases, length, Bytes, bytes_eq, bytes_eq_iff,
}
use recon.Precedence.{Source}
use recon.Snapshot.Reads.{Snapshot}
use recon.Snapshot.Views.{build_snapshot}
use recon.Registry.{
  State, RegistryError, rebuild, install, candidate_error, undo_or, commit, inputs_of,
}
use recon.Registry.Rollback.{IsAtomic}
use recon.Registry.AtomicSources.{
  add_source-IsAtomic, insert_source-IsAtomic, remove_source-IsAtomic,
}
use recon.Registry.Writes.{
  has_source, is_reserved_source_name, check_source_name, insert_at, delete_at, clamp, find_source,
  with_sources, when_open, subscribe, unsubscribe, close_source, add_source, insert_source,
  remove_source,
}

unfoldable pub AreDistinct : List Source → Type 0
AreDistinct [] = Unit
AreDistinct (s ∷ sources) =
    (s.name ≢ [])
    × (is_reserved_source_name s.name ≡ false)
    × (has_source s.name sources ≡ false)
    × AreDistinct sources

-- A new source may stand anywhere in the list.
insert-AreDistinct :
    (i : ℕ) (s : Source) (l : List Source)
    → check_source_name s.name l ≡ none
    → AreDistinct l
    → AreDistinct (insert_at i s l)
unfolding insert_at AreDistinct check_source_name has_source
insert-AreDistinct zero s l h d =
    (λ e. absurd (ground (arith, bytes_eq_iff s.name [])), ground arith, ground arith, d)
insert-AreDistinct (suc i) s [] h d =
    (λ e. absurd (ground (arith, bytes_eq_iff s.name [])), ground arith, ground arith, d)
insert-AreDistinct (suc i) s (t ∷ l) h d = (
  d.0,
  d.1,
  others i t l (ground (arith, bytes_eq_iff s.name t.name, bytes_eq_iff t.name s.name)) d.2,
  insert-AreDistinct i s l (ground arith) d.3,
)
  where
    others :
        (i : ℕ) (t : Source) (l : List Source)
        → bytes_eq s.name t.name ≡ false
        → has_source t.name l ≡ false
        → has_source t.name (insert_at i s l) ≡ false
    others zero t l n f = ground arith
    others (suc i) t [] n f = ground arith
    others (suc i) t (u ∷ l) n f = ground (arith, others i t l n (ground arith))

insert_at-length : (s : Source) (l : List Source) → insert_at (length l) s l ≡ l ++ s ∷ []
unfolding insert_at
insert_at-length s [] = refl
insert_at-length s (t ∷ l) = ap (λ x. t ∷ x) (insert_at-length s l)

pub append-AreDistinct :
    (s : Source) (l : List Source)
    → check_source_name s.name l ≡ none
    → AreDistinct l
    → AreDistinct (l ++ s ∷ [])
append-AreDistinct s l h d =
    subst AreDistinct (insert_at-length s l) (insert-AreDistinct (length l) s l h d)

has_source-delete_at :
    (name : Bytes) (i : ℕ) (l : List Source)
    → has_source name l ≡ false
    → has_source name (delete_at i l) ≡ false
unfolding has_source delete_at
has_source-delete_at name zero [] h = refl
has_source-delete_at name (suc i) [] h = refl
has_source-delete_at name zero (s ∷ l) h = ground arith
has_source-delete_at name (suc i) (s ∷ l) h =
    ground (arith, has_source-delete_at name i l (ground arith))

delete_at-AreDistinct : (i : ℕ) (l : List Source) → AreDistinct l → AreDistinct (delete_at i l)
unfolding delete_at AreDistinct
delete_at-AreDistinct zero [] d = tt
delete_at-AreDistinct (suc i) [] d = tt
delete_at-AreDistinct zero (s ∷ l) d = d.3
delete_at-AreDistinct (suc i) (s ∷ l) d =
    (d.0, d.1, has_source-delete_at s.name i l d.2, delete_at-AreDistinct i l d.3)

abbrev Succeeds : Option RegistryError × State → Type 0
Succeeds r = r.0 ≡ none → AreDistinct r.1.sources

abbrev KeepsSources : (State → State) → Type 0
KeepsSources f = (st : State) → (f st).sources ≡ st.sources

pub install-sources :
    (st : State) (candidate : Snapshot) (o : Option RegistryError)
    → (install st candidate o).1.sources ≡ st.sources
unfolding install
install-sources st candidate none = refl
install-sources st candidate (some e) = refl

undo_or-Succeeds :
    (undo done : State → State) (o : Option RegistryError) (st : State)
    → KeepsSources done
    → AreDistinct st.sources
    → Succeeds (undo_or undo done o st)
unfolding undo_or
undo_or-Succeeds undo done none st k d e = subst AreDistinct (sym (k st)) d
undo_or-Succeeds undo done (some err) st k d e = absurd (ground arith)

module _ (st : State) where
  commit-Succeeds :
      (sources : List Source) (undo done : State → State)
      → KeepsSources done
      → AreDistinct sources
      → Succeeds (commit (with_sources sources st) undo done)
  unfolding commit rebuild with_sources
  commit-Succeeds sources undo done k d =
      let st' = with_sources sources st in
      let candidate = build_snapshot (inputs_of st') in
      undo_or-Succeeds undo done (rebuild st').0 (rebuild st').1 k
        (subst AreDistinct (sym (install-sources st' candidate (candidate_error st' candidate))) d)

  failed : (err : RegistryError) → Succeeds (some err, st)
  failed err e = absurd (ground arith)

  if-Succeeds :
      (b : Bool) (r r' : Option RegistryError × State)
      → Succeeds r
      → Succeeds r'
      → Succeeds (if b then r else r')
  if-Succeeds true r r' h h' = h
  if-Succeeds false r r' h h' = h'

  when_open-Succeeds : (r : Option RegistryError × State) → Succeeds r → Succeeds (when_open st r)
  unfolding when_open
  when_open-Succeeds r h = if-Succeeds st.closed _ r (failed RegistryError.registry_closed) h

  either_way :
      (r : Option RegistryError × State)
      → AreDistinct st.sources
      → IsAtomic st r
      → Succeeds r
      → AreDistinct r.1.sources
  either_way r d atomic h = elim (Option-cases r.0) [
    | inl e ↦ h e
    | inr (err, e) ↦ subst AreDistinct (sym ((atomic err e).sources)) d
  ]

if-sources :
    (b : Bool) (st st' : State)
    → st.sources ≡ st'.sources
    → (if b then st else st').sources ≡ st'.sources
if-sources true st st' h = h
if-sources false st st' h = refl

subscribe-sources : (name : Bytes) → KeepsSources (subscribe name)
unfolding subscribe
subscribe-sources name st = if-sources st.watching _ st refl

removed-sources : (name : Bytes) → KeepsSources (λ st. close_source name (unsubscribe name st))
unfolding close_source unsubscribe
removed-sources name st = if-sources st.watching _ st refl

module _ (st : State) (d : AreDistinct st.sources) where
  add_source-Succeeds : (s : Option Source) → Succeeds (add_source s st)
  unfolding add_source
  add_source-Succeeds none = when_open-Succeeds st _ (failed st _)
  add_source-Succeeds (some s) = elim (Option-cases (check_source_name s.name st.sources)) [
    | inl e ↦
        let d' = append-AreDistinct s st.sources e d in
        rw e (when_open-Succeeds st _ (commit-Succeeds st _ _ _ (subscribe-sources s.name) d'))
    | inr (err, e) ↦ rw e (when_open-Succeeds st _ (failed st _))
  ]

  insert_source-Succeeds : (at : ℤ) (s : Option Source) → Succeeds (insert_source at s st)
  unfolding insert_source
  insert_source-Succeeds at none = when_open-Succeeds st _ (failed st _)
  insert_source-Succeeds at (some s) = elim (Option-cases (check_source_name s.name st.sources)) [
    | inl e ↦
        let d' = insert-AreDistinct (clamp at (length st.sources)) s st.sources e d in
        rw e (when_open-Succeeds st _ (commit-Succeeds st _ _ _ (subscribe-sources s.name) d'))
    | inr (err, e) ↦ rw e (when_open-Succeeds st _ (failed st _))
  ]

  remove_source-Succeeds : (name : Bytes) → Succeeds (remove_source name st)
  unfolding remove_source
  remove_source-Succeeds name = elim (Option-cases (find_source name 0 st.sources)) [
    | inl e ↦ rw e (when_open-Succeeds st _ (λ f. d))
    | inr ((i, s), e) ↦ rw e (
        when_open-Succeeds st _
          (commit-Succeeds st _ _ _ (removed-sources name) (delete_at-AreDistinct i st.sources d)))
  ]

-- Adding, inserting and removing a source keep the names of the sources distinct, not empty and
-- none of the reserved labels, whether the write succeeds or fails.
pub sources-AreDistinct :
    (st : State)
    → AreDistinct st.sources
    → ((s : Option Source) → AreDistinct (add_source s st).1.sources)
      × ((at : ℤ) (s : Option Source) → AreDistinct (insert_source at s st).1.sources)
      × ((name : Bytes) → AreDistinct (remove_source name st).1.sources)
sources-AreDistinct st d = (
  λ s. either_way st (add_source s st) d (add_source-IsAtomic st s) (add_source-Succeeds st d s),
  λ at s.
      either_way st (insert_source at s st) d (insert_source-IsAtomic st at s)
        (insert_source-Succeeds st d at s),
  λ name.
      either_way st (remove_source name st) d (remove_source-IsAtomic st name)
        (remove_source-Succeeds st d name),
)
