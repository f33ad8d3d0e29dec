-- ===== src/Registry/Fresh.antt =====
-- registry.go: what a registry is like when it is built.
use recon.Prelude.{
  ◌≡◌, ◌≢◌, ◌⊎◌, inl, inr, refl, sym, ap, ◌∙◌, subst, Bool, true, false, Option, none, some, List,
  [], ◌∷◌, ◌++◌, arith, ltb, if◌then◌else◌, Bool-cases, Option-cases, length, Bytes, bytes_eq,
  bytes_eq_refl,
}
use recon.Alias.{member, AreUnique}
use recon.Precedence.{Source}
use recon.Snapshot.Views.{build_snapshot}
use recon.Registry.{State, RegistryError, rebuild, install, inputs_of, candidate_error}
use recon.Registry.Writes.{check_source_name, with_sources, has_source, is_reserved_source_name}
use recon.Registry.Order.{
  apply_precedence, named_sources, consumed, unnamed, indexed, indexed-name, skipped, taken,
  named-consumed, has_source-append, has_source-unnamed,
}
use recon.Registry.Names.{AreDistinct, append-AreDistinct}
use recon.Registry.Current.{IsCurrent}
use recon.Registry.Lifecycle.{
  RegistryOptions, new_state, empty_snapshot, add_source_locked, add_initial, go_on, order_sources,
  built, build_registry,
}

add_source_locked-AreDistinct :
    (s : Option Source) (st : State)
    → AreDistinct st.sources
    → AreDistinct (add_source_locked s st).1.sources
unfolding add_source_locked with_sources
add_source_locked-AreDistinct none st d = d
add_source_locked-AreDistinct (some s) st d =
    elim (Option-cases (check_source_name s.name st.sources)) [
      | inl e ↦ rw e (append-AreDistinct s st.sources e d)
      | inr (err, e) ↦ rw e d
    ]

-- What adding a source keeps, the loop over the initial sources keeps.
module _ (P : State → Type 0)
    (keeps : (s : Option Source) (st : State) → P st → P (add_source_locked s st).1) where
  go_on-keeps :
      (o : Option RegistryError) (st : State) (rest : Option RegistryError × State)
      → P st
      → P rest.1
      → P (go_on o st rest).1
  unfolding go_on
  go_on-keeps none st rest p p' = p'
  go_on-keeps (some err) st rest p p' = p

  add_initial-keeps : (l : List (Option Source)) (st : State) → P st → P (add_initial l st).1
  unfolding add_initial
  add_initial-keeps [] st p = p
  add_initial-keeps (s ∷ l) st p =
      let next = (add_source_locked s st).1 in
      go_on-keeps _ next (add_initial l next) (keeps s st p)
        (add_initial-keeps l next (keeps s st p))

indexed-IsNamed :
    (name : Bytes) (l : List Source) (s : Source)
    → AreDistinct l
    → indexed name l ≡ some s
    → (s.name ≢ []) × (is_reserved_source_name s.name ≡ false)
unfolding indexed AreDistinct
indexed-IsNamed name [] s d h = absurd (ground arith)
indexed-IsNamed name (t ∷ l) s d h = elim (Option-cases (indexed name l)) [
  | inr (u, e) ↦ indexed-IsNamed name l s d.3 (sym (ground arith) ∙ e ∙ ground arith)
  | inl e ↦
      let same : t ≡ s = chosen (bytes_eq t.name name) (sym (ground arith) ∙ h) in
      subst (λ x. (x.name ≢ []) × (is_reserved_source_name x.name ≡ false)) same (d.0, d.1)
]
  where
    chosen : (b : Bool) → (if b then some t else none) ≡ some s → t ≡ s
    chosen true k = ap (λ o. elim o [ none ↦ t | some x ↦ x ]) k
    chosen false k = absurd (ground arith)

member-consumed :
    (name : Bytes) (order : List Bytes) (l : List Source)
    → member name order ≡ false
    → member name (consumed order l) ≡ false
member-consumed name [] l h = unfold consumed member in refl
member-consumed name (n ∷ order) l h = elim (Option-cases (indexed n l)) [
  | inl e ↦
      subst (λ d. member name d ≡ false) (sym (skipped n order l e).1)
        (member-consumed name order l (rest_absent h))
  | inr (s, e) ↦
      subst (λ d. member name d ≡ false) (sym (taken n order l s e).1)
        (both_absent h (member-consumed name order l (rest_absent h)))
]
  where
    rest_absent : member name (n ∷ order) ≡ false → member name order ≡ false
    rest_absent h = unfold member in ground arith

    both_absent :
        member name (n ∷ order) ≡ false
        → member name (consumed order l) ≡ false
        → member name (n ∷ consumed order l) ≡ false
    both_absent h k = unfold member in ground arith

named_sources-AreDistinct :
    (order : List Bytes) (l : List Source)
    → AreUnique order
    → AreDistinct l
    → AreDistinct (named_sources order l)
unfolding AreDistinct
named_sources-AreDistinct [] l u d = unfold named_sources in tt
named_sources-AreDistinct (n ∷ order) l (fresh, u) d = elim (Option-cases (indexed n l)) [
  | inl e ↦ subst AreDistinct (sym (skipped n order l e).0) (named_sources-AreDistinct order l u d)
  | inr (s, e) ↦
      let (not_empty, unreserved) = indexed-IsNamed n l s d e in
      let absent : has_source n (named_sources order l) ≡ false =
        (named-consumed n order l).0 ∙ member-consumed n order l fresh in
      subst AreDistinct (sym (taken n order l s e).0) (
        not_empty,
        unreserved,
        subst (λ x. has_source x (named_sources order l) ≡ false) (sym (indexed-name n l s e).0)
            absent,
        named_sources-AreDistinct order l u d,
      )
]

unnamed-AreDistinct :
    (done : List Bytes) (l : List Source) → AreDistinct l → AreDistinct (unnamed done l)
unfolding unnamed AreDistinct
unnamed-AreDistinct done [] d = tt
unnamed-AreDistinct done (s ∷ l) (not_empty, unreserved, fresh, d) =
    let rest = unnamed-AreDistinct done l d in
    let absent : has_source s.name (unnamed done l) ≡ false =
      has_source-unnamed s.name done l ∙ ground (arith, fresh) in
    elim (Bool-cases (member s.name done)) [
      | inl e ↦ rw e rest
      | inr e ↦ rw e (not_empty, unreserved, absent, rest)
    ]

both-AreDistinct :
    (a b : List Source)
    → AreDistinct a
    → AreDistinct b
    → ((name : Bytes) → has_source name a ≡ true → has_source name b ≡ false)
    → AreDistinct (a ++ b)
unfolding AreDistinct has_source
both-AreDistinct [] b da db h = db
both-AreDistinct (s ∷ a) b (not_empty, unreserved, fresh, da) db h = (
  not_empty,
  unreserved,
  has_source-append s.name a b ∙ ground (arith, fresh, h s.name, bytes_eq_refl s.name),
  both-AreDistinct a b da db (λ name k. h name (ground (arith, k))),
)

apply_precedence-AreDistinct :
    (order : List Bytes) (l : List Source)
    → AreUnique order
    → AreDistinct l
    → AreDistinct (apply_precedence order l)
unfolding apply_precedence
apply_precedence-AreDistinct order [] u d = d
apply_precedence-AreDistinct order (s ∷ l) u d =
    both-AreDistinct _ _ (named_sources-AreDistinct order (s ∷ l) u d)
      (unnamed-AreDistinct (consumed order (s ∷ l)) (s ∷ l) d)
      (λ name k.
        let (same, there) = named-consumed name order (s ∷ l) in
        has_source-unnamed name (consumed order (s ∷ l)) (s ∷ l) ∙ ground (arith, sym same ∙ k))

order_sources-AreDistinct :
    (order : List Bytes) (o : Option RegistryError) (st : State)
    → AreUnique order
    → AreDistinct st.sources
    → AreDistinct (order_sources order o st).sources
unfolding order_sources with_sources
order_sources-AreDistinct [] o st u d = d
order_sources-AreDistinct (name ∷ order) none st u d =
    apply_precedence-AreDistinct (name ∷ order) st.sources u d
order_sources-AreDistinct (name ∷ order) (some e) st u d = d

-- The first snapshot was rejected, without a key: New then goes on with the empty one.
abbrev pub StartsEmpty : State → Type 0
StartsEmpty st =
    (err : RegistryError) × (candidate_error st (build_snapshot (inputs_of st)) ≡ some err)
    × ((build_snapshot (inputs_of st)).values ≡ [])
    × (st.snapshot ≡ empty_snapshot)

-- What is promised of a registry that New returns.
abbrev pub IsFresh : State → Type 0
IsFresh st =
    AreDistinct st.sources
    × ((IsCurrent st × (candidate_error st st.snapshot ≡ none)) ⊎ StartsEmpty st)
    × (st.closed ≡ false)

abbrev WhenBuilt : Option State × List RegistryError → Type 0
WhenBuilt (none, errs) = Unit
WhenBuilt (some st, errs) = IsFresh st

no_values : {A : Type 0} (l : List A) → ltb 0 (length l) ≡ false → l ≡ []
no_values [] h = refl
no_values (x ∷ l) h = absurd (ground (arith, h))

built-IsFresh :
    (no_watch : Bool) (add_err o : Option RegistryError) (st : State)
    → candidate_error st (build_snapshot (inputs_of st)) ≡ o
    → AreDistinct st.sources
    → st.snapshot ≡ empty_snapshot
    → st.closed ≡ false
    → WhenBuilt (
        built no_watch
          (build_snapshot (inputs_of st))
          add_err
          (install st (build_snapshot (inputs_of st)) o).0
          (install st (build_snapshot (inputs_of st)) o).1)
unfolding built install inputs_of candidate_error
built-IsFresh no_watch add_err none st k d e c = (d, inl (refl, k), c)
built-IsFresh no_watch add_err (some err) st k d e c =
    elim (Bool-cases (ltb 0 (length (build_snapshot (inputs_of st)).values))) [
      | inl h ↦ rw h tt
      | inr h ↦ rw h (d, inr (err, k, no_values _ h, e), c)
    ]

ordered-unchanged :
    (order : List Bytes) (o : Option RegistryError) (st : State)
    → ((order_sources order o st).snapshot ≡ st.snapshot)
      × ((order_sources order o st).closed ≡ st.closed)
unfolding order_sources with_sources
ordered-unchanged [] o st = (refl, refl)
ordered-unchanged (name ∷ order) none st = (refl, refl)
ordered-unchanged (name ∷ order) (some e) st = (refl, refl)

-- The registry under construction is open and has no snapshot.
abbrev IsBare : State → Type 0
IsBare st = (st.snapshot ≡ empty_snapshot) × (st.closed ≡ false)

add_source_locked-IsBare :
    (s : Option Source) (st : State) → IsBare st → IsBare (add_source_locked s st).1
unfolding add_source_locked with_sources
add_source_locked-IsBare none st h = h
add_source_locked-IsBare (some s) st h = elim (Option-cases (check_source_name s.name st.sources)) [
  | inl e ↦ rw e h
  | inr (err, e) ↦ rw e h
]

-- A registry that New returns has sources with distinct names, none of them empty or reserved, is open,
-- and has the snapshot of its sources, which passes the checks of a rebuild, or, if that snapshot is
-- rejected and has no values, the empty one, provided that the order of WithPrecedence names no source
-- twice.
pub build_registry-IsFresh :
    (options : RegistryOptions) (st : State) (errs : List RegistryError)
    → AreUnique options.precedence
    → build_registry options ≡ (some st, errs)
    → IsFresh st
unfolding build_registry rebuild
build_registry-IsFresh options st errs u h =
    let (add_err, added) = add_initial options.initial_sources (new_state options) in
    let start = order_sources options.precedence add_err added in
    let fields = ordered-unchanged options.precedence add_err added in
    let bare =
      add_initial-keeps IsBare add_source_locked-IsBare options.initial_sources (new_state options)
        (unfold new_state in (refl, refl)) in
    let distinct =
      add_initial-keeps (λ x. AreDistinct x.sources) add_source_locked-AreDistinct
        options.initial_sources (new_state options) (unfold new_state AreDistinct in tt) in
    subst WhenBuilt h (
      built-IsFresh options.no_watch add_err
        (candidate_error start (build_snapshot (inputs_of start))) start refl
        (order_sources-AreDistinct options.precedence add_err added u distinct) (fields.0 ∙ bare.0)
        (fields.1 ∙ bare.1))
