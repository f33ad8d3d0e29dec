-- ===== src/Registry/Order.antt =====
-- registry.go: applyPrecedenceLocked, the order of the sources that WithPrecedence asks for.
use recon.Prelude.{Bool-cases, Option-cases, inl, inr, bytes_eq_iff}
use recon.Prelude.{
  ◌≡◌, inl, inr, refl, sym, ap, ap₂, ◌∙◌, subst, Bool, true, false, not, ◌&&◌, ◌||◌, Option, none,
  some, List, [], ◌∷◌, ◌++◌, arith, if◌then◌else◌, Bool-cases, Option-cases, Bytes, bytes_eq,
  bytes_eq_iff,
}
use recon.Alias.{member}
use recon.Precedence.{Source}
use recon.Registry.Writes.{has_source}

-- indexed[name]: the last source of that name
unfoldable pub indexed : Bytes → List Source → Option Source
indexed name [] = none
indexed name (s ∷ sources) = elim (indexed name sources) [
  | some t ↦ some t
  | none ↦ if bytes_eq s.name name then some s else none
]

-- The first loop: `out`, and the names that it puts into `consumed`.
unfoldable pub named_sources : List Bytes → List Source → List Source
named_sources [] sources = []
named_sources (name ∷ order) sources = elim (indexed name sources) [
  | none ↦ named_sources order sources
  | some s ↦ s ∷ named_sources order sources
]

unfoldable pub consumed : List Bytes → List Source → List Bytes
consumed [] sources = []
consumed (name ∷ order) sources = elim (indexed name sources) [
  | none ↦ consumed order sources
  | some s ↦ name ∷ consumed order sources
]

-- The second loop.
unfoldable pub unnamed : List Bytes → List Source → List Source
unnamed done [] = []
unnamed done (s ∷ sources) =
    let rest = unnamed done sources in if not (member s.name done) then s ∷ rest else rest

unfoldable pub apply_precedence : List Bytes → List Source → List Source
apply_precedence order [] = []
apply_precedence order (s ∷ sources) =
    named_sources order (s ∷ sources) ++ unnamed (consumed order (s ∷ sources)) (s ∷ sources)

pub indexed-name :
    (name : Bytes) (l : List Source) (s : Source)
    → indexed name l ≡ some s
    → (s.name ≡ name) × (has_source name l ≡ true)
unfolding indexed has_source
indexed-name name [] s h = absurd (ground arith)
indexed-name name (t ∷ l) s h = elim (Option-cases (indexed name l)) [
  | inr (u, e) ↦
      let (same, there) = indexed-name name l s (sym (ground arith) ∙ e ∙ ground arith) in
      (same, ground arith)
  | inl e ↦ (ground (arith, bytes_eq_iff t.name name), ground (arith, bytes_eq_iff t.name name))
]

pub has_source-append :
    (name : Bytes) (l r : List Source)
    → has_source name (l ++ r) ≡ (has_source name l || has_source name r)
unfolding has_source
has_source-append name [] r = refl
has_source-append name (s ∷ l) r = ground (arith, has_source-append name l r)

module _ (n : Bytes) (order : List Bytes) (l : List Source) where
  pub skipped :
      indexed n l ≡ none
      → (named_sources (n ∷ order) l ≡ named_sources order l)
        × (consumed (n ∷ order) l ≡ consumed order l)
  unfolding named_sources consumed
  skipped e = (ground arith, ground arith)

  pub taken :
      (s : Source)
      → indexed n l ≡ some s
      → (named_sources (n ∷ order) l ≡ s ∷ named_sources order l)
        × (consumed (n ∷ order) l ≡ n ∷ consumed order l)
  unfolding named_sources consumed
  taken s e = (ground arith, ground arith)

-- The first loop has the sources of the consumed names, which are those of sources.
abbrev pub AreTaken : Bytes → List Source → List Source → List Bytes → Type 0
AreTaken name l out done =
    (has_source name out ≡ member name done) × (member name done ≡ true → has_source name l ≡ true)

taken_first :
    (name n : Bytes) (s : Source) (l out : List Source) (done : List Bytes)
    → s.name ≡ n
    → has_source n l ≡ true
    → AreTaken name l out done
    → AreTaken name l (s ∷ out) (n ∷ done)
unfolding has_source member
taken_first name n s l out done named found (same, there) = (
  ap (λ x. bytes_eq x name || has_source name out) named ∙ ap (λ b. bytes_eq n name || b) same,
  λ h. elim (Bool-cases (bytes_eq n name)) [
    | inl f ↦ subst (λ x. has_source x l ≡ true) ((bytes_eq_iff n name).0 f) found
    | inr f ↦ there (ground arith)
  ],
)

pub named-consumed :
    (name : Bytes) (order : List Bytes) (l : List Source)
    → AreTaken name l (named_sources order l) (consumed order l)
named-consumed name [] l =
    unfold named_sources consumed has_source member in (refl, λ h. absurd (ground arith))
named-consumed name (n ∷ order) l =
    let rest = named-consumed name order l in
    elim (Option-cases (indexed n l)) [
      | inl e ↦
          let (out, done) = skipped n order l e in
          subst (λ d. AreTaken name l (named_sources (n ∷ order) l) d) (sym done)
            (subst (λ o. AreTaken name l o (consumed order l)) (sym out) rest)
      | inr (s, e) ↦
          let (out, done) = taken n order l s e in
          let (named, found) = indexed-name n l s e in
          subst (λ d. AreTaken name l (named_sources (n ∷ order) l) d) (sym done)
            (subst (λ o. AreTaken name l o (n ∷ consumed order l)) (sym out)
              (taken_first name n s l (named_sources order l) (consumed order l) named found rest))
    ]

pub has_source-unnamed :
    (name : Bytes) (done : List Bytes) (l : List Source)
    → has_source name (unnamed done l) ≡ (has_source name l && not (member name done))
unfolding unnamed has_source
has_source-unnamed name done [] = refl
has_source-unnamed name done (s ∷ l) = elim (Bool-cases (bytes_eq s.name name)) [
  | inl e ↦
      let same : member s.name done ≡ member name done =
        ap (λ x. member x done) ((bytes_eq_iff s.name name).0 e) in
      ground (arith, has_source-unnamed name done l)
  | inr e ↦ ground (arith, has_source-unnamed name done l)
]

absorbed : (c h : Bool) → (c ≡ true → h ≡ true) → (c || (h && not c)) ≡ h
absorbed true h f = sym (f refl)
absorbed false true f = refl
absorbed false false f = refl

-- Reordering the sources by precedence neither loses nor adds the name of a source.
pub has_source-apply_precedence :
    (name : Bytes) (order : List Bytes) (l : List Source)
    → has_source name (apply_precedence order l) ≡ has_source name l
unfolding apply_precedence
has_source-apply_precedence name order [] = refl
has_source-apply_precedence name order (s ∷ l) =
    let done = consumed order (s ∷ l) in
    let (same, there) = named-consumed name order (s ∷ l) in
    has_source-append name (named_sources order (s ∷ l)) (unnamed done (s ∷ l))
    ∙ ap₂ (λ a b. a || b) same (has_source-unnamed name done (s ∷ l))
    ∙ absorbed (member name done) (has_source name (s ∷ l)) there
