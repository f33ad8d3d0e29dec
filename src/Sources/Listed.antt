-- ===== src/Sources/Listed.antt =====
-- source_envfamily.go and source_flag.go: Keys lists the paths at which Get answers.
use recon.Prelude.{
  ◌≡◌, ◌≢◌, ◌↔◌, inl, inr, refl, sym, Option, none, some, List, [], ◌∷◌, map, arith, if◌then◌else◌,
  Bool-cases, All, Bytes,
}
use mathlib.Core.List.{Memᴰ}
use mathlib.Core.List.Memᴰ.{head, tail, cases_cons, not-nil}
use recon.KeyPath.{KeyPath, equal}
use recon.KeyPath.Prefix.{equal_iff}
use recon.Value.{GoValue, GoEntries, Value, new_value}
use recon.Value.GoValue.{any_map}
use recon.Precedence.{Answer, present, absent}
use recon.Sources.SortLaws.{sort_paths-mem}
use recon.Sources.Family.{
  EnvFamily, family_map, family_get, family_keys, targets, add_target, map_answer,
}
use recon.Sources.Flags.{FlagAdapter, FlagSource, first_flag, flag_get, flag_keys}

abbrev pub Answers : Answer → Type 0
Answers a = (v : Value) × (a ≡ present v)

one_family :
    (o : Option GoEntries) (target p : KeyPath) (ps : List KeyPath) (rest : Answer)
    → Memᴰ p ps ↔ Answers rest
    → Memᴰ p (add_target o target ps) ↔ Answers (if equal target p then map_answer o rest else rest)
unfolding add_target map_answer
one_family none target p ps rest ih = elim (Bool-cases (equal target p)) [
  | inl h ↦ rw h ih
  | inr h ↦ rw h ih
]
one_family (some m) target p ps rest ih = elim (Bool-cases (equal target p)) [
  | inl h ↦ rw h ((λ t. (new_value (any_map m), refl)), λ t. head (sym ((equal_iff target p).0 h)))
  | inr h ↦ rw h (
    (λ t. elim (cases_cons t) [
      | inl same ↦ absurd (ground (arith, (equal_iff target p).1 (sym same), h))
      | inr t' ↦ ih.0 t'
    ]),
    λ a. tail (ih.1 a),
  )
]

targets-mem :
    (environ : List Bytes) (families : List EnvFamily) (p : KeyPath)
    → Memᴰ p (targets environ families) ↔ Answers (family_get environ families p)
unfolding targets family_get
targets-mem environ [] p = (λ m. absurd (not-nil m), λ a. absurd (never a.1))
  where
    never : {v : Value} → absent ≢ present v
    never = cc
targets-mem environ (fam ∷ families) p =
    one_family (family_map environ fam) fam.target p (targets environ families)
      (family_get environ families p) (targets-mem environ families p)

-- The source of the families lists exactly the paths at which it answers.
pub family_keys-mem :
    (environ : List Bytes) (families : List EnvFamily) (p : KeyPath)
    → Memᴰ p (family_keys environ families) ↔ Answers (family_get environ families p)
unfolding family_keys
family_keys-mem environ families p =
    let sorted = sort_paths-mem p (targets environ families) in
    let listed = targets-mem environ families p in
    (λ m. listed.0 (sorted.0 m), λ a. sorted.1 (listed.1 a))

-- What the interface asks of an adapter: a flag that Names lists was set.
abbrev pub NamesAreSet : FlagAdapter → List Bytes → Type 0
NamesAreSet adapter names = All (λ name. (v : GoValue) × (adapter.find_flag name ≡ some v)) names

first_flag-mem :
    (s : FlagSource) (p : KeyPath) (names : List Bytes)
    → NamesAreSet s.adapter names
    → Memᴰ p (map s.transform names) ↔ Answers (first_flag s p names)
unfolding first_flag
first_flag-mem s p [] h = (λ m. absurd (not-nil m), λ a. absurd (never a.1))
  where
    never : {v : Value} → absent ≢ present v
    never = cc
first_flag-mem s p (name ∷ names) ((v, e), hs) =
    let ih = first_flag-mem s p names hs in
    elim (Bool-cases (equal (s.transform name) p)) [
      | inl h ↦
          rw (h, e)
            ((λ t. (new_value v, refl)), λ t. head (sym ((equal_iff (s.transform name) p).0 h)))
      | inr h ↦ rw h (
        (λ t. elim (cases_cons t) [
          | inl same ↦ absurd (ground (arith, (equal_iff (s.transform name) p).1 (sym same), h))
          | inr t' ↦ ih.0 t'
        ]),
        λ a. tail (ih.1 a),
      )
    ]

-- With an adapter that keeps the interface's promise, the flag source lists exactly the paths at which
-- it answers.
pub flag_keys-mem :
    (s : FlagSource) (p : KeyPath)
    → NamesAreSet s.adapter s.adapter.names
    → Memᴰ p (flag_keys s) ↔ Answers (flag_get s p)
unfolding flag_keys flag_get
flag_keys-mem s p h =
    let sorted = sort_paths-mem p (map s.transform s.adapter.names) in
    let listed = first_flag-mem s p s.adapter.names h in
    (λ m. listed.0 (sorted.0 m), λ a. sorted.1 (listed.1 a))
