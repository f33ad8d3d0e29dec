-- ===== src/Precedence/Shadow.antt =====
-- resolveShadow: its loop, with or without an arena, finds the first source that has the key, and
-- lists all that have it.
use recon.Prelude.{
  bytes_eq_refl, ℕ, Option-cases, false, inl, inr, List, [], ◌∷◌, ◌++◌, map, none, some, Bytes,
  bytes_eq, bytes_eq_iff, ◌≡◌, ◌≢◌, refl, ap, sym, ◌∙◌, arith, append_assoc, append-nil,
  drop-append, All, length, drop, Option,
}
use recon.KeyPath.{KeyPath}
use recon.Value.{Value, with_source}
use recon.Precedence.{
  names_from, arena_length, finish_shadow, Source, SnapshotInputs, Walk, Resolved, add_name,
  take_winner, walk_sources, source_get, contributions, resolve_default, resolve_shadow,
}

abbrev pub names : List (Bytes × Value) → List Bytes
names cs = map (λ c. c.0) cs

-- The loop over what the sources supply.
after_all : List (Bytes × Value) → Walk → Walk
after_all [] w = w
after_all ((n, v) ∷ cs) w = after_all cs (add_name n (take_winner n v w))

pub skip :
    (s : Source) (sources : List Source) (p : KeyPath) (k : Bytes) (is : SnapshotInputs)
    → source_get s p k is ≡ none
    → contributions (s ∷ sources) p k is ≡ contributions sources p k is
unfolding contributions
skip s sources p k is e = ground arith

pub supply :
    (s : Source) (sources : List Source) (p : KeyPath) (k : Bytes) (is : SnapshotInputs) (v : Value)
    → source_get s p k is ≡ some v
    → contributions (s ∷ sources) p k is ≡ (s.name, v) ∷ contributions sources p k is
unfolding contributions
supply s sources p k is v e = ground arith

walk-contributions :
    (sources : List Source) (p : KeyPath) (k : Bytes) (is : SnapshotInputs) (w : Walk)
    → walk_sources sources p k is w ≡ after_all (contributions sources p k is) w
unfolding walk_sources contributions after_all
walk-contributions [] p k is w = refl
walk-contributions (s ∷ sources) p k is w = elim (Option-cases (source_get s p k is)) [
  | inl e ↦ rw e (
      walk-contributions sources p k is w
      ∙ ap (λ cs. after_all cs w) (sym (skip s sources p k is e)))
  | inr (v, e) ↦ rw e (
      walk-contributions sources p k is (add_name s.name (take_winner s.name v w))
      ∙ ap (λ cs. after_all cs w) (sym (supply s sources p k is v e)))
]

take_winner-arena : (n : Bytes) (v : Value) (w : Walk) → (take_winner n v w).arena ≡ w.arena
unfolding take_winner
take_winner-arena n v w = ground arith

take_winner-srcs : (n : Bytes) (v : Value) (w : Walk) → (take_winner n v w).srcs ≡ w.srcs
unfolding take_winner
take_winner-srcs n v w = ground arith

add_name-none :
    (n : Bytes) (w : Walk)
    → w.arena ≡ none
    → ((add_name n w).srcs ≡ w.srcs ++ n ∷ []) × ((add_name n w).arena ≡ none)
unfolding add_name
add_name-none n w h = (ground arith, ground arith)

add_name-some :
    (n : Bytes) (w : Walk) (a : List Bytes)
    → w.arena ≡ some a
    → (add_name n w).arena ≡ some (a ++ n ∷ [])
unfolding add_name
add_name-some n w a h = ground arith

add_name-winner :
    (n : Bytes) (w : Walk)
    → ((add_name n w).winner ≡ w.winner) × ((add_name n w).winner_name ≡ w.winner_name)
unfolding add_name
add_name-winner n w = (ground arith, ground arith)

srcs_listed :
    (cs : List (Bytes × Value)) (w : Walk)
    → w.arena ≡ none
    → ((after_all cs w).srcs ≡ w.srcs ++ names cs) × ((after_all cs w).arena ≡ none)
unfolding after_all
srcs_listed [] w h = (sym (append-nil w.srcs), h)
srcs_listed ((n, v) ∷ cs) w h =
    let w' = take_winner n v w in
    let (srcs, arena) = add_name-none n w' (take_winner-arena n v w ∙ h) in
    let (rest, arena') = srcs_listed cs (add_name n w') arena in
    (
      rest
          ∙ ap (λ l. l ++ names cs) (srcs ∙ ap (λ l. l ++ n ∷ []) (take_winner-srcs n v w))
          ∙ append_assoc w.srcs (n ∷ []) (names cs),
      arena',
    )

arena_listed :
    (cs : List (Bytes × Value)) (w : Walk) (a : List Bytes)
    → w.arena ≡ some a
    → (after_all cs w).arena ≡ some (a ++ names cs)
unfolding after_all
arena_listed [] w a h = h ∙ ap some (sym (append-nil a))
arena_listed ((n, v) ∷ cs) w a h =
    let w' = take_winner n v w in
    let next = add_name-some n w' a (take_winner-arena n v w ∙ h) in
    arena_listed cs (add_name n w') (a ++ n ∷ []) next
    ∙ ap some (append_assoc a (n ∷ []) (names cs))

-- The first winner stays.
winner_stays :
    (cs : List (Bytes × Value)) (w : Walk)
    → bytes_eq w.winner_name [] ≡ false
    → ((after_all cs w).winner ≡ w.winner) × ((after_all cs w).winner_name ≡ w.winner_name)
unfolding after_all
winner_stays [] w h = (refl, refl)
winner_stays ((n, v) ∷ cs) w h =
    let kept : take_winner n v w ≡ w = unfold take_winner in ground arith in
    let (same, same_name) = add_name-winner n w in
    let named : bytes_eq (add_name n w).winner_name [] ≡ false = rw same_name h in
    let (rest, rest_name) = winner_stays cs (add_name n w) named in
    rw (kept, after_all) (rest ∙ same, rest_name ∙ same_name)

-- The sources are named: the registry refuses a source without a name.
abbrev pub AreNamed : List Source → Type 0
AreNamed = All (λ s. s.name ≢ [])

-- What the walk finds, for the list of what the sources supply.
abbrev pub first_of : List (Bytes × Value) → Resolved → Resolved
first_of [] fallback = fallback
first_of ((n, v) ∷ cs) fallback = some (with_source v n, n ∷ names cs)

NamedValues : List (Bytes × Value) → Type 0
NamedValues = All (λ c. c.0 ≢ [])

contributions-Named :
    (sources : List Source) (p : KeyPath) (k : Bytes) (is : SnapshotInputs)
    → AreNamed sources
    → NamedValues (contributions sources p k is)
unfolding NamedValues
contributions-Named [] p k is h = unfold contributions in tt
contributions-Named (s ∷ sources) p k is (h, hs) = elim (Option-cases (source_get s p k is)) [
  | inl e ↦ rw (skip s sources p k is e) (contributions-Named sources p k is hs)
  | inr (v, e) ↦ rw (supply s sources p k is v e) (h, contributions-Named sources p k is hs)
]

abbrev start : Option (List Bytes) → Walk
start arena = record { winner = none; winner_name = []; srcs = []; arena = arena }

not_empty : (n : Bytes) → n ≢ [] → bytes_eq n [] ≡ false
not_empty n h = ground (arith, bytes_eq_iff n [])

-- After a first value the walk has its winner.
first_taken :
    (n : Bytes) (v : Value) (cs : List (Bytes × Value)) (arena : Option (List Bytes))
    → n ≢ []
    → ((after_all ((n, v) ∷ cs) (start arena)).winner ≡ some (with_source v n))
      × (bytes_eq (after_all ((n, v) ∷ cs) (start arena)).winner_name [] ≡ false)
unfolding after_all
first_taken n v cs arena h =
    let w = take_winner n v (start arena) in
    let winner : w.winner ≡ some (with_source v n) =
      unfold take_winner in ground (arith, bytes_eq_refl []) in
    let name : w.winner_name ≡ n = unfold take_winner in ground (arith, bytes_eq_refl []) in
    let (same, same_name) = add_name-winner n w in
    let named : bytes_eq (add_name n w).winner_name [] ≡ false =
      rw (same_name, name) (not_empty n h) in
    let (rest, rest_name) = winner_stays cs (add_name n w) named in
    (rest ∙ same ∙ winner, rw (rest_name, same_name, name) (not_empty n h))

finish-winner :
    (from : ℕ) (k : Bytes) (is : SnapshotInputs) (w : Walk) (v : Value)
    → w.winner ≡ some v
    → bytes_eq w.winner_name [] ≡ false
    → finish_shadow from k is w ≡ some (v, names_from from w)
unfolding finish_shadow
finish-winner from k is w v h e = ground arith

names_from-none : (from : ℕ) (w : Walk) → w.arena ≡ none → names_from from w ≡ w.srcs
unfolding names_from
names_from-none from w h = ground arith

names_from-some :
    (from : ℕ) (w : Walk) (a : List Bytes) → w.arena ≡ some a → names_from from w ≡ drop from a
unfolding names_from
names_from-some from w a h = ground arith

module _ (p : KeyPath) (k : Bytes) (is : SnapshotInputs) where
  listed :
      (cs : List (Bytes × Value)) (arena : Option (List Bytes))
      → names_from (arena_length arena) (after_all cs (start arena)) ≡ names cs
  unfolding arena_length
  listed cs none =
      let (srcs, arena) = srcs_listed cs (start none) refl in names_from-none 0 _ arena ∙ srcs
  listed cs (some a) =
      names_from-some (length a) _ (a ++ names cs) (arena_listed cs (start (some a)) a refl)
      ∙ drop-append a (names cs)

  finished :
      (cs : List (Bytes × Value)) (arena : Option (List Bytes))
      → NamedValues cs
      → finish_shadow (arena_length arena) k is (after_all cs (start arena))
        ≡ first_of cs (resolve_default k is)
  unfolding NamedValues
  finished [] arena h = unfold after_all finish_shadow in ground (arith, bytes_eq_refl [])
  finished ((n, v) ∷ cs) arena (h, hs) =
      let (winner, named) = first_taken n v cs arena h in
      finish-winner (arena_length arena) k is (after_all ((n, v) ∷ cs) (start arena))
        (with_source v n) winner named
      ∙ ap (λ l. some (with_source v n, l)) (listed ((n, v) ∷ cs) arena)

  -- Whatever the arena holds, the result is the value of the first source that has the key, under
  -- its name, with the names of all that have it; without one it is the default.
  pub resolve_shadow_lem :
      (arena : Option (List Bytes))
      → AreNamed is.sources
      → (resolve_shadow p k is arena).0
        ≡ first_of (contributions is.sources p k is) (resolve_default k is)
  unfolding resolve_shadow
  resolve_shadow_lem arena h =
      ap (finish_shadow (arena_length arena) k is)
        (walk-contributions is.sources p k is (start arena))
      ∙ finished (contributions is.sources p k is) arena (contributions-Named is.sources p k is h)
