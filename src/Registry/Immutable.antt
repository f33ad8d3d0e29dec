-- ===== src/Registry/Immutable.antt =====
-- registry.go: what a rebuild guarantees of the values that were marked immutable.
use recon.Prelude.{
  ◌≡◌, refl, sym, subst, Bool, true, false, Option, none, some, List, [], ◌∷◌, ◌++◌, arith,
  if◌then◌else◌, Bytes, Map,
}
use mathlib.Core.List.{Memᴰ}
use mathlib.Core.List.Memᴰ.{head, tail, not-nil}
use recon.KeyPath.{KeyPath}
use recon.Value.{Value}
use recon.Snapshot.Reads.{Snapshot, read, is_map, read_section, read_exact}
use recon.Snapshot.Views.{build_snapshot}
use recon.Registry.{
  State, RegistryError, Effect, CheckError, rebuild, install, inputs_of, candidate_error,
  check_immutable, keeps_baseline, baseline_mode, joined_errors,
}
use recon.Registry.Same.{SamePayload, values_equal_iff}
use recon.Registry.Rollback.{Command, run}
use recon.Registry.Installs.{run-IsInstalled}

-- At a path with a baseline the snapshot reads a value with the payload of the baseline: its own entry at
-- the path, or for a map the section below it.
abbrev pub Keeps : Snapshot → Bytes → Value → Type 0
Keeps snap path v =
    (cur : Value) × (read snap path [] (if is_map v then read_section else read_exact) ≡ some cur)
    × SamePayload v cur

-- The test of the code for a baseline.
TestKeeps : Snapshot → Bytes → Value → Type 0
TestKeeps snap path v = keeps_baseline v (read snap path [] (baseline_mode v)) ≡ true

kept_value :
    (v : Value) (o : Option Value)
    → keeps_baseline v o ≡ true
    → (cur : Value) × (o ≡ some cur) × SamePayload v cur
unfolding keeps_baseline
kept_value v none h = absurd (ground (arith, h))
kept_value v (some cur) h = (cur, refl, (values_equal_iff v cur).0 h)

kept : (snap : Snapshot) (path : Bytes) (v : Value) → TestKeeps snap path v → Keeps snap path v
unfolding baseline_mode TestKeeps
kept snap path v h = kept_value v _ h

no_error :
    {A : Type 0} (b : Bool) (e : A) (es : List A)
    → (if b then es else e ∷ es) ≡ []
    → (b ≡ true) × (es ≡ [])
no_error true e es h = (refl, h)
no_error false e es h = absurd (ground arith)

check_immutable-Keeps :
    (snap : Snapshot) (baseline : Map Value) (path : Bytes) (v : Value)
    → check_immutable snap baseline ≡ []
    → Memᴰ (path, v) baseline
    → TestKeeps snap path v
unfolding check_immutable TestKeeps
check_immutable-Keeps snap [] path v h m = absurd (not-nil m)
check_immutable-Keeps snap ((path', w) ∷ baseline) path v h (head e) =
    subst (λ x. keeps_baseline x.1 (read snap x.0 [] (baseline_mode x.1)) ≡ true) (sym e)
      (no_error _ _ _ h).0
check_immutable-Keeps snap ((path', w) ∷ baseline) path v h (tail m) =
    check_immutable-Keeps snap baseline path v (no_error _ _ _ h).1 m

append_nil_left : {A : Type 0} (l r : List A) → l ++ r ≡ [] → l ≡ []
append_nil_left [] r h = refl
append_nil_left (x ∷ l) r h = absurd (ground arith)

joined_errors-none : (es : List CheckError) → joined_errors es ≡ none → es ≡ []
unfolding joined_errors
joined_errors-none [] h = refl
joined_errors-none (e ∷ []) h = absurd (ground arith)
joined_errors-none (e ∷ e' ∷ es) h = absurd (ground arith)

-- The snapshot of the registry keeps the values that were marked immutable.
abbrev pub IsGuarded : State → Type 0
IsGuarded st = (path : Bytes) (v : Value) → Memᴰ (path, v) st.baseline → Keeps st.snapshot path v

install-IsGuarded :
    (st : State) (candidate : Snapshot) (o : Option RegistryError)
    → (o ≡ none → (path : Bytes) (v : Value) → Memᴰ (path, v) st.baseline → Keeps candidate path v)
    → (install st candidate o).0 ≡ none
    → IsGuarded (install st candidate o).1
unfolding install
install-IsGuarded st candidate none k h = k refl
install-IsGuarded st candidate (some e) k h = absurd (ground arith)

pub rebuild-IsGuarded : (st : State) → (rebuild st).0 ≡ none → IsGuarded (rebuild st).1
unfolding rebuild candidate_error
rebuild-IsGuarded st =
    let candidate = build_snapshot (inputs_of st) in
    install-IsGuarded st candidate _ (λ e path v m. kept candidate path v (
      check_immutable-Keeps candidate st.baseline path v
        (append_nil_left _ _ (joined_errors-none _ e)) m))

effects-IsGuarded :
    (st : State) (l : List Effect) → IsGuarded st → IsGuarded (record st { effects = l })
effects-IsGuarded st l h = h

-- A write that succeeds leaves the value of every path with an immutable baseline as it was recorded: the
-- snapshot has a value at the path, for a map the section below it, whose payload is that of the
-- baseline. It is provided that this was so before the write.
pub run-IsGuarded :
    (c : Command) (prefix : KeyPath) (st : State)
    → IsGuarded st
    → (run c prefix st).0 ≡ none
    → IsGuarded (run c prefix st).1
run-IsGuarded c prefix st =
    run-IsInstalled IsGuarded rebuild-IsGuarded effects-IsGuarded c prefix st
