-- ===== src/Registry/Warnings.antt =====
-- registry.go: the queue pendingWarnings, which no write of the registry touches; and
-- appendNewWarnings of live.go.
use recon.Prelude.{
  ◌≡◌, inl, inr, refl, ◌∙◌, Bool, true, false, ◌&&◌, ◌||◌, List, [], ◌∷◌, ◌++◌, arith,
  if◌then◌else◌, Bool-cases, Bytes, bytes_eq, bytes_eq_iff, bytes_eq_refl,
}
use recon.KeyPath.{KeyPath, equal}
use recon.KeyPath.Prefix.{equal_iff}

-- The struct DeprecationWarning.
pub record DeprecationWarning : Type 0 where
  pub path : KeyPath
  pub message : Bytes
  pub source : Bytes
  pub replacement : KeyPath

-- The test of queueWarning and appendNewWarnings.
unfoldable pub same_warning : DeprecationWarning → DeprecationWarning → Bool
same_warning q w =
    bytes_eq q.source w.source
    && bytes_eq q.message w.message
    && equal q.path w.path
    && equal q.replacement w.replacement

unfoldable pub is_queued : DeprecationWarning → List DeprecationWarning → Bool
is_queued w [] = false
is_queued w (q ∷ queue) = same_warning q w || is_queued w queue

-- queueWarning
unfoldable pub queue_warning :
    DeprecationWarning → List DeprecationWarning → List DeprecationWarning
queue_warning w queue = if is_queued w queue then queue else queue ++ w ∷ []

-- DrainWarnings: what it returns, and the queue it leaves
unfoldable pub drain_warnings :
    List DeprecationWarning → List DeprecationWarning × List DeprecationWarning
drain_warnings queue = (queue, [])

-- appendNewWarnings
unfoldable pub append_new_warnings :
    List DeprecationWarning → List DeprecationWarning → List DeprecationWarning
append_new_warnings dst [] = dst
append_new_warnings dst (w ∷ add) =
    append_new_warnings (if is_queued w dst then dst else dst ++ w ∷ []) add

-- No warning of the list is queued before another one that is the same.
abbrev pub NoRepeats : List DeprecationWarning → Type 0
NoRepeats [] = Unit
NoRepeats (q ∷ queue) = (is_queued q queue ≡ false) × NoRepeats queue

is_queued-append :
    (w v : DeprecationWarning) (queue : List DeprecationWarning)
    → is_queued w (queue ++ v ∷ []) ≡ (is_queued w queue || same_warning v w)
unfolding is_queued
is_queued-append w v [] = ground arith
is_queued-append w v (q ∷ queue) = ground (arith, is_queued-append w v queue)

same_warning_sym : (q w : DeprecationWarning) → same_warning q w ≡ same_warning w q
unfolding same_warning
same_warning_sym q w = ground (
  arith,
  bytes_eq_iff q.source w.source,
  bytes_eq_iff w.source q.source,
  bytes_eq_iff q.message w.message,
  bytes_eq_iff w.message q.message,
  equal_iff q.path w.path,
  equal_iff w.path q.path,
  equal_iff q.replacement w.replacement,
  equal_iff w.replacement q.replacement,
)

append-NoRepeats :
    (w : DeprecationWarning) (queue : List DeprecationWarning)
    → is_queued w queue ≡ false
    → NoRepeats queue
    → NoRepeats (queue ++ w ∷ [])
unfolding is_queued
append-NoRepeats w [] h n = (refl, tt)
append-NoRepeats w (q ∷ queue) h (fresh, n) = (
  is_queued-append q w queue ∙ ground (arith, same_warning_sym q w),
  append-NoRepeats w queue (ground arith) n,
)

add_new-NoRepeats :
    (w : DeprecationWarning) (queue : List DeprecationWarning)
    → NoRepeats queue
    → NoRepeats (if is_queued w queue then queue else queue ++ w ∷ [])
add_new-NoRepeats w queue n = elim (Bool-cases (is_queued w queue)) [
  | inl e ↦ rw e n
  | inr e ↦ rw e (append-NoRepeats w queue e n)
]

append_new_warnings-NoRepeats :
    (dst add : List DeprecationWarning) → NoRepeats dst → NoRepeats (append_new_warnings dst add)
unfolding append_new_warnings
append_new_warnings-NoRepeats dst [] n = n
append_new_warnings-NoRepeats dst (w ∷ add) n =
    append_new_warnings-NoRepeats (if is_queued w dst then dst else dst ++ w ∷ []) add
      (add_new-NoRepeats w dst n)

same_warning_refl : (w : DeprecationWarning) → same_warning w w ≡ true
unfolding same_warning
same_warning_refl w = ground (
  arith,
  bytes_eq_refl w.source,
  bytes_eq_refl w.message,
  (equal_iff w.path w.path).1 refl,
  (equal_iff w.replacement w.replacement).1 refl,
)

queue_warning-queued :
    (w : DeprecationWarning) (queue : List DeprecationWarning)
    → is_queued w (queue_warning w queue) ≡ true
unfolding queue_warning
queue_warning-queued w queue = elim (Bool-cases (is_queued w queue)) [
  | inl e ↦ rw (e, e) refl
  | inr e ↦ rw e (is_queued-append w w queue ∙ ground (arith, same_warning_refl w))
]

-- Queueing a warning leaves it in the queue, and neither queueing a warning nor appending new ones puts
-- the same warning into a list twice.
pub warnings-NoRepeats :
    (queue : List DeprecationWarning)
    → NoRepeats queue
    → ((w : DeprecationWarning)
        → (is_queued w (queue_warning w queue) ≡ true) × NoRepeats (queue_warning w queue))
      × ((add : List DeprecationWarning) → NoRepeats (append_new_warnings queue add))
unfolding queue_warning
warnings-NoRepeats queue n = (
  (λ w. (queue_warning-queued w queue, add_new-NoRepeats w queue n)),
  λ add. append_new_warnings-NoRepeats queue add n,
)
