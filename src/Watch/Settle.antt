-- ===== src/Watch/Settle.antt =====
-- watch.go: a change that was sent leads to a reload once the loop runs on and the timer fires.
use recon.Prelude.{
  ◌≡◌, inl, inr, refl, sym, ap, ◌∙◌, subst, Bool, true, false, ◌||◌, none, some, List, [], ◌∷◌,
  arith, ltb, Bool-cases, Option-cases, length,
}
use recon.Registry.{rebuild}
use recon.Watch.Engine.{
  Event, PendingChange, Engine, emit, fire_reload, take_change, take_pending, take_tick,
}
use recon.Watch.Steps.{Step, take_one, tick, Steps, none_yet, then_step, run_on}

-- What the loop does without the help of others: it takes every pending change, and a tick follows if
-- the timer is armed.
unfoldable pub drain : List PendingChange → Engine → Engine
drain [] e = e
drain (p ∷ pending) e = drain pending (take_pending (p ∷ pending) e)

unfoldable pub tick_if : Bool → Engine → Engine
tick_if true e = take_tick e
tick_if false e = e

unfoldable pub settle : Engine → Engine
settle e = let e' = drain e.pending e in tick_if e'.armed e'

-- Whether one of the pending changes asks for a reload.
unfoldable pub any_change : List PendingChange → Bool
any_change [] = false
any_change (p ∷ pending) = elim p.failure [ none ↦ true | some err ↦ any_change pending ]

-- The fields that an event leaves alone.
emit_fields :
    (evt : Event) (e : Engine)
    → ((emit evt e).pending ≡ e.pending)
      × ((emit evt e).registry ≡ e.registry)
      × ((emit evt e).stopped ≡ e.stopped)
      × ((emit evt e).armed ≡ e.armed)
unfolding emit
emit_fields evt e = elim (Bool-cases (ltb (length e.events) e.buffer_size)) [
  | inl b ↦ rw b (refl, refl, refl, refl)
  | inr b ↦ rw b (refl, refl, refl, refl)
]

taken_fields :
    (p : PendingChange) (pending : List PendingChange) (e : Engine)
    → ((take_pending (p ∷ pending) e).pending ≡ pending)
      × ((take_pending (p ∷ pending) e).registry ≡ e.registry)
      × ((take_pending (p ∷ pending) e).stopped ≡ e.stopped)
      × ((any_change pending || (take_pending (p ∷ pending) e).armed)
          ≡ (any_change (p ∷ pending) || e.armed))
unfolding take_pending take_change any_change
taken_fields p pending e = elim (Option-cases p.failure) [
  | inl f ↦ rw f (refl, refl, refl, ground arith)
  | inr (err, f) ↦ rw f (
      let fields = emit_fields _ (record e { pending = pending; last_src = p.src }) in
      (fields.0, fields.1, fields.2, ap (λ b. any_change pending || b) fields.3))
]

drain_lem :
    (pending : List PendingChange) (e : Engine)
    → e.pending ≡ pending
    → e.stopped ≡ false
    → Steps e (drain pending e)
      × ((drain pending e).pending ≡ [])
      × ((drain pending e).registry ≡ e.registry)
      × ((drain pending e).stopped ≡ false)
      × ((drain pending e).armed ≡ (any_change pending || e.armed))
unfolding drain any_change
drain_lem [] e h s = (none_yet, h, refl, s, refl)
drain_lem (p ∷ pending) e h s =
    let fields = taken_fields p pending e in
    let rest = drain_lem pending (take_pending (p ∷ pending) e) fields.0 (fields.2 ∙ s) in
    let first : Step e (take_pending (p ∷ pending) e) =
      subst (λ l. Step e (take_pending l e)) h
        (take_one s (λ n. absurd (ground (arith, sym h ∙ n)))) in
    (run_on (then_step none_yet first) rest.0, rest.1, rest.2 ∙ fields.1, rest.3, rest.4 ∙ fields.3)

tick_if_lem :
    (b : Bool) (e e' : Engine)
    → e'.armed ≡ b
    → e'.stopped ≡ false
    → e'.pending ≡ []
    → e'.registry ≡ e.registry
    → Steps e e'
    → Steps e (tick_if b e')
      × ((tick_if b e').pending ≡ [])
      × ((tick_if b e').armed ≡ false)
      × (b ≡ true → (tick_if b e').registry ≡ (rebuild e.registry).1)
unfolding tick_if take_tick fire_reload
tick_if_lem false e e' a running empty same steps = (steps, empty, a, λ h. absurd (ground arith))
tick_if_lem true e e' a running empty same steps =
    let fields = emit_fields _ _ in
    (
      then_step steps (tick running a),
      fields.0 ∙ empty,
      fields.3,
      λ h. fields.1 ∙ ap (λ st. (rebuild st).1) same,
    )

-- Unless it is stopped, an engine can run on by itself to a state in which no change is pending and the
-- timer is not armed; and if a source had announced a change, or the timer was armed, the registry
-- has been rebuilt then.
pub settle_lem :
    (e : Engine)
    → e.stopped ≡ false
    → Steps e (settle e)
      × ((settle e).pending ≡ [])
      × ((settle e).armed ≡ false)
      × ((any_change e.pending || e.armed) ≡ true → (settle e).registry ≡ (rebuild e.registry).1)
unfolding settle
settle_lem e s =
    let (steps, empty, same, running, armed) = drain_lem e.pending e refl s in
    let (more, none_left, disarmed, reloaded) =
      tick_if_lem (drain e.pending e).armed e (drain e.pending e) refl running empty same steps in
    (more, none_left, disarmed, λ h. reloaded (armed ∙ h))
