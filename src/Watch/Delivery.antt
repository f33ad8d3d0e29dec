-- ===== src/Watch/Delivery.antt =====
-- watch.go: no event is lost without being counted.
use recon.Prelude.{
  ℕ, suc, ◌+◌, ◌≤◌, ◌≡◌, inl, inr, refl, ap, List, [], ◌∷◌, ◌++◌, arith, ltb, Bool-cases,
  Option-cases, length, length-append,
}
use recon.Registry.{State}
use recon.Watch.Engine.{
  Event, PendingChange, Engine, new_engine, emit, fire_reload, take_change, take_pending, take_tick,
  receive,
}
use recon.Watch.Steps.{Step, send, take_one, tick, take_event, write, warn, stop, Steps, steps_keep}

-- The events of a list, together with those that their warnings say were dropped before them.
abbrev pub accounted : List Event → ℕ
accounted [] = 0
accounted (evt ∷ events) = suc (evt.lost) + accounted events

accounted-append : (l r : List Event) → accounted (l ++ r) ≡ accounted l + accounted r
accounted-append [] r = omega arith
accounted-append (evt ∷ l) r = omega (arith, accounted-append l r)

-- Each event that was fired was received, stands in the channel, is counted in the warning of one of
-- those, or is counted in the dropped ones; and the channel holds no more than its buffer.
abbrev pub IsAccounted : Engine → Type 0
IsAccounted e =
    (e.fired ≡ accounted e.received + accounted e.events + e.dropped)
    × (length e.events ≤ e.buffer_size)

emit-IsAccounted : (evt : Event) (e : Engine) → IsAccounted e → IsAccounted (emit evt e)
unfolding emit
emit-IsAccounted evt e (h, room) = elim (Bool-cases (ltb (length e.events) e.buffer_size)) [
  | inl b ↦ rw b (
    omega (arith, h, accounted-append e.events (record evt { lost = e.dropped } ∷ [])),
    ground (arith, length-append e.events (record evt { lost = e.dropped } ∷ [])),
  )
  | inr b ↦ rw b (omega (arith, h), room)
]

take_pending-IsAccounted :
    (pending : List PendingChange) (e : Engine)
    → IsAccounted e
    → IsAccounted (take_pending pending e)
unfolding take_pending take_change
take_pending-IsAccounted [] e h = h
take_pending-IsAccounted (p ∷ pending) e h = elim (Option-cases p.failure) [
  | inl f ↦ rw f h
  | inr (err, f) ↦ rw f (emit-IsAccounted _ _ h)
]

receive-IsAccounted :
    (events : List Event) (e : Engine)
    → events ≡ e.events
    → IsAccounted e
    → IsAccounted (receive events e)
unfolding receive
receive-IsAccounted [] e same h = h
receive-IsAccounted (evt ∷ events) e same (h, room) =
    let taken : suc (evt.lost) + accounted events ≡ accounted e.events = ap accounted same in
    let shorter : suc (length events) ≡ length e.events = ap length same in
    (omega (arith, h, taken, accounted-append e.received (evt ∷ [])), omega (arith, shorter, room))

step-IsAccounted : (e e' : Engine) → IsAccounted e → Step e e' → IsAccounted e'
step-IsAccounted e e' h (send p r) = h
step-IsAccounted e e' h (take_one s p) = take_pending-IsAccounted e.pending e h
step-IsAccounted e e' h (tick s a) = unfold take_tick fire_reload in emit-IsAccounted _ _ h
step-IsAccounted e e' h (take_event p) = receive-IsAccounted e.events e refl h
step-IsAccounted e e' h (write command prefix) = h
step-IsAccounted e e' h (warn w) = h
step-IsAccounted e e' h stop = h

start : (st : State) (buffer : ℕ) → IsAccounted (new_engine st buffer)
unfolding new_engine
start st buffer = (refl, omega arith)

-- In every run of a watch engine from its start, the number of events that were fired is that of the
-- events received and in the channel together with those that their warnings count as dropped and
-- those not yet reported; and the channel holds no more events than its buffer has room for.
pub engine-IsAccounted :
    (st : State) (buffer : ℕ) (e : Engine) → Steps (new_engine st buffer) e → IsAccounted e
engine-IsAccounted st buffer e steps =
    steps_keep IsAccounted step-IsAccounted (start st buffer) steps
