-- ===== src/Watch/Engine.antt =====
-- watch.go: the state of the watch engine and what its loop does with a change, a tick of the debounce
-- timer and an event. The time of an event is left out.
use recon.Prelude.{
  ℕ, zero, suc, ◌+◌, Bool, true, false, Option, none, some, List, [], ◌∷◌, ◌++◌, ltb, ◌==◌,
  if◌then◌else◌, length, Bytes, codes,
}
use recon.KeyPath.{KeyPath}
use recon.Registry.{State, RegistryError, rebuild}
use recon.Registry.Warnings.{DeprecationWarning, drain_warnings}
use recon.Value.Decimal.{format_uint}
use recon.Watch.Diff.{diff_snapshots}

-- What an event reports as an error: that of the rebuild, or that of a source's refresh.
pub data EventError : Type 0 where
  reload_error : RegistryError → EventError
  source_error : Bytes → EventError

-- The struct Event. `lost` stands for the warning about dropped events, which is put behind the others
-- when the count is not 0.
pub record Event : Type 0 where
  pub source : Bytes
  pub changed : List KeyPath
  pub error : Option EventError
  pub warnings : List DeprecationWarning
  pub lost : ℕ

-- The text of that warning.
unfoldable pub lost_message : ℕ → Bytes
lost_message n =
    codes "recon: "
    ++ format_uint n
    ++ codes " reload "
    ++ (if n == 1 then codes "event was" else codes "events were")
    ++ codes " dropped because the Events channel was full"

-- The struct pendingChange, with the Err of its SourceChange.
pub record PendingChange : Type 0 where
  pub src : Bytes
  pub failure : Option Bytes

-- The struct watchEngine with the variables of its loop and the registry it reloads. `received` has
-- the events that were taken from the channel, `fired` counts the calls of emit, and `stopped` says
-- that the loop has returned.
pub record Engine : Type 0 where
  pub registry : State
  pub queue : List DeprecationWarning
  pub pending : List PendingChange
  pub pending_size : ℕ
  pub events : List Event
  pub buffer_size : ℕ
  pub dropped : ℕ
  pub armed : Bool
  pub last_src : Bytes
  pub received : List Event
  pub fired : ℕ
  pub stopped : Bool

-- bufSize
unfoldable pub event_buffer : ℕ → ℕ
event_buffer zero = 16
event_buffer (suc n) = suc n

-- newWatchEngine, for the option of the buffer's size
unfoldable pub new_engine : State → ℕ → Engine
new_engine st buffer = record {
  registry = st;
  queue = [];
  pending = [];
  pending_size = length st.sources + 1;
  events = [];
  buffer_size = event_buffer buffer;
  dropped = 0;
  armed = false;
  last_src = [];
  received = [];
  fired = 0;
  stopped = false;
}

-- emit; only the loop calls it, so that the count it takes off is the whole one
unfoldable pub emit : Event → Engine → Engine
emit evt e =
    let evt' = record evt { lost = e.dropped } in
    if ltb (length e.events) e.buffer_size
    then record e { events = e.events ++ evt' ∷ []; dropped = 0; fired = e.fired + 1 }
    else record e { dropped = e.dropped + 1; fired = e.fired + 1 }

changed_after : Option RegistryError → List KeyPath → List KeyPath
changed_after none changed = changed
changed_after (some err) changed = []

event_error : Option RegistryError → Option EventError
event_error none = none
event_error (some err) = some (reload_error err)

-- The event of a reload of a registry, before it is emitted.
unfoldable pub reload_event : Bytes → State → List DeprecationWarning → Event
unfolding changed_after event_error
reload_event src st queue =
    let (err, st') = rebuild st in
    record {
      source = src;
      changed = changed_after err (diff_snapshots st.snapshot st'.snapshot);
      error = event_error err;
      warnings = (drain_warnings queue).0;
      lost = 0;
    }

-- fireReload, as one step
unfoldable pub fire_reload : Bytes → Engine → Engine
fire_reload src e =
    emit (reload_event src e.registry e.queue)
      (record e { registry = (rebuild e.registry).1; queue = (drain_warnings e.queue).1 })

-- The case of the loop for a change.
unfoldable pub take_change : PendingChange → Engine → Engine
take_change p e = elim p.failure [
  | none ↦ record e { last_src = p.src; armed = true }
  | some err ↦
      emit
        (record {
          source = p.src;
          changed = [];
          error = some (source_error err);
          warnings = [];
          lost = 0;
        })
        (record e { last_src = p.src })
]

unfoldable pub take_pending : List PendingChange → Engine → Engine
take_pending [] e = e
take_pending (p ∷ pending) e = take_change p (record e { pending = pending })

-- The case of the loop for a tick of the timer.
unfoldable pub take_tick : Engine → Engine
take_tick e =
    let e' = fire_reload e.last_src (record e { armed = false }) in record e' { last_src = [] }

-- The receiver takes an event.
unfoldable pub receive : List Event → Engine → Engine
receive [] e = e
receive (evt ∷ events) e = record e { events = events; received = e.received ++ evt ∷ [] }
