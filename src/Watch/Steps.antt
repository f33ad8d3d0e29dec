-- ===== src/Watch/Steps.antt =====
-- watch.go: the runs of a watch engine as sequences of steps of its goroutines, of the writers of the
-- registry and of the receiver of the events.
use recon.Prelude.{◌<◌, ◌≡◌, ◌≢◌, true, false, [], ◌∷◌, ◌++◌, length}
use recon.KeyPath.{KeyPath}
use recon.Registry.Rollback.{Command, run}
use recon.Registry.Warnings.{DeprecationWarning, queue_warning}
use recon.Watch.Engine.{PendingChange, Engine, take_pending, take_tick, receive}

pub data Step (e : Engine) : Engine → Type 0 where
  -- forward and poll send a change while there is room for it.
  send :
      (p : PendingChange)
      → length e.pending < e.pending_size
      → Step e (record e { pending = e.pending ++ p ∷ [] })
  take_one : e.stopped ≡ false → e.pending ≢ [] → Step e (take_pending e.pending e)
  tick : e.stopped ≡ false → e.armed ≡ true → Step e (take_tick e)
  take_event : e.events ≢ [] → Step e (receive e.events e)
  -- A write through a view of the registry.
  write :
      (command : Command) (prefix : KeyPath)
      → Step e (record e { registry = (run command prefix e.registry).1 })
  warn : (w : DeprecationWarning) → Step e (record e { queue = queue_warning w e.queue })
  -- The loop returns, which it may do in any round once the context is done, or take another change or
  -- tick in that round.
  stop : Step e (record e { stopped = true })

-- A run: any number of steps.
pub data Steps (e : Engine) : Engine → Type 0 where
  none_yet : Steps e e
  then_step : {e' e'' : Engine} → Steps e e' → Step e' e'' → Steps e e''

-- What every step keeps, every run keeps.
pub steps_keep :
    (P : Engine → Type 0)
    → ((e e' : Engine) → P e → Step e e' → P e')
    → {e e' : Engine} → P e
    → Steps e e'
    → P e'
steps_keep P keeps p none_yet = p
steps_keep P keeps p (then_step steps step) = keeps _ _ (steps_keep P keeps p steps) step

-- A run after a run.
pub run_on : {e e' e'' : Engine} → Steps e e' → Steps e' e'' → Steps e e''
run_on steps none_yet = steps
run_on steps (then_step more step) = then_step (run_on steps more) step
