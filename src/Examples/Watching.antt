-- ===== src/Examples/Watching.antt =====
-- watch.go on a registry with one default.
use recon.Prelude.{
  ◌<◌, ◌≡◌, ◌↔◌, refl, true, false, ◌||◌, none, some, [], ◌∷◌, ◌++◌, arith, length, codes,
}
use mathlib.Core.List.{Memᴰ}
use recon.KeyPath.{KeyPath}
use recon.Registry.{RegistryError, rebuild}
use recon.Watch.DiffLaws.{listed_value, Differ}
use recon.Watch.Engine.{PendingChange, Engine, new_engine, reload_event}
use recon.Watch.Steps.{Steps, send, none_yet, then_step}
use recon.Watch.Delivery.{IsAccounted, engine-IsAccounted}
use recon.Watch.Settle.{settle, any_change, settle_lem}
use recon.Watch.Reload.{reload_event_lem}
use recon.Examples.Writes.{state_with}

abbrev engine : Engine
engine = new_engine (state_with none) 1

abbrev change : PendingChange
change = record { src = codes "file"; failure = none }

abbrev with_change : Engine
with_change = record engine { pending = engine.pending ++ change ∷ [] }

is_running : engine.stopped ≡ false
unfolding new_engine
is_running = refl

has_room : length engine.pending < engine.pending_size
unfolding new_engine
has_room = omega arith

one_sent : Steps engine with_change
one_sent = then_step none_yet (send change has_room)

engine-IsAccounted_example : IsAccounted with_change
engine-IsAccounted_example = engine-IsAccounted (state_with none) 1 with_change one_sent

settle_example :
    Steps with_change (settle with_change)
    × ((settle with_change).pending ≡ [])
    × ((settle with_change).armed ≡ false)
    × ((any_change with_change.pending || with_change.armed) ≡ true
        → (settle with_change).registry ≡ (rebuild with_change.registry).1)
settle_example = settle_lem with_change is_running

reload_event_example :
    ((rebuild (state_with none)).0 ≡ none
      → (p : KeyPath)
      → Memᴰ p (reload_event (codes "file") (state_with none) []).changed
        ↔ Differ
            (listed_value (state_with none).snapshot p)
            (listed_value (rebuild (state_with none)).1.snapshot p))
    × ((err : RegistryError)
        → (rebuild (state_with none)).0 ≡ some err
        → ((reload_event (codes "file") (state_with none) []).changed ≡ [])
          × ((rebuild (state_with none)).1 ≡ state_with none))
reload_event_example = reload_event_lem (codes "file") (state_with none) []
