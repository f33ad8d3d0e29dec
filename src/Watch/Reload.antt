-- ===== src/Watch/Reload.antt =====
-- watch.go: what the event of a reload reports.
use recon.Prelude.{◌≡◌, ◌↔◌, refl, Option, none, some, List, [], arith, Bytes}
use mathlib.Core.List.{Memᴰ}
use recon.KeyPath.{KeyPath}
use recon.Registry.{State, RegistryError, rebuild, install, inputs_of}
use recon.Snapshot.Reads.{Snapshot}
use recon.Snapshot.Views.{build_snapshot}
use recon.Registry.Warnings.{DeprecationWarning}
use recon.Watch.DiffLaws.{Differ, listed_value, diff_snapshots-mem}
use recon.Watch.Engine.{reload_event}

install-failed :
    (st : State) (candidate : Snapshot) (o : Option RegistryError) (err : RegistryError)
    → (install st candidate o).0 ≡ some err
    → (install st candidate o).1 ≡ st
unfolding install
install-failed st candidate none err h = absurd (ground arith)
install-failed st candidate (some e) err h = refl

rebuild-failed :
    (st : State) (err : RegistryError) → (rebuild st).0 ≡ some err → (rebuild st).1 ≡ st
unfolding rebuild
rebuild-failed st err h = install-failed st (build_snapshot (inputs_of st)) _ err h

-- The event of a reload that succeeds lists the paths whose value was added, removed or got another
-- payload between the snapshot before and the one that was installed, of the paths that these list and
-- that are no aliases in them; a reload that fails lists none, and leaves the registry as it was.
pub reload_event_lem :
    (src : Bytes) (st : State) (queue : List DeprecationWarning)
    → ((rebuild st).0 ≡ none
        → (p : KeyPath)
        → Memᴰ p (reload_event src st queue).changed
          ↔ Differ (listed_value st.snapshot p) (listed_value (rebuild st).1.snapshot p))
      × ((err : RegistryError)
          → (rebuild st).0 ≡ some err
          → ((reload_event src st queue).changed ≡ []) × ((rebuild st).1 ≡ st))
unfolding reload_event
reload_event_lem src st queue = (
  (λ e p. rw e (diff_snapshots-mem st.snapshot (rebuild st).1.snapshot p)),
  λ err e. (rw e refl, rebuild-failed st err e),
)
