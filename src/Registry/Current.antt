-- ===== src/Registry/Current.antt =====
-- A write of a registry that succeeds installs the snapshot of the layers that it leaves.
use recon.Prelude.{◌≡◌, refl, Option, none, some, List, arith}
use recon.KeyPath.{KeyPath}
use recon.Snapshot.Views.{build_snapshot}
use recon.Registry.{State, RegistryError, Effect, rebuild, install, candidate_error, inputs_of}
use recon.Registry.Rollback.{Command, run}
use recon.Registry.Installs.{run-IsInstalled}

-- The installed snapshot is the one that the sources and layers give.
abbrev pub IsCurrent : State → Type 0
IsCurrent st = st.snapshot ≡ build_snapshot (inputs_of st)

install-IsCurrent :
    (st : State) (o : Option RegistryError)
    → (install st (build_snapshot (inputs_of st)) o).0 ≡ none
    → IsCurrent (install st (build_snapshot (inputs_of st)) o).1
unfolding install inputs_of
install-IsCurrent st none h = refl
install-IsCurrent st (some e) h = absurd (ground arith)

rebuild-IsCurrent : (st : State) → (rebuild st).0 ≡ none → IsCurrent (rebuild st).1
unfolding rebuild
rebuild-IsCurrent st = install-IsCurrent st (candidate_error st (build_snapshot (inputs_of st)))

-- What is done outside does not count for the snapshot.
effects-IsCurrent :
    (st : State) (l : List Effect) → IsCurrent st → IsCurrent (record st { effects = l })
unfolding inputs_of
effects-IsCurrent st l h = h

-- A write that succeeds leaves a snapshot that is built from the sources, overrides, defaults,
-- aliases and pins it leaves, provided that the snapshot was so before.
pub run-IsCurrent :
    (c : Command) (prefix : KeyPath) (st : State)
    → IsCurrent st
    → (run c prefix st).0 ≡ none
    → IsCurrent (run c prefix st).1
run-IsCurrent c prefix st =
    run-IsInstalled IsCurrent rebuild-IsCurrent effects-IsCurrent c prefix st
