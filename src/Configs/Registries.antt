-- ===== src/Configs/Registries.antt =====
-- configs.go: the operations of a Configs. A registry is a value of R, of which the set only asks
-- whether it has events, and what its Close returns.
use recon.Prelude.{
  Bool, true, false, ◌||◌, Option, none, some, List, [], ◌∷◌, ◌++◌, if◌then◌else◌, Bytes, bytes_eq,
  Map, lookup, put, remove,
}
use recon.Alias.{member}
use recon.Snapshot.Reads.{is_key}

-- The two things that the set asks of a registry: whether Events is not nil, and the error of Close.
pub record Handle (R : Type 0) : Type 0 where
  pub has_events : R → Bool
  pub close_of : R → Option Bytes

-- The struct Configs without its locks; `listening` says that the stream of events was made, and
-- `shut` has the registries that were closed.
pub record Configs (R : Type 0) : Type 0 where
  pub by_name : Map R
  pub order : List Bytes
  pub closed : Bool
  pub listening : Bool
  pub forwarders : List Bytes
  pub shut : List R

pub data ConfigsError : Type 0 where
  name_conflict : Bytes → ConfigsError
  nil_registry : Bytes → ConfigsError
  close_failed : Bytes → ConfigsError

-- NewConfigs
unfoldable pub new_configs : {R : Type 0} → Configs R
new_configs = record {
  by_name = [];
  order = [];
  closed = false;
  listening = false;
  forwarders = [];
  shut = [];
}

-- startForwarderLocked: the names that have a forwarder
unfoldable pub start_forwarder : {R : Type 0} → Handle R → Bytes → R → List Bytes → List Bytes
start_forwarder h name r forwarders =
    if member name forwarders
    then forwarders
    else if h.has_events r
    then name ∷ forwarders
    else forwarders

-- delete(c.forwarders, name), and c.order without name
unfoldable pub without_name : Bytes → List Bytes → List Bytes
without_name name [] = []
without_name name (n ∷ names) =
    let rest = without_name name names in if bytes_eq n name then rest else n ∷ rest

-- The loop of Remove over the order, which ends at the first entry of the name.
unfoldable pub drop_first : Bytes → List Bytes → List Bytes
drop_first name [] = []
drop_first name (n ∷ names) =
    let rest = drop_first name names in if bytes_eq n name then names else n ∷ rest

module _ {R : Type 0} (h : Handle R) where
  -- What Register does when the name is free.
  unfoldable pub added : Bytes → R → Configs R → Configs R
  added name r c = record c {
    by_name = put name r c.by_name;
    order = c.order ++ name ∷ [];
    forwarders = if c.listening then start_forwarder h name r c.forwarders else c.forwarders;
  }

  -- Register; `none` is a nil registry
  unfoldable pub register : Bytes → Option R → Configs R → Option ConfigsError × Configs R
  register [] r c = (some (name_conflict []), c)
  register (b ∷ name) none c = (some (nil_registry (b ∷ name)), c)
  register (b ∷ name) (some r) c =
      if is_key (b ∷ name) c.by_name
      then (some (name_conflict (b ∷ name)), c)
      else (none, added (b ∷ name) r c)

  close_error : Option Bytes → Option ConfigsError
  close_error none = none
  close_error (some e) = some (close_failed e)

  removed : Bytes → Configs R → Option R → Option ConfigsError × Configs R
  unfolding close_error
  removed name c none = (none, c)
  removed name c (some r) = (
    close_error (h.close_of r),
    record c {
      by_name = remove name c.by_name;
      forwarders = without_name name c.forwarders;
      order = drop_first name c.order;
      shut = c.shut ++ r ∷ [];
    },
  )

  -- Remove
  unfoldable pub remove_registry : Bytes → Configs R → Option ConfigsError × Configs R
  unfolding removed
  remove_registry name c = removed name c (lookup name c.by_name)

  -- The registries of the names in order.
  unfoldable pub registries : Map R → List Bytes → List R
  registries by_name [] = []
  registries by_name (name ∷ order) = elim (lookup name by_name) [
    | none ↦ registries by_name order
    | some r ↦ r ∷ registries by_name order
  ]

  failures : List R → List Bytes
  failures [] = []
  failures (r ∷ rs) = elim (h.close_of r) [ none ↦ failures rs | some e ↦ e ∷ failures rs ]

  -- Close, with the errors of the registries
  unfoldable pub close_configs : Configs R → List Bytes × Configs R
  unfolding failures
  close_configs c = if c.closed then ([], c) else (
    failures (registries c.by_name c.order),
    record c {
      closed = true;
      by_name = [];
      order = [];
      shut = c.shut ++ registries c.by_name c.order;
    },
  )

  -- The loop of Events over the registered names.
  unfoldable pub start_all : Map R → List Bytes → List Bytes → List Bytes
  start_all by_name [] forwarders = forwarders
  start_all by_name (name ∷ order) forwarders =
      start_all by_name order (elim (lookup name by_name) [
        | none ↦ forwarders
        | some r ↦ start_forwarder h name r forwarders
      ])

  -- Events, without the channel it returns
  unfoldable pub listen : Configs R → Configs R
  listen c =
      if c.closed || c.listening
      then c
      else record c { listening = true; forwarders = start_all c.by_name c.order [] }
