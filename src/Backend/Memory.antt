-- ===== src/Backend/Memory.antt =====
-- remote_inmemory.go: the state of a MemoryBackend and its operations.
use recon.Prelude.{
  ℕ, suc, Bool, true, false, not, ◌||◌, Option, List, [], ◌∷◌, ◌++◌, ◌==◌, if◌then◌else◌, Bytes,
  bytes_eq, starts_with, Map, lookup, put, remove,
}
use recon.Prelude.Unique.{keys_where}
use recon.Snapshot.Layers.{sort_strings, copy_all}
use recon.Snapshot.Reads.{is_key}

-- A subscription: its channel, and whether the one tick that the channel has room for is pending.
pub record Subscription : Type 0 where
  pub channel : ℕ
  pub pending : Bool

-- The struct MemoryBackend without its lock; `next` numbers the channels.
pub record MemoryBackend : Type 0 where
  pub entries : Map Bytes
  pub subs : List Subscription
  pub closed : Bool
  pub next : ℕ

-- NewInMemoryBackend
unfoldable pub new_backend : MemoryBackend
new_backend = record { entries = []; subs = []; closed = false; next = 0 }

-- notifyAll
unfoldable pub notify_all : List Subscription → List Subscription
notify_all [] = []
notify_all (s ∷ subs) = record s { pending = true } ∷ notify_all subs

-- Put
unfoldable pub put_value : Bytes → Bytes → MemoryBackend → MemoryBackend
put_value k v m =
    if m.closed then m else record m { entries = put k v m.entries; subs = notify_all m.subs }

-- PutAll
unfoldable pub put_values : Map Bytes → MemoryBackend → MemoryBackend
put_values kv m =
    if m.closed then m else record m { entries = copy_all kv m.entries; subs = notify_all m.subs }

-- Delete
unfoldable pub delete_value : Bytes → MemoryBackend → MemoryBackend
delete_value k m =
    if m.closed
    then m
    else if not (is_key k m.entries)
    then m
    else record m { entries = remove k m.entries; subs = notify_all m.subs }

-- prefix == "" || strings.HasPrefix(k, prefix)
unfoldable pub under_prefix : Bytes → Bytes → Bool
under_prefix prefix k = bytes_eq prefix [] || starts_with k prefix

-- List
unfoldable pub list_under : Bytes → MemoryBackend → List Bytes
list_under prefix m = sort_strings (keys_where (λ k v. under_prefix prefix k) m.entries)

-- Get
unfoldable pub get_value : Bytes → MemoryBackend → Option Bytes
get_value k m = lookup k m.entries

entries_under : Bytes → Map Bytes → Map Bytes → Map Bytes
entries_under prefix [] out = out
entries_under prefix ((k, v) ∷ entries) out =
    entries_under prefix entries (if under_prefix prefix k then put k v out else out)

-- ListValues
unfoldable pub list_values : Bytes → MemoryBackend → Map Bytes
unfolding entries_under
list_values prefix m = entries_under prefix m.entries []

-- Watch: the channel, and whether it is closed at once
unfoldable pub watch : MemoryBackend → (ℕ × Bool) × MemoryBackend
watch m = if m.closed then ((m.next, true), record m { next = suc m.next }) else (
  (m.next, false),
  record m {
    subs = m.subs ++ record { channel = m.next; pending = false } ∷ [];
    next = suc m.next;
  },
)

-- The loop of the goroutine of Watch, which takes the subscription out.
unfoldable pub without_channel : ℕ → List Subscription → List Subscription
without_channel c [] = []
without_channel c (s ∷ subs) =
    let rest = without_channel c subs in if s.channel == c then subs else s ∷ rest

-- What happens when the context of a subscription is done.
unfoldable pub cancel_watch : ℕ → MemoryBackend → MemoryBackend
cancel_watch c m = record m { subs = without_channel c m.subs }

-- The receiver of a subscription takes its tick.
unfoldable pub take_tick : ℕ → List Subscription → List Subscription
take_tick c [] = []
take_tick c (s ∷ subs) =
    (if s.channel == c then record s { pending = false } else s) ∷ take_tick c subs

-- Close
unfoldable pub close_backend : MemoryBackend → MemoryBackend
close_backend m = if m.closed then m else record m { closed = true; subs = [] }
