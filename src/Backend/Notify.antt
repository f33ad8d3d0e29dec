-- ===== src/Backend/Notify.antt =====
-- remote_inmemory.go: every write that changes something is announced, and List is what Get finds.
use recon.Prelude.{
  ◌≡◌, ◌↔◌, ◌⊎◌, inl, inr, refl, Bool, true, false, Option, none, some, List, [], ◌∷◌, arith,
  Bool-cases, All, Bytes, compare_bytes, Map, lookup, lookup-put_self,
}
use mathlib.Core.List.{Memᴰ}
use recon.Prelude.Sorts.{sort_by-mem}
use recon.Prelude.Unique.{IsUnique, Holds, keys_where, keys_where-mem}
use recon.Snapshot.Layers.{sort_strings}
use recon.Snapshot.Reads.{is_key}
use recon.Backend.Memory.{
  Subscription, MemoryBackend, notify_all, put_value, put_values, delete_value, under_prefix,
  list_under, get_value,
}

-- Each subscription has a tick pending.
abbrev pub AreTold : List Subscription → Type 0
AreTold subs = All (λ s. s.pending ≡ true) subs

notify_all-AreTold : (subs : List Subscription) → AreTold (notify_all subs)
unfolding notify_all
notify_all-AreTold [] = tt
notify_all-AreTold (s ∷ subs) = (refl, notify_all-AreTold subs)

-- A write that changes nothing, or one that all subscriptions are told of.
abbrev pub IsAnnounced : MemoryBackend → MemoryBackend → Type 0
IsAnnounced m m' = (m' ≡ m) ⊎ AreTold m'.subs

module _ (m : MemoryBackend) where
  put_value-IsAnnounced : (k v : Bytes) → IsAnnounced m (put_value k v m)
  unfolding put_value
  put_value-IsAnnounced k v = elim (Bool-cases m.closed) [
    | inl e ↦ rw e (inl refl)
    | inr e ↦ rw e (inr (notify_all-AreTold m.subs))
  ]

  put_values-IsAnnounced : (kv : Map Bytes) → IsAnnounced m (put_values kv m)
  unfolding put_values
  put_values-IsAnnounced kv = elim (Bool-cases m.closed) [
    | inl e ↦ rw e (inl refl)
    | inr e ↦ rw e (inr (notify_all-AreTold m.subs))
  ]

  delete_value-IsAnnounced : (k : Bytes) → IsAnnounced m (delete_value k m)
  unfolding delete_value
  delete_value-IsAnnounced k = elim (Bool-cases m.closed) [
    | inl e ↦ rw e (inl refl)
    | inr e ↦ elim (Bool-cases (is_key k m.entries)) [
      | inl e' ↦ rw (e, e') (inr (notify_all-AreTold m.subs))
      | inr e' ↦ rw (e, e') (inl refl)
    ]
  ]

  ignored :
      m.closed ≡ true
      → (k v : Bytes) (kv : Map Bytes)
      → (put_value k v m ≡ m) × (put_values kv m ≡ m) × (delete_value k m ≡ m)
  unfolding put_value put_values delete_value
  ignored e k v kv = (rw e refl, rw e refl, rw e refl)

  value_put : m.closed ≡ false → (k v : Bytes) → get_value k (put_value k v m) ≡ some v
  unfolding put_value get_value
  value_put e k v = rw e (lookup-put_self k v m.entries)

-- Put, PutAll and Delete change nothing on a closed backend, and each of them either changes nothing or
-- leaves a tick pending for every subscription; on an open one the value that Put sets is what Get finds.
pub writes-AreAnnounced :
    (m : MemoryBackend)
    → ((k v : Bytes) → IsAnnounced m (put_value k v m))
      × ((kv : Map Bytes) → IsAnnounced m (put_values kv m))
      × ((k : Bytes) → IsAnnounced m (delete_value k m))
      × (m.closed ≡ true
          → (k v : Bytes) (kv : Map Bytes)
          → (put_value k v m ≡ m) × (put_values kv m ≡ m) × (delete_value k m ≡ m))
      × (m.closed ≡ false → (k v : Bytes) → get_value k (put_value k v m) ≡ some v)
writes-AreAnnounced m = (
  put_value-IsAnnounced m,
  put_values-IsAnnounced m,
  delete_value-IsAnnounced m,
  ignored m,
  value_put m,
)

Holds-iff :
    (b : Bool) (o : Option Bytes) → Holds (λ v. b) o ↔ ((b ≡ true) × ((v : Bytes) × (o ≡ some v)))
Holds-iff b none = (λ h. absurd h, λ t. absurd (ground (arith, t.1.1)))
Holds-iff b (some v) = (λ h. (h, (v, refl)), λ t. t.0)

-- In a backend whose keys stand once each, List has exactly the keys under the prefix that Get finds.
pub list_under-mem :
    (m : MemoryBackend) (prefix k : Bytes)
    → IsUnique m.entries
    → Memᴰ k (list_under prefix m)
      ↔ ((under_prefix prefix k ≡ true) × ((v : Bytes) × (get_value k m ≡ some v)))
unfolding list_under sort_strings get_value
list_under-mem m prefix k u =
    let sorted =
      sort_by-mem compare_bytes k (keys_where (λ k v. under_prefix prefix k) m.entries) in
    let listed = keys_where-mem (λ k v. under_prefix prefix k) k m.entries u in
    let found = Holds-iff (under_prefix prefix k) (lookup k m.entries) in
    (λ t. found.0 (listed.0 (sorted.0 t)), λ t. sorted.1 (listed.1 (found.1 t)))
