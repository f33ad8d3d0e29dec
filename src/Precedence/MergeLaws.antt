-- ===== src/Precedence/MergeLaws.antt =====
-- mergeValues on maps: each key of the result.
use recon.Prelude.{
  ◌≡◌, inl, inr, refl, sym, ap, ap₂, ◌∙◌, subst, false, Option, none, some, [], arith,
  if◌then◌else◌, Bool-cases, Bytes, bytes_eq, bytes_eq_iff, bytes_eq_refl,
}
use mathlib.Core.Option.{Option}
use recon.Precedence.Merge.{find, go_find, go_put, any_entries, map_of, merge_values, merge_entries}
use recon.Value.{
  Raw, Value, Entries, value, end, entry, GoValue, GoEntries, new_value, new_entries, any,
}
use recon.Value.GoEntries.{go_end, go_entry}
use mathlib.Core.Option

-- The keys of a Go map are distinct.
unfoldable pub IsDistinct : Entries → Type 0
IsDistinct end = Unit
IsDistinct (entry k v m) = (find k m ≡ none) × IsDistinct m

find-new_entries :
    (k : Bytes) (m : GoEntries) → find k (new_entries m) ≡ Option.map new_value (go_find k m)
unfolding find go_find new_value
find-new_entries k go_end = refl
find-new_entries k (go_entry j x m) = ground (arith, find-new_entries k m)

pub go_find-go_put :
    (k j : Bytes) (x : GoValue) (m : GoEntries)
    → go_find k (go_put j x m) ≡ (if bytes_eq j k then some x else go_find k m)
unfolding go_find go_put
go_find-go_put k j x go_end = refl
go_find-go_put k j x (go_entry i y m) =
    ground (arith, bytes_eq_iff j k, bytes_eq_iff i j, bytes_eq_iff i k, go_find-go_put k j x m)

go_find-any_entries :
    (k : Bytes) (m : Entries) → go_find k (any_entries m) ≡ Option.map any (find k m)
unfolding any_entries find
go_find-any_entries k end = unfold go_find in refl
go_find-any_entries k (entry j v m) =
    ground
      (arith, go_find-go_put k j (any v) (any_entries m), bytes_eq_iff j k, go_find-any_entries k m)

-- What the loop writes for one key of the higher map.
abbrev pub merged_entry : Option Value → Value → GoValue
merged_entry o hv = elim o [ some lv ↦ any (merge_values lv hv) | none ↦ any hv ]

merge_entries_step :
    (lm : Entries) (k : Bytes) (hv : Value) (hm : Entries) (merged : GoEntries)
    → merge_entries lm (entry k hv hm) merged
      ≡ merge_entries lm hm (go_put k (merged_entry (find k lm) hv) merged)
unfolding merge_values
merge_entries_step lm k hv hm merged = refl

pick : Option Value → Option Value → Option GoValue → Option GoValue
pick lo none before = before
pick lo (some hv) before = some (merged_entry lo hv)

abbrev merged_at : Bytes → Entries → Entries → GoEntries → Option GoValue
merged_at k lm hm merged = pick (find k lm) (find k hm) (go_find k merged)

find_here : (k : Bytes) (v : Value) (m : Entries) → find k (entry k v m) ≡ some v
unfolding find
find_here k v m = rw (bytes_eq_refl k) refl

find_past :
    (j k : Bytes) (v : Value) (m : Entries) → bytes_eq j k ≡ false → find k (entry j v m) ≡ find k m
unfolding find
find_past j k v m e = rw e refl

pub go_find_here : (j : Bytes) (x : GoValue) (m : GoEntries) → go_find j (go_put j x m) ≡ some x
go_find_here j x m = go_find-go_put j j x m ∙ rw (bytes_eq_refl j) refl

same_key :
    (j : Bytes) (lm : Entries) (hv : Value) (hm : Entries) (merged : GoEntries)
    → find j hm ≡ none
    → merged_at j lm hm (go_put j (merged_entry (find j lm) hv) merged)
      ≡ merged_at j lm (entry j hv hm) merged
same_key j lm hv hm merged fresh =
    let x = merged_entry (find j lm) hv in
    ap (λ o. pick (find j lm) o (go_find j (go_put j x merged))) fresh
    ∙ unfold pick in
      go_find_here j x merged
      ∙ sym (ap (λ o. pick (find j lm) o (go_find j merged)) (find_here j hv hm))

other_key :
    (j k : Bytes) (lm : Entries) (hv : Value) (hm : Entries) (merged : GoEntries)
    → bytes_eq j k ≡ false
    → merged_at k lm hm (go_put j (merged_entry (find j lm) hv) merged)
      ≡ merged_at k lm (entry j hv hm) merged
other_key j k lm hv hm merged e =
    let x = merged_entry (find j lm) hv in
    let kept : go_find k (go_put j x merged) ≡ go_find k merged =
      go_find-go_put k j x merged ∙ rw e refl in
    ap₂ (pick (find k lm)) (sym (find_past j k hv hm e)) kept

go_find-merge_entries :
    (k : Bytes) (lm hm : Entries) (merged : GoEntries)
    → IsDistinct hm
    → go_find k (merge_entries lm hm merged) ≡ merged_at k lm hm merged
unfolding IsDistinct
go_find-merge_entries k lm end merged h = unfold find merge_values pick in refl
go_find-merge_entries k lm (entry j hv hm) merged (fresh, h) =
    let x = merged_entry (find j lm) hv in
    let rest = go_find-merge_entries k lm hm (go_put j x merged) h in
    ap (go_find k) (merge_entries_step lm j hv hm merged)
    ∙ rest
    ∙ elim (Bool-cases (bytes_eq j k)) [
      | inl same ↦
          subst
            (λ i.
              merged_at i lm hm (go_put j (merged_entry (find j lm) hv) merged)
              ≡ merged_at i lm (entry j hv hm) merged)
            ((bytes_eq_iff j k).0 same) (same_key j lm hv hm merged fresh)
      | inr other ↦ other_key j k lm hv hm merged other
    ]

-- A value as it is in the merged map: taken out by Any and wrapped again.
abbrev pub rewrapped : Value → Value
rewrapped v = new_value (any v)

-- The entry of a key in the merged map, from those of the two maps.
unfoldable pub entry_of : Option Value → Option Value → Option Value
entry_of none none = none
entry_of (some lv) none = some (rewrapped lv)
entry_of none (some hv) = some (rewrapped hv)
entry_of (some lv) (some hv) = some (rewrapped (merge_values lv hv))

entry_lem :
    (lo hi : Option Value) → Option.map new_value (pick lo hi (Option.map any lo)) ≡ entry_of lo hi
unfolding entry_of pick
entry_lem none none = refl
entry_lem (some lv) none = refl
entry_lem none (some hv) = refl
entry_lem (some lv) (some hv) = refl

-- Two maps merge into a map, and each of its entries is found from the two entries of its key: the
-- deep merge where both have it, and the only one there is otherwise.
pub merge_values-maps :
    (lm hm : Entries) (s t : Bytes)
    → IsDistinct hm
    → (mm : Entries) × (merge_values (value (Raw.map lm) s) (value (Raw.map hm) t)
        ≡ value (Raw.map mm) [])
      × ((k : Bytes) → find k mm ≡ entry_of (find k lm) (find k hm))
merge_values-maps lm hm s t h = (
  new_entries (merge_entries lm hm (any_entries lm)),
  unfold merge_values map_of new_value in refl,
  λ k.
      find-new_entries k (merge_entries lm hm (any_entries lm))
      ∙ ap (Option.map new_value) (
          go_find-merge_entries k lm hm (any_entries lm) h
          ∙ ap (pick (find k lm) (find k hm)) (go_find-any_entries k lm))
      ∙ entry_lem (find k lm) (find k hm),
)
