-- ===== src/Watch/DiffLaws.antt =====
-- watch.go: diffSnapshots lists exactly the paths whose value differs.
use recon.Prelude.Unique.{IsUnique, put-IsUnique, Holds, keys_where-mem}
use recon.Prelude.{
  ◌≡◌, ◌↔◌, ◌⊎◌, inl, inr, refl, sym, ap, ◌∙◌, subst, Bool, true, false, not, ◌&&◌, ◌||◌, Option,
  none, some, [], ◌∷◌, ◌++◌, arith, if◌then◌else◌, Bool-cases, Option-cases, Bytes, bytes_eq,
  bytes_eq_iff, compare_bytes, Map, lookup, put, lookup-put,
}
use mathlib.Core.List.{Memᴰ}
use mathlib.Core.List.Memᴰ
use mathlib.Core.List.Memᴰ.{append_left, append_right, append_cases, of_map, cast}
use recon.Prelude.Sorts.{sort_by, sort_by-mem}
use recon.KeyPath.{KeyPath, parse_path, to_string}
use recon.KeyPath.RoundTrip.{parse_path-to_string}
use recon.Value.{Value}
use recon.Snapshot.Layers.{sort_strings}
use recon.Snapshot.Reads.{Snapshot, is_key, value_at}
use recon.Registry.Equality.{values_equal}
use recon.Registry.Same.{SamePayload, values_equal_iff}
use recon.Watch.Diff.{
  key_values_from, snapshot_key_values, has_changed, changed_keys, gone_keys, diff_values,
  diff_snapshots,
}

-- Two optional values that differ: one is missing, or their payloads are not the same.
abbrev pub Differ : Option Value → Option Value → Type 0
Differ none none = ⊥
Differ none (some w) = Unit
Differ (some v) none = Unit
Differ (some v) (some w) = SamePayload v w → ⊥

ChangedOrGone : Option Value → Option Value → Type 0
ChangedOrGone o o' =
    Holds (λ v. has_changed o v) o' ⊎ Holds (λ v. not (elim o' [ none ↦ false | some w ↦ true ])) o

Differ-iff : (o o' : Option Value) → ChangedOrGone o o' ↔ Differ o o'
unfolding ChangedOrGone has_changed
Differ-iff none none = (λ h. elim h [ inl x ↦ x | inr x ↦ x ], λ h. absurd h)
Differ-iff none (some w) = (λ h. tt, λ h. inl refl)
Differ-iff (some v) none = (λ h. tt, λ h. inr refl)
Differ-iff (some v) (some w) = (
  λ h. elim h [
    | inl x ↦ λ same. ground (arith, x, (values_equal_iff v w).1 same)
    | inr x ↦ absurd (ground (arith, x))
  ],
  λ h. elim (Bool-cases (values_equal v w)) [
    | inl e ↦ absurd (h ((values_equal_iff v w).0 e))
    | inr e ↦ inl (rw e refl)
  ],
)

-- The keys of the map are the texts of paths.
abbrev AreTexts : Map Value → Type 0
AreTexts m = (k : Bytes) (v : Value) → lookup k m ≡ some v → (p : KeyPath) × (k ≡ to_string p)

put-AreTexts :
    (p : KeyPath) (v : Value) (m : Map Value) → AreTexts m → AreTexts (put (to_string p) v m)
put-AreTexts p v m t k w h = elim (Bool-cases (bytes_eq (to_string p) k)) [
  | inl e ↦ (p, sym ((bytes_eq_iff (to_string p) k).0 e))
  | inr e ↦
      t k w
        (sym (lookup-put (to_string p) k v m ∙ ap (λ b. if b then some v else lookup k m) e) ∙ h)
]

key_values_from-lawful :
    (s : Snapshot) (keys : Map KeyPath) (out : Map Value)
    → IsUnique out × AreTexts out
    → IsUnique (key_values_from s keys out) × AreTexts (key_values_from s keys out)
unfolding key_values_from
key_values_from-lawful s [] out h = h
key_values_from-lawful s ((k, p) ∷ keys) out (u, t) =
    key_values_from-lawful s keys _ (added (is_key (to_string p) s.aliases))
  where
    added :
        (b : Bool)
        → IsUnique (if b then out else put (to_string p) (value_at (to_string p) s.values) out)
          × AreTexts (if b then out else put (to_string p) (value_at (to_string p) s.values) out)
    added true = (u, t)
    added false = (put-IsUnique _ _ out u, put-AreTexts p _ out t)

lawful : (s : Snapshot) → IsUnique (snapshot_key_values s) × AreTexts (snapshot_key_values s)
unfolding snapshot_key_values
lawful s =
    key_values_from-lawful s s.listed [] (tt, λ k v h. absurd (unfold lookup in ground arith))

diff_keys-mem :
    (prev cur : Map Value) (k : Bytes)
    → IsUnique prev
    → IsUnique cur
    → Memᴰ k (changed_keys prev cur ++ gone_keys cur prev) ↔ Differ (lookup k prev) (lookup k cur)
unfolding changed_keys gone_keys is_key ChangedOrGone
diff_keys-mem prev cur k u u' =
    let changed = keys_where-mem (λ k v. has_changed (lookup k prev) v) k cur u' in
    let gone = keys_where-mem (λ k v. not (is_key k cur)) k prev u in
    let differ = Differ-iff (lookup k prev) (lookup k cur) in
    (
      λ m. differ.0 (elim (append_cases (changed_keys prev cur) m) [
        | inl m' ↦ inl (changed.0 m')
        | inr m' ↦ inr (gone.0 m')
      ]),
      λ d. elim (differ.1 d) [
        | inl h ↦ append_left (gone_keys cur prev) (changed.1 h)
        | inr h ↦ append_right (changed_keys prev cur) (gone.1 h)
      ],
    )

differing_text :
    (prev cur : Map Value) (k : Bytes)
    → AreTexts prev
    → AreTexts cur
    → Differ (lookup k prev) (lookup k cur)
    → (p : KeyPath) × (k ≡ to_string p)
differing_text prev cur k t t' d = elim (Option-cases (lookup k prev)) [
  | inr (v, e) ↦ t k v e
  | inl e ↦ elim (Option-cases (lookup k cur)) [
    | inr (w, e') ↦ t' k w e'
    | inl e' ↦ absurd (subst (λ o. Differ none o) e' (subst (λ o. Differ o (lookup k cur)) e d))
  ]
]

-- Whether one of the listed paths has the text.
unfoldable pub lists : Bytes → Map KeyPath → Bool
lists ps [] = false
lists ps ((k, p) ∷ keys) = bytes_eq (to_string p) ps || lists ps keys

-- The value that a snapshot has for a path that it lists and that is no alias.
unfoldable pub listed_value : Snapshot → KeyPath → Option Value
listed_value s p =
    let ps = to_string p in
    if lists ps s.listed && not (is_key ps s.aliases) then some (value_at ps s.values) else none

-- What one listed path adds to what is found for a text.
lookup-listed :
    (q ps : Bytes) (values out : Map Value) (alias alias' rest : Bool)
    → (bytes_eq q ps ≡ true → alias ≡ alias')
    → (if rest && not alias'
        then some (value_at ps values)
        else lookup ps (if alias then out else put q (value_at q values) out))
      ≡ (if (bytes_eq q ps || rest) && not alias' then some (value_at ps values) else lookup ps out)
lookup-listed q ps values out alias alias' rest h = elim (Bool-cases (bytes_eq q ps)) [
  | inl e ↦
      let same : q ≡ ps = (bytes_eq_iff q ps).0 e in
      let put_value : lookup ps (put q (value_at q values) out) ≡ some (value_at ps values) =
        lookup-put q ps (value_at q values) out
        ∙ ap (λ b. if b then some (value_at q values) else lookup ps out) e
        ∙ ap (λ k. some (value_at k values)) same in
      ground (arith, e, h e, put_value)
  | inr e ↦
      let passed : lookup ps (put q (value_at q values) out) ≡ lookup ps out =
        lookup-put q ps (value_at q values) out
        ∙ ap (λ b. if b then some (value_at q values) else lookup ps out) e in
      ground (arith, e, passed)
]

lookup-key_values_from :
    (s : Snapshot) (keys : Map KeyPath) (out : Map Value) (ps : Bytes)
    → lookup ps (key_values_from s keys out) ≡ (
        if lists ps keys && not (is_key ps s.aliases)
        then some (value_at ps s.values)
        else lookup ps out)
unfolding key_values_from lists
lookup-key_values_from s [] out ps = refl
lookup-key_values_from s ((k, p) ∷ keys) out ps =
    lookup-key_values_from s keys _ ps
    ∙ lookup-listed (to_string p) ps s.values out (is_key (to_string p) s.aliases)
        (is_key ps s.aliases) (lists ps keys)
        (λ e. ap (λ t. is_key t s.aliases) ((bytes_eq_iff (to_string p) ps).0 e))

lookup-snapshot_key_values :
    (s : Snapshot) (p : KeyPath) → lookup (to_string p) (snapshot_key_values s) ≡ listed_value s p
unfolding snapshot_key_values listed_value lookup
lookup-snapshot_key_values s p = lookup-key_values_from s s.listed [] (to_string p)

-- The paths that diffSnapshots lists are those whose value was added, removed or got another payload, of
-- the paths that the snapshots list and that are no aliases in them.
pub diff_snapshots-mem :
    (prev cur : Snapshot) (p : KeyPath)
    → Memᴰ p (diff_snapshots prev cur) ↔ Differ (listed_value prev p) (listed_value cur p)
unfolding diff_snapshots diff_values sort_strings
diff_snapshots-mem prev cur p =
    let eqs : (lookup (to_string p) (snapshot_key_values prev) ≡ listed_value prev p)
        × (lookup (to_string p) (snapshot_key_values cur) ≡ listed_value cur p) =
      (lookup-snapshot_key_values prev p, lookup-snapshot_key_values cur p) in
    subst (λ o. Memᴰ p (diff_snapshots prev cur) ↔ Differ o (listed_value cur p)) eqs.0
      (subst
        (λ o.
          Memᴰ p (diff_snapshots prev cur)
          ↔ Differ (lookup (to_string p) (snapshot_key_values prev)) o)
        eqs.1
        (let old = snapshot_key_values prev in
          let now = snapshot_key_values cur in
          let keys = changed_keys old now ++ gone_keys now old in
          let listed = λ (k : Bytes). diff_keys-mem old now k (lawful prev).0 (lawful cur).0 in
          (
            λ m.
                let (k, m', e) = of_map parse_path (sort_by compare_bytes keys) m in
                let d = (listed k).0 ((sort_by-mem compare_bytes k keys).0 m') in
                let (q, text) = differing_text old now k (lawful prev).1 (lawful cur).1 d in
                let same : k ≡ to_string p =
                  text ∙ ap to_string (sym (sym e ∙ ap parse_path text ∙ parse_path-to_string q)) in
                subst (λ x. Differ (lookup x old) (lookup x now)) same d,
            λ d. cast (sym (parse_path-to_string p)) (
                Memᴰ.map parse_path
                  ((sort_by-mem compare_bytes (to_string p) keys).1 ((listed (to_string p)).1 d))),
          )))
