-- ===== src/Sources/Leaves.antt =====
-- source_map.go: Keys lists the leaves that Get finds, and countLeaves measures them.
use recon.Prelude.{
  ℕ, suc, ◌+◌, ◌≡◌, ◌↔◌, inl, inr, refl, sym, ap, ap₂, ◌∙◌, subst, Bool, true, false, Option, none,
  some, List, [], ◌∷◌, ◌++◌, append_assoc, append-nil, arith, ◌==◌, ==_iff, Bool-cases, length,
  length-append, Bytes, bytes_eq, bytes_eq_iff, bytes_eq_refl,
}
use mathlib.Core.List.{Memᴰ}
use mathlib.Core.List.Memᴰ.{
  head, not-nil, append_left, append_right, append_cases, cast, eq_of_singleton,
}
use recon.KeyPath.{KeyPath}
use recon.Value.{GoValue, GoEntries, new_value}
use recon.Precedence.{present}
use recon.Sources.SortLaws.{sort_paths-mem}
use recon.Value.GoValue.{any_map}
use recon.Value.GoEntries.{go_end, go_entry}
use recon.Precedence.Merge.{go_find}
use recon.Sources.MapSource.{
  MapSource, map_keys, map_get, unsorted_keys, walk_at, walk_from, entry_under, walk_entries,
  walk_value, count_leaves, count_value, leaf_paths,
}

abbrev total_length : List KeyPath → ℕ
total_length [] = 0
total_length (p ∷ ps) = length p + total_length ps

total_length-append :
    (ps qs : List KeyPath) → total_length (ps ++ qs) ≡ total_length ps + total_length qs
total_length-append [] qs = omega arith
total_length-append (p ∷ ps) qs = omega (arith, total_length-append ps qs)

mutual
  unfolding walk_entries count_leaves walk_value count_value

  count_leaves-walk :
      (m : GoEntries) (prefix : KeyPath) (depth : ℕ)
      → suc (length prefix) ≡ depth
      → (length (walk_entries m prefix) ≡ (count_leaves m depth).0)
        × (total_length (walk_entries m prefix) ≡ (count_leaves m depth).1)
  count_leaves-walk go_end prefix depth h = (refl, refl)
  count_leaves-walk (go_entry k v m) prefix depth h =
      let path = prefix ++ k ∷ [] in
      let here = count_value-walk v path depth (omega (arith, length-append prefix (k ∷ []))) in
      let rest = count_leaves-walk m prefix depth h in
      (
        length-append (walk_value v path) (walk_entries m prefix)
            ∙ ap₂ (λ a b. a + b) here.0 rest.0,
        total_length-append (walk_value v path) (walk_entries m prefix)
            ∙ ap₂ (λ a b. a + b) here.1 rest.1,
      )

  count_value-walk :
      (v : GoValue) (path : KeyPath) (depth : ℕ)
      → length path ≡ depth
      → (length (walk_value v path) ≡ (count_value v depth).0)
        × (total_length (walk_value v path) ≡ (count_value v depth).1)
  count_value-walk (any_map m) path depth h = count_leaves-walk m path (suc depth) (ap suc h)
  count_value-walk v path depth h = (refl, omega (arith, h))

total_length_nil : (ps : List KeyPath) → length ps ≡ 0 → total_length ps ≡ 0
total_length_nil [] h = refl
total_length_nil (p ∷ ps) h = absurd (omega (arith, h))

-- What countLeaves reserves is what the paths of the leaves need: their number, and the number of
-- their segments in all.
pub count_leaves_lem :
    (m : GoEntries)
    → (length (leaf_paths m) ≡ (count_leaves m 1).0)
      × (total_length (leaf_paths m) ≡ (count_leaves m 1).1)
unfolding leaf_paths
count_leaves_lem m =
    let (n, l) = count_leaves-walk m [] 1 refl in
    elim (Bool-cases ((count_leaves m 1).0 == 0)) [
      | inl e ↦ rw e (
          let none_left = (==_iff (count_leaves m 1).0 0).0 e in
          (sym none_left, sym (total_length_nil (walk_entries m []) (n ∙ none_left)) ∙ l))
      | inr e ↦ rw e (n, l)
    ]

unfoldable pub is_leaf : GoValue → Bool
is_leaf (any_map m) = false
is_leaf v = true

-- Each key of a Go map stands once in it, and so in the maps inside.
unfoldable mutual
  pub Distinct : GoEntries → Type 0
  Distinct go_end = Unit
  Distinct (go_entry k v m) = (go_find k m ≡ none) × DistinctInside v × Distinct m

  pub DistinctInside : GoValue → Type 0
  DistinctInside (any_map m) = Distinct m
  DistinctInside v = Unit

-- At the segments r there is a leaf.
abbrev pub LeafAt : Option GoValue → KeyPath → Type 0
LeafAt o r = (v : GoValue) × (walk_from o r ≡ some v) × (is_leaf v ≡ true)

some_leaf : Option GoValue → Bool
unfolding is_leaf
some_leaf none = true
some_leaf (some v) = is_leaf v

map_is_no_leaf : (m : GoEntries) → LeafAt (some (any_map m)) [] → ⊥
unfolding walk_from is_leaf some_leaf
map_is_no_leaf m (v, e, h) = let not_leaf : false ≡ is_leaf v = ap some_leaf e in cc

nothing_is_no_leaf : (r : KeyPath) → LeafAt none r → ⊥
unfolding walk_from
nothing_is_no_leaf r (v, e, h) = cc

find_end : (k : Bytes) → go_find k go_end ≡ none
unfolding go_find
find_end k = refl

find_here :
    (k j : Bytes) (x : GoValue) (m : GoEntries)
    → bytes_eq k j ≡ true
    → go_find j (go_entry k x m) ≡ some x
unfolding go_find
find_here k j x m e = rw e refl

find_behind :
    (k j : Bytes) (x : GoValue) (m : GoEntries)
    → bytes_eq k j ≡ false
    → go_find j (go_entry k x m) ≡ go_find j m
unfolding go_find
find_behind k j x m e = rw e refl

-- An entry in front of a map whose keys it is not among does not hide what is found in it.
leaf_behind :
    (k : Bytes) (x : GoValue) (m : GoEntries) (r : KeyPath)
    → go_find k m ≡ none
    → LeafAt (some (any_map m)) r
    → LeafAt (some (any_map (go_entry k x m))) r
unfolding walk_from entry_under
leaf_behind k x m [] h l = absurd (map_is_no_leaf m l)
leaf_behind k x m (seg ∷ r) h l = elim (Bool-cases (bytes_eq k seg)) [
  | inl e ↦
      let missing : go_find seg m ≡ none =
        subst (λ j. go_find j m ≡ none) ((bytes_eq_iff k seg).0 e) h in
      absurd (nothing_is_no_leaf r (subst (λ o. LeafAt o r) missing l))
  | inr e ↦ subst (λ o. LeafAt o r) (sym (find_behind k seg x m e)) l
]

leaf_here :
    (k : Bytes) (x : GoValue) (m : GoEntries) (r : KeyPath)
    → LeafAt (some x) r
    → LeafAt (some (any_map (go_entry k x m))) (k ∷ r)
unfolding walk_from entry_under
leaf_here k x m r l = subst (λ o. LeafAt o r) (sym (find_here k k x m (bytes_eq_refl k))) l

Below : Option GoValue → KeyPath → KeyPath → Type 0
Below o prefix q = (r : KeyPath) × (q ≡ prefix ++ r) × LeafAt o r

mutual
  unfolding walk_entries walk_value Distinct DistinctInside Below walk_from is_leaf

  walk_entries-leaf :
      (m : GoEntries) (prefix q : KeyPath)
      → Distinct m
      → Memᴰ q (walk_entries m prefix)
      → Below (some (any_map m)) prefix q
  walk_entries-leaf go_end prefix q d h = absurd (not-nil h)
  walk_entries-leaf (go_entry k v m) prefix q (fresh, dv, dm) h =
      elim (append_cases (walk_value v (prefix ++ k ∷ [])) h) [
        | inl h' ↦
            let (r, e, l) = walk_value-leaf v (prefix ++ k ∷ []) q dv h' in
            (k ∷ r, e ∙ append_assoc prefix (k ∷ []) r, leaf_here k v m r l)
        | inr h' ↦
            let (r, e, l) = walk_entries-leaf m prefix q dm h' in
            (r, e, leaf_behind k v m r fresh l)
      ]

  walk_value-leaf :
      (v : GoValue) (path q : KeyPath)
      → DistinctInside v
      → Memᴰ q (walk_value v path)
      → Below (some v) path q
  walk_value-leaf (any_map m) path q d h = walk_entries-leaf m path q d h
  walk_value-leaf v path q d h = ([], eq_of_singleton h ∙ sym (append-nil path), (v, refl, refl))

mutual
  unfolding walk_entries walk_value walk_from entry_under is_leaf

  leaf-walk_entries :
      (m : GoEntries) (prefix r : KeyPath)
      → LeafAt (some (any_map m)) r
      → Memᴰ (prefix ++ r) (walk_entries m prefix)
  leaf-walk_entries m prefix [] l = absurd (map_is_no_leaf m l)
  leaf-walk_entries go_end prefix (seg ∷ r) l =
      absurd (nothing_is_no_leaf r (subst (λ o. LeafAt o r) (find_end seg) l))
  leaf-walk_entries (go_entry k v m) prefix (seg ∷ r) l = elim (Bool-cases (bytes_eq k seg)) [
    | inl e ↦
        let l' : LeafAt (some v) r = subst (λ o. LeafAt o r) (find_here k seg v m e) l in
        append_left (walk_entries m prefix) (
          cast
            (ap (λ j. prefix ++ j ∷ r) (sym ((bytes_eq_iff k seg).0 e))
              ∙ sym (append_assoc prefix (k ∷ []) r))
            (leaf-walk_value v (prefix ++ k ∷ []) r l'))
    | inr e ↦
        append_right (walk_value v (prefix ++ k ∷ [])) (
          leaf-walk_entries m prefix (seg ∷ r)
            (subst (λ o. LeafAt o r) (find_behind k seg v m e) l))
  ]

  leaf-walk_value :
      (v : GoValue) (path r : KeyPath) → LeafAt (some v) r → Memᴰ (path ++ r) (walk_value v path)
  leaf-walk_value (any_map m) path r l = leaf-walk_entries m path r l
  leaf-walk_value v path [] l = head (append-nil path)
  leaf-walk_value v path (seg ∷ r) l = absurd (nothing_is_no_leaf r l)

leaf_paths-walk : (m : GoEntries) → leaf_paths m ≡ walk_entries m []
unfolding leaf_paths
leaf_paths-walk m = elim (Bool-cases ((count_leaves m 1).0 == 0)) [
  | inl e ↦ rw e (
      let none_left = (==_iff (count_leaves m 1).0 0).0 e in
      empty_list (walk_entries m []) ((count_leaves-walk m [] 1 refl).0 ∙ none_left))
  | inr e ↦ rw e refl
]
  where
    empty_list : (ps : List KeyPath) → length ps ≡ 0 → [] ≡ ps
    empty_list [] h = refl
    empty_list (p ∷ ps) h = absurd (omega (arith, h))

leaf_get :
    (s : MapSource) (p : KeyPath) (v : GoValue)
    → s.env_keys ≡ none
    → walk_at (any_map s.entries) p ≡ some v
    → is_leaf v ≡ true
    → map_get s p ≡ present (new_value v)
unfolding map_get walk_at
leaf_get s [] v h e l = absurd (map_is_no_leaf s.entries (v, e, l))
leaf_get s (seg ∷ p) v h e l = rw (h, e) refl

plain_keys :
    (fold : Bool) (s : MapSource)
    → s.env_keys ≡ none
    → unsorted_keys fold s ≡ walk_entries s.entries []
unfolding unsorted_keys
plain_keys fold s h = rw h (leaf_paths-walk s.entries)

-- In a map source whose keys are paths, Keys lists exactly the paths at which the nested map has a
-- value that is no map; Get answers each of them with that value.
pub map_keys-mem :
    (fold : Bool) (s : MapSource) (p : KeyPath)
    → s.env_keys ≡ none
    → Distinct s.entries
    → Memᴰ p (map_keys fold s) ↔ (
        (v : GoValue) × (walk_at (any_map s.entries) p ≡ some v)
        × (is_leaf v ≡ true)
        × (map_get s p ≡ present (new_value v)))
unfolding map_keys walk_at Below
map_keys-mem fold s p h d = (
  λ m.
      let listed = (sort_paths-mem p (unsorted_keys fold s)).0 m in
      let (r, e, (v, w, l)) =
        walk_entries-leaf s.entries [] p d (subst (Memᴰ p) (plain_keys fold s h) listed) in
      let w' : walk_at (any_map s.entries) p ≡ some v = ap (walk_at (any_map s.entries)) e ∙ w in
      (v, w', l, leaf_get s p v h w' l),
  λ (v, w, l, g).
      (sort_paths-mem p (unsorted_keys fold s)).1
        (subst (Memᴰ p) (sym (plain_keys fold s h)) (leaf-walk_entries s.entries [] p (v, w, l))),
)
