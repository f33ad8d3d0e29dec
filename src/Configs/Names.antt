-- ===== src/Configs/Names.antt =====
-- configs.go: the order of the names agrees with the registries.
use recon.Prelude.{
  ◌≡◌, inl, inr, refl, sym, ap, ◌∙◌, subst, false, not, ◌&&◌, ◌||◌, Option, none, some, List, [],
  ◌∷◌, ◌++◌, arith, Bool-cases, Option-cases, Bytes, bytes_eq, bytes_eq_iff, Map, lookup, put,
  remove, lookup-put, lookup-remove,
}
use recon.Alias.{member, AreUnique}
use recon.Snapshot.Reads.{is_key}
use recon.Configs.Registries.{
  Handle, Configs, drop_first, added, register, remove_registry, close_configs, listen,
}

member-append :
    (n name : Bytes) (names : List Bytes)
    → member n (names ++ name ∷ []) ≡ (member n names || bytes_eq name n)
unfolding member
member-append n name [] = ground arith
member-append n name (m ∷ names) = ground (arith, member-append n name names)

append-AreUnique :
    (name : Bytes) (names : List Bytes)
    → member name names ≡ false
    → AreUnique names
    → AreUnique (names ++ name ∷ [])
unfolding member
append-AreUnique name [] h u = (refl, tt)
append-AreUnique name (m ∷ names) h (fresh, u) = (
  member-append m name names ∙ ground (arith, h, fresh, bytes_eq_iff m name, bytes_eq_iff name m),
  append-AreUnique name names (ground (arith, h)) u,
)

member-drop_first :
    (n name : Bytes) (names : List Bytes)
    → AreUnique names
    → member n (drop_first name names) ≡ (member n names && not (bytes_eq name n))
unfolding member drop_first
member-drop_first n name [] u = refl
member-drop_first n name (m ∷ names) (fresh, u) = elim (Bool-cases (bytes_eq m name)) [
  | inl e ↦ elim (Bool-cases (bytes_eq m n)) [
    | inl e' ↦ rw e (
        subst (λ x. member x names ≡ false) ((bytes_eq_iff m n).0 e') fresh
        ∙ ground (arith, e, e', bytes_eq_iff m name, bytes_eq_iff m n, bytes_eq_iff name n))
    | inr e' ↦
        rw e (ground (arith, e, e', bytes_eq_iff m name, bytes_eq_iff m n, bytes_eq_iff name n))
  ]
  | inr e ↦ rw e (
      ground (
        arith,
        e,
        member-drop_first n name names u,
        bytes_eq_iff m name,
        bytes_eq_iff m n,
        bytes_eq_iff name n,
      ))
]

drop_first-AreUnique :
    (name : Bytes) (names : List Bytes) → AreUnique names → AreUnique (drop_first name names)
unfolding drop_first
drop_first-AreUnique name [] u = tt
drop_first-AreUnique name (m ∷ names) (fresh, u) = elim (Bool-cases (bytes_eq m name)) [
  | inl e ↦ rw e u
  | inr e ↦
      rw e (
        member-drop_first m name names u ∙ ground (arith, fresh),
        drop_first-AreUnique name names u,
      )
]

module _ {R : Type 0} where
  -- The order has each registered name once, and no other.
  abbrev pub IsOrdered : Configs R → Type 0
  IsOrdered c = AreUnique c.order × ((n : Bytes) → member n c.order ≡ is_key n c.by_name)

  is_key-put :
      (name n : Bytes) (r : R) (m : Map R)
      → is_key n (put name r m) ≡ (is_key n m || bytes_eq name n)
  unfolding is_key
  is_key-put name n r m = ground (arith, lookup-put name n r m)

  is_key-remove :
      (name n : Bytes) (m : Map R)
      → is_key n (remove name m) ≡ (is_key n m && not (bytes_eq name n))
  unfolding is_key
  is_key-remove name n m = ground (arith, lookup-remove name n m)

  module _ (h : Handle R) (c : Configs R) (sound : IsOrdered c) where
    register-IsOrdered : (name : Bytes) (r : Option R) → IsOrdered (register h name r c).1
    unfolding register added
    register-IsOrdered [] r = sound
    register-IsOrdered (b ∷ name) none = sound
    register-IsOrdered (b ∷ name) (some r) = elim (Bool-cases (is_key (b ∷ name) c.by_name)) [
      | inl e ↦ rw e sound
      | inr e ↦ rw e (
        append-AreUnique (b ∷ name) c.order (sound.1 (b ∷ name) ∙ e) sound.0,
        λ n.
            member-append n (b ∷ name) c.order
            ∙ ap (λ x. x || bytes_eq (b ∷ name) n) (sound.1 n)
            ∙ sym (is_key-put (b ∷ name) n r c.by_name),
      )
    ]

    remove_registry-IsOrdered : (name : Bytes) → IsOrdered (remove_registry h name c).1
    unfolding remove_registry
    remove_registry-IsOrdered name = elim (Option-cases (lookup name c.by_name)) [
      | inl e ↦ rw e sound
      | inr (r, e) ↦ rw e (
        drop_first-AreUnique name c.order sound.0,
        λ n.
            member-drop_first n name c.order sound.0
            ∙ ap (λ x. x && not (bytes_eq name n)) (sound.1 n)
            ∙ sym (is_key-remove name n c.by_name),
      )
    ]

    close_configs-IsOrdered : IsOrdered (close_configs h c).1
    unfolding close_configs
    close_configs-IsOrdered = elim (Bool-cases c.closed) [
      | inl e ↦ rw e sound
      | inr e ↦ rw e (tt, λ n. unfold member is_key lookup in refl)
    ]

    listen-IsOrdered : IsOrdered (listen h c)
    unfolding listen
    listen-IsOrdered = elim (Bool-cases (c.closed || c.listening)) [
      | inl e ↦ rw e sound
      | inr e ↦ rw e sound
    ]

-- In every set of registries whose order lists each registered name once and no other, registering,
-- removing, closing the set and listening to its events keep it so, whether they succeed or fail.
pub configs-IsOrdered :
    {R : Type 0} (h : Handle R) (c : Configs R)
    → IsOrdered c
    → ((name : Bytes) (r : Option R) → IsOrdered (register h name r c).1)
      × ((name : Bytes) → IsOrdered (remove_registry h name c).1)
      × IsOrdered (close_configs h c).1
      × IsOrdered (listen h c)
configs-IsOrdered h c sound = (
  register-IsOrdered h c sound,
  remove_registry-IsOrdered h c sound,
  close_configs-IsOrdered h c sound,
  listen-IsOrdered h c sound,
)
