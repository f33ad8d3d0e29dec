-- ===== src/KeyPath/Prefix.antt =====
-- HasPrefix, After, Append and Equal are the operations on sequences of segments.
use recon.Prelude.{
  if◌then◌else◌, ◌≡◌, ◌↔◌, refl, true, none, some, [], ◌∷◌, ◌++◌, arith, bytes_eq_iff,
  bytes_eq_refl, length, drop, length-append, drop-append,
}
use recon.KeyPath.{KeyPath, equal_from, equal, has_prefix, after, append}

equal_from-append : (p q : KeyPath) → equal_from p (p ++ q) ≡ true
unfolding equal_from
equal_from-append [] q = refl
equal_from-append (seg ∷ p) q = rw (bytes_eq_refl seg) (equal_from-append p q)

-- Path.Equal decides equality.
pub equal_iff : (p q : KeyPath) → (equal p q ≡ true) ↔ (p ≡ q)
unfolding equal equal_from
equal_iff [] [] = ground arith
equal_iff [] (seg ∷ q) = ground arith
equal_iff (seg ∷ p) [] = ground arith
equal_iff (seg ∷ p) (seg' ∷ q) = ground (arith, bytes_eq_iff seg seg', equal_iff p q)

equal_from-drop : (p q : KeyPath) → equal_from p q ≡ true → q ≡ p ++ drop (length p) q
unfolding equal_from
equal_from-drop [] q h = refl
equal_from-drop (seg ∷ p) [] h = cc
equal_from-drop (seg ∷ p) (seg' ∷ q) h = ground (arith, bytes_eq_iff seg seg', equal_from-drop p q)

has_prefix-append : (p q : KeyPath) → has_prefix (p ++ q) p ≡ true
unfolding has_prefix
has_prefix-append p q = ground (arith, length-append p q, equal_from-append p q)

has_prefix-drop : (p q : KeyPath) → has_prefix q p ≡ true → q ≡ p ++ drop (length p) q
unfolding has_prefix
has_prefix-drop p q h = equal_from-drop p q (ground arith)

drop_none : (p q : KeyPath) → length p ≡ 0 → drop (length p) q ≡ q
drop_none [] q h = refl
drop_none (seg ∷ p) q h = absurd (omega arith)

after-drop :
    (p prefix : KeyPath)
    → after p prefix ≡ (if has_prefix p prefix then some (drop (length prefix) p) else none)
unfolding after
after-drop p prefix = ground (arith, drop_none prefix p)

-- After returns what follows a prefix, and is nil exactly on what does not begin with it.
pub after_iff : (p prefix rest : KeyPath) → (after p prefix ≡ some rest) ↔ (p ≡ append prefix rest)
unfolding append
after_iff p prefix rest = (
  λ h. ground (arith, after-drop p prefix, has_prefix-drop prefix p),
  λ e. rw e (
      ground (
        arith,
        after-drop (prefix ++ rest) prefix,
        has_prefix-append prefix rest,
        drop-append prefix rest,
      )),
)
