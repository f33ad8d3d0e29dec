-- ===== src/Binding/References.antt =====
-- expand.go: the references ${other.key} in a text.
use recon.Prelude.{
  ℕ, zero, suc, ◌&&◌, Option, none, some, [], ◌∷◌, ◌++◌, ◌==◌, if◌then◌else◌, length, Bytes, codes,
  bytes_eq,
}
use recon.KeyPath.{KeyPath}
use recon.Value.{Value}
use recon.Value.Access.{ReadError, Result, ok, err}
use recon.Value.Text.{Formats, value_string}
use recon.Registry.{State}
use recon.Registry.Reads.{get}
use recon.Binding.Tags.{cut_at}
use recon.Binding.Expansion.{up_to_brace}

-- An error of r.Get for a key, expandMissingError, and expandRequiredError.
pub data ReferenceError : Type 0 where
  not_read : Bytes → ReadError → ReferenceError
  missing : Bytes → ReferenceError
  required : Bytes → Bytes → ReferenceError

-- The text of a reference or its error, and for the model the end of the fuel.
pub data Reference : Type 0 where
  resolved : Bytes → Reference
  unresolved : ReferenceError → Reference
  out_of_fuel : Reference

-- The registry, or a view of it under a prefix, that the references are read from.
pub record Reader : Type 0 where
  pub formats : Formats
  pub state : State
  pub prefix : KeyPath

unfoldable pub required_text : Formats → Bytes → Result (Option Value) → Reference
required_text fmt key (err e) = unresolved (not_read key e)
required_text fmt key (ok none) = unresolved (missing key)
required_text fmt key (ok (some v)) = resolved (value_string fmt v)

-- expandRequired; valueAsString has no error
unfoldable pub expand_required : Reader → Bytes → Reference
unfolding required_text
expand_required r key = required_text r.formats key (get r.state r.prefix key)

default_text : Formats → Bytes → Result (Option Value) → Bytes
default_text fmt def (err e) = def
default_text fmt def (ok none) = def
default_text fmt def (ok (some v)) = let s = value_string fmt v in if bytes_eq s [] then def else s

-- expandWithDefault
unfoldable pub expand_with_default : Reader → Bytes → Bytes → Bytes
unfolding default_text
expand_with_default r key def = default_text r.formats def (get r.state r.prefix key)

unfoldable pub text_or_error : Formats → Bytes → Bytes → Result (Option Value) → Reference
text_or_error fmt key msg (err e) = unresolved (not_read key e)
text_or_error fmt key msg (ok none) = unresolved (required key msg)
text_or_error fmt key msg (ok (some v)) = resolved (value_string fmt v)

-- expandOrError
unfoldable pub expand_or_error : Reader → Bytes → Bytes → Reference
unfolding text_or_error
expand_or_error r key msg = text_or_error r.formats key msg (get r.state r.prefix key)

unfoldable pub modified : Reader → Bytes → Bytes → Option Bytes → Reference
modified r expr key none = expand_required r key
modified r expr key (some []) = expand_required r expr
modified r expr key (some (c ∷ rest)) =
    if c == b'-'
    then resolved (expand_with_default r key rest)
    else if c == b'?'
    then expand_or_error r key rest
    else expand_required r expr

-- resolveExpandExpr
unfoldable pub resolve_expand_expr : Reader → Bytes → Reference
unfolding modified
resolve_expand_expr r expr = let (key, modifier) = cut_at b':' expr in modified r expr key modifier

-- The text in front of the first "${", and the rest behind it.
unfoldable pub up_to_reference : Bytes → Option (Bytes × Bytes)
up_to_reference [] = none
up_to_reference (c ∷ []) = none
up_to_reference (c ∷ d ∷ s) =
    let rest = up_to_reference (d ∷ s) in
    if c == b'$' && d == b'{'
    then some ([], s)
    else elim rest [ none ↦ none | some (lit, t) ↦ some (c ∷ lit, t) ]

-- The loop of expandValueRefs on fuel, for the text that is left and the one written.
unfoldable pub references_loop : Reader → ℕ → Bytes → Bytes → Reference
references_loop r f [] b = resolved b
references_loop r zero (c ∷ s) b = out_of_fuel
references_loop r (suc f) (c ∷ s) b = elim (up_to_reference (c ∷ s)) [
  | none ↦ resolved (b ++ c ∷ s)
  | some (lit, rest) ↦ elim (up_to_brace rest) [
    | none ↦ resolved ((b ++ lit) ++ codes "${" ++ rest)
    | some (expr, rest') ↦ elim (resolve_expand_expr r expr) [
      | resolved out ↦ references_loop r f rest' ((b ++ lit) ++ out)
      | unresolved e ↦ unresolved e
      | out_of_fuel ↦ out_of_fuel
    ]
  ]
]

unfoldable pub text_and_error : Bytes → Reference → Option (Bytes × Option ReferenceError)
text_and_error s (resolved t) = some (t, none)
text_and_error s (unresolved e) = some (s, some e)
text_and_error s out_of_fuel = none

-- expandValueRefs; `none` is the end of the fuel
unfoldable pub expand_value_refs : Bytes → Reader → Option (Bytes × Option ReferenceError)
unfolding text_and_error
expand_value_refs s r = elim (up_to_reference s) [
  | none ↦ some (s, none)
  | some cut ↦ text_and_error s (references_loop r (length s) s [])
]
