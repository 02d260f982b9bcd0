-- ===== src/Base/Assoc.antt =====
-- Go's `map[string]V`, as an association list; a missing key reads as `none`.
use Prim.Native.String.{String}
use mathlib.Core.Path.{◌≡◌, refl}
use mathlib.Core.Option.{Option, none, some}
use mathlib.Core.List.{List, [], ◌∷◌}
use native.Mathlib.Omega.{arith}
use text.Mathlib.Text.{◌==◌ as str_eq}
use text.Mathlib.TextEquality.{eq_iff}
use text.Mathlib.TextPositions.{eq_refl}
use fgvcplateform_public.Base.Tests.{if◌then◌else◌}

abbrev pub Assoc {ℓ} : (Value : Type ℓ) → Type ℓ
Assoc Value = List (String × Value)

module _ {κ} {Value : Type κ} where
  -- m[key]
  unfoldable pub lookup : String → Assoc Value → Option Value
  lookup key [] = none
  lookup key ((name, value) ∷ rest) = if str_eq name key then some value else lookup key rest

  -- m[key] = new, which keeps the place of a key that is there
  unfoldable pub insert : String → Value → Assoc Value → Assoc Value
  insert key new [] = (key, new) ∷ []
  insert key new ((name, value) ∷ rest) =
      if str_eq name key then (name, new) ∷ rest else (name, value) ∷ insert key new rest

  pub lookup-insert :
      (key other : String) (new : Value) (m : Assoc Value)
      → lookup other (insert key new m) ≡ (if str_eq key other then some new else lookup other m)
  unfolding lookup insert
  lookup-insert key other new [] = refl
  lookup-insert key other new ((name, value) ∷ rest) = ground (
    arith,
    eq_iff key other,
    eq_iff name key,
    eq_iff name other,
    lookup-insert key other new rest,
  )

  pub lookup-insert_self :
      (key : String) (new : Value) (m : Assoc Value) → lookup key (insert key new m) ≡ some new
  lookup-insert_self key new m = simp (lookup-insert, eq_refl)
