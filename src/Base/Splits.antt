-- ===== src/Base/Splits.antt =====
-- What strings.Split makes of texts that were joined.
use Prim.Native.Char.{Char, code}
use Prim.Native.String.{String, ◌++◌ as str_append}
use Prim.Native.String.append.{nil, cons}
use mathlib.Core.Path.{◌≡◌, refl, ap, ◌∙◌}
use mathlib.Core.Logic.{inl, inr}
use mathlib.Core.Bool.{true, false}
use mathlib.Core.List.{List, [], ◌∷◌}
use native.Mathlib.Omega.{arith}
use fgvcplateform_public.Base.Tests.{◌==◌, Bool-cases}
use fgvcplateform_public.Base.Paths.{split_on, has_rune, join_on}

-- a text without the separator is one part
pub split_on-whole :
    (c : Char) (a : String) → has_rune (code c) a ≡ false → split_on (code c) a ≡ a ∷ []
unfolding split_on has_rune
split_on-whole c String.[] h = refl
split_on-whole c (String.◌∷◌ x a) h = elim (Bool-cases (code x == code c)) [
  | inl p ↦ let e = rw p at h in absurd (cc e)
  | inr p ↦
      rw (p, split_on-whole c a (rw p at h))
        (ap (λ t. t ∷ []) (cons x String.[] a ∙ ap (String.◌∷◌ x) (nil a)))
]

-- a text without the separator is the first part of what follows it
pub split_on-first :
    (c : Char) (a s : String)
    → has_rune (code c) a ≡ false
    → split_on (code c) (str_append a (String.◌∷◌ c s)) ≡ a ∷ split_on (code c) s
unfolding split_on has_rune
split_on-first c String.[] s h =
    let same : (code c == code c) ≡ true = ground arith in
    ap (split_on (code c)) (nil (String.◌∷◌ c s)) ∙ rw same refl
split_on-first c (String.◌∷◌ x a) s h = elim (Bool-cases (code x == code c)) [
  | inl p ↦ let e = rw p at h in absurd (cc e)
  | inr p ↦
      ap (split_on (code c)) (cons x a (String.◌∷◌ c s))
      ∙ rw (p, split_on-first c a s (rw p at h))
          (ap (λ t. t ∷ split_on (code c) s) (cons x String.[] a ∙ ap (String.◌∷◌ x) (nil a)))
]

-- No text holds the separator.
abbrev pub IsClear : Char → List String → Type 0
IsClear c [] = Unit
IsClear c (a ∷ parts) = (has_rune (code c) a ≡ false) × IsClear c parts

pub split_on-join_on :
    (c : Char) (a : String) (parts : List String)
    → IsClear c (a ∷ parts)
    → split_on (code c) (join_on c (a ∷ parts)) ≡ a ∷ parts
unfolding join_on
split_on-join_on c a [] clear = split_on-whole c a clear.0
split_on-join_on c a (b ∷ parts) clear =
    split_on-first c a (join_on c (b ∷ parts)) clear.0
    ∙ ap (λ ps. a ∷ ps) (split_on-join_on c b parts clear.1)
