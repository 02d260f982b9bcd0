-- ===== src/Base/Changes.antt =====
-- What becomes of the rows of a table, by a relation of a row and what it may become.
use Prim.Native.String.{String}
use mathlib.Core.Path.{◌≡◌, sym, subst}
use mathlib.Core.Bool.{Bool, true}
use mathlib.Core.Option.{Option, none, some}
use text.Mathlib.Text.{◌==◌ as str_eq}
use text.Mathlib.TextEquality.{eq_iff}
use fgvcplateform_public.Base.Tests.{if_cases}
use fgvcplateform_public.Base.Assoc.{Assoc, lookup, insert, lookup-insert}
use fgvcplateform_public.Base.Tables.{edit_where, edited, lookup-edit_where}

module _ {Row : Type 0} (Moves : Row → Row → Type 0) where
  -- the row of an id, before and after; a new row may be anything
  abbrev pub Became : Option Row → Option Row → Type 0
  Became none later = Unit
  Became (some x) none = ⊥
  Became (some x) (some y) = Moves x y

  -- Every row of the first table has moved on in the second.
  abbrev pub Later : Assoc Row → Assoc Row → Type 0
  Later m m' = (id : String) → Became (lookup id m) (lookup id m')

  -- A relation of a row and what it may become.
  pub record IsPath : Type 0 where
    pub stay : (x : Row) → Moves x x
    pub follow : (x y z : Row) → Moves x y → Moves y z → Moves x z

  module _ (path : IsPath) where
    pub Became-refl : (o : Option Row) → Became o o
    Became-refl none = tt
    Became-refl (some x) = path.stay x

    pub Became-trans : (a b c : Option Row) → Became a b → Became b c → Became a c
    Became-trans none b c p q = tt
    Became-trans (some x) none c p q = absurd p
    Became-trans (some x) (some y) none p q = absurd q
    Became-trans (some x) (some y) (some z) p q = path.follow x y z p q

    pub Later-edit_where :
        (test : String → Row → Bool) (edit : Row → Row) (m : Assoc Row)
        → ((id : String) (t : Row) → test id t ≡ true → Moves t (edit t))
        → Later m (edit_where test edit m)
    Later-edit_where test edit m moves id =
        subst (Became (lookup id m)) (sym (lookup-edit_where test edit id m)) (became (lookup id m))
      where
        became : (o : Option Row) → Became o (edited test edit id o)
        became none = tt
        became (some t) = if_cases (λ t'. Moves t t') (test id t) (moves id t) (λ h. path.stay t)

    pub Later-insert :
        (k : String) (t : Row) (m : Assoc Row)
        → Became (lookup k m) (some t)
        → Later m (insert k t m)
    Later-insert k t m b id = subst (Became (lookup id m)) (sym (lookup-insert k id t m)) (
        if_cases (λ o. Became (lookup id m) o) (str_eq k id)
          (λ p. subst (λ j. Became (lookup j m) (some t)) ((eq_iff k id).0 p) b)
          (λ p. Became-refl (lookup id m)))
