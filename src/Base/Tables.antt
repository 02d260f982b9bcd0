-- ===== src/Base/Tables.antt =====
-- A table of the database, as an association list by its primary key: what an UPDATE does to it.
use Prim.Native.String.{String}
use mathlib.Core.Path.{◌≡◌, refl, ap, ◌∙◌, subst}
use mathlib.Core.Logic.{inl, inr}
use mathlib.Core.Bool.{Bool, false}
use mathlib.Core.Option.{Option, none, some}
use mathlib.Core.List.{List, [], ◌∷◌}
use native.Mathlib.Omega.{arith}
use text.Mathlib.Text.{◌==◌ as str_eq}
use text.Mathlib.TextEquality.{eq_iff}
use fgvcplateform_public.Base.Tests.{if◌then◌else◌, Bool-cases}
use fgvcplateform_public.Base.Assoc.{Assoc, lookup, insert, lookup-insert}

module _ {κ} {Row : Type κ} where
  -- SET in an UPDATE of every row that passes the test, and the ids that RETURNING gives
  abbrev pub edit_where : (String → Row → Bool) → (Row → Row) → Assoc Row → Assoc Row
  edit_where test edit [] = []
  edit_where test edit ((id, t) ∷ rest) =
      (id, if test id t then edit t else t) ∷ edit_where test edit rest

  abbrev pub ids_where : (String → Row → Bool) → Assoc Row → List String
  ids_where test [] = []
  ids_where test ((id, t) ∷ rest) =
      if test id t then id ∷ ids_where test rest else ids_where test rest

  abbrev pub edited : (String → Row → Bool) → (Row → Row) → String → Option Row → Option Row
  edited test edit id none = none
  edited test edit id (some t) = some (if test id t then edit t else t)

  pub lookup-edit_where :
      (test : String → Row → Bool) (edit : Row → Row) (id : String) (m : Assoc Row)
      → lookup id (edit_where test edit m) ≡ edited test edit id (lookup id m)
  unfolding lookup
  lookup-edit_where test edit id [] = refl
  lookup-edit_where test edit id ((k, t) ∷ m) = elim (Bool-cases (str_eq k id)) [
    | inl p ↦ let same : k ≡ id = (eq_iff k id).0 p in rw p (rw same refl)
    | inr p ↦ rw p (lookup-edit_where test edit id m)
  ]

  -- The id is a primary key.
  abbrev pub IsKeyed : Assoc Row → Type κ
  IsKeyed [] = Unit
  IsKeyed ((id, t) ∷ m) = (lookup id m ≡ none) × IsKeyed m

  pub edit_where-IsKeyed :
      (test : String → Row → Bool) (edit : Row → Row) (m : Assoc Row)
      → IsKeyed m
      → IsKeyed (edit_where test edit m)
  edit_where-IsKeyed test edit [] u = tt
  edit_where-IsKeyed test edit ((id, t) ∷ m) u = (
    lookup-edit_where test edit id m ∙ ap (edited test edit id) u.0,
    edit_where-IsKeyed test edit m u.1,
  )

  pub insert-IsKeyed : (id : String) (t : Row) (m : Assoc Row) → IsKeyed m → IsKeyed (insert id t m)
  unfolding insert lookup
  insert-IsKeyed id t [] u = (refl, tt)
  insert-IsKeyed id t ((k, x) ∷ m) u = elim (Bool-cases (str_eq k id)) [
    | inl p ↦ rw p u
    | inr p ↦
        let apart : str_eq id k ≡ false = ground (arith, p, eq_iff k id, eq_iff id k) in
        rw p (lookup-insert id k t m ∙ rw apart u.0, insert-IsKeyed id t m u.1)
  ]

  -- DELETE of every row that passes the test
  unfoldable pub delete_where : (Row → Bool) → Assoc Row → Assoc Row
  delete_where test [] = []
  delete_where test ((id, t) ∷ rest) =
      let rest' = delete_where test rest in if test t then rest' else (id, t) ∷ rest'

  pub deleted-kept :
      (test : Row → Bool) (id : String) (t : Row) (m : Assoc Row)
      → lookup id (delete_where test m) ≡ some t
      → test t ≡ false
  unfolding delete_where lookup
  deleted-kept test id t [] h = absurd (cc h)
  deleted-kept test id t ((k, x) ∷ m) h = elim (Bool-cases (test x)) [
    | inl p ↦ deleted-kept test id t m (rw p at h)
    | inr p ↦ elim (Bool-cases (str_eq k id)) [
      | inl q ↦
          let same : some x ≡ some t = rw (p, q) at h in
          subst (λ o. test (row_or x o) ≡ false) same p
      | inr q ↦ deleted-kept test id t m (rw (p, q) at h)
    ]
  ]
    where
      row_or : Row → Option Row → Row
      row_or d none = d
      row_or d (some y) = y
