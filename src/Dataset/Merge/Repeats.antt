-- ===== src/Dataset/Merge/Repeats.antt =====
-- Entries of an archive of which no two have the same key: the same name, or the same digest.
use fgvcplateform_public.Base.{
  ◌+◌, ◌≡◌, ◌≢◌, sym, subst, String, List, [], ◌∷◌, ◌++◌, All, arith, length,
}
use mathlib.Core.List.{append_assoc, append-nil}
use fgvcplateform_public.Dataset.Merge.{Entry}

-- No entry of `es` has the key of an earlier one of `es` or of one of `before`.
abbrev pub Unrepeated : (Entry → String) → List Entry → List Entry → Type 0
Unrepeated key before [] = Unit
Unrepeated key before (e ∷ es) =
    All (λ (o : Entry). key o ≢ key e) before × Unrepeated key (before ++ e ∷ []) es

pub Unrepeated-snoc :
    (key : Entry → String) (before es : List Entry) (e : Entry)
    → Unrepeated key before es
    → All (λ (o : Entry). key o ≢ key e) (before ++ es)
    → Unrepeated key before (es ++ e ∷ [])
Unrepeated-snoc key before [] e u a =
    (subst (All (λ (o : Entry). key o ≢ key e)) (append-nil before) a, tt)
Unrepeated-snoc key before (d ∷ es) e u a = (
  u.0,
  Unrepeated-snoc key (before ++ d ∷ []) es e u.1
      (subst (All (λ (o : Entry). key o ≢ key e)) (sym (append_assoc before (d ∷ []) es)) a),
)

pub length-snoc {ℓ} : {A : Type ℓ} (xs : List A) (x : A) → length (xs ++ x ∷ []) ≡ length xs + 1
length-snoc [] x = omega arith
length-snoc (y ∷ xs) x = omega (arith, length-snoc xs x)
