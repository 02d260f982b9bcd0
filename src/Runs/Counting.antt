-- ===== src/Runs/Counting.antt =====
-- How many runs pass a test, before and after a write.
use fgvcplateform_public.Base.{
  ℕ, ◌+◌, ◌≤◌, ◌≡◌, String, Bool, some, [], ◌∷◌, str_eq, arith, Bool-cases, inl, inr, if◌then◌else◌,
  some_inj, ap,
}
use fgvcplateform_public.Base.Assoc.{Assoc, lookup, insert}
use fgvcplateform_public.Base.Tables.{edit_where}
use fgvcplateform_public.Runs.{Run}
use fgvcplateform_public.Runs.Submission.{count_runs}

abbrev pub unit : Bool → ℕ
unit b = if b then 1 else 0

pub count-insert_le :
    (test : Run → Bool) (id : String) (r : Run) (m : Assoc Run)
    → count_runs test (insert id r m) ≤ count_runs test m + unit (test r)
unfolding insert
count-insert_le test id r [] = omega arith
count-insert_le test id r ((k, x) ∷ m) = elim (Bool-cases (str_eq k id)) [
  | inl p ↦ rw p (omega arith)
  | inr p ↦ rw p (omega (arith, count-insert_le test id r m))
]

-- A row that passes no test that it did not pass before.
pub count-insert_same :
    (test : Run → Bool) (id : String) (r old : Run) (m : Assoc Run)
    → lookup id m ≡ some old
    → unit (test r) ≤ unit (test old)
    → count_runs test (insert id r m) ≤ count_runs test m
unfolding insert lookup
count-insert_same test id r old [] e h = cc
count-insert_same test id r old ((k, x) ∷ m) e h = elim (Bool-cases (str_eq k id)) [
  | inl p ↦
      let same : x ≡ old = some_inj (rw p at e) in
      let le = ap (λ (y : Run). unit (test y)) same in rw p (omega (arith, le, h))
  | inr p ↦ rw p (omega (arith, count-insert_same test id r old m (rw p at e) h))
]

pub count-edit_where :
    (test : Run → Bool) (which : String → Run → Bool) (edit : Run → Run) (m : Assoc Run)
    → ((r : Run) → unit (test (edit r)) ≤ unit (test r))
    → count_runs test (edit_where which edit m) ≤ count_runs test m
count-edit_where test which edit [] h = omega arith
count-edit_where test which edit ((k, x) ∷ m) h = elim (Bool-cases (which k x)) [
  | inl p ↦ rw p (omega (arith, h x, count-edit_where test which edit m h))
  | inr p ↦ rw p (omega (arith, count-edit_where test which edit m h))
]
