-- ===== src/Dataset/Split/Shares.antt =====
-- The shares of a class: nothing is lost, and each part has what its ratio gives it.
use fgvcplateform_public.Base.{
  ℕ, zero, suc, ◌+◌, ◌*◌, ◌/◌, ◌%◌, ◌≤◌, ◌<◌, ◌≡◌, ap, true, ◌==◌, arith, Bool-cases, inl, inr,
}
use fgvcplateform_public.Dataset.Split.{
  SplitPlan, weight, weight_of, is_valid_plan, Part, train, val, test, Counts, order_of, allot,
  ensure_training, left_over, split_labels,
}

-- Each part gets its quota or one more, one more only where a remainder is left.
record Allotted (q c : Counts) (x y z left : ℕ) : Type 0 where
  sum : c.trained + c.validated + c.tested ≡ q.trained + q.validated + q.tested + left
  low_train : q.trained ≤ c.trained
  low_val : q.validated ≤ c.validated
  low_test : q.tested ≤ c.tested
  high_train : (c.trained ≤ q.trained + x) × (c.trained ≤ q.trained + 1)
  high_val : (c.validated ≤ q.validated + y) × (c.validated ≤ q.validated + 1)
  high_test : (c.tested ≤ q.tested + z) × (c.tested ≤ q.tested + 1)

allot-Allotted :
    (q : Counts) (rest : Part → ℕ) (left : ℕ)
    → rest train + rest val + rest test ≡ 100 * left
    → rest train ≤ 99
    → rest val ≤ 99
    → rest test ≤ 99
    → Allotted q (allot left (order_of rest) q) (rest train) (rest val) (rest test) left
unfolding allot order_of
allot-Allotted q rest zero e hx hy hz = ground arith
allot-Allotted q rest (suc zero) e hx hy hz = ground arith
allot-Allotted q rest (suc (suc zero)) e hx hy hz = ground arith
allot-Allotted q rest (suc (suc (suc left))) e hx hy hz = absurd (omega arith)

-- What a division of `n` images should be.
pub record IsFair (n : ℕ) (p : SplitPlan) (c : Counts) : Type 0 where
  -- every image is given to one part
  pub sum : c.trained + c.validated + c.tested ≡ n
  -- a class that has an image has one to train on
  pub trains : 1 ≤ n → 1 ≤ c.trained
  -- a part of ratio 0 gets nothing
  pub no_val : weight p.val ≡ 0 → c.validated ≡ 0
  pub no_test : weight p.test ≡ 0 → c.tested ≡ 0
  -- each part is close to its exact share
  pub val_share :
      (100 * c.validated < n * weight p.val + 100) × (n * weight p.val < 100 * c.validated + 200)
  pub test_share :
      (100 * c.tested < n * weight p.test + 100) × (n * weight p.test < 100 * c.tested + 200)
  pub train_share :
      (100 * c.trained < n * weight p.train + 200) × (n * weight p.train < 100 * c.trained + 100)

-- the three quotas of `n` images, `a`, `b` and `c` hundredths
abbrev quotas_of : ℕ → ℕ → ℕ → Counts
quotas_of a b c = record { trained = a / 100; validated = b / 100; tested = c / 100 }

record FairShares (n a b c : ℕ) (r : Counts) : Type 0 where
  sum : r.trained + r.validated + r.tested ≡ n
  trains : 1 ≤ n → 1 ≤ r.trained
  no_val : b ≡ 0 → r.validated ≡ 0
  no_test : c ≡ 0 → r.tested ≡ 0
  val_share : (100 * r.validated < b + 100) × (b < 100 * r.validated + 200)
  test_share : (100 * r.tested < c + 100) × (c < 100 * r.tested + 200)
  train_share : (100 * r.trained < a + 200) × (a < 100 * r.trained + 100)

ensured :
    (n a b c left : ℕ) (r : Counts)
    → a + b + c ≡ 100 * n
    → n ≡ a / 100 + b / 100 + c / 100 + left
    → Allotted (quotas_of a b c) r (a % 100) (b % 100) (c % 100) left
    → FairShares n a b c (ensure_training n r)
unfolding ensure_training
ensured n a b c left r total e x = elim (Bool-cases (r.trained == 0)) [
  | inl none_trained ↦ ground (arith, x.sum, x.high_val, x.high_test, x.high_train, none_trained)
  | inr some_trained ↦ ground (arith, x.sum, x.high_val, x.high_test, x.high_train, some_trained)
]

fair_shares :
    (n : ℕ) (part : Part → ℕ)
    → part train + part val + part test ≡ 100 * n
    → let q = quotas_of (part train) (part val) (part test) in
      FairShares n
        (part train)
        (part val)
        (part test)
        (ensure_training n (allot (left_over n q) (order_of (λ k. part k % 100)) q))
fair_shares n part total =
    let q = quotas_of (part train) (part val) (part test) in
    let left = left_over n q in
    let rests : part train % 100 + part val % 100 + part test % 100 ≡ 100 * left = omega arith in
    let e : n ≡ part train / 100 + part val / 100 + part test / 100 + left = omega arith in
    ensured n (part train) (part val) (part test) left (allot left (order_of (λ k. part k % 100)) q)
      total e
      (allot-Allotted q (λ k. part k % 100) left rests (omega arith) (omega arith) (omega arith))

is_valid_plan-sum :
    (p : SplitPlan) → is_valid_plan p ≡ true → weight p.train + weight p.val + weight p.test ≡ 100
unfolding is_valid_plan
is_valid_plan-sum p h = ground (arith, h)

mul_shares : (n x y z : ℕ) → n * (x + y + z) ≡ n * x + n * y + n * z
mul_shares n x y z = grind arith

times_zero : (n w : ℕ) → w ≡ 0 → n * w ≡ 0
times_zero n w e = rw e (omega arith)

-- For a plan that Validate accepts, SplitLabels gives each of `n` images to one part: their numbers
-- sum to `n`; if there is an image there is one to train on; a part of ratio 0 gets nothing; the
-- validation and the test part get less than one image more than their exact share and less than
-- two fewer, and the training part less than two more than its share and less than one fewer.
pub split_labels-IsFair :
    (n : ℕ) (p : SplitPlan) → is_valid_plan p ≡ true → IsFair n p (split_labels n p)
unfolding split_labels
split_labels-IsFair n p h =
    let sum = is_valid_plan-sum p h in
    let total : n * weight p.train + n * weight p.val + n * weight p.test ≡ 100 * n = omega (
      arith,
      ap (λ (t : ℕ). n * t) sum,
      mul_shares n (weight p.train) (weight p.val) (weight p.test),
    ) in
    let f = fair_shares n (λ k. n * weight_of p k) total in
    record {
      sum = f.sum;
      trains = f.trains;
      no_val = λ e. f.no_val (times_zero n (weight p.val) e);
      no_test = λ e. f.no_test (times_zero n (weight p.test) e);
      val_share = f.val_share;
      test_share = f.test_share;
      train_share = f.train_share;
    }
