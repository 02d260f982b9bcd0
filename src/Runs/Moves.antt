-- ===== src/Runs/Moves.antt =====
-- What may become of a run, how many runs may be at work, and what a write does to both.
use fgvcplateform_public.Base.{
  ◌≤◌, ◌≡◌, refl, sym, ap, subst, ◌∙◌, String, Bool, true, false, ◌&&◌, none, some, str_eq, arith,
}
use fgvcplateform_public.Base.Assoc.{Assoc, lookup, insert}
use fgvcplateform_public.Base.Tables.{edit_where, IsKeyed, edit_where-IsKeyed, insert-IsKeyed}
use fgvcplateform_public.Base.Changes.{
  Became, Became-refl, Became-trans, Later, IsPath, Later-edit_where, Later-insert,
}
use fgvcplateform_public.Runs.{Run, Store, is_running}
use fgvcplateform_public.Runs.Submission.{count_runs}
use fgvcplateform_public.Runs.Workers.{runs_now, runs_for}
use fgvcplateform_public.Runs.Control.{is_ended}
use fgvcplateform_public.Runs.Counting.{unit, count-insert_le, count-insert_same, count-edit_where}

pub record Moves (x y : Run) : Type 0 where
  pub same_owner : y.owner ≡ x.owner
  pub same_conversation : y.conversation_id ≡ x.conversation_id
  pub same_key : y.key ≡ x.key
  pub same_input : y.input ≡ x.input
  -- the epoch never falls
  pub epochs : x.epoch ≤ y.epoch
  -- a request to stop is never withdrawn
  pub stopped : x.cancel ≡ true → y.cancel ≡ true
  -- a run that succeeded, failed or was cancelled stays as it is
  pub final : is_ended x.status ≡ true → y ≡ x

Moves-refl : (x : Run) → Moves x x
Moves-refl x = record {
  same_owner = refl;
  same_conversation = refl;
  same_key = refl;
  same_input = refl;
  epochs = omega arith;
  stopped = λ h. h;
  final = λ h. refl;
}

Moves-trans : (x y z : Run) → Moves x y → Moves y z → Moves x z
Moves-trans x y z m n = record {
  same_owner = n.same_owner ∙ m.same_owner;
  same_conversation = n.same_conversation ∙ m.same_conversation;
  same_key = n.same_key ∙ m.same_key;
  same_input = n.same_input ∙ m.same_input;
  epochs = omega (arith, m.epochs, n.epochs);
  stopped = λ h. n.stopped (m.stopped h);
  final = λ h. let e = m.final h in n.final (ap (λ (t : Run). is_ended t.status) e ∙ h) ∙ e;
}

pub Moves-IsPath : IsPath Moves
Moves-IsPath = record { stay = Moves-refl; follow = Moves-trans }

-- At most eight runs are at work, and at most two of one owner.
pub record IsBounded (runs : Assoc Run) : Type 0 where
  pub total : count_runs runs_now runs ≤ 8
  pub each : (owner : String) → count_runs (runs_for owner) runs ≤ 2

-- What a call does to the table of runs.
pub record Goes (s s' : Store) : Type 0 where
  pub keyed : IsKeyed s'.runs
  pub later : Later Moves s.runs s'.runs
  pub bounded : IsBounded s.runs → IsBounded s'.runs

pub stays : (s s' : Store) → IsKeyed s.runs → s'.runs ≡ s.runs → Goes s s'
stays s s' u e = record {
  keyed = subst IsKeyed (sym e) u;
  later =
      subst (Later Moves s.runs) (sym e) (λ id. Became-refl Moves Moves-IsPath (lookup id s.runs));
  bounded = λ b. subst IsBounded (sym e) b;
}

pub Goes-trans : (a b c : Store) → Goes a b → Goes b c → Goes a c
Goes-trans a b c g h = record {
  keyed = h.keyed;
  later = λ id.
      Became-trans Moves Moves-IsPath (lookup id a.runs) (lookup id b.runs) (lookup id c.runs)
        (g.later id) (h.later id);
  bounded = λ q. h.bounded (g.bounded q);
}

owned_le :
    (x y : Run) (owner : String)
    → y.owner ≡ x.owner
    → unit (is_running y.status) ≤ unit (is_running x.status)
    → unit (runs_for owner y) ≤ unit (runs_for owner x)
owned_le x y owner e h =
    rw e (and_le (is_running y.status) (is_running x.status) (str_eq x.owner owner) h)
  where
    and_le : (a b c : Bool) → unit a ≤ unit b → unit (a && c) ≤ unit (b && c)
    and_le true true c h = omega arith
    and_le true false c h = absurd (omega arith)
    and_le false b c h = ground arith

-- The row of `id` moves on from `old`.
pub writes :
    (id : String) (r old : Run) (s s' : Store)
    → IsKeyed s.runs
    → s'.runs ≡ insert id r s.runs
    → lookup id s.runs ≡ some old
    → Moves old r
    → (IsBounded s.runs → IsBounded (insert id r s.runs))
    → Goes s s'
writes id r old s s' u e found moves bounded = record {
  keyed = subst IsKeyed (sym e) (insert-IsKeyed id r s.runs u);
  later = subst (Later Moves s.runs) (sym e) (
      Later-insert Moves Moves-IsPath id r s.runs
        (subst (λ o. Became Moves o (some r)) (sym found) moves));
  bounded = λ b. subst IsBounded (sym e) (bounded b);
}

-- The same, where the run is at work only if it was.
pub puts :
    (id : String) (r old : Run) (s s' : Store)
    → IsKeyed s.runs
    → s'.runs ≡ insert id r s.runs
    → lookup id s.runs ≡ some old
    → Moves old r
    → unit (is_running r.status) ≤ unit (is_running old.status)
    → Goes s s'
puts id r old s s' u e found moves idle = writes id r old s s' u e found moves (λ b. record {
  total = omega (arith, b.total, count-insert_same runs_now id r old s.runs found idle);
  each = λ owner. omega (
    arith,
    b.each owner,
    count-insert_same (runs_for owner) id r old s.runs found
        (owned_le old r owner moves.same_owner idle),
  );
})

-- A new row that is not at work.
pub adds :
    (id : String) (r : Run) (s s' : Store)
    → IsKeyed s.runs
    → s'.runs ≡ insert id r s.runs
    → lookup id s.runs ≡ none
    → is_running r.status ≡ false
    → Goes s s'
adds id r s s' u e fresh idle = record {
  keyed = subst IsKeyed (sym e) (insert-IsKeyed id r s.runs u);
  later = subst (Later Moves s.runs) (sym e) (
      Later-insert Moves Moves-IsPath id r s.runs
        (subst (λ o. Became Moves o (some r)) (sym fresh) tt));
  bounded = λ b. subst IsBounded (sym e) (record {
    total = let le = count-insert_le runs_now id r s.runs in ground (arith, b.total, idle, le);
    each = λ owner.
        let le = count-insert_le (runs_for owner) id r s.runs in
        ground (arith, b.each owner, idle, le);
  });
}

-- The rows that pass a test move on, and are no longer at work.
pub edits :
    (which : String → Run → Bool) (edit : Run → Run) (s s' : Store)
    → IsKeyed s.runs
    → s'.runs ≡ edit_where which edit s.runs
    → ((id : String) (r : Run) → which id r ≡ true → Moves r (edit r))
    → ((r : Run) → is_running (edit r).status ≡ false)
    → Goes s s'
edits which edit s s' u e moves idle = record {
  keyed = subst IsKeyed (sym e) (edit_where-IsKeyed which edit s.runs u);
  later =
      subst (Later Moves s.runs) (sym e)
        (Later-edit_where Moves Moves-IsPath which edit s.runs moves);
  bounded = λ b. subst IsBounded (sym e) (record {
    total = omega (
      arith,
      b.total,
      count-edit_where runs_now which edit s.runs (λ r. rw (idle r) (omega arith)),
    );
    each = λ owner. omega (
      arith,
      b.each owner,
      count-edit_where (runs_for owner) which edit s.runs (λ r. rw (idle r) (omega arith)),
    );
  });
}
