-- ===== src/Runs/Lifecycle.antt =====
-- What a claim does to the runs: it recovers those whose lease has expired, and starts one for which
-- there is room.
use fgvcplateform_public.Base.{
  ℕ, ◌+◌, ◌≤◌, ◌≡◌, refl, subst, String, Bool, true, false, ◌&&◌, Option, none, some, [], ◌∷◌, All,
  str_eq, eq_iff, eq_refl, arith, if◌then◌else◌, if_cases, Bool-cases, inl, inr,
}
use fgvcplateform_public.Base.Assoc.{Assoc, lookup, insert}
use fgvcplateform_public.Base.Tables.{IsKeyed}
use fgvcplateform_public.Runs.{
  Status, queued, running, waiting_confirmation, waiting_auth, succeeded, failed, cancelled,
  unknown, Run, Store, is_queued, is_running,
}
use fgvcplateform_public.Runs.Submission.{count_runs}
use fgvcplateform_public.Runs.Workers.{
  is_stale, recovered, recover, runs_now, runs_for, may_start, goes_before, next_run, started,
  claim_found, claim,
}
use fgvcplateform_public.Runs.Control.{is_ended, awaits_confirmation, awaits_auth}
use fgvcplateform_public.Runs.Counting.{unit, count-insert_le}
use fgvcplateform_public.Runs.Moves.{Moves, IsBounded, Goes, stays, Goes-trans, writes, edits}

abbrev pub Ends {ℓ} : {A : Type ℓ} → Store → Store × A → Type 0
Ends s r = Goes s r.0

-- A new row of a run that has not ended, for a start.
pub moves :
    (x y : Run)
    → y.owner ≡ x.owner
    → y.conversation_id ≡ x.conversation_id
    → y.key ≡ x.key
    → y.input ≡ x.input
    → x.epoch ≤ y.epoch
    → (x.cancel ≡ true → y.cancel ≡ true)
    → is_ended x.status ≡ false
    → Moves x y
moves x y o c k i e s open_ = record {
  same_owner = o;
  same_conversation = c;
  same_key = k;
  same_input = i;
  epochs = e;
  stopped = s;
  final = λ h. cc (h, open_);
}

pub running-open : (s : Status) → is_running s ≡ true → is_ended s ≡ false
running-open running h = refl
running-open queued h = refl
running-open waiting_confirmation h = refl
running-open waiting_auth h = refl
running-open succeeded h = cc
running-open failed h = cc
running-open cancelled h = cc
running-open unknown h = refl

pub queued-open : (s : Status) → is_queued s ≡ true → is_ended s ≡ false
queued-open queued h = refl
queued-open running h = refl
queued-open waiting_confirmation h = refl
queued-open waiting_auth h = refl
queued-open succeeded h = cc
queued-open failed h = cc
queued-open cancelled h = cc
queued-open unknown h = refl

pub waiting-open : (s : Status) → awaits_confirmation s ≡ true → is_ended s ≡ false
waiting-open waiting_confirmation h = refl
waiting-open queued h = refl
waiting-open running h = refl
waiting-open waiting_auth h = refl
waiting-open succeeded h = cc
waiting-open failed h = cc
waiting-open cancelled h = cc
waiting-open unknown h = refl

pub auth-open : (s : Status) → awaits_auth s ≡ true → is_ended s ≡ false
auth-open waiting_auth h = refl
auth-open waiting_confirmation h = refl
auth-open queued h = refl
auth-open running h = refl
auth-open succeeded h = cc
auth-open failed h = cc
auth-open cancelled h = cc
auth-open unknown h = refl

recovered-idle : (r : Run) → is_running (recovered r).status ≡ false
recovered-idle r = ground arith

recover-Goes : (now : ℕ) (s : Store) → IsKeyed s.runs → Goes s (recover now s)
unfolding recover
recover-Goes now s u =
    edits (is_stale now) recovered s _ u refl
      (λ id r h.
        let at_work : is_running r.status ≡ true = ground (arith, h) in
        moves r (recovered r) refl refl refl refl (omega arith) (λ c. c)
          (running-open r.status at_work))
      recovered-idle

-- Every row of `m` is the row of its id in `all`.
Inside : Assoc Run → Assoc Run → Type 0
Inside all m = All (λ (row : String × Run). lookup row.0 all ≡ some row.1) m

Inside-cons :
    (k : String) (x : Run) (all m : Assoc Run)
    → lookup k all ≡ none
    → Inside all m
    → Inside ((k, x) ∷ all) m
unfolding Inside lookup
Inside-cons k x all [] fresh i = tt
Inside-cons k x all ((id, r) ∷ m) fresh i =
    let apart : str_eq k id ≡ false = ground (arith, fresh, i.0, eq_iff k id) in
    (rw apart i.0, Inside-cons k x all m fresh i.1)

Inside-all : (m : Assoc Run) → IsKeyed m → Inside m m
unfolding Inside lookup
Inside-all [] u = tt
Inside-all ((k, x) ∷ m) u = (rw (eq_refl k) refl, Inside-cons k x m m u.0 (Inside-all m u.1))

-- A run that Claim may start.
record Startable (all : Assoc Run) (id : String) (r : Run) : Type 0 where
  row : lookup id all ≡ some r
  may : may_start all r ≡ true

Best : Assoc Run → Option (String × Run) → Type 0
Best all none = Unit
Best all (some (id, r)) = Startable all id r

next_run-Best :
    (all m : Assoc Run) (best : Option (String × Run))
    → Inside all m
    → Best all best
    → Best all (next_run all best m)
unfolding next_run Inside Best
next_run-Best all [] best i b = b
next_run-Best all ((id, r) ∷ m) best i b =
    next_run-Best all m (if may_start all r && goes_before all r best then some (id, r) else best)
      i.1
      (if_cases (Best all) (may_start all r && goes_before all r best)
        (λ h. record { row = i.0; may = and_left (may_start all r) (goes_before all r best) h })
        (λ h. b))
  where
    and_left : (a c : Bool) → (a && c) ≡ true → a ≡ true
    and_left true c h = refl
    and_left false c h = cc

-- One more run is at work, and there was room for it.
started-IsBounded :
    (now : ℕ) (id : String) (r : Run) (m : Assoc Run)
    → may_start m r ≡ true
    → IsBounded m
    → IsBounded (insert id (started now r) m)
started-IsBounded now id r m h b = record {
  total =
      let le = count-insert_le runs_now id (started now r) m in
      let room : count_runs runs_now m + 1 ≤ 8 = ground (arith, h) in omega (arith, le, room);
  each = λ owner.
      let le = count-insert_le (runs_for owner) id (started now r) m in
      elim (Bool-cases (str_eq r.owner owner)) [
        | inl p ↦
            let same : r.owner ≡ owner = (eq_iff r.owner owner).0 p in
            let room : count_runs (runs_for r.owner) m + 1 ≤ 2 = ground (arith, h) in
            let room' = subst (λ o. count_runs (runs_for o) m + 1 ≤ 2) same room in
            let one : unit (runs_for owner (started now r)) ≤ 1 = ground arith in
            omega (arith, le, room', one)
        | inr p ↦
            let none_ : unit (runs_for owner (started now r)) ≡ 0 = rw p (ground arith) in
            omega (arith, le, none_, b.each owner)
      ];
}

started-Goes :
    (now : ℕ) (best : Option (String × Run)) (s : Store)
    → IsKeyed s.runs
    → Best s.runs best
    → Ends s (claim_found now best s)
unfolding Best
started-Goes now none s u b = stays s s u refl
started-Goes now (some (id, r)) s u b =
    let waiting : is_queued r.status ≡ true = let may = b.may in ground (arith, may) in
    writes id (started now r) r s _ u refl b.row
      (moves r (started now r) refl refl refl refl (omega arith) (λ c. c)
        (queued-open r.status waiting))
      (started-IsBounded now id r s.runs b.may)

pub claim-Goes : (now : ℕ) (s : Store) → IsKeyed s.runs → Ends s (claim now s)
unfolding claim Best
claim-Goes now s u =
    let s' = recover now s in
    let g = recover-Goes now s u in
    Goes-trans s s' _ g (
      started-Goes now (next_run s'.runs none s'.runs) s' g.keyed
        (next_run-Best s'.runs s'.runs none (Inside-all s'.runs g.keyed) tt))
