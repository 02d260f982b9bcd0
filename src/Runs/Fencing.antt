-- ===== src/Runs/Fencing.antt =====
-- A worker whose run was recovered or started again can no longer write to it.
use fgvcplateform_public.Base.{
  ℕ, ◌<◌, ◌≡◌, refl, subst, String, Bool, false, Option, none, some, List, arith,
}
use fgvcplateform_public.Base.Assoc.{Assoc, lookup}
use fgvcplateform_public.Base.Tables.{IsKeyed}
use fgvcplateform_public.Base.Changes.{Became}
use fgvcplateform_public.Runs.{Status, Run, Store, fault, no_rows, err}
use fgvcplateform_public.Runs.Workers.{holds, heartbeat, save}
use fgvcplateform_public.Runs.Calls.{Call, run}
use fgvcplateform_public.Runs.Moves.{Moves}
use fgvcplateform_public.Runs.Steps.{run-Moves}

-- What a worker with an old epoch gets.
pub record IsShutOut (now : ℕ) (id : String) (mine : Run) (status : Status) (kind : String)
    (payload : Assoc String) (s : Store) : Type 0 where
  pub beat : heartbeat now id mine.epoch s ≡ (s, err no_rows)
  pub write : save now id mine status kind payload s ≡ (s, err (fault 409 "执行租约已失效"))

outdated :
    (now : ℕ) (id : String) (mine : Run) (status : Status) (kind : String) (payload : Assoc String)
    (o : Option Run) (r : Run) (s : Store)
    → lookup id s.runs ≡ o
    → mine.epoch < r.epoch
    → Became Moves (some r) o
    → IsShutOut now id mine status kind payload s
unfolding heartbeat save
outdated now id mine status kind payload none r s e old b = absurd b
outdated now id mine status kind payload (some y) r s e old b =
    let epochs = b.epochs in
    let stale : holds now mine.epoch y ≡ false = ground (arith, old, epochs) in
    record { beat = rw (e, stale) refl; write = rw (e, stale) refl }

module _ (is_uuid : String → Bool) (canon : String → String) where
  -- If the row of a run has a higher epoch than a worker's copy, because the run was recovered or
  -- started again since, then after any further calls, at any time and with any result, the
  -- worker's Heartbeat and Save are refused and change nothing.
  pub stale_epoch-IsShutOut :
      (cs : List Call) (s : Store) (id : String) (r mine : Run) (now : ℕ) (status : Status)
      (kind : String) (payload : Assoc String)
      → IsKeyed s.runs
      → lookup id s.runs ≡ some r
      → mine.epoch < r.epoch
      → IsShutOut now id mine status kind payload (run is_uuid canon cs s)
  stale_epoch-IsShutOut cs s id r mine now status kind payload u found old =
      let s' = run is_uuid canon cs s in
      outdated now id mine status kind payload (lookup id s'.runs) r s' refl old
        (subst (λ o. Became Moves o (lookup id s'.runs)) found (run-Moves is_uuid canon cs s u id))
