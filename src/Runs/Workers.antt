-- ===== src/Runs/Workers.antt =====
-- agent/internal/storage/store.go: Claim, Heartbeat and Save, the calls of a worker.
use fgvcplateform_public.Base.{
  ℕ, ◌+◌, ◌*◌, String, Bool, true, false, not, ◌&&◌, Option, none, some, List, [], ◌∷◌, ◌++◌,
  str_eq, if◌then◌else◌, ltb, ◌==◌,
}
use fgvcplateform_public.Base.Assoc.{Assoc, lookup, insert}
use fgvcplateform_public.Base.Tables.{edit_where}
use fgvcplateform_public.Runs.{
  Status, queued, running, succeeded, failed, cancelled, unknown, Run, Event, Store, fault, no_rows,
  Result, ok, err, is_queued, is_running, is_over,
}
use fgvcplateform_public.Runs.Submission.{count_runs, status_event}

-- lease_until < now and lease_until > now, which are false of NULL
abbrev pub lapsed : Option ℕ → ℕ → Bool
lapsed none now = false
lapsed (some until) now = ltb until now

abbrev pub live : Option ℕ → ℕ → Bool
live none now = false
live (some until) now = ltb now until

abbrev pub is_stale : ℕ → String → Run → Bool
is_stale now id r = is_running r.status && lapsed r.lease_until now

-- status and reason of a run whose lease has expired: the last test that holds decides
abbrev pub recovered_status : Run → Status
recovered_status r =
    if r.state.model_pending
    then unknown
    else if r.cancel && r.state.write_pending
    then unknown
    else if r.cancel
    then cancelled
    else queued

abbrev pub recovered_reason : Run → String
recovered_reason r =
    if r.state.model_pending
    then "模型请求在重启前已派发，结果未知，请检查后重新发起"
    else if r.cancel && r.state.write_pending
    then "平台写操作已派发，结果需核对"
    else if r.cancel
    then "助手已停止，未继续派发任务"
    else "执行租约过期，已恢复队列"

abbrev pub forgets : Status → Bool
forgets unknown = true
forgets cancelled = true
forgets _ = false

abbrev pub recovered : Run → Run
recovered r = record r {
  status = recovered_status r;
  epoch = r.epoch + 1;
  lease_until = none;
  error = recovered_reason r;
  grant = if forgets (recovered_status r) then "" else r.grant;
  state = if forgets (recovered_status r) then record (r.state) { receipt = "" } else r.state;
}

abbrev pub status_name : Status → String
status_name queued = "queued"
status_name running = "running"
status_name Status.waiting_confirmation = "waiting_confirmation"
status_name Status.waiting_auth = "waiting_auth"
status_name succeeded = "succeeded"
status_name failed = "failed"
status_name cancelled = "cancelled"
status_name unknown = "unknown"

abbrev pub recovery_event : String → Run → Event
recovery_event id r = record {
  run_id = id;
  kind = "recovered";
  payload = ("status", status_name (recovered_status r)) ∷ ("message", recovered_reason r) ∷ [];
}

abbrev pub recovery_events : ℕ → Assoc Run → List Event
recovery_events now [] = []
recovery_events now ((id, r) ∷ rest) =
    if is_stale now id r
    then recovery_event id r ∷ recovery_events now rest
    else recovery_events now rest

unfoldable pub recover : ℕ → Store → Store
recover now s = record s {
  runs = edit_where (is_stale now) recovered s.runs;
  events = s.events ++ recovery_events now s.runs;
}

abbrev pub runs_now : Run → Bool
runs_now r = is_running r.status

abbrev pub runs_for : String → Run → Bool
runs_for owner r = is_running r.status && str_eq r.owner owner

-- WHERE status='queued' AND NOT cancel_requested AND the two limits
abbrev pub may_start : Assoc Run → Run → Bool
may_start all r =
    is_queued r.status
    && not r.cancel
    && ltb (count_runs runs_now all) 8
    && ltb (count_runs (runs_for r.owner) all) 2

-- `r` goes before the best so far: its owner has fewer runs at work
abbrev pub goes_before : Assoc Run → Run → Option (String × Run) → Bool
goes_before all r none = true
goes_before all r (some (id, best)) =
    ltb (count_runs (runs_for r.owner) all) (count_runs (runs_for best.owner) all)

-- ORDER BY (the owner's runs at work), created_at LIMIT 1
unfoldable pub next_run : Assoc Run → Option (String × Run) → Assoc Run → Option (String × Run)
next_run all best [] = best
next_run all best ((id, r) ∷ rest) =
    next_run all (if may_start all r && goes_before all r best then some (id, r) else best) rest

abbrev pub second : ℕ
second = 1_000_000_000

abbrev pub started : ℕ → Run → Run
started now r = record r {
  status = running;
  epoch = r.epoch + 1;
  lease_until = some (now + 60 * second);
}

abbrev pub claim_found : ℕ → Option (String × Run) → Store → Store × Option (String × Run)
claim_found now none s = (s, none)
claim_found now (some (id, r)) s = (
  record s {
    runs = insert id (started now r) s.runs;
    events = s.events ++ status_event id "running" ∷ [];
  },
  some (id, started now r),
)

unfoldable pub claim : ℕ → Store → Store × Option (String × Run)
claim now s = let s' = recover now s in claim_found now (next_run s'.runs none s'.runs) s'

-- WHERE id=$1 AND epoch=$2 AND status='running' AND lease_until>now()
abbrev pub holds : ℕ → ℕ → Run → Bool
holds now epoch r = r.epoch == epoch && is_running r.status && live r.lease_until now

abbrev pub beat_found : ℕ → String → ℕ → Option Run → Store → Store × Result Bool
beat_found now id epoch none s = (s, err no_rows)
beat_found now id epoch (some r) s =
    if holds now epoch r
    then (
      record s { runs = insert id (record r { lease_until = some (now + 60 * second) }) s.runs },
      ok r.cancel,
    )
    else (s, err no_rows)

-- the worker's copy has the id and the epoch
unfoldable pub heartbeat : ℕ → String → ℕ → Store → Store × Result Bool
heartbeat now id epoch s = beat_found now id epoch (lookup id s.runs) s

-- what Save writes of the worker's copy `mine` to the row `r`
abbrev pub saved : Run → Status → Run → Run
saved mine status r = record r {
  state = if is_over status then record (mine.state) { receipt = "" } else mine.state;
  status = status;
  error = mine.error;
  lease_until = if is_running status then r.lease_until else none;
  grant = if is_over status then "" else r.grant;
}

abbrev pub save_found :
    ℕ
    → String
    → Run
    → Status
    → String
    → Assoc String
    → Option Run
    → Store
    → Store × Result (Unit {0})
save_found now id mine status kind payload none s = (s, err (fault 409 "执行租约已失效"))
save_found now id mine status kind payload (some r) s =
    if holds now mine.epoch r
    then (
      record s {
        runs = insert id (saved mine status r) s.runs;
        events = s.events ++ record { run_id = id; kind = kind; payload = payload } ∷ [];
      },
      ok tt,
    )
    else (s, err (fault 409 "执行租约已失效"))

unfoldable pub save :
    ℕ → String → Run → Status → String → Assoc String → Store → Store × Result (Unit {0})
save now id mine status kind payload s =
    save_found now id mine status kind payload (lookup id s.runs) s
