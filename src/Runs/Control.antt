-- ===== src/Runs/Control.antt =====
-- agent/internal/storage/store.go: Cancel, Confirm and Resume, the calls of a run's owner.
use fgvcplateform_public.Base.{
  String, Bool, true, false, not, ◌&&◌, ◌||◌, Option, none, some, [], ◌∷◌, ◌++◌, str_eq,
  if◌then◌else◌, any,
}
use fgvcplateform_public.Base.Assoc.{lookup, insert}
use fgvcplateform_public.Runs.{
  Status, queued, waiting_confirmation, waiting_auth, succeeded, failed, cancelled, Proposal, Run,
  Event, Store, fault, no_rows, Result, ok, err, is_running,
}
use fgvcplateform_public.Runs.Workers.{status_name}

abbrev pub is_ended : Status → Bool
is_ended succeeded = true
is_ended failed = true
is_ended cancelled = true
is_ended _ = false

abbrev pub is_cancelled : Status → Bool
is_cancelled cancelled = true
is_cancelled _ = false

abbrev pub awaits_confirmation : Status → Bool
awaits_confirmation waiting_confirmation = true
awaits_confirmation _ = false

abbrev pub awaits_auth : Status → Bool
awaits_auth waiting_auth = true
awaits_auth _ = false

abbrev pub stopped_status : Status → Status
stopped_status status = if is_running status then status else cancelled

abbrev pub stopping : Run → Run
stopping r = record r {
  cancel = true;
  status = stopped_status r.status;
  grant = if is_cancelled (stopped_status r.status) then "" else r.grant;
}

abbrev pub cancellation : String → Status → Event
cancellation id status = record {
  run_id = id;
  kind = "cancellation";
  payload = ("status", status_name status) ∷ ("message", "停止后不再调用模型或新工具；已提交的平台任务需另行取消") ∷ [];
}

-- WHERE id=$1 AND owner_id=$2
abbrev pub owned : String → Option Run → Option Run
owned owner none = none
owned owner (some r) = if str_eq r.owner owner then some r else none

unfoldable pub cancel_found : String → Option Run → Store → Store × Result (Unit {0})
cancel_found id none s = (s, err (fault 404 "任务不存在"))
cancel_found id (some r) s = if is_ended r.status then (s, ok tt) else (
  record s {
    runs = insert id (stopping r) s.runs;
    events = s.events ++ cancellation id (stopped_status r.status) ∷ [];
  },
  ok tt,
)

unfoldable pub cancel : String → String → Store → Store × Result (Unit {0})
cancel owner id s = cancel_found id (owned owner (lookup id s.runs)) s

abbrev pub agreed : String → String → Proposal → Run → Run
agreed receipt grant p r = record r {
  state = record (r.state) { proposal = some (record p { confirmed = true }); receipt = receipt };
  status = queued;
  grant = grant;
}

module _ (canon : String → String) where
  -- the proposal of the run
  unfoldable pub confirm_proposal :
      String
      → String
      → String
      → String
      → String
      → Run
      → Option Proposal
      → Store
      → Store × Result (Unit {0})
  confirm_proposal id operation receipt grant args r none s = (s, err (fault 409 "方案已变更，请刷新"))
  confirm_proposal id operation receipt grant args r (some p) s =
      if not (str_eq p.operation_id operation)
      then (s, err (fault 409 "方案已变更，请刷新"))
      else if p.confirmed
      then (s, ok tt)
      else if not (awaits_confirmation r.status) || r.cancel
      then (s, err (fault 409 "任务不再等待确认"))
      else if not (str_eq (canon p.arguments) (canon args))
      then (s, err (fault 409 "规范参数已变化，请重新生成方案"))
      else (
        record s {
          runs = insert id (agreed receipt grant p r) s.runs;
          events =
              s.events
              ++ record {
                run_id = id;
                kind = "confirmed";
                payload = ("operation_id", operation) ∷ [];
              }
                ∷ [];
        },
        ok tt,
      )

  unfoldable pub confirm_found :
      String → String → String → String → String → Option Run → Store → Store × Result (Unit {0})
  confirm_found id operation receipt grant args none s = (s, err no_rows)
  confirm_found id operation receipt grant args (some r) s =
      if any (λ done. str_eq done operation) r.state.completed_operations
      then (s, ok tt)
      else confirm_proposal id operation receipt grant args r r.state.proposal s

  unfoldable pub confirm :
      String → String → String → String → String → String → Store → Store × Result (Unit {0})
  confirm owner id operation receipt grant args s =
      confirm_found id operation receipt grant args (owned owner (lookup id s.runs)) s

unfoldable pub resume_found : String → String → Option Run → Store → Store × Result (Unit {0})
resume_found id grant none s = (s, err (fault 409 "任务无需恢复授权"))
resume_found id grant (some r) s =
    if awaits_auth r.status && not r.cancel
    then (
      record s {
        runs = insert id (record r { status = queued; grant = grant; error = "" }) s.runs;
      },
      ok tt,
    )
    else (s, err (fault 409 "任务无需恢复授权"))

unfoldable pub resume : String → String → String → Store → Store × Result (Unit {0})
resume owner id grant s = resume_found id grant (owned owner (lookup id s.runs)) s
