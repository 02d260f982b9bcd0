-- ===== src/Training/Control.antt =====
-- lifecycle.go: Pause, Cancel, CancelOperation (transitionControl) and Resume.
use Prim.Native.String.{◌++◌ as str_append}
use fgvcplateform_public.Base.{
  String, Bool, true, false, not, ◌&&◌, Option, none, some, List, [], ◌∷◌, ◌++◌, if◌then◌else◌,
  inc64, any,
}
use fgvcplateform_public.Base.Assoc.{Assoc, lookup, insert}
use fgvcplateform_public.Base.Value.{ValueMap, str, holds_text}
use fgvcplateform_public.Training.Types.{
  Status, paused, cancelled, queued, AttemptStatus, is_queued, is_paused, is_running, is_cancelled,
  terminal, status_name, attempt_running, invalid_state, domain_error, ok, err, Attempt, AuditEvent,
  Closure, Env, ready_event,
}

-- The two targets of transitionControl.
pub data Target : Type 0 where
  to_paused to_cancelled : Target

abbrev pub target_status : Target → Status
target_status to_paused = paused
target_status to_cancelled = cancelled

abbrev pub stopped_attempt : Target → AttemptStatus
stopped_attempt to_paused = AttemptStatus.fenced
stopped_attempt to_cancelled = AttemptStatus.cancelled

abbrev pub is_pause : Target → Bool
is_pause to_paused = true
is_pause to_cancelled = false

-- `if attempt := aggregate.Attempts[…]; attempt != nil && attempt.Status == AttemptRunning`
unfoldable pub stop_attempt : Env → Target → String → Option Attempt → Assoc Attempt → Assoc Attempt
stop_attempt env t id none m = m
stop_attempt env t id (some a) m =
    if attempt_running a.status
    then insert id (record a { status = stopped_attempt t; finished_at = env.now }) m
    else m

abbrev pub control_event : Env → String → String → ValueMap → AuditEvent
control_event env event_type message payload = record {
  event_type = event_type;
  message = message;
  payload = payload;
  created_at = env.now;
}

unfoldable pub move_to : Env → Target → ValueMap → Closure (Unit {0})
unfolding stop_attempt
move_to env t payload g =
    let name = status_name (target_status t) in
    let id = g.job.active_attempt_id in
    (
      ok tt,
      record g {
        job = record g.job {
          execution_epoch = inc64 g.job.execution_epoch;
          status = target_status t;
          updated_at = env.now;
        };
        attempts = stop_attempt env t id (lookup id g.attempts) g.attempts;
        run = record g.run { status = target_status t; updated_at = env.now };
        events = g.events ++ control_event env name (str_append "training job " name) payload ∷ [];
      },
    )

-- The part of transitionControl below the operation keys.
unfoldable pub transition : Env → Target → ValueMap → Closure (Unit {0})
transition env t payload g =
    if terminal g.job.status
    then (
      err (
          domain_error invalid_state
            (str_append "training job cannot transition from " (status_name g.job.status))),
      g,
    )
    else if is_pause t && not (is_queued g.job.status) && not (is_running g.job.status)
    then (
      err (domain_error invalid_state "training job cannot be paused from its current state"),
      g,
    )
    else move_to env t payload g

unfoldable pub pause : Env → Closure (Unit {0})
unfolding transition
pause env g = transition env to_paused [] g

unfoldable pub cancel : Env → Closure (Unit {0})
unfolding transition
cancel env g = transition env to_cancelled [] g

abbrev pub key_payload : String → ValueMap
key_payload key = ("agent_operation_key", str key) ∷ []

unfoldable pub has_operation : String → List AuditEvent → Bool
has_operation key events = any (λ e. holds_text e.payload "agent_operation_key" key) events

-- The record that a keyed cancel found the job cancelled already.
unfoldable pub noted : Env → String → Closure (Unit {0})
noted env key g = (
  ok tt,
  record g {
    events =
        g.events
        ++ control_event env "cancelled" "confirmed already-cancelled training" (key_payload key)
          ∷ [];
  },
)

-- transitionControl with an operation key: an event with the key means that it was done before.
unfoldable pub transition_keyed : Env → Target → String → Closure (Unit {0})
unfolding noted
transition_keyed env t key g =
    if has_operation key g.events
    then (ok tt, g)
    else if is_cancelled g.job.status
    then noted env key g
    else transition env t (key_payload key) g

unfoldable pub requeue_paused : Env → Closure (Unit {0})
unfolding ready_event
requeue_paused env g =
    let generation = inc64 g.job.dispatch_generation in
    (
      ok tt,
      record g {
        job = record g.job {
          status = queued;
          dispatch_generation = generation;
          active_attempt_id = "";
          available_at = env.now;
          updated_at = env.now;
        };
        run = record g.run { status = queued; updated_at = env.now };
        outbox = g.outbox ++ ready_event env.new_id g.job.id generation env.now ∷ [];
        events = g.events ++ control_event env "resumed" "training job resumed" [] ∷ [];
      },
    )

unfoldable pub resume : Env → Closure (Unit {0})
resume env g =
    if is_paused g.job.status
    then requeue_paused env g
    else (err (domain_error invalid_state "only a paused training job can be resumed"), g)
