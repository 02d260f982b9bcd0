-- ===== src/Training/Metrics.antt =====
-- lifecycle.go: Progress, with the validation and the deduplication of metric points.
use fgvcplateform_public.Base.{
  ℕ, ◌/◌, ◌%◌, ◌^◌, String, Bool, false, ◌&&◌, ◌||◌, List, [], ◌∷◌, ◌++◌, ltb, ◌==◌, str_eq,
  if◌then◌else◌, ℤ, pos, negsuc, is_negative, is_blank, byte_len, any,
}
use fgvcplateform_public.Base.Value.{ValueMap}
use fgvcplateform_public.Training.Types.{
  validation_failed, Error, domain_error, Result, ok, err, MetricPoint, Aggregate, Closure, Env,
}
use fgvcplateform_public.Training.Claims.{current_attempt, as_owner}

pub record ProgressCommand : Type 0 where
  pub job_id : String
  pub attempt_id : String
  pub execution_epoch : ℕ
  pub progress : ValueMap
  pub metric_points : List MetricPoint

-- math.IsNaN(v) || math.IsInf(v, 0): the exponent of the IEEE-754 pattern is all ones.
unfoldable pub not_finite : ℕ → Bool
not_finite v = v / 2 ^ 52 % 2 ^ 11 == 2047

abbrev pub metric_error : Error
metric_error = domain_error validation_failed "metric name, step, and finite value are required"

-- The condition of validateMetricPoint.
unfoldable pub bad_metric_point : MetricPoint → Bool
bad_metric_point p =
    is_blank p.name || ltb 100 (byte_len p.name) || is_negative p.step || not_finite p.value

abbrev pub int_eq : ℤ → ℤ → Bool
int_eq (pos a) (pos b) = a == b
int_eq (negsuc a) (negsuc b) = a == b
int_eq _ _ = false

abbrev pub same_point : MetricPoint → MetricPoint → Bool
same_point p q = str_eq p.attempt_id q.attempt_id && str_eq p.name q.name && int_eq p.step q.step

unfoldable pub contains_metric_point : List MetricPoint → MetricPoint → Bool
contains_metric_point points candidate = any (λ p. same_point p candidate) points

-- What the loop body of Progress makes of a point; a zero time is replaced by the clock's.
unfoldable pub stamp : Env → String → ProgressCommand → MetricPoint → MetricPoint
stamp env run_id cmd p = record p {
  training_run_id = run_id;
  attempt_id = cmd.attempt_id;
  execution_epoch = cmd.execution_epoch;
  recorded_at = if p.recorded_at == 0 then env.now else p.recorded_at;
}

unfoldable pub add_point : List MetricPoint → MetricPoint → List MetricPoint
unfolding contains_metric_point
add_point points p = if contains_metric_point points p then points else points ++ p ∷ []

-- The loop. A bad point ends it; the points before it are in the candidate by then.
unfoldable pub add_points : Env → ProgressCommand → List MetricPoint → Closure (Unit {0})
unfolding bad_metric_point stamp add_point
add_points env cmd [] g = (ok tt, g)
add_points env cmd (p ∷ ps) g =
    let rest =
      add_points env cmd ps
        (record g { metrics = add_point g.metrics (stamp env g.run.id cmd p) }) in
    if bad_metric_point p then (err metric_error, g) else rest

abbrev pub touch :
    Env → ProgressCommand → Result (Unit {0}) × Aggregate → Result (Unit {0}) × Aggregate
touch env cmd (err e, g) = (err e, g)
touch env cmd (ok u, g) = (
  ok u,
  record g {
    run = record g.run { progress = cmd.progress; updated_at = env.now };
    job = record g.job { updated_at = env.now };
  },
)

unfoldable pub progress : Env → ProgressCommand → Closure (Unit {0})
unfolding as_owner current_attempt add_points
progress env cmd g =
    as_owner (current_attempt g cmd.attempt_id cmd.execution_epoch)
      (λ a g'. touch env cmd (add_points env cmd cmd.metric_points g')) g
