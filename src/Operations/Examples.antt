-- ===== src/Operations/Examples.antt =====
-- Runs of the operations on which their theorems apply.
use fgvcplateform_public.Base.{◌≡◌, refl, true, false, ◌&&◌, [], str_eq, if◌then◌else◌, pos}
use fgvcplateform_public.Base.Assoc.{lookup}
use fgvcplateform_public.Operations.{
  running, completed, Operation, conflict, ok, err, outcome_of, clone, started, begin,
}
use fgvcplateform_public.Operations.Idempotency.{begin-again}

abbrev asked : Operation
asked = record {
  id = "o1";
  actor = "ann";
  tool = "train";
  digest = "d";
  status = completed;
  http_status = pos 0;
  response = "";
  updated_at = 0;
  outcome = "";
}

abbrev held : Operation
held = record asked { status = running; updated_at = 5; outcome = "pending_or_unknown" }

begin-ok : (begin 5 asked []).0 ≡ ok (held, true)
unfolding begin lookup clone started outcome_of
begin-ok = refl

begin-again_example : begin 6 (record asked { digest = "e" }) (begin 5 asked []).1 ≡ (
  (if str_eq "d" "e" && str_eq "train" "train" then ok (held, false) else err conflict),
  (begin 5 asked []).1,
)
begin-again_example =
    begin-again 5 6 asked (record asked { digest = "e" }) [] held true begin-ok refl refl
