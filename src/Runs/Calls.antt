-- ===== src/Runs/Calls.antt =====
-- Sequences of calls of the store of runs, in the order of their transactions.
use fgvcplateform_public.Base.{ℕ, String, Bool, List, [], ◌∷◌}
use fgvcplateform_public.Base.Assoc.{Assoc}
use fgvcplateform_public.Runs.{Status, Run, Store}
use fgvcplateform_public.Runs.Submission.{submit}
use fgvcplateform_public.Runs.Workers.{claim, heartbeat, save}
use fgvcplateform_public.Runs.Control.{cancel, confirm, resume}

pub data Call : Type 0 where
  submits : (new_id owner conv key input grant : String) → Call
  claims : (now : ℕ) → Call
  beats : (now : ℕ) → (id : String) → (epoch : ℕ) → Call
  saves :
      (now : ℕ)
      → (id : String) → (mine : Run) → Status
      → (kind : String) → (payload : Assoc String) → Call
  cancels : (owner id : String) → Call
  confirms : (owner id operation receipt grant args : String) → Call
  resumes : (owner id grant : String) → Call

module _ (is_uuid : String → Bool) (canon : String → String) where
  unfoldable pub step : Call → Store → Store
  step (submits new_id owner conv key input grant) s =
      (submit is_uuid new_id owner conv key input grant s).0
  step (claims now) s = (claim now s).0
  step (beats now id epoch) s = (heartbeat now id epoch s).0
  step (saves now id mine status kind payload) s = (save now id mine status kind payload s).0
  step (cancels owner id) s = (cancel owner id s).0
  step (confirms owner id operation receipt grant args) s =
      (confirm canon owner id operation receipt grant args s).0
  step (resumes owner id grant) s = (resume owner id grant s).0

  unfoldable pub run : List Call → Store → Store
  run [] s = s
  run (c ∷ cs) s = run cs (step c s)
