-- ===== src/Auth/Calls.antt =====
-- Sequences of calls of the accounts, each at one time.
use fgvcplateform_public.Base.{ℕ, String, Option, List, [], ◌∷◌}
use fgvcplateform_public.Auth.{Store}
use fgvcplateform_public.Auth.Accounts.{update_user, bootstrap_admin}
use fgvcplateform_public.Auth.Service.{register, login, logout}

pub data Call : Type 0 where
  registers : (now : ℕ) → (id : String) → (salt : List ℕ) → (email name password : String) → Call
  logs_in : (now : ℕ) → (secret csrf email password : String) → Call
  logs_out : (secret : String) → Call
  updates : (now : ℕ) → (actor id role status reason : String) → Call
  bootstraps : (now : ℕ) → (new_id email name hash : String) → Call

module _ (lower : String → String) (parse : String → Option String) (encode : List ℕ → String)
    (decode : String → Option (List ℕ)) (argon : String → List ℕ → List ℕ)
    (sha : String → String) where
  unfoldable pub step : Call → Store → Store
  step (registers now id salt email name password) s =
      (register lower parse encode decode argon sha now id salt email name password s).0
  step (logs_in now secret csrf email password) s =
      (login lower parse encode decode argon sha now secret csrf email password s).0
  step (logs_out secret) s = logout sha secret s
  step (updates now actor id role status reason) s =
      (update_user now actor id role status reason s).0
  step (bootstraps now new_id email name hash) s = (bootstrap_admin now new_id email name hash s).0

  unfoldable pub run : List Call → Store → Store
  run [] s = s
  run (c ∷ cs) s = run cs (step c s)
