-- ===== src/Workers/Examples.antt =====
-- Workers on which the theorems apply.
use fgvcplateform_public.Base.{String, ◌≡◌, refl, false, true, List, [], ◌∷◌, pos}
use fgvcplateform_public.Base.Assoc.{lookup, insert}
use fgvcplateform_public.Workers.{Snapshot, Instance, offline}
use fgvcplateform_public.Workers.Sessions.{
  Call, run, Tables, conflict, report, register_found, new_session,
}
use fgvcplateform_public.Workers.Superseded.{report-superseded}

abbrev first : Snapshot
first = record {
  id = "t1";
  session_id = "s";
  sequence = pos 1;
  name = "trainer";
  kind = "training";
  node_id = "";
  version = "1";
  backend = "cuda";
  device = "0";
  capacity = pos 1;
  readiness = "ready";
  reason = "";
  tasks = [];
}

abbrev restarted : Snapshot
restarted = record {
  id = "t1";
  session_id = "r";
  sequence = pos 1;
  name = "trainer";
  kind = "training";
  node_id = "";
  version = "1";
  backend = "cuda";
  device = "0";
  capacity = pos 1;
  readiness = "ready";
  reason = "";
  tasks = [];
}

abbrev trainer : Instance
trainer = record {
  snapshot = first;
  registered_at = 1;
  received_at = 1;
  connection = offline;
  can_accept = false;
  active_count = 0;
  task_visibility = "";
}

abbrev lower : String → String
lower s = s

-- `first` is registered
abbrev before : Tables
before = new_session lower 1 (record { sessions = []; instances = [] }) first

-- the new session beats, and the old one tries to register again
abbrev meanwhile : List Call
meanwhile =
    record { at = 3; snapshot = restarted; registers = false }
    ∷ record { at = 4; snapshot = first; registers = true }
    ∷ []

report-superseded_example :
    report lower 5 (run lower meanwhile (new_session lower 2 before restarted)) first true
    ≡ conflict
unfolding report new_session register_found lookup insert
report-superseded_example =
    report-superseded lower first 2 before (new_session lower 2 before restarted) restarted "t1"
      meanwhile 5 true (λ s. refl) refl refl refl refl
