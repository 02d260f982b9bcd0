-- ===== src/Annotation/Repository.antt =====
-- go/internal/annotation/annotation.go: the methods of Repository that change a table, and
-- QueueAll of go/internal/annotation/catalog.go.
use fgvcplateform_public.Base.{
  ℕ, ℤ, pos, negsuc, ◌+◌, ◌*◌, String, Bool, true, false, not, ◌&&◌, ◌||◌, Option, none, some, List,
  [], ◌∷◌, ◌++◌, str_eq, if◌then◌else◌, ltb, leb, ◌==◌, is_blank, byte_len, any, all, length, min,
}
use fgvcplateform_public.Base.Assoc.{Assoc, lookup, insert}
use fgvcplateform_public.Base.Tables.{edit_where, ids_where}
use fgvcplateform_public.Artifact.{Descriptor}
use fgvcplateform_public.Annotation.{
  Class, Project, is_valid_project, contains_text, Status, pending, queued, running, suggested,
  failed, unknown, confirmed, Task, Event, Delivery, Store, invalid, conflict, no_rows,
  duplicate_key, Result, ok, err,
}

abbrev pub is_pending : Status → Bool
is_pending pending = true
is_pending _ = false

abbrev pub is_queued : Status → Bool
is_queued queued = true
is_queued _ = false

abbrev pub is_running : Status → Bool
is_running running = true
is_running _ = false

abbrev pub is_confirmed : Status → Bool
is_confirmed confirmed = true
is_confirmed _ = false

-- INSERT INTO annotation_task_events ... SELECT ... FROM changed
abbrev pub events_of : String → String → Option Status → Status → List String → List Event
events_of kind actor from to [] = []
events_of kind actor from to (id ∷ ids) =
    record { task_id = id; event_type = kind; actor = actor; from_status = from; to_status = to }
    ∷ events_of kind actor from to ids

-- `new_id` is drawn by uuid.NewString
unfoldable pub create : Project → String → Store → Store × Result Project
create p new_id s = if not (is_valid_project p) then (s, err invalid) else (
  record s { projects = insert new_id (record p { id = new_id }) s.projects },
  ok (record p { id = new_id }),
)

-- the id of the row with this project and digest
unfoldable pub same_image : String → String → Assoc Task → Option String
same_image pid sha [] = none
same_image pid sha ((id, t) ∷ rest) =
    if str_eq t.project_id pid && str_eq t.sha sha then some id else same_image pid sha rest

abbrev pub new_task : String → String → Descriptor → Task
new_task pid filename image = record {
  project_id = pid;
  filename = filename;
  image = image;
  sha = image.sha256;
  status = pending;
  result = "{}";
  label = "";
  actor = "";
  error = "";
  claim_token = none;
  lease_until = none;
}

-- INSERT of a row whose id is not there
abbrev pub insert_new :
    String → String → Descriptor → String → Option Task → Store → Store × Result String
insert_new pid name image new_id none s = (
  record s {
    tasks = insert new_id (new_task pid name image) s.tasks;
    events = s.events ++ events_of "created" "system" none pending (new_id ∷ []);
  },
  ok new_id,
)
insert_new pid name image new_id (some t) s = (s, err duplicate_key)

-- ON CONFLICT(project_id,sha) DO UPDATE SET sha=EXCLUDED.sha changes nothing
abbrev pub add_found :
    String → String → Descriptor → String → Option String → Store → Store × Result String
add_found pid name image new_id none s = insert_new pid name image new_id (lookup new_id s.tasks) s
add_found pid name image new_id (some id) s =
    (record s { events = s.events ++ events_of "created" "system" none pending (id ∷ []) }, ok id)

-- `new_id` is drawn by uuid.NewString
unfoldable pub add : String → String → Descriptor → String → Store → Store × Result String
add pid name image new_id s =
    add_found pid name image new_id (same_image pid image.sha256 s.tasks) s

abbrev pub to_queue : String → List String → String → Task → Bool
to_queue pid ids id t = str_eq t.project_id pid && contains_text ids id && is_pending t.status

unfoldable pub queue : (String → Bool) → String → List String → Store → Store × Result ℕ
queue is_uuid pid ids s =
    if ltb (length ids) 1 || ltb 100 (length ids)
    then (s, err invalid)
    else if not (all is_uuid ids)
    then (s, err invalid)
    else (
      record s {
        tasks = edit_where (to_queue pid ids) (λ t. record t { status = queued }) s.tasks;
        events =
            s.events
            ++ events_of "queued" "operator" (some pending) queued
                (ids_where (to_queue pid ids) s.tasks);
      },
      ok (length (ids_where (to_queue pid ids) s.tasks)),
    )

-- `<=` on int64
abbrev pub int_leb : ℤ → ℤ → Bool
int_leb (pos m) (pos n) = leb m n
int_leb (pos m) (negsuc n) = false
int_leb (negsuc m) (pos n) = true
int_leb (negsuc m) (negsuc n) = leb n m

-- project_id = $1 AND seq <= $2 AND status = 'pending'. A row's seq is drawn when it is inserted and
-- never changes.
abbrev pub is_through : (String → ℕ) → String → ℤ → String → Task → Bool
is_through seq pid last id t =
    str_eq t.project_id pid && int_leb (pos (seq id)) last && is_pending t.status

-- no event is written
unfoldable pub queue_all : (String → ℕ) → String → ℤ → Store → Store × Result ℕ
queue_all seq pid last s = if not (int_leb (pos 1) last) then (s, err invalid) else (
  record s {
    tasks = edit_where (is_through seq pid last) (λ t. record t { status = queued }) s.tasks;
  },
  ok (length (ids_where (is_through seq pid last) s.tasks)),
)

abbrev pub has_class : String → Option Project → Bool
has_class label none = false
has_class label (some p) = any (λ (c : Class). str_eq c.id label) p.classes

-- ON CONFLICT DO NOTHING
abbrev pub announce : ℕ → String → Option Delivery → Assoc Delivery → Assoc Delivery
announce now id none outbox =
    insert id (record { delivered_at = none; next_at = now; attempts = 0; error = "" }) outbox
announce now id (some d) outbox = outbox

abbrev pub confirmed_as : ℕ → String → String → String → Task → Store → Store
confirmed_as now id label actor t s = record s {
  tasks = insert id (record t { status = confirmed; label = label; actor = actor }) s.tasks;
  events = s.events ++ events_of "confirmed" actor (some t.status) confirmed (id ∷ []);
  outbox = announce now id (lookup id s.outbox) s.outbox;
}

unfoldable pub confirm_found :
    ℕ → String → String → String → Option Task → Store → Store × Result (Unit {0})
confirm_found now id label actor none s = (s, err no_rows)
confirm_found now id label actor (some t) s =
    if not (has_class label (lookup t.project_id s.projects))
    then (s, err invalid)
    else if is_running t.status || is_queued t.status
    then (s, err conflict)
    else if is_confirmed t.status
    then (if str_eq t.label label then (s, ok tt) else (s, err conflict))
    else (confirmed_as now id label actor t s, ok tt)

unfoldable pub confirm : ℕ → String → String → String → Store → Store × Result (Unit {0})
confirm now id label actor s =
    if is_blank actor || ltb 120 (byte_len actor)
    then (s, err invalid)
    else confirm_found now id label actor (lookup id s.tasks) s

-- lease_until < now and lease_until > now, which are false of NULL
abbrev pub before : Option ℕ → ℕ → Bool
before none now = false
before (some until) now = ltb until now

abbrev pub after : Option ℕ → ℕ → Bool
after none now = false
after (some until) now = ltb now until

abbrev pub has_expired : ℕ → String → Task → Bool
has_expired now id t = is_running t.status && before t.lease_until now

abbrev pub quarantined : Task → Task
quarantined t = record t { status = unknown; error = "Worker 租约过期；结果未知，不自动重复调用" }

unfoldable pub expire : ℕ → Store → Store
expire now s = record s {
  tasks = edit_where (has_expired now) quarantined s.tasks;
  events =
      s.events
      ++ events_of "lease_expired" "system" (some running) unknown
          (ids_where (has_expired now) s.tasks);
}

-- ORDER BY seq LIMIT 1
unfoldable pub first_queued : Assoc Task → Option (String × Task)
first_queued [] = none
first_queued ((id, t) ∷ rest) = if is_queued t.status then some (id, t) else first_queued rest

abbrev pub second : ℕ
second = 1_000_000_000

abbrev pub lease : ℕ
lease = 20 * 60 * second

abbrev pub leased : ℕ → String → Task → Task
leased now token t = record t {
  status = running;
  claim_token = some token;
  lease_until = some (now + lease);
}

abbrev pub claim_found : ℕ → String → Option (String × Task) → Store → Store × Result String
claim_found now token none s = (s, err no_rows)
claim_found now token (some (id, t)) s = (
  record s {
    tasks = insert id (leased now token t) s.tasks;
    events = s.events ++ events_of "claimed" "annotation-worker" (some queued) running (id ∷ []);
  },
  ok id,
)

-- `token` is drawn by uuid.NewString
unfoldable pub claim : ℕ → String → Store → Store × Result String
claim now token s = let s' = expire now s in claim_found now token (first_queued s'.tasks) s'

abbrev pub is_outcome : Status → Bool
is_outcome suggested = true
is_outcome failed = true
is_outcome unknown = true
is_outcome _ = false

abbrev pub is_suggested : Status → Bool
is_suggested suggested = true
is_suggested _ = false

abbrev pub same_status : Status → Status → Bool
same_status pending pending = true
same_status queued queued = true
same_status running running = true
same_status suggested suggested = true
same_status failed failed = true
same_status unknown unknown = true
same_status confirmed confirmed = true
same_status _ _ = false

-- the loop over the candidates: each is a class, and none comes twice
unfoldable pub valid_candidates : List Class → List String → List String → Bool
valid_candidates classes seen [] = true
valid_candidates classes seen (c ∷ cs) =
    let rest = valid_candidates classes (c ∷ seen) cs in
    if not (any (λ (k : Class). str_eq k.id c) classes) || contains_text seen c then false else rest

-- claim_token = $2
abbrev pub holds : String → Option String → Bool
holds token none = false
holds token (some held) = str_eq held token

abbrev pub finished : Status → String → String → Task → Task
finished status result message t = record t {
  status = status;
  result = result;
  error = message;
  lease_until = none;
}

module _ (parse : String → Option (List String)) (same_json : String → String → Bool) where
  abbrev pub is_repeat : String → Status → String → String → Task → Bool
  is_repeat token status result message t =
      holds token t.claim_token
      && same_status t.status status
      && same_json t.result result
      && str_eq t.error message

  unfoldable pub finish_valid :
      ℕ → String → String → Status → String → String → Task → Store → Store × Result (Unit {0})
  finish_valid now id token status result message t s =
      if holds token t.claim_token && is_running t.status && after t.lease_until now
      then (
        record s {
          tasks = insert id (finished status result message t) s.tasks;
          events =
              s.events
              ++ events_of "worker_finished" "annotation-worker" (some running) status (id ∷ []);
        },
        ok tt,
      )
      else if is_repeat token status result message t
      then (s, ok tt)
      else (s, err conflict)

  -- with the task's project
  unfoldable pub finish_in :
      ℕ
      → String
      → String
      → Status
      → String
      → List String
      → String
      → Task
      → Option Project
      → Store
      → Store × Result (Unit {0})
  finish_in now id token status result candidates message t none s = (s, err no_rows)
  finish_in now id token status result candidates message t (some p) s =
      if not (valid_candidates p.classes [] candidates)
      then (s, err invalid)
      else if ltb 10 (length candidates)
          || (is_suggested status && not (length candidates == min 10 (length p.classes)))
      then (s, err invalid)
      else finish_valid now id token status result message t s

  unfoldable pub finish_found :
      ℕ
      → String
      → String
      → Status
      → String
      → List String
      → String
      → Option Task
      → Store
      → Store × Result (Unit {0})
  finish_found now id token status result candidates message none s = (s, err no_rows)
  finish_found now id token status result candidates message (some t) s =
      finish_in now id token status result candidates message t (lookup t.project_id s.projects) s

  abbrev pub finish_parsed :
      ℕ
      → String
      → String
      → Status
      → String
      → Option (List String)
      → String
      → Store
      → Store × Result (Unit {0})
  finish_parsed now id token status result none message s = (s, err invalid)
  finish_parsed now id token status result (some candidates) message s =
      finish_found now id token status result candidates message (lookup id s.tasks) s

  unfoldable pub finish :
      ℕ → String → String → Status → String → String → Store → Store × Result (Unit {0})
  finish now id token status result message s =
      if not (is_outcome status)
      then (s, err invalid)
      else if ltb (128 * 1024) (byte_len result)
      then (s, err invalid)
      else finish_parsed now id token status result (parse result) message s

-- the deliveries that are still due, in the order of seq
unfoldable pub memory_next_in : ℕ → Assoc Delivery → Assoc Task → Option String
memory_next_in now outbox [] = none
memory_next_in now outbox ((id, t) ∷ rest) =
    let later = memory_next_in now outbox rest in
    elim (lookup id outbox) [
      | none ↦ later
      | some d ↦ elim d.delivered_at [
        | none ↦ if is_confirmed t.status && leb d.next_at now then some id else later
        | some at ↦ later
      ]
    ]

unfoldable pub memory_next : ℕ → Store → Option String
memory_next now s = memory_next_in now s.outbox s.tasks

abbrev pub acknowledged : ℕ → Bool → String → Delivery → Delivery
acknowledged now delivered message d = record {
  delivered_at = if delivered then some now else none;
  next_at = now + 60 * second;
  attempts = d.attempts + 1;
  error = message;
}

abbrev pub ack_found : ℕ → String → Bool → String → Option Delivery → Store → Store
ack_found now id delivered message none s = s
ack_found now id delivered message (some d) s = elim d.delivered_at [
  | none ↦ record s { outbox = insert id (acknowledged now delivered message d) s.outbox }
  | some at ↦ s
]

unfoldable pub memory_ack : ℕ → String → Bool → String → Store → Store
memory_ack now id delivered message s = ack_found now id delivered message (lookup id s.outbox) s
