-- ===== src/Workers.antt =====
-- go/internal/workers/workers.go: what a worker reports of itself, and what the control plane
-- derives from it. uuid.Parse is an argument.
use fgvcplateform_public.Base.{
  ℕ, ◌+◌, ◌*◌, String, Bool, true, false, not, ◌&&◌, ◌||◌, List, [], ◌∷◌, str_eq, if◌then◌else◌,
  ltb, leb, ◌==◌, ℤ, pos, negsuc, is_negative, is_empty, all, length, runes, byte_len,
}
pub mod Sessions
mod Derived
mod Superseded
mod Examples

pub record Task : Type 0 where
  pub id : String
  pub kind : String
  pub stage : String
  pub started_at : ℕ

pub record Snapshot : Type 0 where
  pub id : String
  pub session_id : String
  pub sequence : ℤ
  pub name : String
  pub kind : String
  pub node_id : String
  pub version : String
  pub backend : String
  pub device : String
  pub capacity : ℤ
  pub readiness : String
  pub reason : String
  pub tasks : List Task

-- [A-Za-z0-9_.:/-]
unfoldable pub is_id_char : ℕ → Bool
is_id_char c =
    (leb b'A' c && leb c b'Z')
    || (leb b'a' c && leb c b'z')
    || (leb b'0' c && leb c b'9')
    || c == b'_'
    || c == b'.'
    || c == b':'
    || c == b'/'
    || c == b'-'

-- validID.MatchString
unfoldable pub is_valid_id : String → Bool
unfolding is_id_char
is_valid_id s = all is_id_char (runes s) && leb 1 (length (runes s)) && leb (length (runes s)) 160

-- kinds[kind]
unfoldable pub is_kind : String → Bool
is_kind s =
    str_eq s "training"
    || str_eq s "inference"
    || str_eq s "annotation"
    || str_eq s "artifact"
    || str_eq s "deployment"

unfoldable pub is_readiness : String → Bool
is_readiness s =
    str_eq s "ready"
    || str_eq s "initializing"
    || str_eq s "dependency_error"
    || str_eq s "unknown"
    || str_eq s "stopped"

-- n < bound and n > bound
abbrev pub below : ℤ → ℕ → Bool
below (pos n) bound = ltb n bound
below (negsuc n) bound = true

abbrev pub above : ℤ → ℕ → Bool
above (pos n) bound = ltb bound n
above (negsuc n) bound = false

unfoldable pub bad_task : Task → Bool
bad_task t =
    not (is_valid_id t.id) || not (is_kind t.kind) || ltb 80 (byte_len t.stage) || t.started_at == 0

-- len(s.Tasks) > s.Capacity
abbrev pub overfull : ℤ → ℕ → Bool
overfull (pos capacity) n = ltb capacity n
overfull (negsuc k) n = true

unfoldable pub is_valid : (String → Bool) → Snapshot → Bool
is_valid is_uuid s =
    if not (is_valid_id s.id)
      || not (is_kind s.kind)
      || is_empty s.name
      || ltb 120 (byte_len s.name)
      || is_negative s.sequence
    then false
    else if not (is_uuid s.session_id)
    then false
    else if not (is_empty s.node_id) && not (is_valid_id s.node_id)
    then false
    else if below s.capacity 1 || above s.capacity 128 || overfull s.capacity (length s.tasks)
    then false
    else if not (is_readiness s.readiness)
    then false
    else if ltb 200 (byte_len s.reason)
        || ltb 80 (byte_len s.version)
        || ltb 80 (byte_len s.backend)
        || ltb 80 (byte_len s.device)
    then false
    else all (λ t. not (bad_task t)) s.tasks

-- The three texts that Derive puts into `Connection`.
pub data Connection : Type 0 where
  online delayed offline : Connection

abbrev pub is_online : Connection → Bool
is_online online = true
is_online _ = false

pub record Instance : Type 0 where
  pub snapshot : Snapshot
  pub registered_at : ℕ
  pub received_at : ℕ
  pub connection : Connection
  pub can_accept : Bool
  pub active_count : ℕ
  pub task_visibility : String

-- len(i.Tasks) < i.Capacity
abbrev pub has_room : ℕ → ℤ → Bool
has_room n (pos capacity) = ltb n capacity
has_room n (negsuc k) = false

abbrev pub seconds : ℕ
seconds = 1_000_000_000

-- now.Sub(i.ReceivedAt) > limit
abbrev pub older_than : ℕ → ℕ → ℕ → Bool
older_than now received limit = ltb (received + limit) now

unfoldable pub connection_of : ℕ → Instance → Connection
connection_of now i =
    if older_than now i.received_at (90 * seconds) || str_eq i.snapshot.readiness "stopped"
    then offline
    else if older_than now i.received_at (30 * seconds)
    then delayed
    else online

unfoldable pub derive : ℕ → Instance → Instance
derive now i = record i {
  connection = connection_of now i;
  can_accept =
      is_online (connection_of now i)
      && str_eq i.snapshot.readiness "ready"
      && has_room (length i.snapshot.tasks) i.snapshot.capacity;
  active_count = length i.snapshot.tasks;
}
