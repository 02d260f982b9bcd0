-- ===== src/Workers/Sessions.antt =====
-- go/internal/workers/workers.go: PostgresStore.Report as a transition on its two tables. The text
-- form of a uuid column (session_id::text) is an argument; the advisory lock makes a registration
-- one step, and a database that fails changes nothing.
use fgvcplateform_public.Base.{
  ℕ, String, Bool, true, false, not, Option, none, some, List, [], ◌∷◌, str_eq, if◌then◌else◌, ltb,
  ℤ, pos, negsuc,
}
use fgvcplateform_public.Base.Assoc.{Assoc, lookup, insert}
use fgvcplateform_public.Workers.{Snapshot}

pub record Row : Type 0 where
  pub session_id : String
  pub sequence : ℤ
  pub snapshot : Snapshot
  pub registered_at : ℕ
  pub received_at : ℕ

-- worker_sessions (session_id ↦ worker_id) and worker_instances (by id)
pub record Tables : Type 0 where
  pub sessions : Assoc String
  pub instances : Assoc Row

-- `no_rows` is pgx.ErrNoRows.
pub data Outcome : Type 0 where
  accepted : Tables → Outcome
  conflict no_rows : Outcome

-- m < n
abbrev pub less : ℤ → ℤ → Bool
less (pos m) (pos n) = ltb m n
less (pos m) (negsuc n) = false
less (negsuc m) (pos n) = true
less (negsuc m) (negsuc n) = ltb n m

unfoldable pub put_row : Tables → String → Row → Tables
put_row t id row = record { sessions = t.sessions; instances = insert id row t.instances }

module _ (uuid_text : String → String) (now : ℕ) where
  -- WHERE id=$1 AND session_id=$2 AND sequence<$3
  unfoldable pub beat_found : Tables → Snapshot → Option Row → Outcome
  beat_found t v none = conflict
  beat_found t v (some row) =
      if not (str_eq row.session_id (uuid_text v.session_id))
      then conflict
      else if not (less row.sequence v.sequence)
      then conflict
      else accepted (
          put_row t v.id (record {
            session_id = row.session_id;
            sequence = v.sequence;
            snapshot = v;
            registered_at = row.registered_at;
            received_at = now;
          }))

  -- the session is known: its owner is the first argument after `v`
  unfoldable pub known_session : Tables → Snapshot → String → Option Row → Outcome
  known_session t v owner none = if not (str_eq owner v.id) then conflict else no_rows
  known_session t v owner (some row) =
      if not (str_eq owner v.id)
      then conflict
      else if not (str_eq row.session_id v.session_id)
      then conflict
      else accepted t

  unfoldable pub new_session : Tables → Snapshot → Tables
  new_session t v = record {
    sessions = insert (uuid_text v.session_id) v.id t.sessions;
    instances =
        insert v.id
          (record {
            session_id = uuid_text v.session_id;
            sequence = pos 0;
            snapshot = v;
            registered_at = now;
            received_at = now;
          })
          t.instances;
  }

  unfoldable pub register_found : Tables → Snapshot → Option String → Outcome
  register_found t v none = accepted (new_session t v)
  register_found t v (some owner) = known_session t v owner (lookup v.id t.instances)

  unfoldable pub report : Tables → Snapshot → Bool → Outcome
  report t v false = beat_found t v (lookup v.id t.instances)
  report t v true = register_found t v (lookup (uuid_text v.session_id) t.sessions)

-- A call of Report, at its time.
pub record Call : Type 0 where
  pub at : ℕ
  pub snapshot : Snapshot
  pub registers : Bool

-- the tables after a call
abbrev pub settle : Tables → Outcome → Tables
settle t (accepted after) = after
settle t conflict = t
settle t no_rows = t

unfoldable pub run : (String → String) → List Call → Tables → Tables
run uuid_text [] t = t
run uuid_text (c ∷ cs) t =
    run uuid_text cs (settle t (report uuid_text c.at t c.snapshot c.registers))
