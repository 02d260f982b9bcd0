-- ===== src/Operations.antt =====
-- go/internal/agenttools/operations.go: the operations that an agent starts under a key of its own,
-- and the memory store that makes each start once. Digest, Sign and Verify are not modelled here.
use fgvcplateform_public.Base.{
  ℕ, String, Bool, true, false, not, ◌&&◌, ◌||◌, Option, none, some, List, str_eq, if◌then◌else◌,
  leb, ◌==◌, ℤ, pos, negsuc,
}
use fgvcplateform_public.Base.Assoc.{Assoc, lookup, insert}
use Prim.Native.String.{◌++◌ as str_append}
mod Idempotency
mod Examples

pub data Status : Type 0 where
  running completed : Status

pub record Operation : Type 0 where
  pub id : String
  pub actor : String
  pub tool : String
  pub digest : String
  pub status : Status
  pub http_status : ℤ
  pub response : String
  pub updated_at : ℕ
  pub outcome : String

pub data Error : Type 0 where
  conflict not_found : Error

pub data Result {ℓ} (A : Type ℓ) : Type ℓ where
  ok : A → Result A
  err : Error → Result A

-- status >= n
abbrev pub at_least : ℕ → ℤ → Bool
at_least n (pos k) = leb n k
at_least n (negsuc k) = false

abbrev pub is_zero : ℤ → Bool
is_zero (pos k) = k == 0
is_zero (negsuc k) = false

unfoldable pub outcome_of : ℤ → String
outcome_of status =
    if is_zero status
    then "pending_or_unknown"
    else if at_least 500 status
    then "unknown"
    else if at_least 400 status
    then "rejected"
    else "succeeded"

unfoldable pub clone : Operation → Operation
clone op = record op { outcome = outcome_of op.http_status }

abbrev pub Rows : Type 0
Rows = Assoc Operation

abbrev pub row_key : String → String → String
row_key actor id = str_append actor (str_append ":" id)

abbrev pub is_running : Status → Bool
is_running running = true
is_running completed = false

-- What Begin answers: the operation, and whether it is new.
abbrev pub Begun : Type 0
Begun = Result (Operation × Bool) × Rows

unfoldable pub started : ℕ → Operation → Operation
started now op = record op { status = running; updated_at = now }

abbrev pub begin_found : ℕ → Operation → Rows → Option Operation → Begun
begin_found now op rows (some old) =
    if not (str_eq old.digest op.digest) || not (str_eq old.tool op.tool)
    then (err conflict, rows)
    else (ok (clone old, false), rows)
begin_found now op rows none = (
  ok (clone (started now op), true),
  insert (row_key op.actor op.id) (clone (started now op)) rows,
)

unfoldable pub begin : ℕ → Operation → Rows → Begun
begin now op rows = begin_found now op rows (lookup (row_key op.actor op.id) rows)

unfoldable pub finished : ℕ → ℤ → String → Operation → Operation
finished now status body op = record op {
  http_status = status;
  response = body;
  status = completed;
  updated_at = now;
}

abbrev pub finish_found :
    ℕ → String → ℤ → String → Rows → Option Operation → Result (Unit {0}) × Rows
finish_found now key status body rows none = (err not_found, rows)
finish_found now key status body rows (some op) =
    if not (is_running op.status) && not (not (is_running op.status) && at_least 500 op.http_status)
    then (err conflict, rows)
    else (ok tt, insert key (finished now status body op) rows)

unfoldable pub finish : ℕ → String → String → ℤ → String → Rows → Result (Unit {0}) × Rows
finish now actor id status body rows =
    finish_found now (row_key actor id) status body rows (lookup (row_key actor id) rows)

abbrev pub get_found : Option Operation → Result Operation
get_found none = err not_found
get_found (some op) = ok (clone op)

unfoldable pub get_operation : String → String → Rows → Result Operation
get_operation actor id rows = get_found (lookup (row_key actor id) rows)
