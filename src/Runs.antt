-- ===== src/Runs.antt =====
-- agent/internal/storage/store.go: the runs of the assistant, in PostgreSQL. Each method is one
-- transaction; claims and submissions are serialised by advisory locks. A run's data are
-- agent/internal/service/types.go and agent/api/modelcontract. A table of runs is in the order of
-- created_at. uuid.Parse and json.Marshal after json.Unmarshal are arguments; an epoch stays below
-- 2 ^ 63. Approval of a proposal is not stored, and no row is locked between two transactions.
use fgvcplateform_public.Base.{ℕ, String, Bool, true, false, Option, List}
use fgvcplateform_public.Base.Assoc.{Assoc}
pub mod Submission
pub mod Workers
pub mod Control
pub mod Calls
mod Counting
mod Moves
mod Lifecycle
mod Steps
mod Fencing
mod Submitted
mod Confirmed
mod Examples

pub data Status : Type 0 where
  queued running waiting_confirmation waiting_auth succeeded failed cancelled unknown : Status

pub record ToolCall : Type 0 where
  pub id : String
  pub call_type : String
  pub name : String
  pub arguments : String

pub record Message : Type 0 where
  pub role : String
  pub content : String
  pub tool_calls : List ToolCall
  pub tool_call_id : String

pub record Proposal : Type 0 where
  pub call : ToolCall
  pub arguments : String
  pub operation_id : String
  pub confirmed : Bool

pub record State : Type 0 where
  pub completed_operations : List String
  pub messages : List Message
  pub round : ℕ
  pub tool_count : ℕ
  pub input_tokens : ℕ
  pub output_tokens : ℕ
  pub model_pending : Bool
  pub calls : List ToolCall
  pub proposal : Option Proposal
  pub receipt : String
  pub write_pending : Bool
  pub output : String

pub record Run : Type 0 where
  pub conversation_id : String
  pub owner : String
  pub key : String
  pub input : String
  pub status : Status
  pub state : State
  pub grant : String
  pub error : String
  pub epoch : ℕ
  pub cancel : Bool
  pub lease_until : Option ℕ

pub record Conversation : Type 0 where
  pub owner : String
  pub title : String

pub record Event : Type 0 where
  pub run_id : String
  pub kind : String
  pub payload : Assoc String

pub record Store : Type 0 where
  pub conversations : Assoc Conversation
  pub runs : Assoc Run
  pub events : List Event

-- `fault` is service.Fault; `no_rows` and `duplicate_key` are errors of the database.
pub data Error : Type 0 where
  fault : ℕ → String → Error
  no_rows duplicate_key : Error

pub data Result {ℓ} (A : Type ℓ) : Type ℓ where
  ok : A → Result A
  err : Error → Result A

abbrev pub is_queued : Status → Bool
is_queued queued = true
is_queued _ = false

abbrev pub is_running : Status → Bool
is_running running = true
is_running _ = false

-- 'queued','running','waiting_confirmation','waiting_auth'
abbrev pub is_open : Status → Bool
is_open queued = true
is_open running = true
is_open waiting_confirmation = true
is_open waiting_auth = true
is_open _ = false

-- 'succeeded','failed','cancelled','unknown'
abbrev pub is_over : Status → Bool
is_over succeeded = true
is_over failed = true
is_over cancelled = true
is_over unknown = true
is_over _ = false

abbrev pub value_or {ℓ} : {A : Type ℓ} → A → Result A → A
value_or d (ok a) = a
value_or d (err e) = d
