-- ===== src/Runs/Submission.antt =====
-- agent/internal/storage/store.go: Submit.
use fgvcplateform_public.Base.{
  ℕ, ◌+◌, ◌-◌, String, Bool, true, false, not, ◌&&◌, ◌||◌, Option, none, some, List, [], ◌∷◌, ◌++◌,
  str_eq, if◌then◌else◌, ltb, leb, is_empty, byte_len, trim_space, length, drop,
}
use fgvcplateform_public.Base.Assoc.{Assoc, lookup, insert}
use fgvcplateform_public.Runs.{
  Status, queued, succeeded, Message, State, Run, Conversation, Event, Store, fault, duplicate_key,
  Result, ok, err, is_queued, is_running, is_open,
}

abbrev pub is_succeeded : Status → Bool
is_succeeded succeeded = true
is_succeeded _ = false

-- count(*) FILTER (WHERE ...)
abbrev pub count_runs : (Run → Bool) → Assoc Run → ℕ
count_runs test [] = 0
count_runs test ((id, r) ∷ rest) = (if test r then 1 else 0) + count_runs test rest

-- the run of this owner and key
unfoldable pub find_key : String → String → Assoc Run → Option (String × Run)
find_key owner key [] = none
find_key owner key ((id, r) ∷ rest) =
    if str_eq r.owner owner && str_eq r.key key then some (id, r) else find_key owner key rest

abbrev pub answered_in : String → Run → Bool
answered_in conv r = str_eq r.conversation_id conv && is_succeeded r.status

unfoldable pub answered : String → Assoc Run → List Run
answered conv [] = []
answered conv ((id, r) ∷ rest) =
    if answered_in conv r then r ∷ answered conv rest else answered conv rest

-- ORDER BY created_at DESC LIMIT 6, and back in order
abbrev pub last_six : List Run → List Run
last_six rs = drop (length rs - 6) rs

abbrev pub plain : String → String → Message
plain role content = record { role = role; content = content; tool_calls = []; tool_call_id = "" }

unfoldable pub history : List Run → List Message
history [] = []
history (r ∷ rs) = plain "user" r.input ∷ plain "assistant" r.state.output ∷ history rs

abbrev pub first_state : List Message → State
first_state messages = record {
  completed_operations = [];
  messages = messages;
  round = 0;
  tool_count = 0;
  input_tokens = 0;
  output_tokens = 0;
  model_pending = false;
  calls = [];
  proposal = none;
  receipt = "";
  write_pending = false;
  output = "";
}

abbrev pub first_run : String → String → String → String → String → Assoc Run → Run
first_run owner conv key input grant runs = record {
  conversation_id = conv;
  owner = owner;
  key = key;
  input = input;
  status = queued;
  state = first_state (history (last_six (answered conv runs)) ++ plain "user" input ∷ []);
  grant = grant;
  error = "";
  epoch = 0;
  cancel = false;
  lease_until = none;
}

-- the first `n` runes
unfoldable pub first_runes : ℕ → String → String
first_runes ℕ.zero s = ""
first_runes (ℕ.suc n) String.[] = ""
first_runes (ℕ.suc n) (String.◌∷◌ c s) = String.◌∷◌ c (first_runes n s)

abbrev pub titled : String → Conversation → Conversation
titled input c = record c { title = if str_eq c.title "新对话" then first_runes 30 input else c.title }

abbrev pub status_event : String → String → Event
status_event id status = record { run_id = id; kind = status; payload = ("status", status) ∷ [] }

-- INSERT of a run whose id is not there
abbrev pub insert_run :
    String → String → Run → Conversation → Option Run → Store → Store × Result (String × Run)
insert_run conv id r c none s = (
  record {
    conversations = insert conv (titled r.input c) s.conversations;
    runs = insert id r s.runs;
    events = s.events ++ status_event id "queued" ∷ [];
  },
  ok (id, r),
)
insert_run conv id r c (some old) s = (s, err duplicate_key)

abbrev pub is_active : String → Run → Bool
is_active conv r = str_eq r.conversation_id conv && is_open r.status

abbrev pub is_owned : String → Run → Bool
is_owned owner r = str_eq r.owner owner && is_open r.status

abbrev pub is_pending : Run → Bool
is_pending r = is_queued r.status || is_running r.status

-- the conversation of this id and owner, from the counts on
unfoldable pub submit_in :
    String
    → String
    → String
    → String
    → String
    → String
    → Option Conversation
    → Store
    → Store × Result (String × Run)
submit_in new_id owner conv key input grant none s = (s, err (fault 404 "对话不存在"))
submit_in new_id owner conv key input grant (some c) s =
    if not (str_eq c.owner owner)
    then (s, err (fault 404 "对话不存在"))
    else if ltb 0 (count_runs (is_active conv) s.runs)
    then (s, err (fault 409 "当前对话还有未完成任务"))
    else if leb 8 (count_runs (is_owned owner) s.runs) || leb 128 (count_runs is_pending s.runs)
    then (s, err (fault 429 "任务队列已满，请稍后重试"))
    else insert_run conv new_id (first_run owner conv key input grant s.runs) c
        (lookup new_id s.runs) s

unfoldable pub submit_found :
    String
    → String
    → String
    → String
    → String
    → String
    → Option (String × Run)
    → Store
    → Store × Result (String × Run)
submit_found new_id owner conv key input grant none s =
    submit_in new_id owner conv key input grant (lookup conv s.conversations) s
submit_found new_id owner conv key input grant (some (id, previous)) s =
    if not (str_eq previous.conversation_id conv) || not (str_eq previous.input input)
    then (s, err (fault 409 "请求键对应的内容不同"))
    else (s, ok (id, previous))

-- `new_id` is drawn by uuid.NewString. A text is valid UTF-8.
unfoldable pub submit :
    (String → Bool)
    → String
    → String
    → String
    → String
    → String
    → String
    → Store
    → Store × Result (String × Run)
submit is_uuid new_id owner conv key raw grant s =
    let input = trim_space raw in
    if is_empty input || ltb 16000 (byte_len input)
    then (s, err (fault 422 "请输入问题，最多 16000 字节"))
    else if not (is_uuid key)
    then (s, err (fault 422 "请求键必须为 UUID"))
    else submit_found new_id owner conv key input grant (find_key owner key s.runs) s
