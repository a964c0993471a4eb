-- ===== src/Tasks/Work.antt =====
-- How a tool runs as a task: startToolTask of sdk/mcp/tasks.go with its goroutine, and the waiting for
-- an approval, sdk/mcp/tasks_input.go.
use vaultrun.Base.{
  length, Text, codes, is_empty, first_bytes, text_eq, ℕ, Bool, true, false, ◌||◌, Option, none,
  some, List, [], ◌∷◌, ◌++◌, leb, if◌then◌else◌,
}
use vaultrun.Tasks.Input.{confirm_key, approval_elicitation, request_input}
use vaultrun.Tasks.Store.{
  get, Phase, idle, asking, waiting, calling, TaskStore, set, put_task, update, ended,
}
use vaultrun.Tasks.Types.{
  entry, TaskStatus, working, input_required, completed, failed, cancelled, TaskInputRequest,
  TaskInputResponse, TaskRecord, one, terminal, ConfirmFlag, flag_bool, flag_text, flag_other,
  unknown_task, Outside, Answer, fails, gives,
}

-- `responseApproved`
abbrev pub is_refusal : Text → Bool
is_refusal action = text_eq action (codes "decline") || text_eq action (codes "cancel")

abbrev pub is_accept : Text → Bool
is_accept action = text_eq action (codes "accept")

abbrev pub approved_content : Text → Option (Option Bool) → Bool
approved_content action none = false
approved_content action (some none) = is_accept action
approved_content action (some (some b)) = b

unfoldable pub response_approved : Outside → TaskInputResponse → Bool
response_approved o resp =
    if is_refusal resp.action
    then false
    else if is_empty resp.content
    then is_accept resp.action || is_empty resp.action
    else approved_content resp.action (o.approved_member resp.content)

abbrev pub flag_set : Option ConfirmFlag → Bool
flag_set none = false
flag_set (some (flag_bool b)) = b
flag_set (some (flag_text s)) = text_eq s (codes "true") || text_eq s (codes "1")
flag_set (some flag_other) = false

-- `wantsConfirm`
unfoldable pub wants_confirm : Outside → (args : Text) → Bool
wants_confirm o args = if is_empty args then false else flag_set (o.confirm_member args)

-- `stripTaskControlFlags`
abbrev pub strip_task_control_flags : Outside → (args : Text) → Text
strip_task_control_flags o args = if is_empty args then args else o.without_flags args

-- 1 MiB
abbrev pub max_task_result_bytes : ℕ
max_task_result_bytes = 1048576

-- `truncateTaskResult`
unfoldable pub truncate_task_result : Outside → Text → Text
truncate_task_result o b =
    if leb (length b) max_task_result_bytes
    then b
    else o.truncated_note (length b) (first_bytes max_task_result_bytes b)

abbrev pub new_record : (now : ℕ) → (actor id name : Text) → TaskRecord
new_record now actor id name = record {
  id = id;
  status = working;
  tool = name;
  owner = actor;
  created_at = now;
  updated_at = now;
  finished_at = none;
  result = [];
  error = [];
  progress = 0;
  message = codes "started";
  poll_interval = 2000;
  input_requests = [];
  input_responses = [];
  used_input_keys = [];
}

abbrev pub first_phase : (tool : Text) → Bool → Phase
first_phase tool true = asking tool
first_phase tool false = calling

abbrev pub launched :
    Outside → (id name args : Text) → TaskStore → Answer TaskStore → Answer Text × TaskStore
launched o id name args w (fails e) = (fails e, w)
launched o id name args w (gives w2) = (
  gives id,
  record w2 {
    stopped = set id false w2.stopped;
    workers = set id (first_phase name (wants_confirm o args)) w2.workers;
  },
)

-- `startToolTask` up to its goroutine, with the ID that uuid.NewString gives
unfoldable pub start_tool_task :
    Outside → (now : ℕ) → (actor id name args : Text) → TaskStore → Answer Text × TaskStore
start_tool_task o now actor id name args w =
    launched o id name args w (put_task o (new_record now actor id name) w)

-- One round of `waitForInput`: the responses, an error, or the wait for the next round.
pub data Round : Type 0 where
  received : List (Text × TaskInputResponse) → Round
  broken : Text → Round
  waits : Round

abbrev pub round_at : List (Text × TaskInputResponse) → TaskStatus → Round
round_at responses completed = broken (codes "task completed")
round_at responses failed = broken (codes "task failed")
round_at responses cancelled = broken (codes "context canceled")
round_at responses working = received responses
round_at responses input_required = waits

abbrev pub round_of : Outside → (id : Text) → Option TaskRecord → Round
round_of o id none = broken (o.error_text (unknown_task id))
round_of o id (some t) = round_at t.input_responses t.status

-- what is done where a goroutine stops early, unless the task is finished
abbrev pub unless_final : (TaskRecord → TaskRecord) → TaskRecord → Option TaskRecord
unless_final f t = if terminal t then none else some (f t)

abbrev pub after : TaskStore → Option (TaskRecord × TaskStore) → TaskStore
after w none = w
after w (some (t, w2)) = w2

-- the deferred calls at the end of the goroutine
unfoldable pub leave : Text → TaskStore → TaskStore
leave id w = record w {
  cancels = set id false w.cancels;
  stopped = set id true w.stopped;
  workers = set id idle w.workers;
}

-- an update of the task, and the end of the goroutine
abbrev pub leave_with :
    Outside → (now : ℕ) → Text → (TaskRecord → Option TaskRecord) → TaskStore → TaskStore
leave_with o now id f w = leave id (after w (update o now id f w))

abbrev pub question : Outside → (tool : Text) → List (Text × TaskInputRequest)
question o tool =
    approval_elicitation o (codes "Approve running tool " ++ 34 ∷ (tool ++ 34 ∷ codes "?"))

abbrev pub asked : Outside → (now : ℕ) → Text → Answer {0} Unit × TaskStore → TaskStore
asked o now id (fails e, w) =
    leave_with o now id
      (unless_final (ended failed (o.error_text e) (codes "failed to request confirmation") now)) w
asked o now id (gives u, w) = record w { workers = set id waiting w.workers }

abbrev pub failed_wait : (stopped : Bool) → (error : Text) → (now : ℕ) → TaskRecord → TaskRecord
failed_wait true error now = ended cancelled (codes "cancelled") (codes "cancelled") now
failed_wait false error now = ended failed error (codes "failed while waiting for input") now

-- `responses[taskConfirmRequestKey]`, which is the zero value where there is none
abbrev pub or_zero : Option TaskInputResponse → TaskInputResponse
or_zero none = record { action = []; content = []; error = [] }
or_zero (some resp) = resp

abbrev pub confirmation : Outside → (now : ℕ) → Text → TaskStore → Bool → TaskStore
confirmation o now id w true = record w { workers = set id calling w.workers }
confirmation o now id w false =
    leave_with o now id
      (unless_final (ended failed (codes "confirmation declined") (codes "declined") now)) w

abbrev pub fail_wait : Outside → (now : ℕ) → Text → (error : Text) → TaskStore → TaskStore
fail_wait o now id error w =
    leave_with o now id (unless_final (failed_wait (w.stopped id) error now)) w

-- after a round of the wait, which a context that is done ends
abbrev pub waited : Outside → (now : ℕ) → Text → TaskStore → Round → TaskStore
waited o now id w (received responses) =
    confirmation o now id w (response_approved o (or_zero (entry confirm_key responses)))
waited o now id w (broken error) = fail_wait o now id error w
waited o now id w waits =
    if w.stopped id then fail_wait o now id (codes "context canceled") w else w

-- What callTool gives: an error, or a result with its rendering and the text of its first content.
pub data Outcome : Type 0 where
  tool_error : Text → Outcome
  tool_result : (is_error : Bool) → (first_text : Option Text) → (json : Text) → Outcome

abbrev pub first_text_or : Option Text → Text
first_text_or none = codes "tool returned isError"
first_text_or (some s) = s

abbrev pub with_result : Outside → (now : ℕ) → Text → TaskRecord → TaskRecord
with_result o now json t = record t {
  result = truncate_task_result o json;
  progress = one;
  finished_at = some now;
}

abbrev pub outcome_record :
    Outside → (stopped : Bool) → (now : ℕ) → Outcome → TaskRecord → TaskRecord
outcome_record o true now outcome t = ended cancelled (codes "cancelled") (codes "cancelled") now t
outcome_record o false now (tool_error s) t = ended failed s (codes "failed") now t
outcome_record o false now (tool_result true first_text json) t =
    record (with_result o now json t) {
      status = failed;
      error = first_text_or first_text;
      message = codes "failed";
    }
outcome_record o false now (tool_result false first_text json) t =
    record (with_result o now json t) { status = completed; message = codes "completed" }

abbrev pub turn_in : Outside → (now : ℕ) → Text → Outcome → TaskStore → Phase → TaskStore
turn_in o now id outcome w idle = w
turn_in o now id outcome w (asking tool) =
    asked o now id (request_input o now id (question o tool) w)
turn_in o now id outcome w waiting = waited o now id w (round_of o id (get o id w))
turn_in o now id outcome w calling =
    leave_with o now id (unless_final (outcome_record o (w.stopped id) now outcome)) w

-- The next thing the goroutine of a task does; `outcome` is what callTool gives if it is that.
unfoldable pub turn : Outside → (now : ℕ) → Text → Outcome → TaskStore → TaskStore
turn o now id outcome w = turn_in o now id outcome w (w.workers id)
