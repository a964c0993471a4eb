-- ===== src/Tasks/Updates.antt =====
-- The request that brings answers, a message and progress: updateTaskResult of sdk/mcp/tasks.go.
use vaultrun.Base.{
  length, null, Text, codes, is_empty, ℕ, Bool, false, ◌&&◌, ◌||◌, not, Option, none, some, List,
  [], ◌∷◌, ltb, leb, ◌==◌, if◌then◌else◌,
}
use vaultrun.Tasks.Input.{
  max_input_payload_bytes, max_task_message_runes, confirm_key, apply_input_responses,
}
use vaultrun.Tasks.Store.{get, denied, TaskStore, update, unless}
use vaultrun.Tasks.Types.{
  TaskStatus, TaskInputResponse, TaskRecord, one, terminal, TaskError, unknown_task,
  message_too_long, input_too_long, already_finished, Outside, valid_task_id, Answer, fails, gives,
  has_entry,
}

-- `tasksUpdateParams`
pub record TasksUpdateParams : Type 0 where
  pub task_id : Text
  pub message : Text
  pub progress : ℕ
  pub input_responses : List (Text × TaskInputResponse)
  pub input : Text

-- the responses, with the legacy input as the answer to the confirmation
unfoldable pub responses_of : TasksUpdateParams → List (Text × TaskInputResponse)
responses_of p =
    if is_empty p.input || has_entry confirm_key p.input_responses
    then p.input_responses
    else (confirm_key, record { action = codes "accept"; content = p.input; error = [] })
      ∷ p.input_responses

-- `clampTaskMessage`
unfoldable pub clamp_task_message : Outside → Text → Text
clamp_task_message o msg =
    if leb (o.rune_count msg) max_task_message_runes
    then msg
    else o.first_runes max_task_message_runes msg

abbrev pub with_message : Outside → Text → TaskRecord → TaskRecord
with_message o msg t = if is_empty msg then t else record t { message = clamp_task_message o msg }

abbrev pub at_most_one : ℕ → ℕ
at_most_one p = if ltb one p then one else p

abbrev pub moves : (progress : ℕ) → TaskRecord → Bool
moves p t = ltb 0 p && not (t.progress == at_most_one p)

abbrev pub with_progress : (progress : ℕ) → TaskRecord → TaskRecord
with_progress p t = if moves p t then record t { progress = at_most_one p } else t

unfoldable pub note_record : Outside → TasksUpdateParams → TaskRecord → Option TaskRecord
note_record o p t =
    if terminal t
    then none
    else if not (is_empty p.message) || moves p.progress t
    then some (with_progress p.progress (with_message o p.message t))
    else none

-- `tasksUpdateResult`
pub record TasksUpdateResult : Type 0 where
  pub task_id : Text
  pub status : TaskStatus
  pub message : Text
  pub progress : ℕ

abbrev pub update_result :
    Text → TaskStore → Option TaskRecord → Answer TasksUpdateResult × TaskStore
update_result id w none = (fails (unknown_task id), w)
update_result id w (some t) = (
  gives (record { task_id = id; status = t.status; message = t.message; progress = t.progress }),
  w,
)

abbrev pub noted :
    Outside
    → TasksUpdateParams
    → TaskStore
    → Option (TaskRecord × TaskStore)
    → Answer TasksUpdateResult × TaskStore
noted o p w none = (fails (unknown_task p.task_id), w)
noted o p w (some (t, w2)) =
    if terminal t && null (responses_of p)
    then (fails (already_finished p.task_id), w2)
    else update_result p.task_id w2 (get o p.task_id w2)

abbrev pub then_note :
    Outside
    → (now : ℕ) → TasksUpdateParams
    → Answer Bool × TaskStore
    → Answer TasksUpdateResult × TaskStore
then_note o now p (fails e, w) = (fails e, w)
then_note o now p (gives b, w) = noted o p w (update o now p.task_id (note_record o p) w)

abbrev pub check_sizes : Outside → TasksUpdateParams → Option TaskError
check_sizes o p =
    if ltb max_task_message_runes (o.rune_count p.message)
    then some message_too_long
    else if ltb max_input_payload_bytes (length p.input)
    then some input_too_long
    else none

-- the answers first, where there are any
abbrev pub answers_first :
    Outside → (now : ℕ) → TasksUpdateParams → TaskStore → Answer Bool × TaskStore
answers_first o now p w =
    if null (responses_of p)
    then (gives false, w)
    else apply_input_responses o now p.task_id (responses_of p) w

-- `updateTaskResult`. It is one step here: the source takes the store's lock several times, and what
-- other goroutines do in between is not modelled.
unfoldable pub update_task_result :
    Outside
    → (now : ℕ) → (actor : Text) → TasksUpdateParams
    → TaskStore
    → Answer TasksUpdateResult × TaskStore
update_task_result o now actor p w =
    if is_empty p.task_id || not (valid_task_id o p.task_id)
    then (fails (unknown_task p.task_id), w)
    else unless (check_sizes o p) w
        (unless (denied actor (get o p.task_id w)) w (then_note o now p (answers_first o now p w)))
