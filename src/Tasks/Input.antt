-- ===== src/Tasks/Input.antt =====
-- The questions a task asks and their answers, and the request that brings them:
-- sdk/mcp/tasks_input.go, and updateTaskResult of sdk/mcp/tasks.go.
use vaultrun.Base.{
  length, null, Text, codes, is_empty, ℕ, ◌+◌, Bool, true, false, ◌||◌, not, Option, none, some,
  List, [], ◌∷◌, ltb, if◌then◌else◌,
}
use vaultrun.Tasks.Store.{TaskStore, update, unless}
use vaultrun.Tasks.Types.{
  working, input_required, TaskInputRequest, TaskInputResponse, TaskRecord, terminal,
  is_input_required, TaskError, unknown_task, already_finished, requests_required,
  too_many_requests, invalid_request_key, request_too_large, too_many_responses,
  invalid_response_key, response_too_large, Outside, valid_task_id, Answer, fails, gives, has_entry,
  without, contains_key,
}

abbrev pub max_input_request_keys : ℕ
max_input_request_keys = 8

-- 16 KiB
abbrev pub max_input_payload_bytes : ℕ
max_input_payload_bytes = 16384

abbrev pub max_task_message_runes : ℕ
max_task_message_runes = 4096

abbrev pub confirm_key : Text
confirm_key = codes "confirm"

-- `approvalElicitation`
unfoldable pub approval_elicitation : Outside → (message : Text) → List (Text × TaskInputRequest)
approval_elicitation o message =
    (confirm_key, record { method = codes "elicitation/create"; params = o.elicitation message })
    ∷ []

-- the first of the requests that is refused
unfoldable pub bad_request : List (Text × TaskInputRequest) → Option TaskError
bad_request [] = none
bad_request ((k, v) ∷ more) =
    let rest = bad_request more in
    if is_empty k || ltb 64 (length k)
    then some invalid_request_key
    else if ltb max_input_payload_bytes (length v.params)
    then some (request_too_large k)
    else rest

unfoldable pub check_requests : List (Text × TaskInputRequest) → Option TaskError
check_requests requests =
    if null requests
    then some requests_required
    else if ltb max_input_request_keys (length requests)
    then some too_many_requests
    else bad_request requests

-- one request, where its key was never used
abbrev pub ask : Text → TaskInputRequest → TaskRecord → TaskRecord
ask k req t =
    if contains_key k t.used_input_keys || has_entry k t.input_requests then t else record t {
      input_requests = (k, req) ∷ t.input_requests;
      used_input_keys = k ∷ t.used_input_keys;
    }

unfoldable pub ask_all : List (Text × TaskInputRequest) → TaskRecord → TaskRecord
ask_all [] t = t
ask_all ((k, req) ∷ more) t = ask_all more (ask k req t)

unfoldable pub request_record : List (Text × TaskInputRequest) → TaskRecord → Option TaskRecord
request_record requests t =
    if terminal t
    then none
    else some (record (ask_all requests t) {
      status = input_required;
      message = codes "waiting for input";
    })

abbrev pub requested :
    Text → TaskStore → Option (TaskRecord × TaskStore) → Answer {0} Unit × TaskStore
requested id w none = (fails (unknown_task id), w)
requested id w (some (t, w2)) = (gives tt, w2)

-- `requestInput`
unfoldable pub request_input :
    Outside
    → (now : ℕ) → Text
    → List (Text × TaskInputRequest)
    → TaskStore
    → Answer {0} Unit × TaskStore
request_input o now id requests w =
    if not (valid_task_id o id)
    then (fails (unknown_task id), w)
    else unless (check_requests requests) w
        (requested id w (update o now id (request_record requests) w))

unfoldable pub bad_response : List (Text × TaskInputResponse) → Option TaskError
bad_response [] = none
bad_response ((k, v) ∷ more) =
    let rest = bad_response more in
    if ltb 64 (length k)
    then some invalid_response_key
    else if ltb max_input_payload_bytes (length v.content + length v.error + length v.action)
    then some (response_too_large k)
    else rest

unfoldable pub check_responses : List (Text × TaskInputResponse) → Option TaskError
check_responses responses =
    if ltb max_input_request_keys (length responses)
    then some too_many_responses
    else bad_response responses

abbrev pub answered : Text → TaskInputResponse → TaskRecord → TaskRecord
answered k resp t = record t {
  input_responses = (k, resp) ∷ without k t.input_responses;
  input_requests = without k t.input_requests;
}

-- The loop over the responses; and whether one was to a request that is open.
unfoldable pub answer_all : List (Text × TaskInputResponse) → TaskRecord → TaskRecord × Bool
answer_all [] t = (t, false)
answer_all ((k, resp) ∷ more) t =
    let open_ = has_entry k t.input_requests in
    let rest = answer_all more (if open_ then answered k resp t else t) in (rest.0, open_ || rest.1)

-- what is left to ask decides how the task goes on
abbrev pub go_on : TaskRecord → TaskRecord
go_on t =
    if null t.input_requests
    then record t { status = working; message = codes "input received" }
    else record t { message = codes "waiting for remaining input" }

abbrev pub when_changed : TaskRecord × Bool → Option TaskRecord
when_changed (t, false) = none
when_changed (t, true) = some (go_on t)

unfoldable pub apply_record : List (Text × TaskInputResponse) → TaskRecord → Option TaskRecord
apply_record responses t =
    if terminal t
    then none
    else if not (is_input_required t.status) || null t.input_requests
    then none
    else when_changed (answer_all responses t)

-- `allSatisfied`
abbrev pub all_satisfied : Option TaskRecord → Bool
all_satisfied none = false
all_satisfied (some t) = null t.input_requests

abbrev pub applied :
    Text
    → List (Text × TaskInputResponse)
    → TaskStore
    → Option (TaskRecord × TaskStore)
    → Answer Bool × TaskStore
applied id responses w none = (fails (unknown_task id), w)
applied id responses w (some (t, w2)) =
    if terminal t
    then (fails (already_finished id), w2)
    else (gives (all_satisfied (apply_record responses t)), w2)

-- `applyInputResponses`
unfoldable pub apply_input_responses :
    Outside
    → (now : ℕ) → Text
    → List (Text × TaskInputResponse)
    → TaskStore
    → Answer Bool × TaskStore
apply_input_responses o now id responses w =
    if not (valid_task_id o id)
    then (fails (unknown_task id), w)
    else unless (check_responses responses) w
        (applied id responses w (update o now id (apply_record responses) w))
