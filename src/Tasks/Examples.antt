-- ===== src/Tasks/Examples.antt =====
-- Tests of the tasks of the MCP server on small inputs, and the theorems applied to them.
use vaultrun.Base.{
  length, Text, codes, first_bytes, text_eq, ◌≤◌, ◌≡◌, refl, ◌⊎◌, true, false, Option, none, some,
  List, [], ◌∷◌, ◌++◌, arith, ◌==◌,
}
use vaultrun.Tasks.Ages.{is_live, cleans-is_live}
use vaultrun.Tasks.Called.{HasApproval, calling-approves}
use vaultrun.Tasks.Events.{
  step, steps, TaskEvent, starts, cancels_task, updates, cleans, takes_turn,
}
use vaultrun.Tasks.Failures.{failed_requests}
use vaultrun.Tasks.Input.{
  confirm_key, approval_elicitation, bad_request, check_requests, ask_all, request_record,
  request_input, bad_response, check_responses, answer_all, apply_record, apply_input_responses,
}
use vaultrun.Tasks.Owners.{succeeds, requests_of_others}
use vaultrun.Tasks.Runs.{steps-inflight, final_kept}
use vaultrun.Tasks.Store.{
  get, TaskStore, new_task_store, find, replace, insert, inflight, put_task, update, call_cancel,
  get_task_result, cancel_task_result,
}
use vaultrun.Tasks.Types.{
  TaskInputResponse, TaskRecord, flag_bool, unknown_task, too_many_responses, Outside,
  valid_task_id, fails, may_access,
}
use vaultrun.Tasks.Updates.{
  TasksUpdateParams, responses_of, clamp_task_message, note_record, update_task_result,
}
use vaultrun.Tasks.Work.{
  response_approved, wants_confirm, new_record, start_tool_task, leave, tool_error, turn,
}

-- Stand-ins for the other packages: an ID is one letter, and a JSON text its value.
abbrev outside : Outside
outside = record {
  parses_uuid = λ s. length s == 1;
  confirm_member = λ s. some (flag_bool (text_eq s (codes "confirm")));
  approved_member = λ s. some (some (text_eq s (codes "yes")));
  without_flags = λ s. [];
  truncated_note = λ n s. s;
  rune_count = λ s. length s;
  first_runes = λ n s. first_bytes n s;
  elicitation = λ s. s;
  error_text = λ e. codes "error";
}

abbrev task_a : Text
task_a = codes "task_a"

abbrev alice : Text
alice = codes "alice"

abbrev bob : Text
bob = codes "bob"

abbrev store : TaskStore
store = new_task_store 10 100 2

-- Alice starts a tool that is to be confirmed.
abbrev begun : List TaskEvent
begun = starts 1 alice task_a (codes "run") (codes "confirm") ∷ []

-- It asks, and she cancels it.
abbrev cancelled_at_5 : List TaskEvent
cancelled_at_5 = begun ++ takes_turn 2 task_a (tool_error []) ∷ cancels_task 5 alice task_a ∷ []

abbrev answer : (action : Text) → List (Text × TaskInputResponse)
answer action = (confirm_key, record { action = action; content = []; error = [] }) ∷ []

abbrev update_with : List (Text × TaskInputResponse) → TasksUpdateParams
update_with responses = record {
  task_id = task_a;
  message = codes "on it";
  progress = 0;
  input_responses = responses;
  input = [];
}

abbrev accept_it : TasksUpdateParams
accept_it = update_with (answer (codes "accept"))

-- what stands under an ID
abbrev task_at : Option TaskRecord → TaskRecord
task_at none = new_record 0 [] [] []
task_at (some t) = t

-- It asks, waits, is approved, waits again and finds the answer.
abbrev confirmed : List TaskEvent
confirmed =
    takes_turn 2 task_a (tool_error [])
    ∷ takes_turn 3 task_a (tool_error [])
    ∷ updates 4 alice accept_it
    ∷ takes_turn 5 task_a (tool_error [])
    ∷ []

steps-inflight_example : inflight (steps outside cancelled_at_5 store).tasks ≤ 2
steps-inflight_example = steps-inflight outside 10 100 2 cancelled_at_5

final_kept_example :
    (find task_a (steps outside confirmed (steps outside cancelled_at_5 store)).tasks
      ≡ some (task_at (find task_a (steps outside cancelled_at_5 store).tasks)))
    ⊎ (find task_a (steps outside confirmed (steps outside cancelled_at_5 store)).tasks ≡ none)
unfolding steps step start_tool_task put_task valid_task_id find insert inflight replace update get
    cancel_task_result call_cancel turn request_input check_requests bad_request request_record
    ask_all approval_elicitation wants_confirm may_access text_eq leave
final_kept_example =
    final_kept outside 10 100 2 cancelled_at_5 confirmed task_a
      (task_at (find task_a (steps outside cancelled_at_5 store).tasks)) refl refl refl

cleans-is_live_example :
    is_live (
      find task_a
        (steps outside confirmed (
          step outside (cleans 200) (
            steps outside
              (takes_turn 2 task_a (tool_error []) ∷ [])
              (steps outside begun store)))).tasks)
    ≡ false
unfolding steps step start_tool_task put_task valid_task_id find insert inflight wants_confirm
    text_eq
cleans-is_live_example =
    cleans-is_live outside 10 100 2 begun (takes_turn 2 task_a (tool_error []) ∷ []) confirmed
      task_a (task_at (find task_a (steps outside begun store).tasks)) 200 refl refl refl
      (omega arith)

requests_of_others_example :
    (get_task_result outside bob task_a (steps outside begun store)
      ≡ get_task_result outside bob task_a store)
    × ((cancel_task_result outside 7 bob task_a (steps outside begun store)).0
        ≡ (cancel_task_result outside 7 bob task_a store).0)
    × ((cancel_task_result outside 7 bob task_a (steps outside begun store)).1
        ≡ steps outside begun store)
    × ((update_task_result outside 7 bob accept_it (steps outside begun store)).1
        ≡ steps outside begun store)
    × (succeeds (update_task_result outside 7 bob accept_it (steps outside begun store)).0 ≡ false)
unfolding steps step start_tool_task put_task valid_task_id find insert inflight wants_confirm
    text_eq may_access
requests_of_others_example =
    requests_of_others outside 7 bob accept_it (steps outside begun store) store
      (task_at (find task_a (steps outside begun store).tasks)) refl refl refl

failed_requests_example :
    ((succeeds (start_tool_task outside 7 bob (codes "task_bb") (codes "run") [] store).0 ≡ true)
      ⊎ ((start_tool_task outside 7 bob (codes "task_bb") (codes "run") [] store).1 ≡ store))
    × ((succeeds (cancel_task_result outside 7 bob (codes "task_bb") store).0 ≡ true)
        ⊎ ((cancel_task_result outside 7 bob (codes "task_bb") store).1 ≡ store))
    × ((succeeds (update_task_result outside 7 bob accept_it store).0 ≡ true)
        ⊎ ((update_task_result outside 7 bob accept_it store).1 ≡ store))
failed_requests_example =
    failed_requests outside 7 bob (codes "task_bb") (codes "run") [] accept_it store

calling-approves_example : HasApproval outside task_a alice confirmed
unfolding steps step start_tool_task put_task valid_task_id find insert inflight replace update get
    turn request_input check_requests bad_request request_record ask_all approval_elicitation
    wants_confirm may_access text_eq leave update_task_result apply_input_responses check_responses
    bad_response apply_record answer_all responses_of note_record clamp_task_message
    response_approved
calling-approves_example =
    calling-approves outside 10 100 2 [] confirmed 1 alice task_a (codes "run") (codes "confirm")
      refl refl refl refl

-- An answer that is an error, with neither an action nor a content, is taken for an approval.
error_approves :
    response_approved outside (record { action = []; content = []; error = codes "refused" }) ≡ true
unfolding response_approved text_eq
error_approves = refl

abbrev nine : List (Text × TaskInputResponse)
nine = let a = answer [] in a ++ a ++ a ++ a ++ a ++ a ++ a ++ a ++ a

-- With nine answers, an update tells another's task from none.
told_apart :
    (update_task_result outside 7 bob (update_with nine) (steps outside begun store)).0
    ≡ fails (unknown_task task_a)
unfolding steps step start_tool_task put_task valid_task_id find insert inflight wants_confirm
    text_eq may_access update_task_result get responses_of
told_apart = refl

told_apart_none :
    (update_task_result outside 7 bob (update_with nine) store).0 ≡ fails too_many_responses
unfolding valid_task_id find text_eq update_task_result get responses_of apply_input_responses
    check_responses
told_apart_none = refl
