-- ===== src/Tasks/Steps.antt =====
-- That every round of cleanupLoop, every turn of a goroutine and so every event changes the store in the
-- ways of Tasks/Changes (sdk/mcp/tasks.go, sdk/mcp/tasks_input.go).
use vaultrun.Base.{
  Text, codes, text_eq_refl, ℕ, ◌<◌, refl, sym, subst, inl, inr, Bool, true, false, Option, arith,
  leb, if◌then◌else◌, Bool-cases,
}
use vaultrun.Tasks.Changes.{Stays, swept, added}
use vaultrun.Tasks.Events.{step, TaskEvent, starts, cancels_task, updates, cleans, takes_turn}
use vaultrun.Tasks.Input.{confirm_key, request_input}
use vaultrun.Tasks.Operations.{
  Goes, IsCareful, refl-Goes, trans-Goes, mutated-Goes, update_cases, unless_final-IsCareful,
}
use vaultrun.Tasks.Requests.{cancel_task_result-Goes, request_input-Goes, update_task_result-Goes}
use vaultrun.Tasks.Store.{
  get, Phase, idle, asking, waiting, calling, TaskStore, inflight, put_task, mutated, ended, expire,
}
use vaultrun.Tasks.Types.{
  entry, TaskStatus, failed, TaskRecord, Outside, valid_task_id, Answer, fails, gives,
}
use vaultrun.Tasks.Work.{
  received, Outcome, response_approved, new_record, start_tool_task, Round, broken, waits, round_of,
  unless_final, leave, leave_with, question, asked, failed_wait, or_zero, confirmation, fail_wait,
  waited, tool_error, tool_result, outcome_record, turn_in, turn,
}

module _ (o : Outside) (now : ℕ) (e : TaskEvent) where
  leave_with-Goes :
      (id : Text) (f : TaskRecord → Option TaskRecord) (w : TaskStore)
      → IsCareful f
      → Goes e w (leave_with o now id f w)
  unfolding leave
  leave_with-Goes id f w careful = elim (update_cases o now id f w) [
    | inl missing ↦ rw missing (refl-Goes e w _ refl refl refl)
    | inr (t, at, done) ↦ rw done (
        trans-Goes e w (mutated now id (f t) w) _ (mutated-Goes e now id f w t careful at)
          (refl-Goes e (mutated now id (f t) w) _ refl refl refl))
  ]

  fail_wait-Goes : (id error : Text) (w : TaskStore) → Goes e w (fail_wait o now id error w)
  fail_wait-Goes id error w =
      leave_with-Goes id (unless_final (failed_wait (w.stopped id) error now)) w (
        unless_final-IsCareful (failed_wait (w.stopped id) error now)
          (failed_wait-Stays (w.stopped id) error))
    where
      failed_wait-Stays :
          (b : Bool) (err : Text) (t : TaskRecord) → Stays t (failed_wait b err now t)
      failed_wait-Stays true err t = record {
        same_id = refl;
        same_owner = refl;
        same_created = refl;
      }
      failed_wait-Stays false err t = record {
        same_id = refl;
        same_owner = refl;
        same_created = refl;
      }

  ended-Stays : (s : TaskStatus) (err msg : Text) (t : TaskRecord) → Stays t (ended s err msg now t)
  ended-Stays s err msg t = record { same_id = refl; same_owner = refl; same_created = refl }

  asked-Goes :
      (id : Text) (w : TaskStore) (r : Answer {0} Unit × TaskStore)
      → Goes e w r.1
      → Goes e w (asked o now id r)
  asked-Goes id w (fails err, w2) g = trans-Goes e w w2 _ g (
      leave_with-Goes id _ w2 (
        unless_final-IsCareful _
          (ended-Stays failed (o.error_text err) (codes "failed to request confirmation"))))
  asked-Goes id w (gives u, w2) g = trans-Goes e w w2 _ g (refl-Goes e w2 _ refl refl refl)

  confirmation-Goes : (id : Text) (w : TaskStore) (b : Bool) → Goes e w (confirmation o now id w b)
  confirmation-Goes id w true = refl-Goes e w _ refl refl refl
  confirmation-Goes id w false = leave_with-Goes id _ w (
      unless_final-IsCareful _
        (ended-Stays failed (codes "confirmation declined") (codes "declined")))

  waited-Goes : (id : Text) (w : TaskStore) (r : Round) → Goes e w (waited o now id w r)
  waited-Goes id w (received responses) =
      confirmation-Goes id w (response_approved o (or_zero (entry confirm_key responses)))
  waited-Goes id w (broken err) = fail_wait-Goes id err w
  waited-Goes id w waits = elim (Bool-cases (w.stopped id)) [
    | inl stop ↦
        subst (λ b. Goes e w (if b then fail_wait o now id (codes "context canceled") w else w))
          (sym stop) (fail_wait-Goes id (codes "context canceled") w)
    | inr on ↦ rw on (refl-Goes e w w refl refl refl)
  ]

  pub outcome_record-Stays :
      (b : Bool) (outcome : Outcome) (t : TaskRecord) → Stays t (outcome_record o b now outcome t)
  outcome_record-Stays true outcome t = record {
    same_id = refl;
    same_owner = refl;
    same_created = refl;
  }
  outcome_record-Stays false (tool_error s) t = record {
    same_id = refl;
    same_owner = refl;
    same_created = refl;
  }
  outcome_record-Stays false (tool_result true first json) t = record {
    same_id = refl;
    same_owner = refl;
    same_created = refl;
  }
  outcome_record-Stays false (tool_result false first json) t = record {
    same_id = refl;
    same_owner = refl;
    same_created = refl;
  }

  turn_in-Goes :
      (id : Text) (outcome : Outcome) (w : TaskStore) (phase : Phase)
      → Goes e w (turn_in o now id outcome w phase)
  turn_in-Goes id outcome w idle = refl-Goes e w w refl refl refl
  turn_in-Goes id outcome w (asking tool) =
      asked-Goes id w (request_input o now id (question o tool) w)
        (request_input-Goes o now e id (question o tool) w)
  turn_in-Goes id outcome w waiting = waited-Goes id w (round_of o id (get o id w))
  turn_in-Goes id outcome w calling =
      leave_with-Goes id _ w
        (unless_final-IsCareful _ (outcome_record-Stays (w.stopped id) outcome))

  pub turn-Goes :
      (id : Text) (outcome : Outcome) (w : TaskStore) → Goes e w (turn o now id outcome w)
  unfolding turn
  turn-Goes id outcome w = turn_in-Goes id outcome w (w.workers id)

  pub expire-Goes : (w : TaskStore) → Goes e w (expire now w)
  unfolding expire
  expire-Goes w = record { change = swept now w.ttl w.tasks; same_max = refl; same_age = refl }

pub start_tool_task-Goes :
    (o : Outside) (now : ℕ) (actor id name args : Text) (w : TaskStore)
    → Goes (starts now actor id name args) w (start_tool_task o now actor id name args w).1
unfolding start_tool_task put_task
start_tool_task-Goes o now actor id name args w =
    let e : TaskEvent = starts now actor id name args in
    let stop = refl-Goes e w w refl refl refl in
    elim (Bool-cases (valid_task_id o id)) [
      | inr bad ↦ rw bad stop
      | inl good ↦ elim (Bool-cases (leb w.max_inflight (inflight w.tasks))) [
        | inl full ↦ rw good (rw full stop)
        | inr room ↦
            let below : inflight w.tasks < w.max_inflight = ground (arith, room) in
            rw good (
              rw room (record {
                change = added (new_record now actor id name) w.tasks (text_eq_refl id) below;
                same_max = refl;
                same_age = refl;
              }))
      ]
    ]

pub step-Goes : (o : Outside) (e : TaskEvent) (w : TaskStore) → Goes e w (step o e w)
unfolding step
step-Goes o (starts now actor id name args) w = start_tool_task-Goes o now actor id name args w
step-Goes o (cancels_task now actor id) w = cancel_task_result-Goes o now _ actor id w
step-Goes o (updates now actor p) w = update_task_result-Goes o now _ actor p w
step-Goes o (cleans now) w = expire-Goes o now _ w
step-Goes o (takes_turn now id outcome) w = turn-Goes o now _ id outcome w
