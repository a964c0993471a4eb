-- ===== src/Tasks/Requests.antt =====
-- That every request changes the store in the ways of Tasks/Changes (sdk/mcp/tasks.go,
-- sdk/mcp/tasks_input.go).
use vaultrun.Base.{
  null, Text, is_empty, ℕ, refl, inl, inr, Bool, true, false, ◌&&◌, ◌||◌, not, Option, none, some,
  List, if◌then◌else◌,
}
use vaultrun.Tasks.Careful.{request_record-IsCareful, apply_record-IsCareful, note_record-IsCareful}
use vaultrun.Tasks.Events.{TaskEvent}
use vaultrun.Tasks.Input.{
  check_requests, request_record, request_input, check_responses, apply_record,
  apply_input_responses,
}
use vaultrun.Tasks.Operations.{
  Goes, refl-Goes, trans-Goes, mutated-Goes, update_cases, cancel_record-IsCareful,
}
use vaultrun.Tasks.Store.{
  get, denied, TaskStore, mutated, call_cancel, unless, cancel_record, cancel_task_result,
}
use vaultrun.Tasks.Types.{
  TaskInputRequest, TaskInputResponse, TaskRecord, terminal, TaskError, Outside, valid_task_id,
  Answer, fails, gives,
}
use vaultrun.Tasks.Updates.{
  TasksUpdateParams, responses_of, note_record, update_result, then_note, check_sizes,
  answers_first, update_task_result,
}

-- branches of a request
if-Goes {ℓ} :
    {A : Type ℓ} (e : TaskEvent) (w : TaskStore) (b : Bool) (x y : Answer A × TaskStore)
    → Goes e w x.1
    → Goes e w y.1
    → Goes e w (if b then x else y).1
if-Goes e w true x y g h = g
if-Goes e w false x y g h = h

unless-Goes {ℓ} :
    {A : Type ℓ} (e : TaskEvent) (w : TaskStore) (r : Option TaskError) (x : Answer A × TaskStore)
    → Goes e w x.1
    → Goes e w (unless r w x).1
unless-Goes e w none x g = g
unless-Goes e w (some r) x g = refl-Goes e w w refl refl refl

module _ (o : Outside) (now : ℕ) (e : TaskEvent) where
  pub cancel_task_result-Goes :
      (actor id : Text) (w : TaskStore) → Goes e w (cancel_task_result o now actor id w).1
  unfolding cancel_task_result call_cancel
  cancel_task_result-Goes actor id w =
      let stop = refl-Goes e w w refl refl refl in
      if-Goes e w (is_empty id || not (valid_task_id o id)) _ _ stop (
        unless-Goes e w (denied actor (get o id w)) _
          (elim (update_cases o now id (cancel_record now) w) [
            | inl missing ↦ rw missing stop
            | inr (t, at, done) ↦
                let g =
                  mutated-Goes e now id (cancel_record now) w t (cancel_record-IsCareful now) at in
                rw done (
                  if-Goes e w (terminal t) _ _ g (
                    trans-Goes e w (mutated now id (cancel_record now t) w) _ g
                      (refl-Goes e (mutated now id (cancel_record now t) w) _ refl refl refl)))
          ]))

  pub request_input-Goes :
      (id : Text) (requests : List (Text × TaskInputRequest)) (w : TaskStore)
      → Goes e w (request_input o now id requests w).1
  unfolding request_input
  request_input-Goes id requests w =
      let stop = refl-Goes e w w refl refl refl in
      if-Goes e w (not (valid_task_id o id)) _ _ stop (
        unless-Goes e w (check_requests requests) _
          (elim (update_cases o now id (request_record requests) w) [
            | inl missing ↦ rw missing stop
            | inr (t, at, done) ↦ rw done (
                mutated-Goes e now id (request_record requests) w t
                  (request_record-IsCareful requests) at)
          ]))

  apply_input_responses-Goes :
      (id : Text) (responses : List (Text × TaskInputResponse)) (w : TaskStore)
      → Goes e w (apply_input_responses o now id responses w).1
  unfolding apply_input_responses
  apply_input_responses-Goes id responses w =
      let stop = refl-Goes e w w refl refl refl in
      if-Goes e w (not (valid_task_id o id)) _ _ stop (
        unless-Goes e w (check_responses responses) _
          (elim (update_cases o now id (apply_record responses) w) [
            | inl missing ↦ rw missing stop
            | inr (t, at, done) ↦
                let g =
                  mutated-Goes e now id (apply_record responses) w t
                    (apply_record-IsCareful responses) at in
                rw done (if-Goes e w (terminal t) _ _ g g)
          ]))

  update_result-Goes :
      (id : Text) (w w2 : TaskStore) (r : Option TaskRecord)
      → Goes e w w2
      → Goes e w (update_result id w2 r).1
  update_result-Goes id w w2 none g = g
  update_result-Goes id w w2 (some t) g = g

  then_note-Goes :
      (p : TasksUpdateParams) (w : TaskStore) (r : Answer Bool × TaskStore)
      → Goes e w r.1
      → Goes e w (then_note o now p r).1
  then_note-Goes p w (fails err, w2) g = g
  then_note-Goes p w (gives b, w2) g = elim (update_cases o now p.task_id (note_record o p) w2) [
    | inl missing ↦ rw missing g
    | inr (t, at, done) ↦
        let w3 : TaskStore = mutated now p.task_id (note_record o p t) w2 in
        let h =
          trans-Goes e w w2 w3 g
            (mutated-Goes e now p.task_id (note_record o p) w2 t (note_record-IsCareful o p) at) in
        rw done (
          if-Goes e w (terminal t && null (responses_of p)) _ _ h
            (update_result-Goes p.task_id w w3 (get o p.task_id w3) h))
  ]

  pub update_task_result-Goes :
      (actor : Text) (p : TasksUpdateParams) (w : TaskStore)
      → Goes e w (update_task_result o now actor p w).1
  unfolding update_task_result
  update_task_result-Goes actor p w =
      let stop = refl-Goes e w w refl refl refl in
      if-Goes e w (is_empty p.task_id || not (valid_task_id o p.task_id)) _ _ stop (
        unless-Goes e w (check_sizes o p) _ (
          unless-Goes e w (denied actor (get o p.task_id w)) _ (
            then_note-Goes p w (answers_first o now p w) (
              if-Goes e w (null (responses_of p)) (gives false, w) _ stop
                (apply_input_responses-Goes p.task_id (responses_of p) w)))))
