-- ===== src/Tasks/Store.antt =====
-- The store of tasks in memory, and the requests that read and cancel them: sdk/mcp/tasks.go.
use vaultrun.Base.{
  keep_if, Text, codes, is_empty, text_eq, ℕ, ◌+◌, ◌-◌, Bool, true, false, ◌&&◌, ◌||◌, not, Option,
  none, some, List, [], ◌∷◌, map, ltb, leb, if◌then◌else◌,
}
use vaultrun.Tasks.Types.{
  TaskStatus, failed, cancelled, TaskInputRequest, TaskRecord, one, terminal, TaskError,
  unknown_task, invalid_task_id, inflight_full, Outside, valid_task_id, Answer, fails, gives,
  may_access,
}

-- What a goroutine of startToolTask is about to do.
pub data Phase : Type 0 where
  idle : Phase
  asking : (tool : Text) → Phase
  waiting : Phase
  calling : Phase

-- `taskStore` with the goroutines that work on its tasks. `tasks` has the entries of the map, each
-- under its record's ID; `cancels` says for which IDs there is a cancel function, and `stopped` for
-- which it was called, that is, the context of the goroutine is done. Waiters are left out: a
-- goroutine that waits looks again every 250 ms, signalled or not.
pub record TaskStore : Type 0 where
  pub tasks : List TaskRecord
  pub cancels : Text → Bool
  pub stopped : Text → Bool
  pub workers : Text → Phase
  pub ttl : ℕ
  pub max_age : ℕ
  pub max_inflight : ℕ

-- `newTaskStore`, with what taskStoreConfigFromEnv gives
abbrev pub new_task_store : (ttl max_age max_inflight : ℕ) → TaskStore
new_task_store ttl max_age max_inflight = record {
  tasks = [];
  cancels = λ k. false;
  stopped = λ k. false;
  workers = λ k. idle;
  ttl = ttl;
  max_age = max_age;
  max_inflight = max_inflight;
}

unfoldable pub find : Text → List TaskRecord → Option TaskRecord
find id [] = none
find id (t ∷ ts) = if text_eq t.id id then some t else find id ts

unfoldable pub replace : Text → TaskRecord → List TaskRecord → List TaskRecord
replace id new [] = []
replace id new (t ∷ ts) =
    let rest = replace id new ts in if text_eq t.id id then new ∷ ts else t ∷ rest

-- the assignment to `ts.tasks[t.ID]`
unfoldable pub insert : TaskRecord → List TaskRecord → List TaskRecord
insert t [] = t ∷ []
insert t (u ∷ us) = let rest = insert t us in if text_eq u.id t.id then t ∷ us else u ∷ rest

abbrev pub one_if : Bool → ℕ
one_if true = 1
one_if false = 0

-- `inflightLocked`
unfoldable pub inflight : List TaskRecord → ℕ
inflight [] = 0
inflight (t ∷ ts) = one_if (not (terminal t)) + inflight ts

abbrev pub set {ℓ} : {A : Type ℓ} → Text → A → (Text → A) → Text → A
set id a f k = if text_eq k id then a else f k

-- `get`, in a copy
unfoldable pub get : Outside → Text → TaskStore → Option TaskRecord
get o id w = if valid_task_id o id then find id w.tasks else none

-- `put`
unfoldable pub put_task : Outside → TaskRecord → TaskStore → Answer TaskStore
put_task o t w =
    if not (valid_task_id o t.id)
    then fails invalid_task_id
    else if leb w.max_inflight (inflight w.tasks)
    then fails inflight_full
    else gives (record w { tasks = insert t w.tasks; cancels = set t.id true w.cancels })

abbrev pub mutated : (now : ℕ) → Text → Option TaskRecord → TaskStore → TaskStore
mutated now id none w = w
mutated now id (some t) w = record w { tasks = replace id (record t { updated_at = now }) w.tasks }

abbrev pub update_found :
    ℕ
    → Text
    → (TaskRecord → Option TaskRecord)
    → TaskStore
    → Option TaskRecord
    → Option (TaskRecord × TaskStore)
update_found now id f w none = none
update_found now id f w (some t) = some (t, mutated now id (f t) w)

-- `update`. The function gives none where it returns false, and then it has not changed the record.
-- The record that it was called with is a result, too: what the function assigns to variables of its
-- caller is computed of it.
unfoldable pub update :
    Outside
    → (now : ℕ) → Text
    → (TaskRecord → Option TaskRecord)
    → TaskStore
    → Option (TaskRecord × TaskStore)
update o now id f w = update_found now id f w (get o id w)

-- `takeCancel`, and the call of the function it gives
unfoldable pub call_cancel : Text → TaskStore → TaskStore
call_cancel id w = record w {
  cancels = set id false w.cancels;
  stopped = set id (w.stopped id || w.cancels id) w.stopped;
}

-- the end of a task, whatever it is
abbrev pub ended : TaskStatus → (error message : Text) → (now : ℕ) → TaskRecord → TaskRecord
ended status error message now t = record t {
  status = status;
  error = error;
  message = message;
  progress = one;
  finished_at = some now;
}

abbrev pub is_over_age : (now max_age : ℕ) → TaskRecord → Bool
is_over_age now max_age t = not (terminal t) && ltb t.created_at (now - max_age)

-- the first half of the loop in `expire`
unfoldable pub age : (now max_age : ℕ) → TaskRecord → TaskRecord
age now max_age t =
    if is_over_age now max_age t
    then record (ended failed (codes "task exceeded max age") (codes "timed out") now t) {
      updated_at = now;
    }
    else t

abbrev pub or_else : ℕ → Option ℕ → ℕ
or_else d none = d
or_else d (some n) = n

-- its second half: whether the task stays
unfoldable pub stays : (now ttl : ℕ) → TaskRecord → Bool
stays now ttl t = not (terminal t && ltb (or_else t.updated_at t.finished_at) (now - ttl))

abbrev pub holds {ℓ} : {A : Type ℓ} → (A → Bool) → Option A → Bool
holds p none = false
holds p (some a) = p a

-- `expire`
unfoldable pub expire : (now : ℕ) → TaskStore → TaskStore
expire now w =
    let aged = map (age now w.max_age) w.tasks in
    let over : Text → Bool = λ k. holds (is_over_age now w.max_age) (find k w.tasks) in
    let gone : Text → Bool = λ k. holds (λ t. not (stays now w.ttl t)) (find k aged) in
    record w {
      tasks = keep_if (stays now w.ttl) aged;
      cancels = λ k. w.cancels k && not (over k) && not (gone k);
      stopped = λ k. w.stopped k || (over k && w.cancels k);
    }

-- `tasksGetResult`
pub record TasksGetResult : Type 0 where
  pub task_id : Text
  pub status : TaskStatus
  pub tool : Text
  pub created_at : ℕ
  pub updated_at : ℕ
  pub progress : ℕ
  pub message : Text
  pub poll_interval : ℕ
  pub result : Text
  pub error : Text
  pub input_requests : List (Text × TaskInputRequest)

abbrev pub get_result_of : TaskRecord → TasksGetResult
get_result_of t = record {
  task_id = t.id;
  status = t.status;
  tool = t.tool;
  created_at = t.created_at;
  updated_at = t.updated_at;
  progress = t.progress;
  message = t.message;
  poll_interval = t.poll_interval;
  result = t.result;
  error = t.error;
  input_requests = t.input_requests;
}

abbrev pub get_found : Text → (actor : Text) → Option TaskRecord → Answer TasksGetResult
get_found id actor none = fails (unknown_task id)
get_found id actor (some t) =
    if may_access t.owner actor then gives (get_result_of t) else fails (unknown_task t.id)

-- `getTaskResult`
unfoldable pub get_task_result : Outside → (actor id : Text) → TaskStore → Answer TasksGetResult
get_task_result o actor id w =
    if is_empty id || not (valid_task_id o id)
    then fails (unknown_task id)
    else get_found id actor (get o id w)

-- how authorizeTaskAccess stops the caller; a task that is not there stops nobody
abbrev pub denied : (actor : Text) → Option TaskRecord → Option TaskError
denied actor none = none
denied actor (some t) = if may_access t.owner actor then none else some (unknown_task t.id)

-- an early return with an error, which leaves the store as it is
abbrev pub unless {ℓ} :
    {A : Type ℓ} → Option TaskError → TaskStore → Answer A × TaskStore → Answer A × TaskStore
unless none w go = go
unless (some e) w go = (fails e, w)

-- `tasksCancelResult`
pub record TasksCancelResult : Type 0 where
  pub task_id : Text
  pub status : TaskStatus
  pub message : Text

abbrev pub cancel_record : (now : ℕ) → TaskRecord → Option TaskRecord
cancel_record now t =
    if terminal t
    then none
    else some (ended cancelled (codes "cancelled") (codes "cancellation requested") now t)

abbrev pub cancel_updated :
    Text → TaskStore → Option (TaskRecord × TaskStore) → Answer TasksCancelResult × TaskStore
cancel_updated id w none = (fails (unknown_task id), w)
cancel_updated id w (some (t, w2)) =
    if terminal t
    then (
      gives (record { task_id = id; status = t.status; message = codes "task already finished" }),
      w2,
    )
    else (
      gives (record { task_id = id; status = cancelled; message = codes "cancellation requested" }),
      call_cancel id w2,
    )

-- `cancelTaskResult`
unfoldable pub cancel_task_result :
    Outside → (now : ℕ) → (actor id : Text) → TaskStore → Answer TasksCancelResult × TaskStore
cancel_task_result o now actor id w =
    if is_empty id || not (valid_task_id o id)
    then (fails (unknown_task id), w)
    else unless (denied actor (get o id w)) w
        (cancel_updated id w (update o now id (cancel_record now) w))
