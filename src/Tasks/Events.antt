-- ===== src/Tasks/Events.antt =====
-- What happens to the store of tasks over time: the requests, the rounds of cleanupLoop and the turns
-- of the goroutines, in the order in which they take the store's lock (sdk/mcp/tasks.go).
use vaultrun.Base.{Text, text_eq, ℕ, Bool, false, List, [], ◌∷◌}
use vaultrun.Tasks.Store.{TaskStore, expire, cancel_task_result}
use vaultrun.Tasks.Types.{Outside}
use vaultrun.Tasks.Updates.{TasksUpdateParams, update_task_result}
use vaultrun.Tasks.Work.{Outcome, start_tool_task, turn}

pub data TaskEvent : Type 0 where
  starts : (now : ℕ) → (actor id name args : Text) → TaskEvent
  cancels_task : (now : ℕ) → (actor id : Text) → TaskEvent
  updates : (now : ℕ) → (actor : Text) → TasksUpdateParams → TaskEvent
  cleans : (now : ℕ) → TaskEvent
  takes_turn : (now : ℕ) → (id : Text) → Outcome → TaskEvent

unfoldable pub step : Outside → TaskEvent → TaskStore → TaskStore
step o (starts now actor id name args) w = (start_tool_task o now actor id name args w).1
step o (cancels_task now actor id) w = (cancel_task_result o now actor id w).1
step o (updates now actor p) w = (update_task_result o now actor p w).1
step o (cleans now) w = expire now w
step o (takes_turn now id outcome) w = turn o now id outcome w

unfoldable pub steps : Outside → List TaskEvent → TaskStore → TaskStore
steps o [] w = w
steps o (e ∷ es) w = steps o es (step o e w)

-- whether an event starts a task under the ID; uuid.NewString gives a new one each time
abbrev pub restarts : Text → TaskEvent → Bool
restarts i (starts now actor id name args) = text_eq id i
restarts i _ = false
