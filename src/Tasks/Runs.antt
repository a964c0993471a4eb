-- ===== src/Tasks/Runs.antt =====
-- What holds of the tasks of the MCP server whatever happens (sdk/mcp/tasks.go).
use vaultrun.Base.{
  all, Text, ℕ, ◌≤◌, ◌≡◌, refl, sym, ap, subst, ◌⊎◌, inl, inr, Bool, true, false, not, Option, none,
  some, List, [], ◌∷◌, arith, and-eq_true,
}
use vaultrun.Tasks.Changes.{
  gone, Change-inflight, Change-Distinct, Fate, there, FateOf, refl-FateOf, trans-FateOf,
  Change-FateOf,
}
use vaultrun.Tasks.Events.{step, steps, TaskEvent, restarts}
use vaultrun.Tasks.Lists.{Distinct}
use vaultrun.Tasks.Steps.{step-Goes}
use vaultrun.Tasks.Store.{TaskStore, new_task_store, find, inflight}
use vaultrun.Tasks.Types.{TaskRecord, terminal, Outside}

-- the parts of what is kept by every event
pub step-Distinct :
    (o : Outside) (e : TaskEvent) (w : TaskStore) → Distinct w.tasks → Distinct (step o e w).tasks
step-Distinct o e w d =
    Change-Distinct w.max_inflight w.max_age e w.tasks (step o e w).tasks (step-Goes o e w).change d

pub steps-Distinct :
    (o : Outside) (es : List TaskEvent) (w : TaskStore)
    → Distinct w.tasks
    → Distinct (steps o es w).tasks
unfolding steps
steps-Distinct o [] w d = d
steps-Distinct o (e ∷ es) w d = steps-Distinct o es (step o e w) (step-Distinct o e w d)

new_within : (m : ℕ) → inflight [] ≤ m
unfolding inflight
new_within m = omega arith

pub new-Distinct : Distinct []
unfolding Distinct
new-Distinct = tt

inflight_within :
    (o : Outside) (es : List TaskEvent) (w : TaskStore)
    → inflight w.tasks ≤ w.max_inflight
    → inflight (steps o es w).tasks ≤ w.max_inflight
unfolding steps
inflight_within o [] w h = h
inflight_within o (e ∷ es) w h =
    let g = step-Goes o e w in
    let next : inflight (step o e w).tasks ≤ w.max_inflight =
      Change-inflight w.max_inflight w.max_age e w.tasks (step o e w).tasks g.change h in
    let next2 : inflight (step o e w).tasks ≤ (step o e w).max_inflight =
      subst (λ m. inflight (step o e w).tasks ≤ m) (sym g.same_max) next in
    subst (λ m. inflight (steps o es (step o e w)).tasks ≤ m) g.same_max
      (inflight_within o es (step o e w) next2)

-- Whatever is requested of a new store and however its goroutines and its cleaning proceed, there are
-- never more unfinished tasks in it than the configured number.
pub steps-inflight :
    (o : Outside) (ttl max_age max_inflight : ℕ) (es : List TaskEvent)
    → inflight (steps o es (new_task_store ttl max_age max_inflight)).tasks ≤ max_inflight
steps-inflight o ttl max_age max_inflight es =
    inflight_within o es (new_task_store ttl max_age max_inflight) (new_within max_inflight)

abbrev pub starts_other : Text → TaskEvent → Bool
starts_other i e = not (restarts i e)

pub steps-FateOf :
    (o : Outside) (i : Text) (es : List TaskEvent) (w : TaskStore)
    → all (starts_other i) es ≡ true
    → Distinct w.tasks
    → FateOf (find i w.tasks) (find i (steps o es w).tasks)
unfolding steps
steps-FateOf o i [] w h d = refl-FateOf (find i w.tasks)
steps-FateOf o i (e ∷ es) w h d =
    let (first, rest) = and-eq_true (starts_other i e) (all (starts_other i) es) h in
    let fresh : restarts i e ≡ false = ground (arith, first) in
    let now_ =
      Change-FateOf w.max_inflight w.max_age e i fresh w.tasks (step o e w).tasks
        (step-Goes o e w).change d in
    trans-FateOf (find i w.tasks) (find i (step o e w).tasks)
      (find i (steps o es (step o e w)).tasks) now_
      (steps-FateOf o i es (step o e w) rest (step-Distinct o e w d))

Fate-final :
    (t : TaskRecord) (r : Option TaskRecord)
    → Fate t r
    → terminal t ≡ true
    → (r ≡ some t) ⊎ (r ≡ none)
Fate-final t r gone final = inr refl
Fate-final t r (there t2 s (inl live)) final = absurd cc
Fate-final t r (there t2 s (inr same)) final = inl (ap some same)

-- A task that is finished at some moment stays exactly as it is, its status, its result and its times
-- included, until it is removed, whatever happens after, as long as no other task is started under its
-- ID.
pub final_kept :
    (o : Outside) (ttl max_age max_inflight : ℕ) (before after_ : List TaskEvent) (i : Text)
    (t : TaskRecord)
    → find i (steps o before (new_task_store ttl max_age max_inflight)).tasks ≡ some t
    → terminal t ≡ true
    → all (starts_other i) after_ ≡ true
    → (find i (steps o after_ (steps o before (new_task_store ttl max_age max_inflight))).tasks
        ≡ some t)
      ⊎ (find i (steps o after_ (steps o before (new_task_store ttl max_age max_inflight))).tasks
          ≡ none)
unfolding FateOf
final_kept o ttl max_age max_inflight before after_ i t at final fresh =
    let w : TaskStore = steps o before (new_task_store ttl max_age max_inflight) in
    let d : Distinct w.tasks =
      steps-Distinct o before (new_task_store ttl max_age max_inflight) new-Distinct in
    let f = steps-FateOf o i after_ w fresh d in
    Fate-final t (find i (steps o after_ w).tasks)
      (subst (λ x. FateOf x (find i (steps o after_ w).tasks)) at f) final
