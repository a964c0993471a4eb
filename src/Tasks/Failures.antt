-- ===== src/Tasks/Failures.antt =====
-- What a request leaves behind that fails: sdk/mcp/tasks.go.
use vaultrun.Base.{
  null, Text, is_empty, ℕ, ◌≡◌, refl, ap, ◌∙◌, ◌⊎◌, inl, inr, Bool, true, false, ◌&&◌, ◌||◌, not,
  Option, none, some, List, if◌then◌else◌, Bool-cases, Option-cases, and-eq_true, is_some,
}
use vaultrun.Tasks.Careful.{apply_record-IsCareful, note_record-IsCareful}
use vaultrun.Tasks.Input.{check_responses, apply_record, apply_input_responses}
use vaultrun.Tasks.Lists.{find-id, find-replace_same}
use vaultrun.Tasks.Operations.{IsCareful, update_cases, update-some}
use vaultrun.Tasks.Owners.{succeeds}
use vaultrun.Tasks.Store.{
  get, denied, TaskStore, find, put_task, mutated, update, unless, cancel_record, cancel_updated,
  cancel_task_result,
}
use vaultrun.Tasks.Types.{
  TaskInputResponse, TaskRecord, terminal, TaskError, Outside, valid_task_id, Answer, fails, gives,
}
use vaultrun.Tasks.Updates.{
  TasksUpdateParams, responses_of, note_record, update_result, noted, then_note, check_sizes,
  answers_first, update_task_result,
}
use vaultrun.Tasks.Work.{new_record, launched, start_tool_task}

-- an answer is a success, or the store is as it was
IsAtomic {ℓ} : {A : Type ℓ} → TaskStore → Answer A × TaskStore → Type 0
IsAtomic w r = (succeeds r.0 ≡ true) ⊎ (r.1 ≡ w)

if-IsAtomic {ℓ} :
    {A : Type ℓ} (w : TaskStore) (b : Bool) (x y : Answer A × TaskStore)
    → IsAtomic w x
    → IsAtomic w y
    → IsAtomic w (if b then x else y)
if-IsAtomic w true x y g h = g
if-IsAtomic w false x y g h = h

unless-IsAtomic {ℓ} :
    {A : Type ℓ} (w : TaskStore) (r : Option TaskError) (x : Answer A × TaskStore)
    → IsAtomic w x
    → IsAtomic w (unless r w x)
unfolding IsAtomic
unless-IsAtomic w none x g = g
unless-IsAtomic w (some e) x g = inr refl

start_tool_task-IsAtomic :
    (o : Outside) (now : ℕ) (actor id name args : Text) (w : TaskStore)
    → IsAtomic w (start_tool_task o now actor id name args w)
unfolding start_tool_task IsAtomic
start_tool_task-IsAtomic o now actor id name args w =
    launched_atomic (put_task o (new_record now actor id name) w)
  where
    launched_atomic : (r : Answer TaskStore) → IsAtomic w (launched o id name args w r)
    launched_atomic (fails e) = inr refl
    launched_atomic (gives w2) = inl refl

cancel_updated-IsAtomic :
    (id : Text) (w : TaskStore) (r : Option (TaskRecord × TaskStore))
    → IsAtomic w (cancel_updated id w r)
unfolding IsAtomic
cancel_updated-IsAtomic id w none = inr refl
cancel_updated-IsAtomic id w (some (t, w2)) = elim (Bool-cases (terminal t)) [
  | inl final ↦ rw final (inl refl)
  | inr live ↦ rw live (inl refl)
]

cancel_task_result-IsAtomic :
    (o : Outside) (now : ℕ) (actor id : Text) (w : TaskStore)
    → IsAtomic w (cancel_task_result o now actor id w)
unfolding cancel_task_result IsAtomic
cancel_task_result-IsAtomic o now actor id w =
    if-IsAtomic w (is_empty id || not (valid_task_id o id)) _ _ (inr refl) (
      unless-IsAtomic w (denied actor (get o id w)) _
        (cancel_updated-IsAtomic id w (update o now id (cancel_record now) w)))

-- a task that is there is still there after it was changed
mutated-find :
    (now : ℕ) (id : Text) (f : TaskRecord → Option TaskRecord) (w : TaskStore) (t : TaskRecord)
    → IsCareful f
    → find id w.tasks ≡ some t
    → is_some (find id (mutated now id (f t) w).tasks) ≡ true
unfolding IsCareful
mutated-find now id f w t careful at = elim (Option-cases (f t)) [
  | inl same ↦ rw same (rw at refl)
  | inr (t2, e) ↦
      let (live, s) = careful t t2 e in
      let e3 =
        find-replace_same id (record t2 { updated_at = now }) t w.tasks at
          (s.same_id ∙ find-id id w.tasks t at) in
      rw e (rw e3 refl)
]

update_result-succeeds :
    (id : Text) (w : TaskStore) (r : Option TaskRecord)
    → is_some r ≡ true
    → succeeds (update_result id w r).0 ≡ true
update_result-succeeds id w none h = absurd cc
update_result-succeeds id w (some t) h = refl

note_final :
    (o : Outside) (p : TasksUpdateParams) (t : TaskRecord)
    → terminal t ≡ true
    → note_record o p t ≡ none
unfolding note_record
note_final o p t final = rw final refl

get_there :
    (o : Outside) (id : Text) (w : TaskStore)
    → valid_task_id o id ≡ true
    → is_some (find id w.tasks) ≡ true
    → is_some (get o id w) ≡ true
unfolding get
get_there o id w good here = rw good here

-- A note on a task that is there fails only without answers and on a finished task, which it leaves.
noted-cases :
    (o : Outside) (now : ℕ) (p : TasksUpdateParams) (w : TaskStore)
    → valid_task_id o p.task_id ≡ true
    → is_some (find p.task_id w.tasks) ≡ true
    → (succeeds (noted o p w (update o now p.task_id (note_record o p) w)).0 ≡ true)
      ⊎ ((null (responses_of p) ≡ true)
          × ((noted o p w (update o now p.task_id (note_record o p) w)).1 ≡ w))
noted-cases o now p w good here = elim (Option-cases (find p.task_id w.tasks)) [
  | inl missing ↦
      absurd (let e : is_some (find p.task_id w.tasks) ≡ false = ap is_some missing in cc)
  | inr (t, at) ↦
      let done = update-some o now p.task_id (note_record o p) w t good at in
      let w2 : TaskStore = mutated now p.task_id (note_record o p t) w in
      rw done (elim (Bool-cases (terminal t && null (responses_of p))) [
        | inl both_ ↦
            let (final, silent) = and-eq_true (terminal t) (null (responses_of p)) both_ in
            let kept : mutated now p.task_id (note_record o p t) w ≡ w =
              ap (λ r. mutated now p.task_id r w) (note_final o p t final) in
            rw both_ (inr (silent, kept))
        | inr on ↦
            let still =
              get_there o p.task_id w2 good
                (mutated-find now p.task_id (note_record o p) w t (note_record-IsCareful o p) at) in
            let e = update_result-succeeds p.task_id w2 (get o p.task_id w2) still in rw on (inl e)
      ])
]

apply_final :
    (responses : List (Text × TaskInputResponse)) (t : TaskRecord)
    → terminal t ≡ true
    → apply_record responses t ≡ none
unfolding apply_record
apply_final responses t final = rw final refl

-- the answers fail and leave the store, or the task is there
answers-cases :
    (o : Outside) (now : ℕ) (id : Text) (responses : List (Text × TaskInputResponse))
    (w : TaskStore)
    → ((succeeds (apply_input_responses o now id responses w).0 ≡ false)
        × ((apply_input_responses o now id responses w).1 ≡ w))
      ⊎ ((succeeds (apply_input_responses o now id responses w).0 ≡ true)
          × (valid_task_id o id ≡ true)
          × (is_some (find id (apply_input_responses o now id responses w).1.tasks) ≡ true))
unfolding apply_input_responses
answers-cases o now id responses w = elim (Bool-cases (valid_task_id o id)) [
  | inr bad ↦ rw bad (inl (refl, refl))
  | inl good ↦ elim (Option-cases (check_responses responses)) [
    | inr (err, large) ↦ rw good (rw large (inl (refl, refl)))
    | inl fit ↦ elim (update_cases o now id (apply_record responses) w) [
      | inl missing ↦ rw good (rw fit (rw missing (inl (refl, refl))))
      | inr (t, at, done) ↦ elim (Bool-cases (terminal t)) [
        | inl final ↦
            let kept : mutated now id (apply_record responses t) w ≡ w =
              ap (λ r. mutated now id r w) (apply_final responses t final) in
            rw good (rw fit (rw done (rw final (inl (refl, kept)))))
        | inr live ↦
            let still =
              mutated-find now id (apply_record responses) w t (apply_record-IsCareful responses)
                at in
            rw good (rw fit (rw done (rw live (inr (refl, refl, still)))))
      ]
    ]
  ]
]

then_note-IsAtomic :
    (o : Outside) (now : ℕ) (p : TasksUpdateParams) (w : TaskStore) (r : Answer Bool × TaskStore)
    → ((succeeds r.0 ≡ false) × (r.1 ≡ w))
      ⊎ ((succeeds r.0 ≡ true)
          × (valid_task_id o p.task_id ≡ true)
          × (is_some (find p.task_id r.1.tasks) ≡ true))
    → (null (responses_of p) ≡ false) ⊎ (r.1 ≡ w)
    → IsAtomic w (then_note o now p r)
unfolding IsAtomic
then_note-IsAtomic o now p w (fails e, w2) (inl (lost, kept)) k = inr kept
then_note-IsAtomic o now p w (gives b, w2) (inl (lost, kept)) k = absurd cc
then_note-IsAtomic o now p w (fails e, w2) (inr (given, good, h)) k = absurd cc
then_note-IsAtomic o now p w (gives b, w2) (inr (given, good, here)) k =
    elim (noted-cases o now p w2 good here) [
      | inl fine ↦ inl fine
      | inr (silent, kept) ↦ elim k [ inl loud ↦ absurd cc | inr same ↦ inr (kept ∙ same) ]
    ]

answers_first-IsAtomic :
    (o : Outside) (now : ℕ) (p : TasksUpdateParams) (w : TaskStore)
    → valid_task_id o p.task_id ≡ true
    → IsAtomic w (then_note o now p (answers_first o now p w))
unfolding IsAtomic
answers_first-IsAtomic o now p w good = elim (Bool-cases (null (responses_of p))) [
  | inr loud ↦
      let r =
        then_note-IsAtomic o now p w (apply_input_responses o now p.task_id (responses_of p) w)
          (answers-cases o now p.task_id (responses_of p) w) (inl loud) in
      rw loud r
  | inl silent ↦ elim (Option-cases (find p.task_id w.tasks)) [
    | inr (t, at) ↦
        let here : is_some (find p.task_id w.tasks) ≡ true = ap is_some at in
        let r = then_note-IsAtomic o now p w (gives false, w) (inr (refl, good, here)) (inr refl) in
        rw silent r
    | inl missing ↦ elim (update_cases o now p.task_id (note_record o p) w) [
      | inl gone_ ↦ let stop : IsAtomic w (noted o p w none) = inr refl in rw silent (rw gone_ stop)
      | inr (t, at, done) ↦ absurd cc
    ]
  ]
]

update_task_result-IsAtomic :
    (o : Outside) (now : ℕ) (actor : Text) (p : TasksUpdateParams) (w : TaskStore)
    → IsAtomic w (update_task_result o now actor p w)
unfolding update_task_result IsAtomic
update_task_result-IsAtomic o now actor p w = elim (Bool-cases (valid_task_id o p.task_id)) [
  | inr bad ↦
      rw bad (elim (Bool-cases (is_empty p.task_id)) [
        | inl e ↦ rw e (inr refl)
        | inr e ↦ rw e (inr refl)
      ])
  | inl good ↦
      if-IsAtomic w (is_empty p.task_id || not (valid_task_id o p.task_id)) _ _ (inr refl) (
        unless-IsAtomic w (check_sizes o p) _ (
          unless-IsAtomic w (denied actor (get o p.task_id w)) _
            (answers_first-IsAtomic o now p w good)))
]

-- A request that fails leaves the store as it was: one that starts a task, one that cancels it, and
-- one that updates it, which first takes up answers and then a message and progress.
pub failed_requests :
    (o : Outside) (now : ℕ) (actor id name args : Text) (p : TasksUpdateParams) (w : TaskStore)
    → ((succeeds (start_tool_task o now actor id name args w).0 ≡ true)
        ⊎ ((start_tool_task o now actor id name args w).1 ≡ w))
      × ((succeeds (cancel_task_result o now actor id w).0 ≡ true)
          ⊎ ((cancel_task_result o now actor id w).1 ≡ w))
      × ((succeeds (update_task_result o now actor p w).0 ≡ true)
          ⊎ ((update_task_result o now actor p w).1 ≡ w))
unfolding IsAtomic
failed_requests o now actor id name args p w = (
  start_tool_task-IsAtomic o now actor id name args w,
  cancel_task_result-IsAtomic o now actor id w,
  update_task_result-IsAtomic o now actor p w,
)
