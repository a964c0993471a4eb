-- ===== src/Tasks/Approval.antt =====
-- That a tool that needs a confirmation is called only after one who may act on its task has approved:
-- the events, and the runs (sdk/mcp/tasks.go).
use vaultrun.Base.{
  null, Text, codes, text_eq_iff, text_eq_sym, is_empty, text_eq, ℕ, ◌≡◌, refl, sym, ◌∙◌, subst,
  ◌⊎◌, inl, inr, Bool, true, false, ◌&&◌, ◌||◌, not, Option, none, some, arith, leb, if◌then◌else◌,
  Bool-cases, Option-cases,
}
use vaultrun.Tasks.Asked.{turn-HeldIn}
use vaultrun.Tasks.Calm.{cleaned-CalmOf}
use vaultrun.Tasks.Changes.{gone, there, FateOf}
use vaultrun.Tasks.Confirmed.{Says, later-HeldIn, apply-HeldIn, if-HeldIn, note-HeldIn}
use vaultrun.Tasks.Confirming.{CalmOf, IsCalm, refl-CalmOf}
use vaultrun.Tasks.Events.{step, TaskEvent, starts, cancels_task, updates, cleans, takes_turn}
use vaultrun.Tasks.Input.{confirm_key}
use vaultrun.Tasks.Lists.{Distinct, find-insert_other, find-cleaned}
use vaultrun.Tasks.Operations.{update_cases, cancel_record-IsCareful}
use vaultrun.Tasks.Runs.{starts_other}
use vaultrun.Tasks.Store.{
  get, denied, TaskStore, find, insert, inflight, set, put_task, mutated, call_cancel, ended, holds,
  expire, cancel_record, cancel_task_result,
}
use vaultrun.Tasks.Turns.{
  HeldIn, unless_final-IsCalm, ended-Calm, set_phase-HeldIn, calm-HeldIn, mutated-HeldIn,
}
use vaultrun.Tasks.Types.{
  entry, cancelled, TaskRecord, terminal, unknown_task, Outside, valid_task_id, gives, may_access,
}
use vaultrun.Tasks.Updates.{
  TasksUpdateParams, responses_of, check_sizes, answers_first, update_task_result,
}
use vaultrun.Tasks.Work.{response_approved, wants_confirm, new_record, first_phase, start_tool_task}

-- whether an event is an update with an approval of the task's question, of one who may act on it
abbrev pub approves : Outside → (i owner : Text) → TaskEvent → Bool
approves o i owner (updates now actor p) =
    text_eq p.task_id i
    && may_access owner actor
    && holds (response_approved o) (entry confirm_key (responses_of p))
approves o i owner _ = false

-- a task belongs to who started it
unfoldable pub OwnedBy : Text → Option TaskRecord → Type 0
OwnedBy owner none = Unit
OwnedBy owner (some t) = t.owner ≡ owner

pub Fate-OwnedBy :
    (owner : Text) (a b : Option TaskRecord) → FateOf a b → OwnedBy owner a → OwnedBy owner b
unfolding FateOf OwnedBy
Fate-OwnedBy owner none b f h = subst (λ x. OwnedBy owner x) (sym f) tt
Fate-OwnedBy owner (some t) b gone h = tt
Fate-OwnedBy owner (some t) b (there t2 s k) h = s.same_owner ∙ h

-- who is not stopped may act on the task
denied-may_access :
    (o : Outside) (actor id : Text) (w : TaskStore) (t : TaskRecord)
    → valid_task_id o id ≡ true
    → find id w.tasks ≡ some t
    → denied actor (get o id w) ≡ none
    → may_access t.owner actor ≡ true
unfolding get
denied-may_access o actor id w t good at free = elim (Bool-cases (may_access t.owner actor)) [
  | inl may ↦ may
  | inr other ↦ absurd (
      let e : denied actor (if valid_task_id o id then find id w.tasks else none)
          ≡ some (unknown_task t.id) =
        rw good (rw at (rw other refl)) in
      cc)
]

module _ (o : Outside) (i owner : Text) (approved : Bool) where
  -- the answers of an update, where its caller is not stopped
  Says-cases :
      (now : ℕ) (actor : Text) (p : TasksUpdateParams) (w : TaskStore)
      → valid_task_id o p.task_id ≡ true
      → denied actor (get o p.task_id w) ≡ none
      → OwnedBy owner (find i w.tasks)
      → (find p.task_id w.tasks ≡ none)
        ⊎ (text_eq p.task_id i ≡ false)
        ⊎ Says o i owner approved (responses_of p) (approves o i owner (updates now actor p))
  unfolding Says OwnedBy
  Says-cases now actor p w good free own = elim (Bool-cases (text_eq p.task_id i)) [
    | inr other ↦ inr (inl other)
    | inl same ↦ elim (Option-cases (find p.task_id w.tasks)) [
      | inl missing ↦ inl missing
      | inr (t, at) ↦
          let at2 : find i w.tasks ≡ some t =
            subst (λ x. find x w.tasks ≡ some t) ((text_eq_iff p.task_id i).0 same) at in
          let own2 : t.owner ≡ owner = subst (λ x. OwnedBy owner x) at2 own in
          let may : may_access owner actor ≡ true =
            subst (λ x. may_access x actor ≡ true) own2
              (denied-may_access o actor p.task_id w t good at free) in
          elim (Bool-cases (holds (response_approved o) (entry confirm_key (responses_of p)))) [
            | inr no_ ↦ inr (inr (inl no_))
            | inl yes_ ↦ inr (inr (inr (rw same (rw may (rw yes_ refl)))))
          ]
    ]
  ]

  update-HeldIn :
      (now : ℕ) (actor : Text) (p : TasksUpdateParams) (w : TaskStore)
      → OwnedBy owner (find i w.tasks)
      → HeldIn o i owner approved w
      → HeldIn o i owner
          (approved || approves o i owner (updates now actor p))
          (update_task_result o now actor p w).1
  unfolding update_task_result
  update-HeldIn now actor p w own h =
      let said : Bool = approves o i owner (updates now actor p) in
      let later = later-HeldIn o i owner approved said w h in
      elim (Bool-cases (is_empty p.task_id || not (valid_task_id o p.task_id))) [
        | inl bad ↦ rw bad later
        | inr fine ↦ elim (Option-cases (check_sizes o p)) [
          | inr (err, large) ↦ rw fine (rw large later)
          | inl fit ↦ elim (Option-cases (denied actor (get o p.task_id w))) [
            | inr (err, other) ↦ rw fine (rw fit (rw other later))
            | inl free ↦
                let good : valid_task_id o p.task_id ≡ true = ground (arith, fine) in
                let noted_ =
                  note-HeldIn o i owner (approved || said) now p (answers_first o now p w) (
                    if-HeldIn o i owner approved (approved || said) (null (responses_of p))
                      (gives false, w) _ later
                      (apply-HeldIn o i owner approved now p.task_id (responses_of p) w said
                        (Says-cases now actor p w good free own) h)) in
                rw fine (rw fit (rw free noted_))
          ]
        ]
      ]

  cancel-HeldIn :
      (now : ℕ) (actor id : Text) (w : TaskStore)
      → HeldIn o i owner approved w
      → HeldIn o i owner approved (cancel_task_result o now actor id w).1
  unfolding cancel_task_result call_cancel
  cancel-HeldIn now actor id w h = elim (Bool-cases (is_empty id || not (valid_task_id o id))) [
    | inl bad ↦ rw bad h
    | inr fine ↦ elim (Option-cases (denied actor (get o id w))) [
      | inr (err, other) ↦ rw fine (rw other h)
      | inl free ↦ elim (update_cases o now id (cancel_record now) w) [
        | inl missing ↦ rw fine (rw free (rw missing h))
        | inr (t, at, done) ↦
            let w2 : TaskStore = mutated now id (cancel_record now t) w in
            let h2 : HeldIn o i owner approved w2 =
              mutated-HeldIn o i owner approved now id (cancel_record now) w t
                (cancel_record-IsCareful now) (cancel_record-IsCalm now) at h in
            let h3 : HeldIn o i owner approved (call_cancel id w2) =
              calm-HeldIn o i owner approved w2 (call_cancel id w2) (refl-CalmOf (find i w2.tasks))
                refl h2 in
            rw fine
              (rw free (rw done (if-HeldIn o i owner approved approved (terminal t) _ _ h2 h3)))
      ]
    ]
  ]
    where
      cancel_record-IsCalm : (n : ℕ) → IsCalm (cancel_record n)
      cancel_record-IsCalm n =
          unless_final-IsCalm
            (ended cancelled (codes "cancelled") (codes "cancellation requested") n)
            (λ t.
              ended-Calm cancelled (codes "cancelled") (codes "cancellation requested") n t refl)

  expire-HeldIn :
      (now : ℕ) (w : TaskStore)
      → Distinct w.tasks
      → HeldIn o i owner approved w
      → HeldIn o i owner approved (expire now w)
  unfolding expire
  expire-HeldIn now w d h =
      calm-HeldIn o i owner approved w _
        (subst (λ x. CalmOf (find i w.tasks) x) (sym (find-cleaned now w.max_age w.ttl i w.tasks d))
          (cleaned-CalmOf now w.max_age w.ttl (find i w.tasks)))
        refl h

  start-HeldIn :
      (now : ℕ) (actor id name args : Text) (w : TaskStore)
      → text_eq id i ≡ false
      → HeldIn o i owner approved w
      → HeldIn o i owner approved (start_tool_task o now actor id name args w).1
  unfolding start_tool_task put_task
  start-HeldIn now actor id name args w other h = elim (Bool-cases (valid_task_id o id)) [
    | inr bad ↦ rw bad h
    | inl good ↦ elim (Bool-cases (leb w.max_inflight (inflight w.tasks))) [
      | inl full ↦ rw good (rw full h)
      | inr room ↦
          let held : HeldIn o i owner approved (record w {
            tasks = insert (new_record now actor id name) w.tasks;
            cancels = set id true w.cancels;
            stopped = set id false w.stopped;
            workers = set id (first_phase name (wants_confirm o args)) w.workers;
          }) =
            set_phase-HeldIn o i owner approved id (first_phase name (wants_confirm o args)) w _
              (find-insert_other i (new_record now actor id name) w.tasks other) refl
              (text_eq_sym i id ∙ other) h in
          rw good (rw room held)
    ]
  ]

  pub step-HeldIn :
      (e : TaskEvent) (w : TaskStore)
      → starts_other i e ≡ true
      → Distinct w.tasks
      → OwnedBy owner (find i w.tasks)
      → HeldIn o i owner approved w
      → HeldIn o i owner (approved || approves o i owner e) (step o e w)
  unfolding step
  step-HeldIn (updates now actor p) w fresh d own h = update-HeldIn now actor p w own h
  step-HeldIn (starts now actor id name args) w fresh d own h =
      let other : text_eq id i ≡ false = ground (arith, fresh) in
      later-HeldIn o i owner approved false _ (start-HeldIn now actor id name args w other h)
  step-HeldIn (cancels_task now actor id) w fresh d own h =
      later-HeldIn o i owner approved false _ (cancel-HeldIn now actor id w h)
  step-HeldIn (cleans now) w fresh d own h =
      later-HeldIn o i owner approved false _ (expire-HeldIn now w d h)
  step-HeldIn (takes_turn now id outcome) w fresh d own h =
      later-HeldIn o i owner approved false _ (turn-HeldIn o i owner approved now id outcome w h)
