-- ===== src/Tasks/Owners.antt =====
-- What a caller sees and does of the tasks of another: sdk/mcp/tasks.go.
use vaultrun.Base.{
  Text, is_empty, ℕ, ◌≡◌, refl, sym, ap, ◌∙◌, inl, inr, Bool, true, false, none, some, Bool-cases,
  Option-cases,
}
use vaultrun.Tasks.Lists.{find-id}
use vaultrun.Tasks.Store.{
  get, denied, TaskStore, find, update, get_found, get_task_result, cancel_task_result,
}
use vaultrun.Tasks.Types.{
  TaskRecord, unknown_task, Outside, valid_task_id, Answer, fails, gives, may_access,
}
use vaultrun.Tasks.Updates.{TasksUpdateParams, check_sizes, update_task_result}

abbrev pub succeeds {ℓ} : {A : Type ℓ} → Answer A → Bool
succeeds (fails e) = false
succeeds (gives a) = true

-- a caller that is stopped gets the error of an ID that is unknown
denied_other :
    (o : Outside) (actor id : Text) (w : TaskStore) (t : TaskRecord)
    → find id w.tasks ≡ some t
    → may_access t.owner actor ≡ false
    → valid_task_id o id ≡ true
    → denied actor (get o id w) ≡ some (unknown_task id)
unfolding get
denied_other o actor id w t at other good =
    let same : some (unknown_task t.id) ≡ some (unknown_task id) =
      ap (λ x. some (unknown_task x)) (find-id id w.tasks t at) in
    rw good (rw at (rw other same))

get_found_other :
    (actor id : Text) (t : TaskRecord)
    → t.id ≡ id
    → may_access t.owner actor ≡ false
    → get_found id actor (some t) ≡ get_found id actor none
get_found_other actor id t e other = rw other (rw e refl)

get_other :
    (o : Outside) (actor id : Text) (w w2 : TaskStore) (t : TaskRecord)
    → find id w.tasks ≡ some t
    → may_access t.owner actor ≡ false
    → find id w2.tasks ≡ none
    → get_task_result o actor id w ≡ get_task_result o actor id w2
unfolding get_task_result get
get_other o actor id w w2 t at other missing = elim (Bool-cases (valid_task_id o id)) [
  | inr bad ↦ rw bad (elim (Bool-cases (is_empty id)) [ inl e ↦ rw e refl | inr e ↦ rw e refl ])
  | inl good ↦
      let same = get_found_other actor id t (find-id id w.tasks t at) other in
      rw good (
        rw at
          (rw missing (elim (Bool-cases (is_empty id)) [ inl e ↦ rw e refl | inr e ↦ rw e same ])))
]

cancel_missing :
    (o : Outside) (now : ℕ) (actor id : Text) (w : TaskStore)
    → find id w.tasks ≡ none
    → cancel_task_result o now actor id w ≡ (fails (unknown_task id), w)
unfolding cancel_task_result update get
cancel_missing o now actor id w missing = elim (Bool-cases (valid_task_id o id)) [
  | inr bad ↦ rw bad (elim (Bool-cases (is_empty id)) [ inl e ↦ rw e refl | inr e ↦ rw e refl ])
  | inl good ↦
      rw good
        (rw missing (elim (Bool-cases (is_empty id)) [ inl e ↦ rw e refl | inr e ↦ rw e refl ]))
]

cancel_other :
    (o : Outside) (now : ℕ) (actor id : Text) (w : TaskStore) (t : TaskRecord)
    → find id w.tasks ≡ some t
    → may_access t.owner actor ≡ false
    → cancel_task_result o now actor id w ≡ (fails (unknown_task id), w)
unfolding cancel_task_result
cancel_other o now actor id w t at other = elim (Bool-cases (valid_task_id o id)) [
  | inr bad ↦ rw bad (elim (Bool-cases (is_empty id)) [ inl e ↦ rw e refl | inr e ↦ rw e refl ])
  | inl good ↦ rw good (
      rw (denied_other o actor id w t at other good)
        (elim (Bool-cases (is_empty id)) [ inl e ↦ rw e refl | inr e ↦ rw e refl ]))
]

update_other :
    (o : Outside) (now : ℕ) (actor : Text) (p : TasksUpdateParams) (w : TaskStore) (t : TaskRecord)
    → find p.task_id w.tasks ≡ some t
    → may_access t.owner actor ≡ false
    → ((update_task_result o now actor p w).1 ≡ w)
      × (succeeds (update_task_result o now actor p w).0 ≡ false)
unfolding update_task_result
update_other o now actor p w t at other = elim (Bool-cases (valid_task_id o p.task_id)) [
  | inr bad ↦ rw bad (elim (Bool-cases (is_empty p.task_id)) [
    | inl e ↦ rw e (refl, refl)
    | inr e ↦ rw e (refl, refl)
  ])
  | inl good ↦ rw good (
      rw (denied_other o actor p.task_id w t at other good)
        (elim (Bool-cases (is_empty p.task_id)) [
          | inl e ↦ rw e (refl, refl)
          | inr e ↦ rw e (elim (Option-cases (check_sizes o p)) [
            | inl fit ↦ rw fit (refl, refl)
            | inr (err, large) ↦ rw large (refl, refl)
          ])
        ]))
]

-- A caller who has an identity, and not that of the owner of a task that has one, is answered about
-- the task, and about its cancellation, as if no task had its ID, and neither the cancellation nor an
-- update changes anything; the update fails.
pub requests_of_others :
    (o : Outside) (now : ℕ) (actor : Text) (p : TasksUpdateParams) (w w2 : TaskStore)
    (t : TaskRecord)
    → find p.task_id w.tasks ≡ some t
    → may_access t.owner actor ≡ false
    → find p.task_id w2.tasks ≡ none
    → (get_task_result o actor p.task_id w ≡ get_task_result o actor p.task_id w2)
      × ((cancel_task_result o now actor p.task_id w).0
          ≡ (cancel_task_result o now actor p.task_id w2).0)
      × ((cancel_task_result o now actor p.task_id w).1 ≡ w)
      × ((update_task_result o now actor p w).1 ≡ w)
      × (succeeds (update_task_result o now actor p w).0 ≡ false)
requests_of_others o now actor p w w2 t at other missing =
    let e = cancel_other o now actor p.task_id w t at other in
    let e2 = cancel_missing o now actor p.task_id w2 missing in
    let (u, v) = update_other o now actor p w t at other in
    (
      get_other o actor p.task_id w w2 t at other missing,
      ap (λ r. r.0) e ∙ sym (ap (λ r. r.0) e2),
      ap (λ r. r.1) e,
      u,
      v,
    )
