-- ===== src/Tasks/Asked.antt =====
-- What the turns of a goroutine do to a tool that waits for its confirmation: sdk/mcp/tasks.go,
-- sdk/mcp/tasks_input.go.
use vaultrun.Base.{
  Text, codes, text_eq_iff, text_eq_sym, text_eq, ℕ, ◌≡◌, refl, sym, ap, ◌∙◌, subst, inl, inr, Bool,
  true, false, some, [], if◌then◌else◌, Bool-cases, Option-cases,
}
use vaultrun.Tasks.Careful.{request_record-IsCareful}
use vaultrun.Tasks.Confirming.{Calm, Settled, Waits, IsHeld}
use vaultrun.Tasks.Events.{cleans}
use vaultrun.Tasks.Input.{confirm_key, approval_elicitation, ask_all, request_record, request_input}
use vaultrun.Tasks.Operations.{unless_final-IsCareful}
use vaultrun.Tasks.Steps.{outcome_record-Stays}
use vaultrun.Tasks.Store.{get, Phase, idle, asking, waiting, calling, TaskStore, find, set, mutated}
use vaultrun.Tasks.Turns.{
  HeldIn, unless_final-IsCalm, ended-Calm, mutated-other, mutated-same, ask_first,
  request_record-some, request_record-none, request_input-cases, mutated-workers, leave_with-HeldIn,
  stop-HeldIn,
}
use vaultrun.Tasks.Types.{
  entry, TaskStatus, working, input_required, completed, failed, cancelled, TaskRecord, is_final,
  terminal, unknown_task, Outside, valid_task_id,
}
use vaultrun.Tasks.Work.{
  Outcome, response_approved, round_at, round_of, unless_final, leave_with, question, asked,
  failed_wait, or_zero, confirmation, fail_wait, waited, tool_error, tool_result, outcome_record,
  turn_in, turn,
}

module _ (o : Outside) (i actor : Text) (approved : Bool) where
  -- a goroutine that has asked waits
  asked_waits :
      (now : ℕ) (tool : Text) (w : TaskStore) (t : TaskRecord)
      → find i w.tasks ≡ some t
      → IsHeld o actor approved (asking tool) (find i w.tasks)
      → IsHeld o actor approved waiting
          (find i (mutated now i (request_record (question o tool) t) w).tasks)
  unfolding IsHeld Waits ask_all approval_elicitation
  asked_waits now tool w t at h =
      let (own, none_, new) : (t.owner ≡ actor)
          × (t.input_requests ≡ [])
          × (t.used_input_keys ≡ []) =
        subst (λ x. IsHeld o actor approved (asking tool) x) at h in
      elim (Bool-cases (terminal t)) [
        | inl final ↦ rw (request_record-none (question o tool) t final) (rw at (own, inl final))
        | inr live ↦
            let e = request_record-some (question o tool) t live in
            let there_ =
              mutated-same i now i (request_record (question o tool))
                (request_record-IsCareful (question o tool)) w t _ at e in
            let (open_, own2) = ask_first confirm_key _ t none_ new in
            rw there_ (own2 ∙ own, inr (inl (refl, open_)))
      ]

  -- the store in which a goroutine has just gone on to the next phase
  next_phase-HeldIn :
      (id : Text) (phase : Phase) (w w2 : TaskStore)
      → (text_eq i id ≡ false → HeldIn o i actor approved w2)
      → (text_eq i id ≡ true → IsHeld o actor approved phase (find i w2.tasks))
      → HeldIn o i actor approved (record w2 { workers = set id phase w2.workers })
  unfolding HeldIn
  next_phase-HeldIn id phase w w2 others this = elim (Bool-cases (text_eq i id)) [
    | inl same ↦ rw same (this same)
    | inr other ↦ rw other (others other)
  ]

  asked-HeldIn :
      (now : ℕ) (id tool : Text) (w : TaskStore)
      → w.workers id ≡ asking tool
      → HeldIn o i actor approved w
      → HeldIn o i actor approved (asked o now id (request_input o now id (question o tool) w))
  unfolding HeldIn
  asked-HeldIn now id tool w phase h = elim (request_input-cases o now id (question o tool) w) [
    | inl (err, e) ↦ rw e (
        stop-HeldIn o i actor approved now id failed (o.error_text err)
          (codes "failed to request confirmation") w refl h)
    | inr (t, at, e) ↦
        let w2 : TaskStore = mutated now id (request_record (question o tool) t) w in
        rw e (
          next_phase-HeldIn id waiting w w2
            (λ other.
              let q =
                mutated-other i now id (request_record (question o tool))
                  (request_record-IsCareful (question o tool)) w t at (text_eq_sym id i ∙ other) in
              subst (λ x. IsHeld o actor approved (w2.workers i) x) (sym q)
                (subst (λ x. IsHeld o actor approved x (find i w.tasks))
                  (sym (
                    mutated-workers o i actor approved now id (request_record (question o tool) t)
                      w))
                  h))
            (λ same.
              let k : i ≡ id = (text_eq_iff i id).0 same in
              let p : w.workers i ≡ asking tool = ap w.workers k ∙ phase in
              let held : IsHeld o actor approved (asking tool) (find i w.tasks) =
                subst (λ x. IsHeld o actor approved x (find i w.tasks)) p h in
              let at2 : find i w.tasks ≡ some t = subst (λ x. find x w.tasks ≡ some t) (sym k) at in
              subst
                (λ x.
                  IsHeld o actor approved waiting
                    (find i (mutated now x (request_record (question o tool) t) w).tasks))
                k (asked_waits now tool w t at2 held)))
  ]

  failed_wait-HeldIn :
      (now : ℕ) (id : Text) (b : Bool) (err : Text) (w : TaskStore)
      → HeldIn o i actor approved w
      → HeldIn o i actor approved (leave_with o now id (unless_final (failed_wait b err now)) w)
  failed_wait-HeldIn now id true err w h =
      stop-HeldIn o i actor approved now id cancelled (codes "cancelled") (codes "cancelled") w refl
        h
  failed_wait-HeldIn now id false err w h =
      stop-HeldIn o i actor approved now id failed err (codes "failed while waiting for input") w
        refl h

  -- a task that waits, and is working again, was approved or was refused
  working_settled :
      (t : TaskRecord)
      → t.status ≡ working
      → response_approved o (or_zero (entry confirm_key t.input_responses)) ≡ true
      → Waits o approved t
      → approved ≡ true
  unfolding Waits Settled
  working_settled t e good (inl final) =
      absurd (let k : is_final working ≡ true = subst (λ s. is_final s ≡ true) e final in cc)
  working_settled t e good (inr (inl (s, open_))) =
      absurd (let k : working ≡ input_required = sym e ∙ s in cc)
  working_settled t e good (inr (inr (inl h))) = h
  working_settled t e good (inr (inr (inr (shut, refused)))) = absurd cc

  confirmation-HeldIn :
      (now : ℕ) (id : Text) (w : TaskStore) (t : TaskRecord)
      → w.workers id ≡ waiting
      → find id w.tasks ≡ some t
      → t.status ≡ working
      → HeldIn o i actor approved w
      → HeldIn o i actor approved (
          confirmation o now id w
            (response_approved o (or_zero (entry confirm_key t.input_responses))))
  unfolding HeldIn IsHeld
  confirmation-HeldIn now id w t phase at e h =
      elim (Bool-cases (response_approved o (or_zero (entry confirm_key t.input_responses)))) [
        | inr bad ↦ rw bad (
            stop-HeldIn o i actor approved now id failed (codes "confirmation declined")
              (codes "declined") w refl h)
        | inl good ↦ rw good (
            next_phase-HeldIn id calling w w (λ other. h)
              (λ same.
                let k : i ≡ id = (text_eq_iff i id).0 same in
                let p : w.workers i ≡ waiting = ap w.workers k ∙ phase in
                let at2 : find i w.tasks ≡ some t =
                  subst (λ x. find x w.tasks ≡ some t) (sym k) at in
                let held : IsHeld o actor approved waiting (some t) =
                  subst (λ x. IsHeld o actor approved waiting x) at2
                    (subst (λ x. IsHeld o actor approved x (find i w.tasks)) p h) in
                working_settled t e good held.1))
      ]

  round_at-HeldIn :
      (now : ℕ) (id : Text) (w : TaskStore) (t : TaskRecord) (s : TaskStatus)
      → w.workers id ≡ waiting
      → find id w.tasks ≡ some t
      → t.status ≡ s
      → HeldIn o i actor approved w
      → HeldIn o i actor approved (waited o now id w (round_at t.input_responses s))
  round_at-HeldIn now id w t working phase at e h = confirmation-HeldIn now id w t phase at e h
  round_at-HeldIn now id w t input_required phase at e h = elim (Bool-cases (w.stopped id)) [
    | inr on ↦ rw on h
    | inl stop ↦
        subst
          (λ b.
            HeldIn o i actor approved
              (if b then fail_wait o now id (codes "context canceled") w else w))
          (sym stop) (failed_wait-HeldIn now id (w.stopped id) (codes "context canceled") w h)
  ]
  round_at-HeldIn now id w t completed phase at e h =
      failed_wait-HeldIn now id (w.stopped id) (codes "task completed") w h
  round_at-HeldIn now id w t failed phase at e h =
      failed_wait-HeldIn now id (w.stopped id) (codes "task failed") w h
  round_at-HeldIn now id w t cancelled phase at e h =
      failed_wait-HeldIn now id (w.stopped id) (codes "context canceled") w h

  -- what a goroutine does that waits: an approval is needed to go on
  waited-HeldIn :
      (now : ℕ) (id : Text) (w : TaskStore)
      → w.workers id ≡ waiting
      → HeldIn o i actor approved w
      → HeldIn o i actor approved (waited o now id w (round_of o id (get o id w)))
  unfolding get
  waited-HeldIn now id w phase h =
      let lost = failed_wait-HeldIn now id (w.stopped id) (o.error_text (unknown_task id)) w h in
      elim (Bool-cases (valid_task_id o id)) [
        | inr bad ↦ rw bad lost
        | inl good ↦ elim (Option-cases (find id w.tasks)) [
          | inl missing ↦ rw good (rw missing lost)
          | inr (t, at) ↦ rw good (rw at (round_at-HeldIn now id w t t.status phase at refl h))
        ]
      ]

  outcome_record-final :
      (b : Bool) (now : ℕ) (outcome : Outcome) (t : TaskRecord)
      → Calm t (outcome_record o b now outcome t)
  outcome_record-final true now outcome t =
      ended-Calm cancelled (codes "cancelled") (codes "cancelled") now t refl
  outcome_record-final false now (tool_error s) t = ended-Calm failed s (codes "failed") now t refl
  outcome_record-final false now (tool_result true first json) t = record {
    same_owner = refl;
    same_requests = refl;
    same_used = refl;
    same_responses = refl;
    same_status = inr refl;
  }
  outcome_record-final false now (tool_result false first json) t = record {
    same_owner = refl;
    same_requests = refl;
    same_used = refl;
    same_responses = refl;
    same_status = inr refl;
  }

  called-HeldIn :
      (now : ℕ) (id : Text) (outcome : Outcome) (w : TaskStore)
      → HeldIn o i actor approved w
      → HeldIn o i actor approved
          (leave_with o now id (unless_final (outcome_record o (w.stopped id) now outcome)) w)
  called-HeldIn now id outcome w h =
      leave_with-HeldIn o i actor approved now id
        (unless_final (outcome_record o (w.stopped id) now outcome)) w
        (unless_final-IsCareful (outcome_record o (w.stopped id) now outcome)
          (outcome_record-Stays o now (cleans now) (w.stopped id) outcome))
        (unless_final-IsCalm (outcome_record o (w.stopped id) now outcome)
          (outcome_record-final (w.stopped id) now outcome))
        h

  turn_in-HeldIn :
      (now : ℕ) (id : Text) (outcome : Outcome) (w : TaskStore) (phase : Phase)
      → w.workers id ≡ phase
      → HeldIn o i actor approved w
      → HeldIn o i actor approved (turn_in o now id outcome w phase)
  turn_in-HeldIn now id outcome w idle e h = h
  turn_in-HeldIn now id outcome w (asking tool) e h = asked-HeldIn now id tool w e h
  turn_in-HeldIn now id outcome w waiting e h = waited-HeldIn now id w e h
  turn_in-HeldIn now id outcome w calling e h = called-HeldIn now id outcome w h

  -- a turn of any goroutine
  pub turn-HeldIn :
      (now : ℕ) (id : Text) (outcome : Outcome) (w : TaskStore)
      → HeldIn o i actor approved w
      → HeldIn o i actor approved (turn o now id outcome w)
  unfolding turn
  turn-HeldIn now id outcome w h = turn_in-HeldIn now id outcome w (w.workers id) refl h
