-- ===== src/Tasks/Confirmed.antt =====
-- What answers do to a tool that waits for its confirmation: sdk/mcp/tasks_input.go.
use vaultrun.Base.{
  null, Text, text_eq_iff, text_eq, ℕ, ◌≡◌, refl, sym, ◌∙◌, subst, ◌⊎◌, inl, inr, Bool, true, false,
  ◌&&◌, ◌||◌, Option, none, some, List, arith, if◌then◌else◌, Bool-cases, Option-cases,
}
use vaultrun.Tasks.Answers.{answer_all-status, answer_all-shut, answer_all-open}
use vaultrun.Tasks.Calm.{note_record-IsCalm, go_on-fields, has_entry-null, apply-unasked}
use vaultrun.Tasks.Careful.{apply_record_inv, apply_record-IsCareful, note_record-IsCareful}
use vaultrun.Tasks.Confirming.{CalmOf, refl-CalmOf, Settled, Waits, IsHeld, later-IsHeld}
use vaultrun.Tasks.Input.{
  confirm_key, check_responses, answer_all, apply_record, apply_input_responses,
}
use vaultrun.Tasks.Operations.{IsCareful, update_cases}
use vaultrun.Tasks.Store.{
  get, Phase, idle, asking, waiting, calling, TaskStore, find, mutated, holds,
}
use vaultrun.Tasks.Turns.{
  HeldIn, mutated-other, mutated-same, calm-HeldIn, mutated-workers, mutated-HeldIn,
}
use vaultrun.Tasks.Types.{
  entry, input_required, TaskInputResponse, TaskRecord, terminal, Outside, valid_task_id, Answer,
  fails, gives, has_entry,
}
use vaultrun.Tasks.Updates.{TasksUpdateParams, responses_of, note_record, update_result, then_note}
use vaultrun.Tasks.Work.{response_approved, or_zero}

module _ (o : Outside) (i owner : Text) (approved : Bool) where
  -- Answers, by one who may act on the task; `said` says whether there is an approval among them.
  answered-Waits :
      (responses : List (Text × TaskInputResponse)) (t t2 : TaskRecord) (said : Bool)
      → apply_record responses t ≡ some t2
      → (holds (response_approved o) (entry confirm_key responses) ≡ false) ⊎ (said ≡ true)
      → Waits o approved t
      → Waits o (approved || said) t2
  unfolding Waits Settled
  answered-Waits responses t t2 said e k h =
      let (live, asked_, made) = apply_record_inv responses t t2 e in
      let u : TaskRecord = (answer_all responses t).0 in
      let (own, requests, answers) = go_on-fields u in
      subst (λ x. Waits o (approved || said) x) (sym made)
        (elim h [
          | inl final ↦ absurd cc
          | inr (inr (inl before)) ↦ inr (inr (inl (ground (arith, before))))
          | inr (inr (inr (shut, refused))) ↦
              let (shut2, kept) = answer_all-shut confirm_key responses t shut in
              inr (
                inr (
                  inr (
                    subst (λ x. has_entry confirm_key x ≡ false) (sym requests) shut2,
                    subst (λ x. response_approved o (or_zero (entry confirm_key x)) ≡ false)
                        (sym answers)
                        (subst (λ x. response_approved o (or_zero x) ≡ false) (sym kept) refused),
                  )))
          | inr (inl (s, open_)) ↦ elim (answer_all-open confirm_key responses t open_) [
            | inl still ↦
                let more : null u.input_requests ≡ false =
                  has_entry-null confirm_key u.input_requests still in
                let s2 : u.status ≡ input_required = answer_all-status responses t ∙ s in
                rw more (inr (inl (s2, still)))
            | inr (resp, chosen, shut, kept) ↦ elim k [
              | inr yes_ ↦ inr (inr (inl (ground (arith, yes_))))
              | inl no_ ↦
                  let refused : response_approved o resp ≡ false =
                    subst (λ x. holds (response_approved o) x ≡ false) chosen no_ in
                  inr (
                    inr (
                      inr (
                        subst (λ x. has_entry confirm_key x ≡ false) (sym requests) shut,
                        subst (λ x. response_approved o (or_zero (entry confirm_key x)) ≡ false)
                            (sym answers)
                            (subst (λ x. response_approved o (or_zero x) ≡ false) (sym kept)
                              refused),
                      )))
            ]
          ]
        ])

  -- the same, of what is held in each phase
  answered-IsHeld :
      (now : ℕ) (phase : Phase) (responses : List (Text × TaskInputResponse)) (t t2 : TaskRecord)
      (said : Bool)
      → apply_record responses t ≡ some t2
      → (holds (response_approved o) (entry confirm_key responses) ≡ false) ⊎ (said ≡ true)
      → IsHeld o owner approved phase (some t)
      → IsHeld o owner (approved || said) phase (some (record t2 { updated_at = now }))
  unfolding IsHeld Waits Settled IsCareful
  answered-IsHeld now idle responses t t2 said e k h = tt
  answered-IsHeld now calling responses t t2 said e k h = ground (arith, h)
  answered-IsHeld now (asking tool) responses t t2 said e k (own, none_, new) =
      absurd (let none2 = apply-unasked responses t none_ in cc)
  answered-IsHeld now waiting responses t t2 said e k (own, h) =
      let (live, s) = apply_record-IsCareful responses t t2 e in
      (s.same_owner ∙ own, answered-Waits responses t t2 said e k h)

-- what answers do to the store
apply-store :
    (o : Outside) (now : ℕ) (id : Text) (responses : List (Text × TaskInputResponse))
    (w : TaskStore)
    → ((apply_input_responses o now id responses w).1 ≡ w)
      ⊎ ((t : TaskRecord) × (find id w.tasks ≡ some t)
          × ((apply_input_responses o now id responses w).1
              ≡ mutated now id (apply_record responses t) w))
unfolding apply_input_responses
apply-store o now id responses w = elim (Bool-cases (valid_task_id o id)) [
  | inr bad ↦ inl (rw bad refl)
  | inl good ↦ elim (Option-cases (check_responses responses)) [
    | inr (err, large) ↦ inl (rw good (rw large refl))
    | inl fit ↦ elim (update_cases o now id (apply_record responses) w) [
      | inl missing ↦ inl (rw good (rw fit (rw missing refl)))
      | inr (t, at, done) ↦ elim (Bool-cases (terminal t)) [
        | inl final ↦ inr (t, at, rw good (rw fit (rw done (rw final refl))))
        | inr live ↦ inr (t, at, rw good (rw fit (rw done (rw live refl))))
      ]
    ]
  ]
]

module _ (o : Outside) (i owner : Text) (approved : Bool) where
  -- no answer to the question that is an approval, unless it is said to be one
  unfoldable pub Says : List (Text × TaskInputResponse) → Bool → Type 0
  Says responses said =
      (holds (response_approved o) (entry confirm_key responses) ≡ false) ⊎ (said ≡ true)

  pub later-HeldIn :
      (said : Bool) (w : TaskStore)
      → HeldIn o i owner approved w
      → HeldIn o i owner (approved || said) w
  unfolding HeldIn
  later-HeldIn said w h = later-IsHeld o owner approved said (w.workers i) (find i w.tasks) h

  answered-HeldIn :
      (now : ℕ) (id : Text) (responses : List (Text × TaskInputResponse)) (w : TaskStore)
      (t : TaskRecord) (said : Bool)
      → find id w.tasks ≡ some t
      → (text_eq id i ≡ false) ⊎ Says responses said
      → HeldIn o i owner approved w
      → HeldIn o i owner (approved || said) (mutated now id (apply_record responses t) w)
  unfolding HeldIn Says
  answered-HeldIn now id responses w t said at k h =
      elim (Option-cases (apply_record responses t)) [
        | inl same ↦ rw same (later-HeldIn said w h)
        | inr (t2, e) ↦
            let f : TaskRecord → Option TaskRecord = apply_record responses in
            let careful = apply_record-IsCareful responses in
            let later = later-HeldIn said w h in
            elim (Bool-cases (text_eq id i)) [
              | inr other ↦
                  let q = mutated-other i now id f careful w t at other in
                  calm-HeldIn o i owner (approved || said) w (mutated now id (f t) w)
                    (subst (λ x. CalmOf (find i w.tasks) x) (sym q) (refl-CalmOf (find i w.tasks)))
                    (mutated-workers o i owner approved now id (f t) w) later
              | inl this ↦ elim k [
                | inl no_ ↦ absurd cc
                | inr said2 ↦
                    let there_ = mutated-same i now id f careful w t t2 at e in
                    let j : id ≡ i = (text_eq_iff id i).0 this in
                    let at2 : find i w.tasks ≡ some t = subst (λ x. find x w.tasks ≡ some t) j at in
                    let there2 : find i (mutated now id (f t) w).tasks
                        ≡ some (record t2 { updated_at = now }) =
                      subst
                        (λ x.
                          find x (mutated now id (f t) w).tasks
                          ≡ some (record t2 { updated_at = now }))
                        j there_ in
                    let held : IsHeld o owner approved (w.workers i) (some t) =
                      subst (λ x. IsHeld o owner approved (w.workers i) x) at2 h in
                    subst
                      (λ x.
                        IsHeld o owner (approved || said) ((mutated now id (f t) w).workers i) x)
                      (sym there2)
                      (subst
                        (λ x.
                          IsHeld o owner (approved || said) x
                            (some (record t2 { updated_at = now })))
                        (sym (mutated-workers o i owner approved now id (f t) w))
                        (answered-IsHeld o i owner approved now (w.workers i) responses t t2 said e
                          said2 held))
              ]
            ]
      ]

  pub apply-HeldIn :
      (now : ℕ) (id : Text) (responses : List (Text × TaskInputResponse)) (w : TaskStore)
      (said : Bool)
      → (find id w.tasks ≡ none) ⊎ (text_eq id i ≡ false) ⊎ Says responses said
      → HeldIn o i owner approved w
      → HeldIn o i owner (approved || said) (apply_input_responses o now id responses w).1
  apply-HeldIn now id responses w said k h = elim (apply-store o now id responses w) [
    | inl same ↦
        subst (λ x. HeldIn o i owner (approved || said) x) (sym same) (later-HeldIn said w h)
    | inr (t, at, e) ↦ elim k [
      | inl missing ↦ absurd cc
      | inr k2 ↦
          subst (λ x. HeldIn o i owner (approved || said) x) (sym e)
            (answered-HeldIn now id responses w t said at k2 h)
    ]
  ]

  pub if-HeldIn {ℓ} :
      {A : Type ℓ} (a b : Bool) (x y : Answer A × TaskStore)
      → HeldIn o i owner a x.1
      → HeldIn o i owner a y.1
      → HeldIn o i owner a (if b then x else y).1
  if-HeldIn a true x y g h = g
  if-HeldIn a false x y g h = h

  pub note-HeldIn :
      (now : ℕ) (p : TasksUpdateParams) (r : Answer Bool × TaskStore)
      → HeldIn o i owner approved r.1
      → HeldIn o i owner approved (then_note o now p r).1
  note-HeldIn now p (fails e, w) h = h
  note-HeldIn now p (gives b, w) h = elim (update_cases o now p.task_id (note_record o p) w) [
    | inl missing ↦ rw missing h
    | inr (t, at, done) ↦
        let w2 : TaskStore = mutated now p.task_id (note_record o p t) w in
        let h2 =
          mutated-HeldIn o i owner approved now p.task_id (note_record o p) w t
            (note_record-IsCareful o p) (note_record-IsCalm o p) at h in
        rw done (
          if-HeldIn approved (terminal t && null (responses_of p)) _ _ h2
            (result_held (get o p.task_id w2) w2 h2))
  ]
    where
      result_held :
          (r : Option TaskRecord) (w2 : TaskStore)
          → HeldIn o i owner approved w2
          → HeldIn o i owner approved (update_result p.task_id w2 r).1
      result_held none w2 g = g
      result_held (some t) w2 g = g
