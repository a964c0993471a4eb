-- ===== src/Tasks/Turns.antt =====
-- What the requests and the goroutines of the tasks do to a tool that waits for its confirmation:
-- sdk/mcp/tasks.go, sdk/mcp/tasks_input.go.
use vaultrun.Base.{
  Text, codes, text_eq_iff, text_eq_refl, text_eq, ℕ, ◌≡◌, refl, sym, ap, ◌∙◌, subst, ◌⊎◌, inl, inr,
  Bool, true, false, ◌||◌, Option, none, some, List, [], if◌then◌else◌, Bool-cases, Option-cases,
}
use vaultrun.Tasks.Confirming.{Calm, CalmOf, IsCalm, refl-CalmOf, IsHeld, calm-IsHeld}
use vaultrun.Tasks.Input.{check_requests, ask, ask_all, request_record, request_input}
use vaultrun.Tasks.Lists.{find-id, find-replace_same, find-replace_other}
use vaultrun.Tasks.Operations.{IsCareful, update_cases, unless_final-IsCareful}
use vaultrun.Tasks.Store.{Phase, TaskStore, find, set, mutated, ended}
use vaultrun.Tasks.Types.{
  TaskStatus, input_required, TaskInputRequest, TaskRecord, is_final, terminal, TaskError,
  unknown_task, Outside, valid_task_id, fails, gives, has_entry, contains_key,
}
use vaultrun.Tasks.Work.{unless_final, leave, leave_with}

unfoldable pub HeldIn : Outside → (i actor : Text) → (approved : Bool) → TaskStore → Type 0
HeldIn o i actor approved w = IsHeld o actor approved (w.workers i) (find i w.tasks)

pub unless_final-IsCalm :
    (f : TaskRecord → TaskRecord) → ((t : TaskRecord) → Calm t (f t)) → IsCalm (unless_final f)
unfolding IsCalm
unless_final-IsCalm f c t t2 h = elim (Bool-cases (terminal t)) [
  | inl final ↦ absurd (
      let e : none ≡ some t2 = subst (λ b. (if b then none else some (f t)) ≡ some t2) final h in
      cc)
  | inr live ↦
      let e : some (f t) ≡ some t2 =
        subst (λ b. (if b then none else some (f t)) ≡ some t2) live h in
      let e2 : f t ≡ t2 = cc in subst (λ x. Calm t x) e2 (c t)
]

-- a task that is finished, whatever else it was
pub ended-Calm :
    (s : TaskStatus) (err msg : Text) (now : ℕ) (t : TaskRecord)
    → is_final s ≡ true
    → Calm t (ended s err msg now t)
ended-Calm s err msg now t final = record {
  same_owner = refl;
  same_requests = refl;
  same_used = refl;
  same_responses = refl;
  same_status = inr final;
}

module _ (i : Text) (now : ℕ) (id : Text) (f : TaskRecord → Option TaskRecord)
    (careful : IsCareful f) where
  pub mutated-other :
      (w : TaskStore) (t : TaskRecord)
      → find id w.tasks ≡ some t
      → text_eq id i ≡ false
      → find i (mutated now id (f t) w).tasks ≡ find i w.tasks
  unfolding IsCareful
  mutated-other w t at other = elim (Option-cases (f t)) [
    | inl same ↦ rw same refl
    | inr (t2, e) ↦
        let (live, s) = careful t t2 e in
        let k =
          find-replace_other i id (record t2 { updated_at = now }) w.tasks
            (s.same_id ∙ find-id id w.tasks t at) other in
        rw e k
  ]

  pub mutated-same :
      (w : TaskStore) (t t2 : TaskRecord)
      → find id w.tasks ≡ some t
      → f t ≡ some t2
      → find id (mutated now id (f t) w).tasks ≡ some (record t2 { updated_at = now })
  unfolding IsCareful
  mutated-same w t t2 at e =
      let (live, s) = careful t t2 e in
      let k =
        find-replace_same id (record t2 { updated_at = now }) t w.tasks at
          (s.same_id ∙ find-id id w.tasks t at) in
      rw e k

  pub mutated-CalmOf :
      (w : TaskStore) (t : TaskRecord)
      → IsCalm f
      → find id w.tasks ≡ some t
      → CalmOf (find i w.tasks) (find i (mutated now id (f t) w).tasks)
  unfolding IsCalm CalmOf
  mutated-CalmOf w t calm at = elim (Bool-cases (text_eq id i)) [
    | inr other ↦
        subst (λ x. CalmOf (find i w.tasks) x) (sym (mutated-other w t at other))
          (refl-CalmOf (find i w.tasks))
    | inl same ↦
        let e : id ≡ i = (text_eq_iff id i).0 same in
        subst (λ k. CalmOf (find k w.tasks) (find k (mutated now id (f t) w).tasks)) e
          (elim (Option-cases (f t)) [
            | inl none_ ↦ rw none_ (refl-CalmOf (find id w.tasks))
            | inr (t2, e2) ↦
                let c = calm t t2 e2 in
                let after_ = mutated-same w t t2 at e2 in
                let new : Calm t (record t2 { updated_at = now }) = record {
                  same_owner = c.same_owner;
                  same_requests = c.same_requests;
                  same_used = c.same_used;
                  same_responses = c.same_responses;
                  same_status = c.same_status;
                } in
                subst (λ x. CalmOf x (find id (mutated now id (f t) w).tasks)) (sym at)
                  (subst (λ x. CalmOf (some t) x) (sym after_) new)
          ])
  ]

-- a question that is asked for the first time
pub ask_first :
    (k : Text) (req : TaskInputRequest) (t : TaskRecord)
    → t.input_requests ≡ []
    → t.used_input_keys ≡ []
    → (has_entry k (ask k req t).input_requests ≡ true) × ((ask k req t).owner ≡ t.owner)
ask_first k req t none_ new =
    let first : contains_key k t.used_input_keys || has_entry k t.input_requests ≡ false =
      rw new (rw none_ refl) in
    rw first (rw (text_eq_refl k) (refl, refl))

pub request_record-some :
    (requests : List (Text × TaskInputRequest)) (t : TaskRecord)
    → terminal t ≡ false
    → request_record requests t
      ≡ some (record (ask_all requests t) {
        status = input_required;
        message = codes "waiting for input";
      })
unfolding request_record
request_record-some requests t live = rw live refl

pub request_record-none :
    (requests : List (Text × TaskInputRequest)) (t : TaskRecord)
    → terminal t ≡ true
    → request_record requests t ≡ none
unfolding request_record
request_record-none requests t final = rw final refl

pub request_input-cases :
    (o : Outside) (now : ℕ) (id : Text) (requests : List (Text × TaskInputRequest)) (w : TaskStore)
    → ((err : TaskError) × (request_input o now id requests w ≡ (fails err, w)))
      ⊎ ((t : TaskRecord) × (find id w.tasks ≡ some t)
          × (request_input o now id requests w
              ≡ (gives tt, mutated now id (request_record requests t) w)))
unfolding request_input
request_input-cases o now id requests w = elim (Bool-cases (valid_task_id o id)) [
  | inr bad ↦ inl (unknown_task id, rw bad refl)
  | inl good ↦ elim (Option-cases (check_requests requests)) [
    | inr (err, wrong) ↦ inl (err, rw good (rw wrong refl))
    | inl fit ↦ elim (update_cases o now id (request_record requests) w) [
      | inl missing ↦ inl (unknown_task id, rw good (rw fit (rw missing refl)))
      | inr (t, at, done) ↦ inr (t, at, rw good (rw fit (rw done refl)))
    ]
  ]
]

module _ (o : Outside) (i actor : Text) (approved : Bool) where
  -- a goroutine that ends, and another's
  pub set_phase-HeldIn :
      (id : Text) (phase : Phase) (w w2 : TaskStore)
      → find i w2.tasks ≡ find i w.tasks
      → w2.workers i ≡ set id phase w.workers i
      → text_eq i id ≡ false
      → HeldIn o i actor approved w
      → HeldIn o i actor approved w2
  unfolding HeldIn
  set_phase-HeldIn id phase w w2 e p other h =
      let q : w2.workers i ≡ w.workers i = p ∙ ap (λ b. if b then phase else w.workers i) other in
      subst (λ x. IsHeld o actor approved x (find i w2.tasks)) (sym q)
        (subst (λ x. IsHeld o actor approved (w.workers i) x) (sym e) h)

  pub leave-HeldIn :
      (id : Text) (w : TaskStore)
      → HeldIn o i actor approved w
      → HeldIn o i actor approved (leave id w)
  unfolding HeldIn leave IsHeld
  leave-HeldIn id w h = elim (Bool-cases (text_eq i id)) [
    | inl same ↦ rw same tt
    | inr other ↦ rw other h
  ]

  pub calm-HeldIn :
      (w w2 : TaskStore)
      → CalmOf (find i w.tasks) (find i w2.tasks)
      → w2.workers i ≡ w.workers i
      → HeldIn o i actor approved w
      → HeldIn o i actor approved w2
  unfolding HeldIn
  calm-HeldIn w w2 c p h =
      subst (λ x. IsHeld o actor approved x (find i w2.tasks)) (sym p)
        (calm-IsHeld o actor approved (w.workers i) (find i w.tasks) (find i w2.tasks) c h)

  pub mutated-workers :
      (now : ℕ) (id : Text) (r : Option TaskRecord) (w : TaskStore)
      → (mutated now id r w).workers i ≡ w.workers i
  mutated-workers now id none w = refl
  mutated-workers now id (some t) w = refl

  pub mutated-HeldIn :
      (now : ℕ) (id : Text) (f : TaskRecord → Option TaskRecord) (w : TaskStore) (t : TaskRecord)
      → IsCareful f
      → IsCalm f
      → find id w.tasks ≡ some t
      → HeldIn o i actor approved w
      → HeldIn o i actor approved (mutated now id (f t) w)
  mutated-HeldIn now id f w t careful calm at h =
      calm-HeldIn w (mutated now id (f t) w) (mutated-CalmOf i now id f careful w t calm at)
        (mutated-workers now id (f t) w) h

  pub leave_with-HeldIn :
      (now : ℕ) (id : Text) (f : TaskRecord → Option TaskRecord) (w : TaskStore)
      → IsCareful f
      → IsCalm f
      → HeldIn o i actor approved w
      → HeldIn o i actor approved (leave_with o now id f w)
  leave_with-HeldIn now id f w careful calm h = elim (update_cases o now id f w) [
    | inl missing ↦ rw missing (leave-HeldIn id w h)
    | inr (t, at, done) ↦
        rw done
          (leave-HeldIn id (mutated now id (f t) w) (mutated-HeldIn now id f w t careful calm at h))
  ]

  -- the end of a goroutine that finishes its task
  pub stop-HeldIn :
      (now : ℕ) (id : Text) (s : TaskStatus) (err msg : Text) (w : TaskStore)
      → is_final s ≡ true
      → HeldIn o i actor approved w
      → HeldIn o i actor approved (leave_with o now id (unless_final (ended s err msg now)) w)
  stop-HeldIn now id s err msg w final h =
      leave_with-HeldIn now id (unless_final (ended s err msg now)) w
        (unless_final-IsCareful (ended s err msg now)
          (λ t. record { same_id = refl; same_owner = refl; same_created = refl }))
        (unless_final-IsCalm (ended s err msg now) (λ t. ended-Calm s err msg now t final)) h
