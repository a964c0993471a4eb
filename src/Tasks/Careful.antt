-- ===== src/Tasks/Careful.antt =====
-- That the functions which `update` is given leave finished tasks alone, and the fields that are set once:
-- sdk/mcp/tasks.go, sdk/mcp/tasks_input.go.
use vaultrun.Base.{
  null, Text, codes, is_empty, ℕ, ◌≡◌, refl, sym, subst, inl, inr, Bool, true, false, ◌||◌, not,
  none, some, List, [], ◌∷◌, arith, if◌then◌else◌, Bool-cases,
}
use vaultrun.Tasks.Changes.{Stays, refl-Stays, trans-Stays}
use vaultrun.Tasks.Input.{
  ask_all, request_record, answered, answer_all, go_on, when_changed, apply_record,
}
use vaultrun.Tasks.Operations.{IsCareful, unless_final-IsCareful}
use vaultrun.Tasks.Types.{
  input_required, TaskInputRequest, TaskInputResponse, TaskRecord, terminal, is_input_required,
  Outside, has_entry, contains_key,
}
use vaultrun.Tasks.Updates.{TasksUpdateParams, with_message, moves, with_progress, note_record}

ask_all-Stays :
    (requests : List (Text × TaskInputRequest)) (t : TaskRecord) → Stays t (ask_all requests t)
unfolding ask_all
ask_all-Stays [] t = refl-Stays t
ask_all-Stays ((k, req) ∷ more) t =
    let rest = ask_all-Stays more in
    elim (Bool-cases (contains_key k t.used_input_keys || has_entry k t.input_requests)) [
      | inl used ↦ rw used (rest t)
      | inr new ↦ rw new (
          trans-Stays t
            (record t {
              input_requests = (k, req) ∷ t.input_requests;
              used_input_keys = k ∷ t.used_input_keys;
            })
            _ (record { same_id = refl; same_owner = refl; same_created = refl }) (rest _))
    ]

pub request_record-IsCareful :
    (requests : List (Text × TaskInputRequest)) → IsCareful (request_record requests)
unfolding request_record
request_record-IsCareful requests =
    unless_final-IsCareful
      (λ t. record (ask_all requests t) {
        status = input_required;
        message = codes "waiting for input";
      })
      (λ t.
        let s = ask_all-Stays requests t in
        record { same_id = s.same_id; same_owner = s.same_owner; same_created = s.same_created })

answer_all-Stays :
    (responses : List (Text × TaskInputResponse)) (t : TaskRecord)
    → Stays t (answer_all responses t).0
unfolding answer_all
answer_all-Stays [] t = refl-Stays t
answer_all-Stays ((k, resp) ∷ more) t =
    let rest = answer_all-Stays more in
    elim (Bool-cases (has_entry k t.input_requests)) [
      | inl open_ ↦ rw open_ (
          trans-Stays t (answered k resp t) _
            (record { same_id = refl; same_owner = refl; same_created = refl })
            (rest (answered k resp t)))
      | inr shut ↦ rw shut (rest t)
    ]

go_on-Stays : (t : TaskRecord) → Stays t (go_on t)
go_on-Stays t = elim (Bool-cases (null t.input_requests)) [
  | inl done ↦ rw done (record { same_id = refl; same_owner = refl; same_created = refl })
  | inr more ↦ rw more (record { same_id = refl; same_owner = refl; same_created = refl })
]

when_changed_inv :
    (q : TaskRecord × Bool) (t2 : TaskRecord) → when_changed q ≡ some t2 → t2 ≡ go_on q.0
when_changed_inv (t, false) t2 h = absurd cc
when_changed_inv (t, true) t2 h = let e : go_on t ≡ t2 = cc in sym e

-- what an answer that changes a task was given, and what it makes of it
pub apply_record_inv :
    (responses : List (Text × TaskInputResponse)) (t t2 : TaskRecord)
    → apply_record responses t ≡ some t2
    → (terminal t ≡ false)
      × (is_input_required t.status ≡ true)
      × (t2 ≡ go_on (answer_all responses t).0)
unfolding apply_record
apply_record_inv responses t t2 h = elim (Bool-cases (terminal t)) [
  | inl final ↦ absurd (
      let e : none ≡ some t2 =
        subst
          (λ b.
            (if b
              then none
              else if not (is_input_required t.status) || null t.input_requests
              then none
              else when_changed (answer_all responses t))
            ≡ some t2)
          final h in
      cc)
  | inr live ↦
      let e : (if not (is_input_required t.status) || null t.input_requests
            then none
            else when_changed (answer_all responses t))
          ≡ some t2 =
        subst
          (λ b.
            (if b
              then none
              else if not (is_input_required t.status) || null t.input_requests
              then none
              else when_changed (answer_all responses t))
            ≡ some t2)
          live h in
      elim (Bool-cases (not (is_input_required t.status) || null t.input_requests)) [
        | inl odd ↦ absurd (
            let e2 : none ≡ some t2 =
              subst (λ b. (if b then none else when_changed (answer_all responses t)) ≡ some t2) odd
                e in
            cc)
        | inr fit ↦
            let e2 : when_changed (answer_all responses t) ≡ some t2 =
              subst (λ b. (if b then none else when_changed (answer_all responses t)) ≡ some t2) fit
                e in
            (live, ground (arith, fit), when_changed_inv (answer_all responses t) t2 e2)
      ]
]

pub apply_record-IsCareful :
    (responses : List (Text × TaskInputResponse)) → IsCareful (apply_record responses)
unfolding IsCareful
apply_record-IsCareful responses t t2 h =
    let (live, asked_, e) = apply_record_inv responses t t2 h in
    (
      live,
      subst (λ x. Stays t x) (sym e)
          (trans-Stays t (answer_all responses t).0 (go_on (answer_all responses t).0)
            (answer_all-Stays responses t) (go_on-Stays (answer_all responses t).0)),
    )

with_message-Stays : (o : Outside) (msg : Text) (t : TaskRecord) → Stays t (with_message o msg t)
with_message-Stays o msg t = elim (Bool-cases (is_empty msg)) [
  | inl silent ↦ rw silent (refl-Stays t)
  | inr said ↦ rw said (record { same_id = refl; same_owner = refl; same_created = refl })
]

with_progress-Stays : (p : ℕ) (t : TaskRecord) → Stays t (with_progress p t)
with_progress-Stays p t = elim (Bool-cases (moves p t)) [
  | inl on ↦ rw on (record { same_id = refl; same_owner = refl; same_created = refl })
  | inr off ↦ rw off (refl-Stays t)
]

-- what a note that changes a task makes of it
pub note_record_inv :
    (o : Outside) (p : TasksUpdateParams) (t t2 : TaskRecord)
    → note_record o p t ≡ some t2
    → (terminal t ≡ false) × (t2 ≡ with_progress p.progress (with_message o p.message t))
unfolding note_record
note_record_inv o p t t2 h =
    let new : TaskRecord = with_progress p.progress (with_message o p.message t) in
    let says : Bool = not (is_empty p.message) || moves p.progress t in
    elim (Bool-cases (terminal t)) [
      | inl final ↦ absurd (
          let e : none ≡ some t2 =
            subst (λ b. (if b then none else if says then some new else none) ≡ some t2) final h in
          cc)
      | inr live ↦
          let e : (if says then some new else none) ≡ some t2 =
            subst (λ b. (if b then none else if says then some new else none) ≡ some t2) live h in
          elim (Bool-cases says) [
            | inl on ↦
                let e2 : some new ≡ some t2 =
                  subst (λ b. (if b then some new else none) ≡ some t2) on e in
                let e3 : t2 ≡ new = cc in (live, e3)
            | inr off ↦ absurd (
                let e2 : none ≡ some t2 =
                  subst (λ b. (if b then some new else none) ≡ some t2) off e in
                cc)
          ]
    ]

pub note_record-IsCareful : (o : Outside) (p : TasksUpdateParams) → IsCareful (note_record o p)
unfolding IsCareful
note_record-IsCareful o p t t2 h =
    let (live, e) = note_record_inv o p t t2 h in
    (
      live,
      subst (λ x. Stays t x) (sym e)
          (trans-Stays t (with_message o p.message t)
            (with_progress p.progress (with_message o p.message t))
            (with_message-Stays o p.message t)
            (with_progress-Stays p.progress (with_message o p.message t))),
    )
