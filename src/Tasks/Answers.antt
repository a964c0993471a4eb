-- ===== src/Tasks/Answers.antt =====
-- What answers do to the question whether a tool may run: sdk/mcp/tasks_input.go.
use vaultrun.Base.{
  Text, text_eq_iff, text_eq, ◌≡◌, refl, sym, ap, ◌∙◌, subst, ◌⊎◌, inl, inr, true, false, ◌||◌,
  some, List, [], ◌∷◌, if◌then◌else◌, Bool-cases,
}
use vaultrun.Tasks.Input.{answered, answer_all}
use vaultrun.Tasks.Types.{
  entry, TaskInputRequest, TaskInputResponse, TaskRecord, has_entry, without,
}

-- Lists of entries.
has_entry-without_other :
    (k j : Text) (es : List (Text × TaskInputRequest))
    → text_eq j k ≡ false
    → has_entry k (without j es) ≡ has_entry k es
has_entry-without_other k j [] d = refl
has_entry-without_other k j ((n, a) ∷ es) d =
    let rest = has_entry-without_other k j es d in
    elim (Bool-cases (text_eq n j)) [
      | inl same ↦
          let at : text_eq n k ≡ false =
            subst (λ x. text_eq x k ≡ false) (sym ((text_eq_iff n j).0 same)) d in
          rw same (rw at rest)
      | inr other ↦ rw other (ap (λ b. text_eq n k || b) rest)
    ]

has_entry-without_same :
    (k : Text) (es : List (Text × TaskInputRequest)) → has_entry k (without k es) ≡ false
has_entry-without_same k [] = refl
has_entry-without_same k ((n, a) ∷ es) =
    let rest = has_entry-without_same k es in
    elim (Bool-cases (text_eq n k)) [
      | inl same ↦ rw same rest
      | inr other ↦ rw other (rw other rest)
    ]

entry-without_other :
    (k j : Text) (es : List (Text × TaskInputResponse))
    → text_eq j k ≡ false
    → entry k (without j es) ≡ entry k es
entry-without_other k j [] d = refl
entry-without_other k j ((n, a) ∷ es) d =
    let rest = entry-without_other k j es d in
    elim (Bool-cases (text_eq n j)) [
      | inl same ↦
          let at : text_eq n k ≡ false =
            subst (λ x. text_eq x k ≡ false) (sym ((text_eq_iff n j).0 same)) d in
          rw same (rw at rest)
      | inr other ↦ rw other (ap (λ r. if text_eq n k then some a else r) rest)
    ]

pub answer_all-status :
    (responses : List (Text × TaskInputResponse)) (t : TaskRecord)
    → (answer_all responses t).0.status ≡ t.status
unfolding answer_all
answer_all-status [] t = refl
answer_all-status ((k, resp) ∷ more) t =
    let rest = answer_all-status more in
    elim (Bool-cases (has_entry k t.input_requests)) [
      | inl open_ ↦ rw open_ (rest (answered k resp t))
      | inr shut ↦ rw shut (rest t)
    ]

-- the answer to a question that is not open stays
pub answer_all-shut :
    (k : Text) (responses : List (Text × TaskInputResponse)) (t : TaskRecord)
    → has_entry k t.input_requests ≡ false
    → (has_entry k (answer_all responses t).0.input_requests ≡ false)
      × (entry k (answer_all responses t).0.input_responses ≡ entry k t.input_responses)
unfolding answer_all
answer_all-shut k [] t h = (h, refl)
answer_all-shut k ((j, resp) ∷ more) t h =
    let rest = answer_all-shut k more in
    elim (Bool-cases (has_entry j t.input_requests)) [
      | inr shut ↦ rw shut (rest t h)
      | inl open_ ↦ elim (Bool-cases (text_eq j k)) [
        | inl same ↦ absurd (
            let e : has_entry k t.input_requests ≡ true =
              subst (λ x. has_entry x t.input_requests ≡ true) ((text_eq_iff j k).0 same) open_ in
            cc)
        | inr other ↦
            let (a, b) =
              rest (answered j resp t) (has_entry-without_other k j t.input_requests other ∙ h) in
            let first : entry k (answered j resp t).input_responses ≡ entry k t.input_responses =
              rw other (entry-without_other k j t.input_responses other) in
            rw open_ (a, b ∙ first)
      ]
    ]

-- An open question stays open, or its answer is taken up.
pub answer_all-open :
    (k : Text) (responses : List (Text × TaskInputResponse)) (t : TaskRecord)
    → has_entry k t.input_requests ≡ true
    → (has_entry k (answer_all responses t).0.input_requests ≡ true)
      ⊎ ((resp : TaskInputResponse) × (entry k responses ≡ some resp)
          × (has_entry k (answer_all responses t).0.input_requests ≡ false)
          × (entry k (answer_all responses t).0.input_responses ≡ some resp))
unfolding answer_all
answer_all-open k [] t h = inl h
answer_all-open k ((j, resp) ∷ more) t h =
    let rest = answer_all-open k more in
    elim (Bool-cases (text_eq j k)) [
      | inl same ↦
          let e : j ≡ k = (text_eq_iff j k).0 same in
          let open_ : has_entry j t.input_requests ≡ true =
            subst (λ x. has_entry x t.input_requests ≡ true) (sym e) h in
          let shut : has_entry k (answered j resp t).input_requests ≡ false =
            subst (λ x. has_entry x (without j t.input_requests) ≡ false) e
              (has_entry-without_same j t.input_requests) in
          let (a, b) = answer_all-shut k more (answered j resp t) shut in
          let first : entry k (answered j resp t).input_responses ≡ some resp = rw same refl in
          let chosen : entry k ((j, resp) ∷ more) ≡ some resp = rw same refl in
          rw open_ (inr (resp, chosen, a, b ∙ first))
      | inr other ↦
          let chosen : entry k ((j, resp) ∷ more) ≡ entry k more = rw other refl in
          elim (Bool-cases (has_entry j t.input_requests)) [
            | inl open_ ↦ rw open_ (
                rw other (
                  rest (answered j resp t)
                    (has_entry-without_other k j t.input_requests other ∙ h)))
            | inr shut ↦ rw shut (rw other (rest t h))
          ]
    ]
