-- ===== src/Tasks/Calm.antt =====
-- Changes that touch no question and no answer: notes, cleaning, and what is left to ask
-- (sdk/mcp/tasks.go, sdk/mcp/tasks_input.go).
use vaultrun.Base.{
  null, Text, is_empty, ℕ, ◌≡◌, refl, sym, ◌∙◌, subst, inl, inr, true, false, ◌||◌, not, Option,
  none, some, List, [], ◌∷◌, arith, Bool-cases,
}
use vaultrun.Tasks.Careful.{note_record_inv}
use vaultrun.Tasks.Confirming.{Calm, CalmOf, IsCalm}
use vaultrun.Tasks.Input.{go_on, apply_record}
use vaultrun.Tasks.Lists.{kept_of}
use vaultrun.Tasks.Store.{is_over_age, age, stays}
use vaultrun.Tasks.Types.{
  TaskInputRequest, TaskInputResponse, TaskRecord, is_final, terminal, is_input_required, Outside,
  has_entry,
}
use vaultrun.Tasks.Updates.{TasksUpdateParams, with_message, moves, with_progress, note_record}

trans-Calm : (t u v : TaskRecord) → Calm t u → Calm u v → Calm t v
trans-Calm t u v a b = record {
  same_owner = b.same_owner ∙ a.same_owner;
  same_requests = b.same_requests ∙ a.same_requests;
  same_used = b.same_used ∙ a.same_used;
  same_responses = b.same_responses ∙ a.same_responses;
  same_status = elim b.same_status [
    | inr final ↦ inr final
    | inl same ↦ elim a.same_status [
      | inl same2 ↦ inl (same ∙ same2)
      | inr final ↦ inr (subst (λ s. is_final s ≡ true) (sym same) final)
    ]
  ];
}

refl-Calm : (t : TaskRecord) → Calm t t
refl-Calm t = record {
  same_owner = refl;
  same_requests = refl;
  same_used = refl;
  same_responses = refl;
  same_status = inl refl;
}

with_message-Calm : (o : Outside) (msg : Text) (t : TaskRecord) → Calm t (with_message o msg t)
with_message-Calm o msg t = elim (Bool-cases (is_empty msg)) [
  | inl silent ↦ rw silent (refl-Calm t)
  | inr said ↦ rw said (record {
    same_owner = refl;
    same_requests = refl;
    same_used = refl;
    same_responses = refl;
    same_status = inl refl;
  })
]

with_progress-Calm : (p : ℕ) (t : TaskRecord) → Calm t (with_progress p t)
with_progress-Calm p t = elim (Bool-cases (moves p t)) [
  | inr off ↦ rw off (refl-Calm t)
  | inl on ↦ rw on (record {
    same_owner = refl;
    same_requests = refl;
    same_used = refl;
    same_responses = refl;
    same_status = inl refl;
  })
]

pub note_record-IsCalm : (o : Outside) (p : TasksUpdateParams) → IsCalm (note_record o p)
unfolding IsCalm
note_record-IsCalm o p t t2 h =
    let (live, e) = note_record_inv o p t t2 h in
    let u : TaskRecord = with_message o p.message t in
    subst (λ x. Calm t x) (sym e)
      (trans-Calm t u (with_progress p.progress u) (with_message-Calm o p.message t)
        (with_progress-Calm p.progress u))

pub age-Calm : (now max_age : ℕ) (t : TaskRecord) → Calm t (age now max_age t)
unfolding age
age-Calm now max_age t = elim (Bool-cases (is_over_age now max_age t)) [
  | inr young ↦ rw young (refl-Calm t)
  | inl over ↦ rw over (record {
    same_owner = refl;
    same_requests = refl;
    same_used = refl;
    same_responses = refl;
    same_status = inr refl;
  })
]

-- cleaning finishes a task or leaves it
pub cleaned-CalmOf :
    (now max_age ttl : ℕ) (r : Option TaskRecord) → CalmOf r (kept_of now max_age ttl r)
unfolding CalmOf
cleaned-CalmOf now max_age ttl none = tt
cleaned-CalmOf now max_age ttl (some t) = elim (Bool-cases (stays now ttl (age now max_age t))) [
  | inr no_ ↦ rw no_ tt
  | inl yes_ ↦ rw yes_ (age-Calm now max_age t)
]

-- what is left to ask decides only on the status and the message
pub go_on-fields :
    (t : TaskRecord)
    → ((go_on t).owner ≡ t.owner)
      × ((go_on t).input_requests ≡ t.input_requests)
      × ((go_on t).input_responses ≡ t.input_responses)
go_on-fields t = elim (Bool-cases (null t.input_requests)) [
  | inl e ↦ rw e (refl, refl, refl)
  | inr e ↦ rw e (refl, refl, refl)
]

pub has_entry-null :
    (k : Text) (es : List (Text × TaskInputRequest)) → has_entry k es ≡ true → null es ≡ false
has_entry-null k [] h = absurd cc
has_entry-null k (e ∷ es) h = refl

-- without a question that is open, no answer changes anything
pub apply-unasked :
    (responses : List (Text × TaskInputResponse)) (t : TaskRecord)
    → t.input_requests ≡ []
    → apply_record responses t ≡ none
unfolding apply_record
apply-unasked responses t none_ = elim (Bool-cases (terminal t)) [
  | inl final ↦ rw final refl
  | inr live ↦
      let odd : not (is_input_required t.status) || null t.input_requests ≡ true =
        rw none_ (ground arith) in
      rw live (rw odd refl)
]
