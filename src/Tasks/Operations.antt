-- ===== src/Tasks/Operations.antt =====
-- That every request, every round of cleanupLoop and every turn of a goroutine changes the store in
-- the ways of Tasks/Changes (sdk/mcp/tasks.go, sdk/mcp/tasks_input.go).
use vaultrun.Base.{
  Text, codes, ℕ, ◌≡◌, refl, sym, ◌∙◌, subst, ◌⊎◌, inl, inr, true, false, Option, none, some,
  if◌then◌else◌, Bool-cases, Option-cases,
}
use vaultrun.Tasks.Changes.{Stays, Change, untouched, edited, both}
use vaultrun.Tasks.Events.{TaskEvent}
use vaultrun.Tasks.Store.{get, TaskStore, find, mutated, update, ended, cancel_record}
use vaultrun.Tasks.Types.{cancelled, TaskRecord, terminal, Outside, valid_task_id}
use vaultrun.Tasks.Work.{unless_final}

-- from one store to the next, under an event
pub record Goes (e : TaskEvent) (w w2 : TaskStore) : Type 0 where
  pub change : Change w.max_inflight w.max_age e w.tasks w2.tasks
  pub same_max : w2.max_inflight ≡ w.max_inflight
  pub same_age : w2.max_age ≡ w.max_age

-- a function that leaves finished tasks alone, and the fields that are set once
unfoldable pub IsCareful : (TaskRecord → Option TaskRecord) → Type 0
IsCareful f = (t t2 : TaskRecord) → f t ≡ some t2 → (terminal t ≡ false) × Stays t t2

module _ (e : TaskEvent) where
  pub refl-Goes :
      (w w2 : TaskStore)
      → w2.tasks ≡ w.tasks
      → w2.max_inflight ≡ w.max_inflight
      → w2.max_age ≡ w.max_age
      → Goes e w w2
  refl-Goes w w2 p q r = record {
    change = subst (λ x. Change w.max_inflight w.max_age e w.tasks x) (sym p) (untouched w.tasks);
    same_max = q;
    same_age = r;
  }

  pub trans-Goes : (w w2 w3 : TaskStore) → Goes e w w2 → Goes e w2 w3 → Goes e w w3
  trans-Goes w w2 w3 a b = record {
    change = both w.tasks w2.tasks w3.tasks a.change (
        subst (λ m. Change m w.max_age e w2.tasks w3.tasks) a.same_max
          (subst (λ m. Change w2.max_inflight m e w2.tasks w3.tasks) a.same_age b.change));
    same_max = b.same_max ∙ a.same_max;
    same_age = b.same_age ∙ a.same_age;
  }

  pub mutated-Goes :
      (now : ℕ) (id : Text) (f : TaskRecord → Option TaskRecord) (w : TaskStore) (t : TaskRecord)
      → IsCareful f
      → find id w.tasks ≡ some t
      → Goes e w (mutated now id (f t) w)
  unfolding IsCareful
  mutated-Goes now id f w t careful at = elim (Option-cases (f t)) [
    | inl same ↦ rw same (refl-Goes w w refl refl refl)
    | inr (t2, e2) ↦
        let (live, s) = careful t t2 e2 in
        rw e2 (record {
          change =
              edited id t (record t2 { updated_at = now }) w.tasks at live
                (record {
                  same_id = s.same_id;
                  same_owner = s.same_owner;
                  same_created = s.same_created;
                });
          same_max = refl;
          same_age = refl;
        })
  ]

-- an update finds no task, or calls its function
pub update_cases :
    (o : Outside) (now : ℕ) (id : Text) (f : TaskRecord → Option TaskRecord) (w : TaskStore)
    → (update o now id f w ≡ none)
      ⊎ ((t : TaskRecord) × (find id w.tasks ≡ some t)
          × (update o now id f w ≡ some (t, mutated now id (f t) w)))
unfolding update get
update_cases o now id f w = elim (Bool-cases (valid_task_id o id)) [
  | inr bad ↦ inl (rw bad refl)
  | inl good ↦ elim (Option-cases (find id w.tasks)) [
    | inl missing ↦ inl (rw good (rw missing refl))
    | inr (t, at) ↦ inr (t, at, rw good (rw at refl))
  ]
]

pub update-some :
    (o : Outside) (now : ℕ) (id : Text) (f : TaskRecord → Option TaskRecord) (w : TaskStore)
    (t : TaskRecord)
    → valid_task_id o id ≡ true
    → find id w.tasks ≡ some t
    → update o now id f w ≡ some (t, mutated now id (f t) w)
unfolding update get
update-some o now id f w t good at = rw good (rw at refl)

pub unless_final-IsCareful :
    (f : TaskRecord → TaskRecord) → ((t : TaskRecord) → Stays t (f t)) → IsCareful (unless_final f)
unfolding IsCareful
unless_final-IsCareful f s t t2 h = elim (Bool-cases (terminal t)) [
  | inl final ↦ absurd (
      let e : none ≡ some t2 = subst (λ b. (if b then none else some (f t)) ≡ some t2) final h in
      cc)
  | inr live ↦
      let e : some (f t) ≡ some t2 =
        subst (λ b. (if b then none else some (f t)) ≡ some t2) live h in
      let e2 : f t ≡ t2 = cc in (live, subst (λ x. Stays t x) e2 (s t))
]

pub cancel_record-IsCareful : (now : ℕ) → IsCareful (cancel_record now)
cancel_record-IsCareful now =
    unless_final-IsCareful
      (ended cancelled (codes "cancelled") (codes "cancellation requested") now)
      (λ t. record { same_id = refl; same_owner = refl; same_created = refl })
