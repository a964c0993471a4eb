-- ===== src/Tasks/Ages.antt =====
-- How long a task can go on: the maximal age, which cleanupLoop enforces (sdk/mcp/tasks.go).
use vaultrun.Base.{
  all, Text, ℕ, ◌+◌, ◌-◌, ◌<◌, ◌≡◌, refl, sym, ap, ◌∙◌, subst, inl, inr, Bool, true, false, ◌&&◌,
  not, Option, none, some, List, [], ◌∷◌, arith, ltb, ltb→lt, Bool-cases,
}
use vaultrun.Tasks.Changes.{gone, Fate, there, FateOf}
use vaultrun.Tasks.Events.{step, steps, TaskEvent, cleans}
use vaultrun.Tasks.Lists.{Distinct, kept_of, find-cleaned}
use vaultrun.Tasks.Runs.{step-Distinct, steps-Distinct, new-Distinct, starts_other, steps-FateOf}
use vaultrun.Tasks.Steps.{step-Goes}
use vaultrun.Tasks.Store.{TaskStore, new_task_store, find, is_over_age, age, stays, holds, expire}
use vaultrun.Tasks.Types.{TaskRecord, terminal, Outside}

abbrev pub is_live : Option TaskRecord → Bool
is_live o = holds (λ t. not (terminal t)) o

-- a task that is finished or gone is so ever after
Fate-is_live : (a b : Option TaskRecord) → FateOf a b → is_live a ≡ false → is_live b ≡ false
unfolding FateOf
Fate-is_live none b f h = rw f refl
Fate-is_live (some t) b gone h = refl
Fate-is_live (some t) b (there t2 s (inl live)) h =
    absurd (let k : not (terminal t) ≡ true = ap not live in cc)
Fate-is_live (some t) b (there t2 s (inr same)) h =
    subst (λ x. not (terminal x) ≡ false) (sym same) h

age_stops :
    (now max_age : ℕ) (t : TaskRecord)
    → t.created_at + max_age < now
    → not (terminal (age now max_age t)) ≡ false
unfolding age
age_stops now max_age t old = elim (Bool-cases (terminal t)) [
  | inl final ↦
      let not_over : is_over_age now max_age t ≡ false =
        ap (λ b. not b && ltb t.created_at (now - max_age)) final in
      rw not_over (ap not final)
  | inr live ↦
      let late : ltb t.created_at (now - max_age) ≡ true = ground (arith, old) in
      let over : is_over_age now max_age t ≡ true = ground (arith, live, late) in rw over refl
]

-- started too long ago, or gone
abbrev pub is_old : (now max_age : ℕ) → Option TaskRecord → Bool
is_old now max_age none = true
is_old now max_age (some t) = ltb (t.created_at + max_age) now

kept_of_stops :
    (now max_age ttl : ℕ) (r : Option TaskRecord)
    → is_old now max_age r ≡ true
    → is_live (kept_of now max_age ttl r) ≡ false
kept_of_stops now max_age ttl none h = refl
kept_of_stops now max_age ttl (some t) h =
    let old : t.created_at + max_age < now = ltb→lt (t.created_at + max_age) now h in
    elim (Bool-cases (stays now ttl (age now max_age t))) [
      | inl yes_ ↦ rw yes_ (age_stops now max_age t old)
      | inr no_ ↦ rw no_ refl
    ]

Fate-is_old :
    (b : Option TaskRecord) (t : TaskRecord) (now max_age : ℕ)
    → Fate t b
    → t.created_at + max_age < now
    → is_old now max_age b ≡ true
Fate-is_old b t now max_age gone old = refl
Fate-is_old b t now max_age (there t2 s k) old =
    subst (λ x. ltb (x + max_age) now ≡ true) (sym s.same_created) (ground (arith, old))

steps-max_age :
    (o : Outside) (es : List TaskEvent) (w : TaskStore) → (steps o es w).max_age ≡ w.max_age
unfolding steps
steps-max_age o [] w = refl
steps-max_age o (e ∷ es) w = steps-max_age o es (step o e w) ∙ (step-Goes o e w).same_age

-- a task that is too old stays too old
created_then :
    (a b : Option TaskRecord) (t : TaskRecord) (now max_age : ℕ)
    → FateOf a b
    → a ≡ some t
    → t.created_at + max_age < now
    → is_old now max_age b ≡ true
unfolding FateOf
created_then a b t now max_age f at old =
    Fate-is_old b t now max_age (subst (λ x. FateOf x b) at f) old

-- what a round of cleaning does to a task that is too old
cleaned_stops :
    (o : Outside) (now max_age : ℕ) (i : Text) (w : TaskStore)
    → Distinct w.tasks
    → w.max_age ≡ max_age
    → is_old now max_age (find i w.tasks) ≡ true
    → is_live (find i (step o (cleans now) w).tasks) ≡ false
unfolding step expire
cleaned_stops o now max_age i w d e old = rw (find-cleaned now w.max_age w.ttl i w.tasks d) (
    kept_of_stops now w.max_age w.ttl (find i w.tasks)
      (subst (λ m. is_old now m (find i w.tasks) ≡ true) (sym e) old))

-- A task that started too long ago by the clock of one round of cleaning is finished or gone after that
-- round, and stays so whatever happens then: no goroutine or client can keep a task going beyond the
-- maximal age, as long as no other task is started under its ID.
pub cleans-is_live :
    (o : Outside) (ttl max_age max_inflight : ℕ) (before between after_ : List TaskEvent) (i : Text)
    (t : TaskRecord) (now : ℕ)
    → find i (steps o before (new_task_store ttl max_age max_inflight)).tasks ≡ some t
    → all (starts_other i) between ≡ true
    → all (starts_other i) after_ ≡ true
    → t.created_at + max_age < now
    → is_live (
        find i
          (steps o after_ (
            step o
              (cleans now)
              (steps o between (steps o before (new_task_store ttl max_age max_inflight))))).tasks)
      ≡ false
cleans-is_live o ttl max_age max_inflight before between after_ i t now at fresh fresh2 old =
    let new : TaskStore = new_task_store ttl max_age max_inflight in
    let w : TaskStore = steps o before new in
    let w2 : TaskStore = steps o between w in
    let w3 : TaskStore = step o (cleans now) w2 in
    let d = steps-Distinct o before new new-Distinct in
    let d2 = steps-Distinct o between w d in
    let d3 = step-Distinct o (cleans now) w2 d2 in
    let first = steps-FateOf o i between w fresh d in
    let last = steps-FateOf o i after_ w3 fresh2 d3 in
    let same_age : w2.max_age ≡ max_age = steps-max_age o between w ∙ steps-max_age o before new in
    Fate-is_live (find i w3.tasks) (find i (steps o after_ w3).tasks) last (
      cleaned_stops o now max_age i w2 d2 same_age
        (created_then (find i w.tasks) (find i w2.tasks) t now max_age first at old))
