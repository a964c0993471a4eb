-- ===== src/Tasks/Called.antt =====
-- That a tool that needs a confirmation is called only after one who may act on its task has approved:
-- whole runs (sdk/mcp/tasks.go).
use vaultrun.Base.{
  all, any, Text, codes, text_eq_iff, text_eq_refl, is_empty, text_eq, ℕ, ◌≡◌, refl, subst, ◌≢◌,
  ◌⊎◌, inl, inr, Bool, true, false, ◌&&◌, ◌||◌, Option, none, some, List, [], ◌∷◌, arith, leb,
  Bool-cases, and-eq_true,
}
use vaultrun.Tasks.Approval.{approves, OwnedBy, Fate-OwnedBy, step-HeldIn}
use vaultrun.Tasks.Changes.{Change-Distinct, FateOf, Change-FateOf}
use vaultrun.Tasks.Confirmed.{later-HeldIn}
use vaultrun.Tasks.Confirming.{IsHeld}
use vaultrun.Tasks.Events.{
  step, steps, TaskEvent, starts, cancels_task, updates, cleans, takes_turn, restarts,
}
use vaultrun.Tasks.Input.{confirm_key}
use vaultrun.Tasks.Lists.{Distinct}
use vaultrun.Tasks.Owners.{succeeds}
use vaultrun.Tasks.Runs.{step-Distinct, steps-Distinct, new-Distinct, starts_other}
use vaultrun.Tasks.Steps.{start_tool_task-Goes, step-Goes}
use vaultrun.Tasks.Store.{
  Phase, idle, asking, waiting, calling, TaskStore, new_task_store, find, insert, inflight,
  put_task, holds,
}
use vaultrun.Tasks.Turns.{HeldIn}
use vaultrun.Tasks.Types.{entry, TaskInputResponse, TaskRecord, Outside, valid_task_id, may_access}
use vaultrun.Tasks.Updates.{TasksUpdateParams, responses_of}
use vaultrun.Tasks.Work.{
  is_refusal, approved_content, response_approved, wants_confirm, new_record, start_tool_task,
}

or_assoc : (a b c : Bool) → ((a || b) || c) ≡ (a || (b || c))
or_assoc a b c = ground arith

steps-HeldIn :
    (o : Outside) (i owner : Text) (approved : Bool) (es : List TaskEvent) (w : TaskStore)
    → all (starts_other i) es ≡ true
    → Distinct w.tasks
    → OwnedBy owner (find i w.tasks)
    → HeldIn o i owner approved w
    → HeldIn o i owner (approved || any (approves o i owner) es) (steps o es w)
unfolding steps
steps-HeldIn o i owner approved [] w fresh d own h = later-HeldIn o i owner approved false w h
steps-HeldIn o i owner approved (e ∷ es) w fresh d own h =
    let (first, rest) = and-eq_true (starts_other i e) (all (starts_other i) es) fresh in
    let w2 : TaskStore = step o e w in
    let new : restarts i e ≡ false = ground (arith, first) in
    let f : FateOf (find i w.tasks) (find i w2.tasks) =
      Change-FateOf w.max_inflight w.max_age e i new w.tasks w2.tasks (step-Goes o e w).change d in
    let own2 = Fate-OwnedBy owner (find i w.tasks) (find i w2.tasks) f own in
    subst (λ a. HeldIn o i owner a (steps o es w2))
      (or_assoc approved (approves o i owner e) (any (approves o i owner) es))
      (steps-HeldIn o i owner (approved || approves o i owner e) es w2 rest (step-Distinct o e w d)
        own2 (step-HeldIn o i owner approved e w first d own h))

find-insert_same : (t : TaskRecord) (ts : List TaskRecord) → find t.id (insert t ts) ≡ some t
unfolding find insert
find-insert_same t [] = rw (text_eq_refl t.id) refl
find-insert_same t (u ∷ ts) = elim (Bool-cases (text_eq u.id t.id)) [
  | inl same ↦ rw same (rw (text_eq_refl t.id) refl)
  | inr other ↦ rw other (rw other (find-insert_same t ts))
]

abbrev pub is_calling : Phase → Bool
is_calling calling = true
is_calling _ = false

calling-approved :
    (o : Outside) (owner : Text) (approved : Bool) (phase : Phase) (r : Option TaskRecord)
    → IsHeld o owner approved phase r
    → is_calling phase ≡ true
    → approved ≡ true
unfolding IsHeld
calling-approved o owner approved calling r h k = h
calling-approved o owner approved idle r h k = absurd cc
calling-approved o owner approved waiting r h k = absurd cc
calling-approved o owner approved (asking tool) r h k = absurd cc

start_bad :
    (o : Outside) (now : ℕ) (owner i name args : Text) (w : TaskStore)
    → valid_task_id o i ≡ false
    → succeeds (start_tool_task o now owner i name args w).0 ≡ false
unfolding start_tool_task put_task
start_bad o now owner i name args w bad = rw bad refl

start_full :
    (o : Outside) (now : ℕ) (owner i name args : Text) (w : TaskStore)
    → leb w.max_inflight (inflight w.tasks) ≡ true
    → succeeds (start_tool_task o now owner i name args w).0 ≡ false
unfolding start_tool_task put_task
start_full o now owner i name args w full = elim (Bool-cases (valid_task_id o i)) [
  | inr bad ↦ rw bad refl
  | inl good ↦ rw good (rw full refl)
]

-- a task that has just started and is to be confirmed
started-HeldIn :
    (o : Outside) (now : ℕ) (owner i name args : Text) (w : TaskStore)
    → wants_confirm o args ≡ true
    → succeeds (start_tool_task o now owner i name args w).0 ≡ true
    → HeldIn o i owner false (start_tool_task o now owner i name args w).1
      × OwnedBy owner (find i (start_tool_task o now owner i name args w).1.tasks)
unfolding start_tool_task put_task HeldIn IsHeld OwnedBy
started-HeldIn o now owner i name args w confirm ok = elim (Bool-cases (valid_task_id o i)) [
  | inr bad ↦ absurd (let e = start_bad o now owner i name args w bad in cc)
  | inl good ↦ elim (Bool-cases (leb w.max_inflight (inflight w.tasks))) [
    | inl full ↦ absurd (let e = start_full o now owner i name args w full in cc)
    | inr room ↦
        let there_ = find-insert_same (new_record now owner i name) w.tasks in
        rw good (rw room (rw confirm (rw (text_eq_refl i) (rw there_ ((refl, refl, refl), refl)))))
  ]
]

-- an answer in words: an empty one that accepts, or names no action; one whose content says that it is
-- approved, and whose action is no refusal; or one that accepts, with a content that does not say
pub data Consents (o : Outside) (resp : TaskInputResponse) : Type 0 where
  accepts :
      resp.content ≡ [] → (resp.action ≡ codes "accept") ⊎ (resp.action ≡ []) → Consents o resp
  says_yes :
      resp.action ≢ codes "decline"
      → resp.action ≢ codes "cancel"
      → o.approved_member resp.content ≡ some (some true)
      → Consents o resp
  accepts_silently :
      resp.action ≡ codes "accept" → o.approved_member resp.content ≡ some none → Consents o resp

-- an update of the task by its owner, or where one of the two has no identity, that consents
pub record IsApproval (o : Outside) (i owner : Text) (e : TaskEvent) : Type 0 where
  pub at : ℕ
  pub actor : Text
  pub params : TasksUpdateParams
  pub resp : TaskInputResponse
  pub is_update : e ≡ updates at actor params
  pub of_task : params.task_id ≡ i
  pub by_owner : (owner ≡ []) ⊎ (actor ≡ []) ⊎ (owner ≡ actor)
  pub answers : entry confirm_key (responses_of params) ≡ some resp
  pub consents : Consents o resp

empty-nil : (s : Text) → is_empty s ≡ true → s ≡ []
empty-nil [] h = refl
empty-nil (c ∷ s) h = cc

not_action : (s t : Text) → text_eq s t ≡ false → s ≢ t
not_action s t h = λ e. (let k = (text_eq_iff s t).1 e in cc)

approved_content-Consents :
    (o : Outside) (resp : TaskInputResponse) (said : Option (Option Bool))
    → o.approved_member resp.content ≡ said
    → text_eq resp.action (codes "decline") ≡ false
    → text_eq resp.action (codes "cancel") ≡ false
    → approved_content resp.action said ≡ true
    → Consents o resp
approved_content-Consents o resp none e d c h = absurd cc
approved_content-Consents o resp (some none) e d c h =
    accepts_silently ((text_eq_iff resp.action (codes "accept")).0 h) e
approved_content-Consents o resp (some (some false)) e d c h = absurd cc
approved_content-Consents o resp (some (some true)) e d c h =
    says_yes (not_action resp.action (codes "decline") d)
      (not_action resp.action (codes "cancel") c) e

or_split : (a b : Bool) → (a || b) ≡ true → (a ≡ true) ⊎ (b ≡ true)
or_split true b h = inl refl
or_split false b h = inr h

or_none : (a b : Bool) → (a || b) ≡ false → (a ≡ false) × (b ≡ false)
or_none a b h = ground arith

-- what responseApproved takes for an approval
response_approved-Consents :
    (o : Outside) (resp : TaskInputResponse) → response_approved o resp ≡ true → Consents o resp
unfolding response_approved
response_approved-Consents o resp h = elim (Bool-cases (is_refusal resp.action)) [
  | inl refused ↦ absurd (let k = rw refused at h in cc)
  | inr free ↦
      let (d, c) =
        or_none (text_eq resp.action (codes "decline")) (text_eq resp.action (codes "cancel"))
          free in
      elim (Bool-cases (is_empty resp.content)) [
        | inl bare ↦
            let k = rw (free, bare) at h in
            accepts (empty-nil resp.content bare) (elim (or_split _ _ k) [
              | inl yes_ ↦ inl ((text_eq_iff resp.action (codes "accept")).0 yes_)
              | inr silent ↦ inr (empty-nil resp.action silent)
            ])
        | inr full ↦
            approved_content-Consents o resp (o.approved_member resp.content) refl d c
              (rw (free, full) at h)
      ]
]

holds_some :
    (o : Outside) (r : Option TaskInputResponse)
    → holds (response_approved o) r ≡ true
    → (resp : TaskInputResponse) × (r ≡ some resp) × Consents o resp
holds_some o none h = absurd cc
holds_some o (some resp) h = (resp, refl, response_approved-Consents o resp h)

may_access_cases :
    (owner actor : Text)
    → may_access owner actor ≡ true
    → (owner ≡ []) ⊎ (actor ≡ []) ⊎ (owner ≡ actor)
unfolding may_access
may_access_cases owner actor h =
    elim (or_split (is_empty owner || is_empty actor) (text_eq owner actor) h) [
      | inr e ↦ inr (inr ((text_eq_iff owner actor).0 e))
      | inl k ↦ elim (or_split (is_empty owner) (is_empty actor) k) [
        | inl e ↦ inl (empty-nil owner e)
        | inr e ↦ inr (inl (empty-nil actor e))
      ]
    ]

approves-IsApproval :
    (o : Outside) (i owner : Text) (e : TaskEvent)
    → approves o i owner e ≡ true
    → IsApproval o i owner e
approves-IsApproval o i owner (updates now actor p) h =
    let (k, k2) =
      and-eq_true (text_eq p.task_id i && may_access owner actor)
        (holds (response_approved o) (entry confirm_key (responses_of p))) h in
    let (same, may) = and-eq_true (text_eq p.task_id i) (may_access owner actor) k in
    let (r, found, good) = holds_some o (entry confirm_key (responses_of p)) k2 in
    record {
      at = now;
      actor = actor;
      params = p;
      resp = r;
      is_update = refl;
      of_task = (text_eq_iff p.task_id i).0 same;
      by_owner = may_access_cases owner actor may;
      answers = found;
      consents = good;
    }
approves-IsApproval o i owner (starts now actor id name args) h = absurd cc
approves-IsApproval o i owner (cancels_task now actor id) h = absurd cc
approves-IsApproval o i owner (cleans now) h = absurd cc
approves-IsApproval o i owner (takes_turn now id outcome) h = absurd cc

-- an approval is among the events
unfoldable pub HasApproval : Outside → (i owner : Text) → List TaskEvent → Type 0
HasApproval o i owner [] = ⊥
HasApproval o i owner (e ∷ es) = IsApproval o i owner e ⊎ HasApproval o i owner es

any-HasApproval :
    (o : Outside) (i owner : Text) (es : List TaskEvent)
    → any (approves o i owner) es ≡ true
    → HasApproval o i owner es
unfolding HasApproval
any-HasApproval o i owner [] h = absurd cc
any-HasApproval o i owner (e ∷ es) h =
    elim (or_split (approves o i owner e) (any (approves o i owner) es) h) [
      | inl here ↦ inl (approves-IsApproval o i owner e here)
      | inr more ↦ inr (any-HasApproval o i owner es more)
    ]

-- Where a tool asks for a confirmation, and its task was started and no other is under the same ID, the
-- goroutine calls the tool only after an update of that task that consents, by its owner or where the
-- owner or the caller has no identity, whatever else is requested, cleaned up, cancelled or answered, and
-- in whatever order the goroutines take their turns. To consent is to accept with no content or with one
-- that does not say; to give no action and no content, which an answer does that is an error; or, with
-- an action other than decline and cancel, a content that says approved.
pub calling-approves :
    (o : Outside) (ttl max_age max_inflight : ℕ) (before after_ : List TaskEvent) (now : ℕ)
    (owner i name args : Text)
    → wants_confirm o args ≡ true
    → succeeds
        (start_tool_task o now owner i name args
          (steps o before (new_task_store ttl max_age max_inflight))).0
      ≡ true
    → all (starts_other i) after_ ≡ true
    → is_calling (
        (steps o after_
            (start_tool_task o now owner i name args
              (steps o before (new_task_store ttl max_age max_inflight))).1).workers
          i)
      ≡ true
    → HasApproval o i owner after_
unfolding HeldIn
calling-approves o ttl max_age max_inflight before after_ now owner i name args confirm ok fresh
      calls =
    let w : TaskStore = steps o before (new_task_store ttl max_age max_inflight) in
    let w2 : TaskStore = (start_tool_task o now owner i name args w).1 in
    let d : Distinct w.tasks =
      steps-Distinct o before (new_task_store ttl max_age max_inflight) new-Distinct in
    let g = start_tool_task-Goes o now owner i name args w in
    let d2 : Distinct w2.tasks =
      Change-Distinct w.max_inflight w.max_age (starts now owner i name args) w.tasks w2.tasks
        g.change d in
    let (held, own) = started-HeldIn o now owner i name args w confirm ok in
    let held2 = steps-HeldIn o i owner false after_ w2 fresh d2 own held in
    any-HasApproval o i owner after_ (
      calling-approved o owner (any (approves o i owner) after_) ((steps o after_ w2).workers i)
        (find i (steps o after_ w2).tasks) held2 calls)
