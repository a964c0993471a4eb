-- ===== src/Tasks/Confirming.antt =====
-- That a tool that needs a confirmation is called only after it: startToolTask of sdk/mcp/tasks.go and
-- waitForInput of sdk/mcp/tasks_input.go.
use vaultrun.Base.{
  Text, ◌≡◌, refl, sym, ◌∙◌, subst, ◌⊎◌, inl, inr, Bool, true, false, ◌||◌, Option, none, some, [],
  arith,
}
use vaultrun.Tasks.Input.{confirm_key}
use vaultrun.Tasks.Store.{Phase, idle, asking, waiting, calling}
use vaultrun.Tasks.Types.{entry, input_required, TaskRecord, is_final, terminal, Outside, has_entry}
use vaultrun.Tasks.Work.{response_approved, or_zero}

-- changes that touch no question and no answer, and leave the status but to finish the task
pub record Calm (t t2 : TaskRecord) : Type 0 where
  pub same_owner : t2.owner ≡ t.owner
  pub same_requests : t2.input_requests ≡ t.input_requests
  pub same_used : t2.used_input_keys ≡ t.used_input_keys
  pub same_responses : t2.input_responses ≡ t.input_responses
  pub same_status : (t2.status ≡ t.status) ⊎ (terminal t2 ≡ true)

unfoldable pub CalmOf : Option TaskRecord → Option TaskRecord → Type 0
CalmOf a none = Unit
CalmOf none (some t) = ⊥
CalmOf (some t) (some t2) = Calm t t2

unfoldable pub IsCalm : (TaskRecord → Option TaskRecord) → Type 0
IsCalm f = (t t2 : TaskRecord) → f t ≡ some t2 → Calm t t2

pub refl-CalmOf : (a : Option TaskRecord) → CalmOf a a
unfolding CalmOf
refl-CalmOf none = tt
refl-CalmOf (some t) = record {
  same_owner = refl;
  same_requests = refl;
  same_used = refl;
  same_responses = refl;
  same_status = inl refl;
}

-- a task whose tool was called, or is not to be called without an approval; `approved` says whether
-- there was one
unfoldable pub Settled : Outside → (approved : Bool) → TaskRecord → Type 0
Settled o approved t =
    (approved ≡ true)
    ⊎ ((has_entry confirm_key t.input_requests ≡ false)
        × (response_approved o (or_zero (entry confirm_key t.input_responses)) ≡ false))

unfoldable pub Waits : Outside → (approved : Bool) → TaskRecord → Type 0
Waits o approved t =
    (terminal t ≡ true)
    ⊎ ((t.status ≡ input_required) × (has_entry confirm_key t.input_requests ≡ true))
    ⊎ Settled o approved t

unfoldable pub IsHeld :
    Outside → (actor : Text) → (approved : Bool) → Phase → Option TaskRecord → Type 0
IsHeld o actor approved idle r = Unit
IsHeld o actor approved calling r = approved ≡ true
IsHeld o actor approved (asking tool) none = Unit
IsHeld o actor approved (asking tool) (some t) =
    (t.owner ≡ actor) × (t.input_requests ≡ []) × (t.used_input_keys ≡ [])
IsHeld o actor approved waiting none = Unit
IsHeld o actor approved waiting (some t) = (t.owner ≡ actor) × Waits o approved t

Calm-Waits :
    (o : Outside) (approved : Bool) (t t2 : TaskRecord)
    → Calm t t2
    → Waits o approved t
    → Waits o approved t2
unfolding Waits Settled
Calm-Waits o approved t t2 c (inl final) = elim c.same_status [
  | inl e ↦ inl (subst (λ s. is_final s ≡ true) (sym e) final)
  | inr final2 ↦ inl final2
]
Calm-Waits o approved t t2 c (inr (inl (s, open_))) = elim c.same_status [
  | inl e ↦
      inr (inl (e ∙ s, subst (λ x. has_entry confirm_key x ≡ true) (sym c.same_requests) open_))
  | inr final2 ↦ inl final2
]
Calm-Waits o approved t t2 c (inr (inr (inl h))) = inr (inr (inl h))
Calm-Waits o approved t t2 c (inr (inr (inr (shut, refused)))) = inr (
    inr (
      inr (
        subst (λ x. has_entry confirm_key x ≡ false) (sym c.same_requests) shut,
        subst (λ x. response_approved o (or_zero (entry confirm_key x)) ≡ false)
            (sym c.same_responses) refused,
      )))

pub calm-IsHeld :
    (o : Outside) (actor : Text) (approved : Bool) (phase : Phase) (a b : Option TaskRecord)
    → CalmOf a b
    → IsHeld o actor approved phase a
    → IsHeld o actor approved phase b
unfolding IsHeld CalmOf
calm-IsHeld o actor approved idle a b c h = tt
calm-IsHeld o actor approved calling a b c h = h
calm-IsHeld o actor approved (asking tool) a none c h = tt
calm-IsHeld o actor approved (asking tool) none (some t2) c h = absurd c
calm-IsHeld o actor approved (asking tool) (some t) (some t2) c (own, none_, new) =
    (c.same_owner ∙ own, c.same_requests ∙ none_, c.same_used ∙ new)
calm-IsHeld o actor approved waiting a none c h = tt
calm-IsHeld o actor approved waiting none (some t2) c h = absurd c
calm-IsHeld o actor approved waiting (some t) (some t2) c (own, w) =
    (c.same_owner ∙ own, Calm-Waits o approved t t2 c w)

later-Waits :
    (o : Outside) (approved more : Bool) (t : TaskRecord)
    → Waits o approved t
    → Waits o (approved || more) t
unfolding Waits Settled
later-Waits o approved more t (inl final) = inl final
later-Waits o approved more t (inr (inl open_)) = inr (inl open_)
later-Waits o approved more t (inr (inr (inl h))) = inr (inr (inl (ground (arith, h))))
later-Waits o approved more t (inr (inr (inr refused))) = inr (inr (inr refused))

-- an approval more holds nothing up
pub later-IsHeld :
    (o : Outside) (actor : Text) (approved more : Bool) (phase : Phase) (a : Option TaskRecord)
    → IsHeld o actor approved phase a
    → IsHeld o actor (approved || more) phase a
unfolding IsHeld
later-IsHeld o actor approved more idle a h = tt
later-IsHeld o actor approved more calling a h = ground (arith, h)
later-IsHeld o actor approved more (asking tool) none h = tt
later-IsHeld o actor approved more (asking tool) (some t) h = h
later-IsHeld o actor approved more waiting none h = tt
later-IsHeld o actor approved more waiting (some t) (own, w) =
    (own, later-Waits o approved more t w)
