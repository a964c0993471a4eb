-- ===== src/JobQueue/Order.antt =====
-- Which jobs the workers of internal/jobqueue/queue.go get, and in what order.
use mathlib.Core.List.{append_assoc}
use vaultrun.Base.{
  length, length-append, ℕ, ◌≤◌, ◌<◌, ◌≡◌, refl, sym, ap, ◌∙◌, inl, inr, Bool, true, false, List,
  [], ◌∷◌, ◌++◌, arith, ltb, Bool-cases,
}
use vaultrun.JobQueue.{Job, MemQueue, new_queue, submit, drain, rest_of, first_of, receive}

-- The calls of the API and the workers' receives, in the order in which the channel sees them.
pub data Event : Type 0 where
  submitted : Job → Event
  received : Event
  drained : Event

pub record Trace : Type 0 where
  pub queue : MemQueue
  pub accepted : List Job
  pub taken : List Job

abbrev pub accept : Job → Trace → MemQueue × Bool → Trace
accept j t (q, true) = record t { queue = q; accepted = t.accepted ++ j ∷ [] }
accept j t (q, false) = record t { queue = q }

unfoldable pub happens : Event → Trace → Trace
happens (submitted j) t = accept j t (submit j t.queue)
happens received t = record t {
  queue = (receive t.queue).0;
  taken = t.taken ++ (receive t.queue).1;
}
happens drained t = record t { queue = drain t.queue }

unfoldable pub all_happen : List Event → Trace → Trace
all_happen [] t = t
all_happen (e ∷ es) t = all_happen es (happens e t)

abbrev pub start : ℕ → Trace
start buf_size = record { queue = new_queue buf_size; accepted = []; taken = [] }

-- What was accepted was taken, in the same order, or waits; and no more waits than fits.
pub record IsFair (t : Trace) : Type 0 where
  pub in_order : t.accepted ≡ t.taken ++ t.queue.ch
  pub fits : length t.queue.ch ≤ t.queue.buf_size

accept-IsFair : (j : Job) (t : Trace) → IsFair t → IsFair (accept j t (submit j t.queue))
unfolding submit
accept-IsFair j t f = elim (Bool-cases t.queue.closed) [
  | inl shut ↦ rw shut (record { in_order = f.in_order; fits = f.fits })
  | inr open_ ↦ rw open_ (elim (Bool-cases (ltb (length t.queue.ch) t.queue.buf_size)) [
    | inr full ↦ rw full (record { in_order = f.in_order; fits = f.fits })
    | inl room ↦ rw room (record {
      in_order = ap (λ js. js ++ j ∷ []) f.in_order ∙ append_assoc t.taken t.queue.ch (j ∷ []);
      fits =
          let longer = length-append t.queue.ch (j ∷ []) in
          let below : length t.queue.ch < t.queue.buf_size = ground (arith, room) in
          (omega (arith, longer, below));
    })
  ])
]

-- What is taken off a list and what is left are the list.
first-rest : (js : List Job) → first_of js ++ rest_of js ≡ js
first-rest [] = refl
first-rest (j ∷ js) = refl

length-rest_of : (js : List Job) → length (rest_of js) ≤ length js
length-rest_of [] = omega arith
length-rest_of (j ∷ js) = omega arith

happens-IsFair : (e : Event) (t : Trace) → IsFair t → IsFair (happens e t)
unfolding happens receive
happens-IsFair (submitted j) t f = accept-IsFair j t f
happens-IsFair received t f = record {
  in_order =
      f.in_order
      ∙ ap (λ js. t.taken ++ js) (sym (first-rest t.queue.ch))
      ∙ sym (append_assoc t.taken (first_of t.queue.ch) (rest_of t.queue.ch));
  fits = let shorter = length-rest_of t.queue.ch in omega (arith, shorter, f.fits);
}
happens-IsFair drained t f = record { in_order = f.in_order; fits = f.fits }

all_happen-IsFair_from : (es : List Event) (t : Trace) → IsFair t → IsFair (all_happen es t)
unfolding all_happen
all_happen-IsFair_from [] t f = f
all_happen-IsFair_from (e ∷ es) t f = all_happen-IsFair_from es (happens e t) (happens-IsFair e t f)

-- Whatever the order of submissions, receives and drains, the workers get the accepted jobs in the
-- order of their submission, each once, and what they have not got yet waits in the queue, which
-- never holds more than its capacity.
pub all_happen-IsFair : (buf_size : ℕ) (es : List Event) → IsFair (all_happen es (start buf_size))
unfolding new_queue
all_happen-IsFair buf_size es =
    all_happen-IsFair_from es (start buf_size) (record { in_order = refl; fits = empty_fits })
  where
    empty_fits : length (start buf_size).queue.ch ≤ (start buf_size).queue.buf_size
    empty_fits = omega arith
