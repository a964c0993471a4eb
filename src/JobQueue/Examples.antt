-- ===== src/JobQueue/Examples.antt =====
-- Tests and witnesses for the queue of runs of internal/jobqueue/queue.go.
use vaultrun.Base.{
  Text, codes, ℕ, ◌≡◌, refl, Option, none, some, List, [], ◌∷◌, ◌==◌, if◌then◌else◌,
}
use vaultrun.JobQueue.{
  Job, new_queue, submit, receive, Payload, payload_of, Response, no_response, status,
  callback_max_attempts, callback_initial_delay, attempt_once, attempts, signed, send_callback,
}
use vaultrun.JobQueue.Order.{
  Event, submitted, received, drained, happens, all_happen, start, IsFair, all_happen-IsFair,
}
use vaultrun.JobQueue.Retries.{expected, send_callback-expected}

abbrev job : ℕ → Job
job n = record { run_id = n; timeout_seconds = 0; callback_url = codes "http://ci/done" }

-- Two jobs fit; the third comes after a receive, and the last after the drain.
abbrev day : List Event
day =
    submitted (job 1)
    ∷ submitted (job 2)
    ∷ submitted (job 9)
    ∷ received
    ∷ submitted (job 3)
    ∷ drained
    ∷ submitted (job 4)
    ∷ received
    ∷ []

all_happen-IsFair_example : IsFair (all_happen day (start 2))
all_happen-IsFair_example = all_happen-IsFair 2 day

day-taken : (all_happen day (start 2)).taken ≡ job 1 ∷ job 2 ∷ []
unfolding all_happen happens submit receive new_queue
day-taken = refl

day-left : (all_happen day (start 2)).queue.ch ≡ job 3 ∷ []
unfolding all_happen happens submit receive new_queue
day-left = refl

abbrev marshal : Payload → Option Text
marshal p = some p.status

abbrev failing : ℕ → Response
failing n = if n == 1 then no_response else if n == 2 then status 503 else status 404

send_callback-expected_example :
    send_callback marshal (λ key text. text) (codes "s") failing none (some (codes "boom"))
    ≡ expected failing (signed (λ key text. text) (codes "s") (codes "failed"))
unfolding payload_of
send_callback-expected_example =
    send_callback-expected marshal (λ key text. text) (codes "s") (codes "failed") failing none
      (some (codes "boom")) refl

-- Three requests, six seconds.
failing_slept : (send_callback marshal (λ key text. text) (codes "s") failing none none).slept ≡ 6
unfolding send_callback payload_of attempts attempt_once callback_max_attempts
    callback_initial_delay signed
failing_slept = refl
