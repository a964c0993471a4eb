-- ===== src/JobQueue/Retries.antt =====
-- How often a callback is sent: sendCallback of internal/jobqueue/queue.go.
use vaultrun.Base.{
  Text, ℕ, ◌<◌, ◌≡◌, refl, ◌∙◌, inl, inr, Bool, true, false, Option, some, List, [], ◌∷◌, arith,
  ltb, leb, if◌then◌else◌, Bool-cases,
}
use vaultrun.JobQueue.{
  Run, Payload, payload_of, Post, Response, bad_url, no_response, status, callback_max_attempts,
  callback_initial_delay, Delivery, retry_after, attempt_once, attempts, signed, send_callback,
}

-- No response, or a status of 500 or more; anything else ends the attempts.
unfoldable pub is_retriable : Response → Bool
is_retriable bad_url = false
is_retriable no_response = true
is_retriable (status code) = leb 500 code

-- what the attempt sends that meets the response
unfoldable pub sends : Post → Response → List Post
sends p bad_url = []
sends p no_response = p ∷ []
sends p (status code) = p ∷ []

-- One attempt, and after each of the first two that can be retried one more, two and then four
-- seconds later.
unfoldable pub expected : (ℕ → Response) → Post → Delivery
expected respond p =
    if is_retriable (respond 1)
    then (if is_retriable (respond 2)
        then record { sent = p ∷ p ∷ sends p (respond 3); slept = 6 }
        else record { sent = p ∷ sends p (respond 2); slept = 2 })
    else record { sent = sends p (respond 1); slept = 0 }

-- one round, while attempts are left
early_attempt :
    (attempt backoff : ℕ) (p : Post) (r : Response) (more : Delivery)
    → attempt < 3
    → attempt_once attempt backoff p r more ≡ (
        if is_retriable r
        then retry_after p backoff more
        else record { sent = sends p r; slept = 0 })
unfolding attempt_once is_retriable sends callback_max_attempts
early_attempt attempt backoff p bad_url more h = refl
early_attempt attempt backoff p no_response more h =
    let early : ltb attempt 3 ≡ true = ground (arith, h) in rw early refl
early_attempt attempt backoff p (status code) more h =
    let early : ltb attempt 3 ≡ true = ground (arith, h) in
    rw early
      (elim (Bool-cases (leb 500 code)) [ inl server ↦ rw server refl | inr final ↦ rw final refl ])

last_attempt :
    (backoff : ℕ) (p : Post) (r : Response) (more : Delivery)
    → attempt_once 3 backoff p r more ≡ record { sent = sends p r; slept = 0 }
unfolding attempt_once sends callback_max_attempts
last_attempt backoff p bad_url more = refl
last_attempt backoff p no_response more = refl
last_attempt backoff p (status code) more = elim (Bool-cases (leb 500 code)) [
  | inl server ↦ rw server refl
  | inr final ↦ rw final refl
]

attempts-expected :
    (respond : ℕ → Response) (p : Post) → attempts respond p 3 1 2 ≡ expected respond p
unfolding attempts expected
attempts-expected respond p =
    early_attempt 1 2 p (respond 1) _ (omega arith)
    ∙ rw (early_attempt 2 4 p (respond 2) _ (omega arith)) (
        rw (last_attempt 8 p (respond 3) _) (elim (Bool-cases (is_retriable (respond 1))) [
          | inr first ↦ rw first refl
          | inl first ↦ rw first (elim (Bool-cases (is_retriable (respond 2))) [
            | inr second ↦ rw second refl
            | inl second ↦ rw second refl
          ])
        ]))

-- Where the payload can be marshalled, a callback is one request, repeated, two and then four
-- seconds later, while there is no response or one of 500 or more: at most three requests, all
-- alike and signed alike.
pub send_callback-expected :
    (marshal : Payload → Option Text) (hmac : Text → Text → Text) (secret body : Text)
    (respond : ℕ → Response) (run : Option Run) (error : Option Text)
    → marshal (payload_of run error) ≡ some body
    → send_callback marshal hmac secret respond run error
      ≡ expected respond (signed hmac secret body)
unfolding send_callback callback_max_attempts callback_initial_delay
send_callback-expected marshal hmac secret body respond run error h =
    rw h (attempts-expected respond (signed hmac secret body))
