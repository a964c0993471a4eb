-- ===== src/JobQueue.antt =====
-- The queue of runs in memory and its callbacks: internal/jobqueue/queue.go. What a run executes is
-- the runner's; here it gives a run, or none, and an error or none. JSON and HMAC are parameters, as
-- is the server that a callback goes to.
pub mod Order
pub mod Retries
mod Examples
use vaultrun.Base.{
  length, Text, codes, is_empty, ℕ, zero, suc, ◌+◌, ◌*◌, Bool, true, false, ◌&&◌, not, Option, none,
  some, List, [], ◌∷◌, ◌++◌, ltb, leb, if◌then◌else◌,
}

pub record Job : Type 0 where
  pub run_id : ℕ
  -- 0 stands for what is below it, too
  pub timeout_seconds : ℕ
  pub callback_url : Text

-- memQueue: the channel, oldest job first, its capacity, and whether it is closed
pub record MemQueue : Type 0 where
  pub ch : List Job
  pub buf_size : ℕ
  pub closed : Bool

-- `New`; the number of workers is only how many of them take jobs
unfoldable pub new_queue : ℕ → MemQueue
new_queue buf_size = record {
  ch = [];
  buf_size = (if leb buf_size 0 then 256 else buf_size);
  closed = false;
}

-- `Submit`; a send on the closed channel panics, and the recovered call returns false
unfoldable pub submit : Job → MemQueue → MemQueue × Bool
submit j q =
    if q.closed
    then (q, false)
    else if ltb (length q.ch) q.buf_size
    then (record q { ch = q.ch ++ j ∷ [] }, true)
    else (q, false)

-- `Drain`, what it does to the channel
abbrev pub drain : MemQueue → MemQueue
drain q = record q { closed = true }

abbrev pub rest_of : List Job → List Job
rest_of [] = []
rest_of (j ∷ js) = js

abbrev pub first_of : List Job → List Job
first_of [] = []
first_of (j ∷ js) = j ∷ []

-- A worker's receive in `work`: nothing where the channel is empty.
unfoldable pub receive : MemQueue → MemQueue × List Job
receive q = (record q { ch = rest_of q.ch }, first_of q.ch)

-- the timeout of a run in `work`, in seconds
unfoldable pub timeout_of : Job → ℕ
timeout_of j = if leb j.timeout_seconds 0 then 300 else j.timeout_seconds

-- models.Run, as far as the payload names it; the whole run is `document`
pub record Run : Type 0 where
  pub id : Text
  pub status : Text
  pub exit_code : Option ℕ
  pub document : Text

-- `payload`
pub record Payload : Type 0 where
  pub run_id : Text
  pub status : Text
  pub exit_code : Option ℕ
  pub error : Text
  pub run : Option Run

abbrev pub of_run : Option Run → Payload
of_run none = record { run_id = []; status = []; exit_code = none; error = []; run = none }
of_run (some r) = record {
  run_id = r.id;
  status = r.status;
  exit_code = r.exit_code;
  error = [];
  run = some r;
}

abbrev pub with_error : Option Text → Payload → Payload
with_error none p = p
with_error (some e) p = record p {
  error = e;
  status = (if is_empty p.status then codes "failed" else p.status);
}

unfoldable pub payload_of : Option Run → Option Text → Payload
payload_of run error = with_error error (of_run run)

-- A POST: the body, and the header X-VaultRun-Signature, none where it is not set.
pub record Post : Type 0 where
  pub body : Text
  pub signature : Option Text

-- What comes of an attempt: the request cannot be built, no response, or the response's status.
pub data Response : Type 0 where
  bad_url no_response : Response
  status : ℕ → Response

unfoldable pub callback_max_attempts : ℕ
callback_max_attempts = 3

-- seconds
unfoldable pub callback_initial_delay : ℕ
callback_initial_delay = 2

-- The requests that were sent, in order, and the time slept between them.
pub record Delivery : Type 0 where
  pub sent : List Post
  pub slept : ℕ

abbrev pub stop_unsent : Delivery
stop_unsent = record { sent = []; slept = 0 }

abbrev pub stop_after : Post → Delivery
stop_after p = record { sent = p ∷ []; slept = 0 }

abbrev pub retry_after : Post → ℕ → Delivery → Delivery
retry_after p backoff d = record { sent = p ∷ d.sent; slept = backoff + d.slept }

-- one round of the loop, with what the rounds after it give
unfoldable pub attempt_once : (attempt backoff : ℕ) → Post → Response → Delivery → Delivery
attempt_once attempt backoff p bad_url more = stop_unsent
attempt_once attempt backoff p no_response more =
    if ltb attempt callback_max_attempts then retry_after p backoff more else stop_after p
attempt_once attempt backoff p (status code) more =
    if leb 500 code && ltb attempt callback_max_attempts
    then retry_after p backoff more
    else stop_after p

-- the loop from an attempt on, `left` rounds
unfoldable pub attempts : (ℕ → Response) → Post → (left attempt backoff : ℕ) → Delivery
attempts respond p zero attempt backoff = stop_unsent
attempts respond p (suc left) attempt backoff =
    attempt_once attempt backoff p (respond attempt)
      (attempts respond p left (attempt + 1) (backoff * 2))

unfoldable pub signed : (hmac : Text → Text → Text) → (secret body : Text) → Post
signed hmac secret body = record {
  body = body;
  signature = (if is_empty secret then none else some (codes "sha256=" ++ hmac secret body));
}

abbrev pub deliver :
    (hmac : Text → Text → Text) → (secret : Text) → (ℕ → Response) → Option Text → Delivery
deliver hmac secret respond none = stop_unsent
deliver hmac secret respond (some body) =
    attempts respond (signed hmac secret body) callback_max_attempts 1 callback_initial_delay

-- `sendCallback`; `marshal` is json.Marshal, and `respond` what each attempt meets
unfoldable pub send_callback :
    (marshal : Payload → Option Text)
    → (hmac : Text → Text → Text) → (secret : Text) → (ℕ → Response)
    → Option Run
    → Option Text
    → Delivery
send_callback marshal hmac secret respond run error =
    deliver hmac secret respond (marshal (payload_of run error))

-- The rest of `work` for one job, once it was executed.
unfoldable pub work_callback :
    (marshal : Payload → Option Text)
    → (hmac : Text → Text → Text) → (secret : Text) → (ℕ → Response)
    → Job
    → Option Run
    → Option Text
    → Delivery
work_callback marshal hmac secret respond j run error =
    if not (is_empty j.callback_url)
    then send_callback marshal hmac secret respond run error
    else stop_unsent
