-- ===== src/Cost.antt =====
-- Billing of running time: internal/cost/accrual.go, and what RecordMetric of
-- internal/cost/tracker.go does to the table cost_metrics. Times are nanoseconds since 1970.
-- `next_month t` is time.Date(t.Year(), t.Month()+1, 1, …) of the standard library. The amounts
-- (hours, costs, checksums) are not modelled.
pub mod Plan
pub mod Tiled
pub mod Instances
pub mod Billed
mod Examples
use vaultrun.Base.{
  any, keep_if, ℕ, zero, suc, ◌-◌, ◌*◌, ◌/◌, Bool, ◌&&◌, not, Option, none, some, List, [], ◌∷◌,
  ltb, ◌==◌, if◌then◌else◌, is_some,
}

unfoldable pub min_accrual_span : ℕ
min_accrual_span = 300000000000

-- accrualSession, what planAccrual reads of it
pub record AccrualSession : Type 0 where
  pub since : ℕ
  pub stopped_at : Option ℕ

pub record AccrualPeriod : Type 0 where
  pub start : ℕ
  pub stop : ℕ

abbrev pub end_before : Option ℕ → ℕ → ℕ
end_before none now = now
end_before (some t) now = if ltb t now then t else now

-- the moment up to which is billed
unfoldable pub accrual_end : AccrualSession → ℕ → ℕ
accrual_end s now = end_before s.stopped_at now

abbrev pub is_stopped : AccrualSession → Bool
is_stopped s = is_some s.stopped_at

-- the loop of planAccrual; a round moves the start on, so `end - start` rounds are enough
unfoldable pub split : (next_month : ℕ → ℕ) → (fuel start end : ℕ) → List AccrualPeriod
split next_month zero start end = []
split next_month (suc n) start end =
    let stop = (if ltb (next_month start) end then next_month start else end) in
    let rest = split next_month n stop end in
    if ltb start end then record { start = start; stop = stop } ∷ rest else []

unfoldable pub plan_accrual : (next_month : ℕ → ℕ) → AccrualSession → ℕ → List AccrualPeriod
plan_accrual next_month s now =
    let end = accrual_end s now in
    if not (ltb s.since end)
    then []
    else if not (is_stopped s) && ltb (end - s.since) min_accrual_span
    then []
    else split next_month (end - s.since) s.since end

-- A row of cost_metrics.
pub record CostMetric : Type 0 where
  pub session_id : ℕ
  pub period_start : ℕ
  pub period_end : ℕ

-- Postgres stores microseconds.
unfoldable pub to_micros : ℕ → ℕ
to_micros t = t / 1000 * 1000

-- the row that RecordMetric stores for a period
abbrev pub metric_of : ℕ → AccrualPeriod → CostMetric
metric_of session p = record {
  session_id = session;
  period_start = to_micros p.start;
  period_end = to_micros p.stop;
}

abbrev pub same_period : CostMetric → CostMetric → Bool
same_period m m' = m.session_id == m'.session_id && m.period_start == m'.period_start

-- The insert, under UNIQUE(session_id, period_start); none is a violation.
unfoldable pub record_metric : CostMetric → List CostMetric → Option (List CostMetric)
record_metric m table = if any (same_period m) table then none else some (m ∷ table)

abbrev pub of_session : ℕ → CostMetric → Bool
of_session session m = m.session_id == session

abbrev pub later : ℕ → ℕ → ℕ
later a b = if ltb a b then b else a

-- MAX(period_end) of some rows, at least `t`
unfoldable pub max_end : ℕ → List CostMetric → ℕ
max_end t [] = t
max_end t (m ∷ ms) = later (max_end t ms) m.period_end

-- COALESCE(m.last_end, s.created_at)
abbrev pub since_of : (created : ℕ) → List CostMetric → ℕ
since_of created [] = created
since_of created (m ∷ ms) = max_end m.period_end ms

unfoldable pub read_since : (session created : ℕ) → List CostMetric → ℕ
read_since session created table = since_of created (keep_if (of_session session) table)

-- One session in the loop of one API instance's AccrueUsage: the periods it has yet to record. The
-- list of the sessions is read at once, and other instances may record meanwhile.
pub record Job : Type 0 where
  pub session : ℕ
  pub periods : List AccrualPeriod

pub record Ledger : Type 0 where
  pub table : List CostMetric
  pub jobs : ℕ → Job

abbrev pub set_job : ℕ → Job → (ℕ → Job) → ℕ → Job
set_job w j jobs v = if v == w then j else jobs v

-- What else fails in RecordMetric: nothing, what comes up to the insert, or the update of the
-- session's total after it.
pub data Trouble : Type 0 where
  smooth no_insert no_update : Trouble

-- What happens, in the order in which the database sees it: job `w` reads the table and plans, for a
-- session with its stopped_at; or it comes to the next of its periods, where
-- RecordMetric may fail for another reason than the unique constraint, before the insert or after it.
pub data Event : Type 0 where
  planned : (w session : ℕ) → Option ℕ → (now : ℕ) → Event
  recorded : (w : ℕ) → Trouble → Event

-- one round of the inner loop of AccrueUsage; an error ends the loop
abbrev pub after_insert :
    (w session : ℕ) → List AccrualPeriod → Ledger → Option (List CostMetric) → Ledger
after_insert w session periods s none = record s {
  jobs = set_job w (record { session = session; periods = [] }) s.jobs;
}
after_insert w session periods s (some table) = record {
  table = table;
  jobs = set_job w (record { session = session; periods = periods }) s.jobs;
}

abbrev pub next_period : (w : ℕ) → Trouble → Ledger → (session : ℕ) → List AccrualPeriod → Ledger
next_period w trouble s session [] = s
next_period w smooth s session (p ∷ periods) =
    after_insert w session periods s (record_metric (metric_of session p) s.table)
next_period w no_insert s session (p ∷ periods) = after_insert w session periods s none
next_period w no_update s session (p ∷ periods) =
    after_insert w session [] s (record_metric (metric_of session p) s.table)

-- `created` is created_at of each session
module _ (next_month created : ℕ → ℕ) where
  -- the periods of a session as the query reads it; created_at was stored in microseconds
  unfoldable pub plan_session :
      (session : ℕ) → Option ℕ → (now : ℕ) → List CostMetric → List AccrualPeriod
  plan_session session stopped now table =
      plan_accrual next_month
        (record {
          since = read_since session (to_micros (created session)) table;
          stopped_at = stopped;
        })
        now

  unfoldable pub step : Event → Ledger → Ledger
  step (planned w session stopped now) s = record s {
    jobs =
        set_job w (record { session = session; periods = plan_session session stopped now s.table })
          s.jobs;
  }
  step (recorded w trouble) s = next_period w trouble s (s.jobs w).session (s.jobs w).periods

  unfoldable pub steps : List Event → Ledger → Ledger
  steps [] s = s
  steps (e ∷ es) s = steps es (step e s)

-- Nothing is billed, and no job is under way.
abbrev pub new_ledger : Ledger
new_ledger = record { table = []; jobs = λ w. record { session = 0; periods = [] } }
