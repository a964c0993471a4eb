-- ===== src/Cost/Instances.antt =====
-- Several API instances billing at once: AccrueUsage of internal/cost/accrual.go.
use vaultrun.Base.{
  keep_if, ℕ, ◌≤◌, ◌≡◌, refl, ap, subst, inl, inr, true, false, List, [], ◌∷◌, arith, ◌==◌,
  if◌then◌else◌, Bool-cases,
}
use vaultrun.Cost.{AccrualPeriod, CostMetric, to_micros, of_session, Job, Ledger, set_job}
use vaultrun.Cost.Plan.{IsSplit}
use vaultrun.Cost.Tiled.{Tiles, IsEnd, rows, last-IsEnd}

-- Periods that follow on one another from `x` on, as they are stored.
unfoldable pub Contiguous : ℕ → List AccrualPeriod → Type 0
Contiguous x [] = Unit
Contiguous x (p ∷ periods) =
    (to_micros p.start ≡ x) × (p.start ≤ p.stop) × Contiguous (to_micros p.stop) periods

pub IsSplit-Contiguous :
    (next_month : ℕ → ℕ) (start end : ℕ) (periods : List AccrualPeriod)
    → IsSplit next_month start end periods
    → Contiguous (to_micros start) periods
unfolding IsSplit Contiguous
IsSplit-Contiguous next_month start end [] h = tt
IsSplit-Contiguous next_month start end (p ∷ periods) h =
    (ap to_micros h.0, omega (arith, h.1), IsSplit-Contiguous next_month p.stop end periods h.3)

-- The rows of every session tile the time from its creation on, and every job goes on at a moment
-- where a row ends.
pub record JobOk (created : ℕ → ℕ) (table : List CostMetric) (j : Job) : Type 0 where
  pub at : ℕ
  pub ends : IsEnd (to_micros (created j.session)) at (rows j.session table)
  pub contiguous : Contiguous at j.periods

pub record IsTiled (created : ℕ → ℕ) (s : Ledger) : Type 0 where
  pub last : ℕ → ℕ
  pub tiles :
      (session : ℕ) → Tiles (to_micros (created session)) (last session) (rows session s.table)
  pub jobs_ok : (w : ℕ) → JobOk created s.table (s.jobs w)

pub idle_ok :
    (created : ℕ → ℕ) (s : Ledger) (session : ℕ)
    → IsTiled created s
    → JobOk created s.table (record { session = session; periods = [] })
unfolding Contiguous
idle_ok created s session i = record {
  at = i.last session;
  ends =
      last-IsEnd (to_micros (created session)) (i.last session) (rows session s.table)
        (i.tiles session);
  contiguous = tt;
}

pub set_job-JobOk :
    (created : ℕ → ℕ) (table : List CostMetric) (w : ℕ) (j : Job) (jobs : ℕ → Job)
    → JobOk created table j
    → ((v : ℕ) → JobOk created table (jobs v))
    → (v : ℕ) → JobOk created table (set_job w j jobs v)
set_job-JobOk created table w j jobs new old v = elim (Bool-cases (v == w)) [
  | inl this ↦ rw this new
  | inr other ↦ rw other (old v)
]

pub set_job-IsTiled :
    (created : ℕ → ℕ) (s : Ledger) (w : ℕ) (j : Job)
    → IsTiled created s
    → JobOk created s.table j
    → IsTiled created (record s { jobs = set_job w j s.jobs })
set_job-IsTiled created s w j i ok = record {
  last = i.last;
  tiles = i.tiles;
  jobs_ok = set_job-JobOk created s.table w j s.jobs ok i.jobs_ok;
}

-- a row of the session comes on top of its rows, one of another session leaves them
pub rows_own :
    (m : CostMetric) (table : List CostMetric)
    → rows m.session_id (m ∷ table) ≡ m ∷ rows m.session_id table
unfolding rows keep_if
rows_own m table = let own : of_session m.session_id m ≡ true = ground arith in rw own refl

rows_other :
    (session : ℕ) (m : CostMetric) (table : List CostMetric)
    → (m.session_id == session) ≡ false
    → rows session (m ∷ table) ≡ rows session table
unfolding rows keep_if
rows_other session m table other = rw other refl

-- the ends of rows stay ends
pub ends_stay :
    (session created x : ℕ) (m : CostMetric) (table : List CostMetric)
    → IsEnd created x (rows session table)
    → IsEnd created x (rows session (m ∷ table))
unfolding rows keep_if IsEnd
ends_stay session created x m table e = elim (Bool-cases (of_session session m)) [
  | inl ours ↦ rw ours (inr e)
  | inr theirs ↦ rw theirs e
]

pub jobs_stay :
    (created : ℕ → ℕ) (m : CostMetric) (table : List CostMetric) (j : Job)
    → JobOk created table j
    → JobOk created (m ∷ table) j
jobs_stay created m table j ok = record {
  at = ok.at;
  ends = ends_stay j.session (to_micros (created j.session)) ok.at m table ok.ends;
  contiguous = ok.contiguous;
}

-- the tilings after a period that goes on where the rows of its session end
unfoldable pub last_after : (ℕ → ℕ) → CostMetric → ℕ → ℕ
last_after last m session = if m.session_id == session then m.period_end else last session

pub Tiles-after :
    (created last : ℕ → ℕ) (m : CostMetric) (table : List CostMetric)
    → ((k : ℕ) → Tiles (to_micros (created k)) (last k) (rows k table))
    → m.period_start ≡ last m.session_id
    → m.period_start ≤ m.period_end
    → to_micros m.period_end ≡ m.period_end
    → (k : ℕ) → Tiles (to_micros (created k)) (last_after last m k) (rows k (m ∷ table))
unfolding last_after Tiles
Tiles-after created last m table t goes_on le micros k = elim (Bool-cases (m.session_id == k)) [
  | inr other ↦ rw (rows_other k m table other) (rw other (t k))
  | inl this ↦
      let e : m.session_id ≡ k = ground (arith, this) in
      subst
        (λ n.
          Tiles (to_micros (created n)) (if m.session_id == n then m.period_end else last n)
            (rows n (m ∷ table)))
        e (own refl)
]
  where
    own :
        (m.session_id ≡ m.session_id)
        → Tiles
            (to_micros (created m.session_id))
            (if m.session_id == m.session_id then m.period_end else last m.session_id)
            (rows m.session_id (m ∷ table))
    own _ =
        let same : (m.session_id == m.session_id) ≡ true = ground arith in
        rw same (rw (rows_own m table) (refl, le, micros, rw goes_on (t m.session_id)))
