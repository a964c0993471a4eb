-- ===== src/Cost/Billed.antt =====
-- No time is billed twice or left out, however many API instances bill at once: AccrueUsage of
-- internal/cost/accrual.go.
use vaultrun.Base.{
  any, keep_if, ℕ, ◌+◌, ◌<◌, ◌≡◌, refl, sym, ◌∙◌, subst, inl, inr, false, Option, List, [], ◌∷◌,
  Bool-cases,
}
use vaultrun.Cost.{
  AccrualSession, AccrualPeriod, accrual_end, plan_accrual, CostMetric, to_micros, metric_of,
  same_period, record_metric, since_of, read_since, Ledger, set_job, Trouble, smooth, no_insert,
  no_update, Event, planned, recorded, after_insert, next_period, plan_session, step, steps,
  new_ledger,
}
use vaultrun.Cost.Instances.{
  Contiguous, IsSplit-Contiguous, JobOk, IsTiled, idle_ok, set_job-JobOk, set_job-IsTiled, rows_own,
  jobs_stay, last_after, Tiles-after,
}
use vaultrun.Cost.Plan.{plan_accrual-IsSplit}
use vaultrun.Cost.Tiled.{
  Tiles, IsEnd, rows, billed, to_micros_idem, to_micros-le, free_end, free_rows, since_of-Tiles,
  last-IsEnd, end-micros, billed-Tiles, read_since-Tiles,
}

module _ (next_month created : ℕ → ℕ) (up : (t : ℕ) → t < next_month t) where
  plan_from :
      (a : AccrualSession) (now : ℕ)
      → to_micros a.since ≡ a.since
      → Contiguous a.since (plan_accrual next_month a now)
  plan_from a now exact = elim (plan_accrual-IsSplit next_month a now up) [
    | inl due ↦
        subst (λ x. Contiguous x (plan_accrual next_month a now)) exact
          (IsSplit-Contiguous next_month a.since (accrual_end a now) (plan_accrual next_month a now)
            due.1)
    | inr not_due ↦ rw not_due.1 (unfold Contiguous in tt)
  ]

  plan_session-Contiguous :
      (session : ℕ) (stopped : Option ℕ) (now x : ℕ) (table : List CostMetric)
      → since_of (to_micros (created session)) (rows session table) ≡ x
      → to_micros x ≡ x
      → Contiguous x (plan_session next_month created session stopped now table)
  unfolding plan_session read_since rows
  plan_session-Contiguous session stopped now x table e exact =
      rw e (plan_from (record { since = x; stopped_at = stopped }) now exact)

  -- a plan goes on where the rows of the session end
  plan-JobOk :
      (session : ℕ) (stopped : Option ℕ) (now : ℕ) (s : Ledger)
      → IsTiled created s
      → JobOk created s.table (record {
        session = session;
        periods = plan_session next_month created session stopped now s.table;
      })
  plan-JobOk session stopped now s i =
      let begin = to_micros (created session) in
      let last = i.last session in
      let tiles = i.tiles session in
      let end = last-IsEnd begin last (rows session s.table) tiles in
      record {
        at = last;
        ends = end;
        contiguous =
            plan_session-Contiguous session stopped now last s.table
              (since_of-Tiles begin last (rows session s.table) tiles)
              (end-micros begin last last (rows session s.table) (to_micros_idem (created session))
                tiles end);
      }

  -- the next period of a job, where the insert passes
  insert-IsTiled :
      (w session : ℕ) (p : AccrualPeriod) (periods : List AccrualPeriod) (s : Ledger)
      → IsTiled created s
      → JobOk created s.table (record { session = session; periods = p ∷ periods })
      → any (same_period (metric_of session p)) s.table ≡ false
      → IsTiled created (record {
        table = metric_of session p ∷ s.table;
        jobs = set_job w (record { session = session; periods = periods }) s.jobs;
      })
  unfolding Contiguous
  insert-IsTiled w session p periods s i ok free =
      let m = metric_of session p in
      let begin = to_micros (created session) in
      let here = ok.contiguous in
      let at_end =
        free_end begin (i.last session) ok.at (rows session s.table) (i.tiles session) ok.ends
          (free_rows session ok.at m s.table refl here.0 free) in
      let tiled =
        Tiles-after created i.last m s.table i.tiles (here.0 ∙ at_end)
          (to_micros-le p.start p.stop here.1) (to_micros_idem p.stop) in
      record {
        last = last_after i.last m;
        tiles = tiled;
        jobs_ok =
            set_job-JobOk created (m ∷ s.table) w (record { session = session; periods = periods })
              s.jobs
              (record {
                at = m.period_end;
                ends =
                    subst (λ ms. IsEnd begin m.period_end ms) (sym (rows_own m s.table))
                      (unfold IsEnd in inl refl);
                contiguous = here.2;
              })
              (λ v. jobs_stay created m s.table (s.jobs v) (i.jobs_ok v));
      }

  -- what an insert gives, with the violation of the unique constraint
  after_insert-IsTiled :
      (w session : ℕ) (p : AccrualPeriod) (periods : List AccrualPeriod) (s : Ledger)
      → IsTiled created s
      → JobOk created s.table (record { session = session; periods = p ∷ periods })
      → IsTiled created
          (after_insert w session periods s (record_metric (metric_of session p) s.table))
  unfolding record_metric
  after_insert-IsTiled w session p periods s i ok =
      elim (Bool-cases (any (same_period (metric_of session p)) s.table)) [
        | inl taken ↦ rw taken (set_job-IsTiled created s w _ i (idle_ok created s session i))
        | inr free ↦ rw free (insert-IsTiled w session p periods s i ok free)
      ]

  next_period-IsTiled :
      (w : ℕ) (trouble : Trouble) (session : ℕ) (periods : List AccrualPeriod) (s : Ledger)
      → IsTiled created s
      → JobOk created s.table (record { session = session; periods = periods })
      → IsTiled created (next_period w trouble s session periods)
  unfolding Contiguous
  next_period-IsTiled w trouble session [] s i ok = i
  next_period-IsTiled w smooth session (p ∷ periods) s i ok =
      after_insert-IsTiled w session p periods s i ok
  next_period-IsTiled w no_insert session (p ∷ periods) s i ok =
      set_job-IsTiled created s w _ i (idle_ok created s session i)
  next_period-IsTiled w no_update session (p ∷ periods) s i ok =
      after_insert-IsTiled w session p [] s i
        (record { at = ok.at; ends = ok.ends; contiguous = (ok.contiguous.0, ok.contiguous.1, tt) })

  step-IsTiled :
      (e : Event) (s : Ledger) → IsTiled created s → IsTiled created (step next_month created e s)
  unfolding step
  step-IsTiled (planned w session stopped now) s i =
      set_job-IsTiled created s w _ i (plan-JobOk session stopped now s i)
  step-IsTiled (recorded w trouble) s i =
      next_period-IsTiled w trouble (s.jobs w).session (s.jobs w).periods s i (i.jobs_ok w)

  steps-IsTiled :
      (es : List Event) (s : Ledger)
      → IsTiled created s
      → IsTiled created (steps next_month created es s)
  unfolding steps
  steps-IsTiled [] s i = i
  steps-IsTiled (e ∷ es) s i = steps-IsTiled es (step next_month created e s) (step-IsTiled e s i)

  new_ledger-IsTiled : IsTiled created new_ledger
  unfolding rows keep_if Tiles IsEnd Contiguous
  new_ledger-IsTiled = record {
    last = λ session. to_micros (created session);
    tiles = λ session. refl;
    jobs_ok = λ w. record { at = to_micros (created 0); ends = refl; contiguous = tt };
  }

  -- From an empty table on, in whatever order the instances read, record and fail: the rows of a
  -- session follow on one another without a gap or an overlap from its creation to the moment from
  -- which it is billed next, and bill the time between the two.
  pub steps-Tiles :
      (es : List Event) (session : ℕ)
      → let rs = rows session (steps next_month created es new_ledger).table in
        let begin = to_micros (created session) in
        let since = read_since session begin (steps next_month created es new_ledger).table in
        Tiles begin since rs × (billed rs + begin ≡ since)
  steps-Tiles es session =
      let i = steps-IsTiled es new_ledger new_ledger-IsTiled in
      let s = steps next_month created es new_ledger in
      let begin = to_micros (created session) in
      let t = i.tiles session in
      rw (read_since-Tiles session begin (i.last session) s.table t)
        (t, billed-Tiles begin (i.last session) (rows session s.table) t)
