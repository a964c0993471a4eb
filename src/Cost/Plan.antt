-- ===== src/Cost/Plan.antt =====
-- The periods that planAccrual of internal/cost/accrual.go bills.
use vaultrun.Base.{
  ℕ, zero, suc, ◌+◌, ◌-◌, ◌≤◌, ◌<◌, ◌≡◌, refl, ◌⊎◌, inl, inr, true, ◌&&◌, not, List, [], ◌∷◌, arith,
  ltb, Bool-cases,
}
use vaultrun.Cost.{
  min_accrual_span, AccrualSession, AccrualPeriod, accrual_end, is_stopped, split, plan_accrual,
}

-- The periods follow on one another from `start` to `end`, none is empty, and none goes past the
-- first of the month after its start.
unfoldable pub IsSplit : (next_month : ℕ → ℕ) → (start end : ℕ) → List AccrualPeriod → Type 0
IsSplit next_month start end [] = start ≡ end
IsSplit next_month start end (p ∷ periods) =
    (p.start ≡ start)
    × (p.start < p.stop)
    × (p.stop ≤ next_month p.start)
    × IsSplit next_month p.stop end periods

-- The session has time to bill: it was up after what was billed, and is stopped or at least the
-- minimal span beyond it.
pub IsDue : AccrualSession → ℕ → Type 0
IsDue s now =
    (s.since < accrual_end s now)
    × ((is_stopped s ≡ true) ⊎ (s.since + min_accrual_span ≤ accrual_end s now))

split-IsSplit :
    (next_month : ℕ → ℕ)
    → ((t : ℕ) → t < next_month t)
    → (fuel start end : ℕ) → start ≤ end
    → end - start ≤ fuel
    → IsSplit next_month start end (split next_month fuel start end)
unfolding split IsSplit
split-IsSplit next_month up zero start end h enough = omega (arith, h, enough)
split-IsSplit next_month up (suc n) start end h enough = elim (Bool-cases (ltb start end)) [
  | inr over ↦ rw over (ground (arith, h))
  | inl more ↦ rw more (elim (Bool-cases (ltb (next_month start) end)) [
    | inl crosses ↦ rw crosses (
        let ahead = up start in
        let inside : next_month start ≤ end = ground (arith, crosses) in
        (
          refl,
          ahead,
          omega arith,
          split-IsSplit next_month up n (next_month start) end inside
              (omega (arith, ahead, enough, inside)),
        ))
    | inr fits ↦ rw fits (
        let ahead : start < end = ground (arith, more) in
        let within : end ≤ next_month start = ground (arith, fits) in
        (
          refl,
          ahead,
          within,
          split-IsSplit next_month up n end end (omega arith) (omega (arith, ahead, enough)),
        ))
  ])
]

pub plan_accrual-IsSplit :
    (next_month : ℕ → ℕ) (s : AccrualSession) (now : ℕ)
    → ((t : ℕ) → t < next_month t)
    → (IsDue s now × IsSplit next_month s.since (accrual_end s now) (plan_accrual next_month s now))
      ⊎ ((¬ IsDue s now) × (plan_accrual next_month s now ≡ []))
unfolding plan_accrual IsDue
plan_accrual-IsSplit next_month s now up = elim (Bool-cases (ltb s.since (accrual_end s now))) [
  | inr early ↦ inr ((λ due. ground (arith, due.0, early)), rw early refl)
  | inl on ↦
      elim (Bool-cases (not (is_stopped s) && ltb (accrual_end s now - s.since) min_accrual_span)) [
        | inl short ↦ inr ((λ due. ground (arith, due, short)), rw on (rw short refl))
        | inr long ↦
            let ahead : s.since < accrual_end s now = ground (arith, on) in
            inl (
              (ahead, ground (arith, long)),
              rw on (
                  rw long (
                    split-IsSplit next_month up (accrual_end s now - s.since) s.since
                      (accrual_end s now) (omega (arith, ahead)) (omega arith))),
            )
      ]
]
