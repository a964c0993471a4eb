-- ===== src/Cost/Examples.antt =====
-- Tests and witnesses for the billing of internal/cost/accrual.go.
use vaultrun.Base.{ℕ, ◌+◌, ◌*◌, ◌/◌, ◌<◌, ◌≡◌, none, some, List, [], ◌∷◌, arith}
use vaultrun.Cost.{
  AccrualSession, to_micros, read_since, smooth, no_insert, no_update, Event, planned, recorded,
  steps, new_ledger,
}
use vaultrun.Cost.Billed.{steps-Tiles}
use vaultrun.Cost.Tiled.{Tiles, rows, billed}

-- A calendar whose months are the multiples of ten minutes, in nanoseconds.
abbrev ten_minutes : ℕ → ℕ
ten_minutes t = (t / 600000000000 + 1) * 600000000000

ten_minutes-later : (t : ℕ) → t < ten_minutes t
ten_minutes-later t = omega arith

abbrev running : AccrualSession
running = record { since = 300000000000; stopped_at = none }

-- Two instances plan for one session and record in turns; the second one's insert is a violation.
abbrev turns : List Event
turns =
    planned 0 4 none 900000000000
    ∷ planned 1 4 (some 1000000000000) 1100000000000
    ∷ recorded 0 smooth
    ∷ recorded 1 smooth
    ∷ recorded 0 no_insert
    ∷ planned 1 4 (some 1000000000000) 1100000000000
    ∷ recorded 1 no_update
    ∷ []

abbrev began : ℕ → ℕ
began session = 300000000999

steps-Tiles_example :
    let rs = rows 4 (steps ten_minutes began turns new_ledger).table in
    let since =
      read_since 4 (to_micros (began 4)) (steps ten_minutes began turns new_ledger).table in
    Tiles (to_micros (began 4)) since rs × (billed rs + to_micros (began 4) ≡ since)
steps-Tiles_example = steps-Tiles ten_minutes began ten_minutes-later turns 4
