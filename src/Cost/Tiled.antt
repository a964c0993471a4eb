-- ===== src/Cost/Tiled.antt =====
-- What is billed for a session in all, by internal/cost/accrual.go in several API instances at once.
use vaultrun.Base.{
  any, All, keep_if, ℕ, ◌+◌, ◌-◌, ◌≤◌, ◌≡◌, refl, sym, ◌∙◌, ◌⊎◌, inl, inr, false, List, [], ◌∷◌,
  arith, ◌==◌, Bool-cases,
}
use vaultrun.Cost.{CostMetric, to_micros, same_period, of_session, max_end, since_of, read_since}

-- Rows, the newest first, that follow on one another from `created` to `last`.
unfoldable pub Tiles : (created last : ℕ) → List CostMetric → Type 0
Tiles created last [] = last ≡ created
Tiles created last (m ∷ ms) =
    (m.period_end ≡ last)
    × (m.period_start ≤ m.period_end)
    × (to_micros m.period_end ≡ m.period_end)
    × Tiles created m.period_start ms

-- a moment where a row ends, or where the session began
unfoldable pub IsEnd : (created x : ℕ) → List CostMetric → Type 0
IsEnd created x [] = x ≡ created
IsEnd created x (m ∷ ms) = (x ≡ m.period_end) ⊎ IsEnd created x ms

unfoldable pub rows : ℕ → List CostMetric → List CostMetric
rows session table = keep_if (of_session session) table

-- The time that some rows bill.
unfoldable pub billed : List CostMetric → ℕ
billed [] = 0
billed (m ∷ ms) = (m.period_end - m.period_start) + billed ms

pub to_micros_idem : (t : ℕ) → to_micros (to_micros t) ≡ to_micros t
unfolding to_micros
to_micros_idem t = omega arith

pub to_micros-le : (t u : ℕ) → t ≤ u → to_micros t ≤ to_micros u
unfolding to_micros
to_micros-le t u h = omega (arith, h)

-- the only moment in a tiling at which no row starts is the last
pub free_end :
    (created last x : ℕ) (ms : List CostMetric)
    → Tiles created last ms
    → IsEnd created x ms
    → All (λ (m : CostMetric). (x == m.period_start) ≡ false) ms
    → x ≡ last
unfolding Tiles IsEnd
free_end created last x [] t here free = here ∙ sym t
free_end created last x (m ∷ ms) t (inl here) free = here ∙ t.0
free_end created last x (m ∷ ms) t (inr below) free =
    let start = free_end created m.period_start x ms t.3 below free.1 in
    absurd (ground (arith, start, free.0))

-- where no row starts at a moment, none of those of the session does
pub free_rows :
    (session x : ℕ) (m : CostMetric) (table : List CostMetric)
    → m.session_id ≡ session
    → m.period_start ≡ x
    → any (same_period m) table ≡ false
    → All (λ (r : CostMetric). (x == r.period_start) ≡ false) (rows session table)
unfolding rows keep_if
free_rows session x m [] hs hx f = tt
free_rows session x m (r ∷ table) hs hx f = elim (Bool-cases (of_session session r)) [
  | inl ours ↦
      rw ours
        (ground (arith, ours, hs, hx, f), free_rows session x m table hs hx (ground (arith, f)))
  | inr theirs ↦ rw theirs (free_rows session x m table hs hx (ground (arith, f)))
]

max_end-Tiles :
    (created last t : ℕ) (ms : List CostMetric)
    → Tiles created last ms
    → last ≤ t
    → max_end t ms ≡ t
unfolding Tiles max_end
max_end-Tiles created last t [] h le = refl
max_end-Tiles created last t (m ∷ ms) h le =
    let below = max_end-Tiles created m.period_start t ms h.3 (omega (arith, h.0, h.1, le)) in
    rw below (ground (arith, h.0, le))

-- MAX(period_end) is where the tiling ends.
pub since_of-Tiles :
    (created last : ℕ) (ms : List CostMetric) → Tiles created last ms → since_of created ms ≡ last
unfolding Tiles
since_of-Tiles created last [] h = sym h
since_of-Tiles created last (m ∷ ms) h =
    max_end-Tiles created m.period_start m.period_end ms h.3 h.1 ∙ h.0

pub last-IsEnd :
    (created last : ℕ) (ms : List CostMetric) → Tiles created last ms → IsEnd created last ms
unfolding Tiles IsEnd
last-IsEnd created last [] h = h
last-IsEnd created last (m ∷ ms) h = inl (sym h.0)

pub end-micros :
    (created last x : ℕ) (ms : List CostMetric)
    → to_micros created ≡ created
    → Tiles created last ms
    → IsEnd created x ms
    → to_micros x ≡ x
unfolding Tiles IsEnd
end-micros created last x [] c h e = rw e c
end-micros created last x (m ∷ ms) c h (inl e) = rw e h.2
end-micros created last x (m ∷ ms) c h (inr e) = end-micros created m.period_start x ms c h.3 e

pub created-le : (created last : ℕ) (ms : List CostMetric) → Tiles created last ms → created ≤ last
unfolding Tiles
created-le created last [] h = omega (arith, h)
created-le created last (m ∷ ms) h =
    let below = created-le created m.period_start ms h.3 in omega (arith, below, h.0, h.1)

-- What a tiling bills is the time from its begin to its end.
pub billed-Tiles :
    (created last : ℕ) (ms : List CostMetric) → Tiles created last ms → billed ms + created ≡ last
unfolding Tiles billed
billed-Tiles created last [] h = omega (arith, h)
billed-Tiles created last (m ∷ ms) h =
    let below = billed-Tiles created m.period_start ms h.3 in omega (arith, below, h.0, h.1)

-- So is the moment that the query reads.
pub read_since-Tiles :
    (session created last : ℕ) (table : List CostMetric)
    → Tiles created last (rows session table)
    → read_since session created table ≡ last
unfolding read_since rows
read_since-Tiles session created last table t =
    since_of-Tiles created last (keep_if (of_session session) table) t
