-- ===== src/Audit/Table/Filters.antt =====
-- Deleting entries and reading the rows of the chain commute.
use vaultrun.Base.{
  all, keep_if, ℕ, ◌≤◌, ◌≡◌, refl, sym, ap, ◌∙◌, inl, inr, Bool, true, false, ◌&&◌, Option, none,
  some, List, [], ◌∷◌, arith, leb, if◌then◌else◌, leb→le, Bool-cases,
}
use vaultrun.Audit.Table.{Row, insert_row, add_row, chained_rows, if_numbered}
use vaultrun.Audit.Types.{AuditLog}

-- A test of a row's number and entry.
abbrev pub on_row : (ℕ → AuditLog → Bool) → Row → Bool
on_row q r = q r.0 r.1

all-insert_row :
    (q : ℕ → AuditLog → Bool) (r : Row) (rows : List Row)
    → all (on_row q) (insert_row r rows) ≡ (q r.0 r.1 && all (on_row q) rows)
unfolding insert_row
all-insert_row q r [] = refl
all-insert_row q r (s ∷ rows) = ground (arith, all-insert_row q r rows)

all-add_row :
    (q : ℕ → AuditLog → Bool) (o : Option ℕ) (e : AuditLog) (rows : List Row)
    → all (on_row q) (add_row o e rows) ≡ (if_numbered (λ _. true) q o e && all (on_row q) rows)
all-add_row q none e rows = refl
all-add_row q (some k) e rows = all-insert_row q (k, e) rows

-- What holds of every row holds of every numbered entry.
pub all-chained_rows :
    (q : ℕ → AuditLog → Bool) (logs : List AuditLog)
    → all (on_row q) (chained_rows logs)
      ≡ all (λ (e : AuditLog). if_numbered (λ _. true) q e.seq e) logs
unfolding chained_rows
all-chained_rows q [] = refl
all-chained_rows q (e ∷ logs) =
    all-add_row q e.seq e (chained_rows logs)
    ∙ ap (λ b. if_numbered (λ _. true) q e.seq e && b) (all-chained_rows q logs)

-- Numbers from `n` on, none below the one before.
abbrev Sorted : ℕ → List Row → Type 0
Sorted n [] = Unit
Sorted n (r ∷ rows) = (n ≤ r.0) × Sorted r.0 rows

Sorted-le : (m n : ℕ) (rows : List Row) → m ≤ n → Sorted n rows → Sorted m rows
Sorted-le m n [] h s = tt
Sorted-le m n (r ∷ rows) h s = (omega arith, s.1)

Sorted-insert_row :
    (n : ℕ) (r : Row) (rows : List Row) → n ≤ r.0 → Sorted n rows → Sorted n (insert_row r rows)
unfolding insert_row
Sorted-insert_row n r [] h s = (h, tt)
Sorted-insert_row n r (x ∷ rows) h s = elim (Bool-cases (leb r.0 x.0)) [
  | inl le ↦ rw le (h, (leb→le r.0 x.0 le, s.1))
  | inr gt ↦ rw gt (s.0, Sorted-insert_row x.0 r rows (ground arith) s.1)
]

Sorted-add_row :
    (o : Option ℕ) (e : AuditLog) (rows : List Row) → Sorted 0 rows → Sorted 0 (add_row o e rows)
Sorted-add_row none e rows s = s
Sorted-add_row (some k) e rows s = Sorted-insert_row 0 (k, e) rows (omega arith) s

Sorted-chained_rows : (logs : List AuditLog) → Sorted 0 (chained_rows logs)
unfolding chained_rows
Sorted-chained_rows [] = tt
Sorted-chained_rows (e ∷ logs) =
    Sorted-add_row e.seq e (chained_rows logs) (Sorted-chained_rows logs)

Sorted-keep_if :
    (n : ℕ) (p : Row → Bool) (rows : List Row) → Sorted n rows → Sorted n (keep_if p rows)
unfolding keep_if
Sorted-keep_if n p [] s = tt
Sorted-keep_if n p (r ∷ rows) s = elim (Bool-cases (p r)) [
  | inl y ↦ rw y (s.0, Sorted-keep_if r.0 p rows s.1)
  | inr x ↦ rw x (Sorted-le n r.0 (keep_if p rows) s.0 (Sorted-keep_if r.0 p rows s.1))
]

insert_row_first : (r : Row) (rows : List Row) → Sorted r.0 rows → insert_row r rows ≡ r ∷ rows
unfolding insert_row
insert_row_first r [] s = refl
insert_row_first r (x ∷ rows) s = ground arith

keep_if-insert_row :
    (n : ℕ) (p : Row → Bool) (r : Row) (rows : List Row)
    → Sorted n rows
    → keep_if p (insert_row r rows)
      ≡ (if p r then insert_row r (keep_if p rows) else keep_if p rows)
unfolding insert_row keep_if
keep_if-insert_row n p r [] s = refl
keep_if-insert_row n p r (x ∷ rows) s = elim (Bool-cases (leb r.0 x.0)) [
  | inl le ↦ ground (
    arith,
    le,
    insert_row_first r (keep_if p (x ∷ rows))
        (Sorted-keep_if r.0 p (x ∷ rows) (leb→le r.0 x.0 le, s.1)),
  )
  | inr gt ↦ ground (arith, gt, keep_if-insert_row x.0 p r rows s.1)
]

chained_rows-if :
    (t : Bool) (e : AuditLog) (logs : List AuditLog)
    → chained_rows (if t then e ∷ logs else logs)
      ≡ (if t then add_row e.seq e (chained_rows logs) else chained_rows logs)
unfolding chained_rows
chained_rows-if true e logs = refl
chained_rows-if false e logs = refl

if_same : (t : Bool) (rows : List Row) → (if t then rows else rows) ≡ rows
if_same true rows = refl
if_same false rows = refl

keep_if-add_row :
    (b : AuditLog → Bool) (q : ℕ → AuditLog → Bool) (o : Option ℕ) (e : AuditLog) (rows : List Row)
    → Sorted 0 rows
    → (if if_numbered b q o e
        then add_row o e (keep_if (on_row q) rows)
        else keep_if (on_row q) rows)
      ≡ keep_if (on_row q) (add_row o e rows)
keep_if-add_row b q none e rows s = if_same (b e) (keep_if (on_row q) rows)
keep_if-add_row b q (some k) e rows s = sym (keep_if-insert_row 0 (on_row q) (k, e) rows s)

-- Filtering the entries by a test of the numbered and of the unnumbered ones filters the rows.
pub chained_rows-keep_if :
    (b : AuditLog → Bool) (q : ℕ → AuditLog → Bool) (logs : List AuditLog)
    → chained_rows (keep_if (λ (e : AuditLog). if_numbered b q e.seq e) logs)
      ≡ keep_if (on_row q) (chained_rows logs)
unfolding chained_rows keep_if
chained_rows-keep_if b q [] = refl
chained_rows-keep_if b q (e ∷ logs) =
    let kept = keep_if (λ (x : AuditLog). if_numbered b q x.seq x) logs in
    let t = if_numbered b q e.seq e in
    let ih = chained_rows-keep_if b q logs in
    chained_rows-if t e kept
    ∙ ap (λ rows. if t then add_row e.seq e rows else rows) ih
    ∙ keep_if-add_row b q e.seq e (chained_rows logs) (Sorted-chained_rows logs)
