-- ===== src/Audit/Scan/Faultless.antt =====
-- The loop of `scan` adds no fault to a report exactly where the rows are linked.
use vaultrun.Base.{
  Text, text_eq_iff, ℕ, ◌+◌, ◌≤◌, ◌≡◌, refl, true, false, Option, none, some, List, [], ◌∷◌, arith,
}
use vaultrun.Audit.Intact.{Linked}
use vaultrun.Audit.Report.{Report, Cursor}
use vaultrun.Audit.Scan.{is_contiguous, is_gap, row_reason, scan_row, scan_rows}
use vaultrun.Audit.Scan.Rows.{
  faults, behind, fault_count, faults-scan_row, missing-mark, row_reason-none, scan_row-behind,
  scan_rows-Grown,
}
use vaultrun.Audit.Sign.{verify_audit_sig}
use vaultrun.Audit.Sign.Verified.{verify_audit_sig-is_empty}
use vaultrun.Audit.Table.{Row}
use vaultrun.Audit.Types.{Logger, AuditLog, Reason}

-- Behind a row, an entry has no reason where it continues the chain, and only there.
linked-of_none :
    (l : Logger) (x n : ℕ) (p : Text) (t k : ℕ) (e : AuditLog)
    → row_reason l x (behind n p t) k e ≡ none
    → (k ≡ n + 1) × (verify_audit_sig l e ≡ true) × (e.prev_sig ≡ p)
unfolding is_gap is_contiguous
linked-of_none l x n p t k e h =
    ground (arith, row_reason-none l x (behind n p t) k e h, text_eq_iff e.prev_sig p)

none-of_linked :
    (l : Logger) (x n : ℕ) (p : Text) (t k : ℕ) (e : AuditLog)
    → 1 ≤ n
    → k ≡ n + 1
    → verify_audit_sig l e ≡ true
    → e.prev_sig ≡ p
    → row_reason l x (behind n p t) k e ≡ none
unfolding row_reason is_gap is_contiguous
none-of_linked l x n p t k e h q v d =
    ground (arith, verify_audit_sig-is_empty l e v, text_eq_iff e.prev_sig p)

gap-of_linked : (x n : ℕ) (p : Text) (t k : ℕ) → k ≡ n + 1 → is_gap x (behind n p t) k ≡ false
unfolding is_gap is_contiguous
gap-of_linked x n p t k h = ground arith

pub missing_no_gap :
    (l : Logger) (x : ℕ) (c : Cursor) (res : Report) (k : ℕ) (e : AuditLog)
    → is_gap x c k ≡ false
    → (scan_row l x (c, res) (k, e)).1.missing_entries ≡ res.missing_entries
unfolding scan_row
missing_no_gap l x c res k e g = rw (missing-mark (row_reason l x c k e)) (rw g refl)

pub none-of_zero : (r : Option Reason) → fault_count r ≡ 0 → r ≡ none
none-of_zero none h = refl
none-of_zero (some r) h = absurd (omega arith)

pub Linked-of_faultless :
    (l : Logger) (x n : ℕ) (p : Text) (t : ℕ) (res : Report) (rows : List Row)
    → faults (scan_rows l x (behind n p t, res) rows).1 ≡ faults res
    → Linked l n p rows
unfolding scan_rows
Linked-of_faultless l x n p t res [] h = tt
Linked-of_faultless l x n p t res ((k, e) ∷ rows) h =
    let c = behind n p t in
    let res' = (scan_row l x (c, res) (k, e)).1 in
    let h' = (scan_row-behind l x c res k e rows) in
    let rest = rw h' at h in
    let grown = scan_rows-Grown l x (behind k e.sig e.timestamp) res' rows in
    let step = faults-scan_row l x c res k e in
    let here =
      linked-of_none l x n p t k e
        (none-of_zero (row_reason l x c k e) (omega (arith, rest, grown.faults_grow, step))) in
    (
      here.0,
      here.1,
      here.2,
      Linked-of_faultless l x k e.sig e.timestamp res' rows
          (omega (arith, rest, grown.faults_grow, step)),
    )

pub faultless-of_Linked :
    (l : Logger) (x n : ℕ) (p : Text) (t : ℕ) (res : Report) (rows : List Row)
    → 1 ≤ n
    → Linked l n p rows
    → (faults (scan_rows l x (behind n p t, res) rows).1 ≡ faults res)
      × ((scan_rows l x (behind n p t, res) rows).1.missing_entries ≡ res.missing_entries)
unfolding scan_rows
faultless-of_Linked l x n p t res [] low h = (refl, refl)
faultless-of_Linked l x n p t res ((k, e) ∷ rows) low h =
    let c = behind n p t in
    let none_here = none-of_linked l x n p t k e low h.0 h.1 h.2 in
    let step = rw none_here at (faults-scan_row l x c res k e) in
    let rest =
      faultless-of_Linked l x k e.sig e.timestamp (scan_row l x (c, res) (k, e)).1 rows
        (omega (arith, h.0)) h.3 in
    rw (scan_row-behind l x c res k e rows) (
      omega (arith, step, rest.0),
      omega (arith, rest.1, missing_no_gap l x c res k e (gap-of_linked x n p t k h.0)),
    )
