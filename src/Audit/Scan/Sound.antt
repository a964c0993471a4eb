-- ===== src/Audit/Scan/Sound.antt =====
-- What the whole check finds: `scan` of internal/audit/chain.go says that the log is intact exactly
-- where it hangs together from what was pruned up to the head.
use vaultrun.Base.{
  All, Text, text_eq_iff, is_empty, ℕ, ◌+◌, ◌≤◌, ◌≡◌, refl, sym, ◌∙◌, inl, inr, true, false, none,
  some, List, [], ◌∷◌, arith, ◌==◌, ==_iff, Bool-cases,
}
use vaultrun.Audit.Intact.{Checked}
use vaultrun.Audit.Report.{Problem, Report, empty_report, Cursor, start_cursor}
use vaultrun.Audit.Scan.{
  is_contiguous, is_gap, row_reason, scan_row, scan_rows, note_missing, check_head,
}
use vaultrun.Audit.Scan.Faultless.{
  missing_no_gap, none-of_zero, Linked-of_faultless, faultless-of_Linked,
}
use vaultrun.Audit.Scan.Rows.{
  faults, behind, faults-scan_row, row_reason-none, scan_row-behind, scan_rows-Grown, scan_rows_end,
}
use vaultrun.Audit.Sign.{verify_audit_sig}
use vaultrun.Audit.Sign.Verified.{verify_audit_sig-is_empty}
use vaultrun.Audit.Table.{Row}
use vaultrun.Audit.Types.{Logger, AuditLog, AuditChainHead}

-- The first row has no reason where it follows what was pruned, and only there.
first_of_none :
    (l : Logger) (h : AuditChainHead) (k : ℕ) (e : AuditLog)
    → row_reason l (h.pruned_through + 1) start_cursor k e ≡ none
    → (verify_audit_sig l e ≡ true) × (k ≤ h.pruned_through + 1) × (k ≡ 1 → e.prev_sig ≡ [])
unfolding is_gap is_contiguous start_cursor
first_of_none l h k e r =
    let got = row_reason-none l (h.pruned_through + 1) start_cursor k e r in
    (got.0, ground (arith, got.1), λ one. is_empty_iff e.prev_sig (ground (arith, got.2)))
  where
    is_empty_iff : (s : Text) → is_empty s ≡ true → s ≡ []
    is_empty_iff [] q = refl
    is_empty_iff (a ∷ s) q = cc

none-of_first :
    (l : Logger) (h : AuditChainHead) (k : ℕ) (e : AuditLog)
    → verify_audit_sig l e ≡ true
    → k ≤ h.pruned_through + 1
    → (k ≡ 1 → e.prev_sig ≡ [])
    → (row_reason l (h.pruned_through + 1) start_cursor k e ≡ none)
      × (is_gap (h.pruned_through + 1) start_cursor k ≡ false)
unfolding row_reason is_gap is_contiguous start_cursor
none-of_first l h k e v q f = elim (Bool-cases (k == 1)) [
  | inl one ↦ ground (arith, verify_audit_sig-is_empty l e v, f ((==_iff k 1).0 one))
  | inr other ↦ ground (arith, verify_audit_sig-is_empty l e v)
]

-- The report of the loop and of the check of the head, for a valid head.
unfoldable pub rows_checked : Logger → AuditChainHead → List Row → Report × List Problem
rows_checked l h rows =
    let s = scan_rows l (h.pruned_through + 1) (start_cursor, empty_report) rows in
    check_head (some h, true) s.0 s.1

-- Neither a fault, nor a hole, nor a problem of the head.
abbrev pub Faultless : Report × List Problem → Type 0
Faultless r = (faults r.0 ≡ 0) × (r.0.missing_entries ≡ 0) × (r.1 ≡ [])

check_head_sound :
    (h : AuditChainHead) (c : Cursor) (res : Report)
    → c.have_chain ≡ true
    → Faultless (check_head (some h, true) c res)
    → (faults res ≡ 0)
      × (res.missing_entries ≡ 0)
      × (c.prev_seq ≡ h.seq)
      × (c.prev_sig ≡ h.last_sig)
unfolding check_head note_missing
check_head_sound h c res have f = ground (arith, text_eq_iff c.prev_sig h.last_sig)

check_head_complete :
    (h : AuditChainHead) (c : Cursor) (res : Report)
    → c.have_chain ≡ true
    → c.prev_seq ≡ h.seq
    → c.prev_sig ≡ h.last_sig
    → check_head (some h, true) c res ≡ (res, [])
unfolding check_head
check_head_complete h c res have s g = ground (arith, text_eq_iff c.prev_sig h.last_sig)

faults-empty_report : (faults empty_report ≡ 0) × (empty_report.missing_entries ≡ 0)
unfolding empty_report
faults-empty_report = (refl, refl)

pub Checked-of_Faultless :
    (l : Logger) (h : AuditChainHead) (rows : List Row)
    → Faultless (rows_checked l h rows)
    → Checked l h rows
unfolding rows_checked
Checked-of_Faultless l h [] f =
    unfold scan_rows check_head start_cursor note_missing in ground arith
Checked-of_Faultless l h ((k, e) ∷ rows) f =
    let x = h.pruned_through + 1 in
    let res' = (scan_row l x (start_cursor, empty_report) (k, e)).1 in
    let s = scan_rows l x (behind k e.sig e.timestamp, res') rows in
    let ends = scan_rows_end l x k e.sig e.timestamp res' rows in
    let ok =
      check_head_sound h s.0 s.1 ends.2
        (rw (scan_row-behind l x start_cursor empty_report k e rows) at f) in
    let grown = scan_rows-Grown l x (behind k e.sig e.timestamp) res' rows in
    let step = faults-scan_row l x start_cursor empty_report k e in
    let here = first_of_none l h k e (
      none-of_zero (row_reason l x start_cursor k e)
        (omega (arith, ok.0, grown.faults_grow, step))) in
    (
      here.0,
      here.1,
      here.2,
      Linked-of_faultless l x k e.sig e.timestamp res' rows
          (omega (arith, ok.0, grown.faults_grow)),
      sym ends.0 ∙ ok.2,
      sym ends.1 ∙ ok.3,
    )

pub Faultless-of_Checked :
    (l : Logger) (h : AuditChainHead) (rows : List Row)
    → All (λ (r : Row). 1 ≤ r.0) rows
    → Checked l h rows
    → Faultless (rows_checked l h rows)
unfolding rows_checked
Faultless-of_Checked l h [] low c =
    unfold scan_rows check_head start_cursor empty_report in ground arith
Faultless-of_Checked l h ((k, e) ∷ rows) low c =
    let x = h.pruned_through + 1 in
    let first = none-of_first l h k e c.0 c.1 c.2 in
    let res' = (scan_row l x (start_cursor, empty_report) (k, e)).1 in
    let s = scan_rows l x (behind k e.sig e.timestamp, res') rows in
    let ends = scan_rows_end l x k e.sig e.timestamp res' rows in
    let step = rw first.0 at (faults-scan_row l x start_cursor empty_report k e) in
    let kept = missing_no_gap l x start_cursor empty_report k e first.1 in
    let clean = faultless-of_Linked l x k e.sig e.timestamp res' rows low.0 c.3 in
    rw (scan_row-behind l x start_cursor empty_report k e rows) (
      rw (check_head_complete h s.0 s.1 ends.2 (ends.0 ∙ c.4) (ends.1 ∙ c.5)) (
        omega (arith, clean.0, step, faults-empty_report),
        omega (arith, clean.1, kept, faults-empty_report),
        refl,
      ))
