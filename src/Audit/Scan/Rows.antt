-- ===== src/Audit/Scan/Rows.antt =====
-- The loop of `scan` over the chained rows finds no fault exactly where the rows hang together.
use vaultrun.Base.{
  length, Text, is_empty, text_eq, ℕ, ◌+◌, ◌≤◌, ◌≡◌, refl, ap, ◌∙◌, inl, inr, Bool, true, false,
  ◌&&◌, not, Option, none, some, List, [], ◌∷◌, arith, ◌==◌, Bool-cases,
}
use vaultrun.Audit.Intact.{end_seq, end_sig}
use vaultrun.Audit.Report.{Report, Cursor, add_invalid}
use vaultrun.Audit.Scan.{is_contiguous, is_gap, note_gap, row_reason, mark, scan_row, scan_rows}
use vaultrun.Audit.Sign.{verify_audit_sig}
use vaultrun.Audit.Table.{Row}
use vaultrun.Audit.Types.{Logger, AuditLog, Reason}

-- How many faults a report holds.
abbrev pub faults : Report → ℕ
faults res = res.altered_entries + res.affected_entries

-- The cursor behind a row with this number, signature and time.
abbrev pub behind : ℕ → Text → ℕ → Cursor
behind n p t = record {
  first = false;
  prev_seq = n;
  prev_sig = p;
  prev_time = t;
  have_chain = true;
}

abbrev pub fault_count : Option Reason → ℕ
fault_count none = 0
fault_count (some r) = 1

faults-add_invalid :
    (e : AuditLog) (r : Reason) (b : Bool) (res : Report)
    → faults (add_invalid e r b res) ≡ faults res + 1
unfolding add_invalid
faults-add_invalid e r b res = ground arith

faults-mark :
    (r : Option Reason) (e : AuditLog) (b : Bool) (res : Report)
    → faults (mark r e b res) ≡ faults res + fault_count r
faults-mark none e b res = omega arith
faults-mark (some r) e b res = faults-add_invalid e r b res

faults-note_gap :
    (x : ℕ) (c : Cursor) (k : ℕ) (res : Report) → faults (note_gap x c k res) ≡ faults res
unfolding note_gap
faults-note_gap x c k res = refl

pub faults-scan_row :
    (l : Logger) (x : ℕ) (c : Cursor) (res : Report) (k : ℕ) (e : AuditLog)
    → faults (scan_row l x (c, res) (k, e)).1 ≡ faults res + fault_count (row_reason l x c k e)
unfolding scan_row
faults-scan_row l x c res k e = elim (Bool-cases (is_gap x c k)) [
  | inl g ↦ rw g (
      faults-mark (row_reason l x c k e) e _ _
      ∙ ap (λ n. n + fault_count (row_reason l x c k e)) (faults-note_gap x c k _))
  | inr g ↦ rw g (faults-mark (row_reason l x c k e) e _ _)
]

pub missing-mark :
    (r : Option Reason) (e : AuditLog) (b : Bool) (res : Report)
    → (mark r e b res).missing_entries ≡ res.missing_entries
unfolding add_invalid
missing-mark none e b res = refl
missing-mark (some r) e b res = refl

missing-scan_row :
    (l : Logger) (x : ℕ) (c : Cursor) (res : Report) (k : ℕ) (e : AuditLog)
    → res.missing_entries ≤ (scan_row l x (c, res) (k, e)).1.missing_entries
unfolding scan_row note_gap
missing-scan_row l x c res k e = rw (missing-mark (row_reason l x c k e)) (ground arith)

-- A row without a reason: it is correctly signed, it has no hole before it, and it is linked.
pub row_reason-none :
    (l : Logger) (x : ℕ) (c : Cursor) (k : ℕ) (e : AuditLog)
    → row_reason l x c k e ≡ none
    → (verify_audit_sig l e ≡ true)
      × (is_gap x c k ≡ false)
      × ((k == 1 && not (is_empty e.prev_sig)) ≡ false)
      × ((is_contiguous c k && not (text_eq e.prev_sig c.prev_sig)) ≡ false)
unfolding row_reason
row_reason-none l x c k e h = ground arith

chained-mark :
    (r : Option Reason) (e : AuditLog) (b : Bool) (res : Report)
    → (mark r e b res).chained_entries ≡ res.chained_entries
unfolding add_invalid
chained-mark none e b res = refl
chained-mark (some r) e b res = refl

pub chained-scan_row :
    (l : Logger) (x : ℕ) (c : Cursor) (res : Report) (k : ℕ) (e : AuditLog)
    → (scan_row l x (c, res) (k, e)).1.chained_entries ≡ res.chained_entries + 1
unfolding scan_row note_gap
chained-scan_row l x c res k e = rw (chained-mark (row_reason l x c k e)) (ground arith)

pub scan_row-behind :
    (l : Logger) (x : ℕ) (c : Cursor) (res : Report) (k : ℕ) (e : AuditLog) (rows : List Row)
    → scan_rows l x (c, res) ((k, e) ∷ rows)
      ≡ scan_rows l x (behind k e.sig e.timestamp, (scan_row l x (c, res) (k, e)).1) rows
unfolding scan_rows scan_row
scan_row-behind l x c res k e rows = refl

-- What the loop over some rows has done to a report, faults or not.
pub record Grown (before after : Report) (rows : List Row) : Type 0 where
  pub faults_grow : faults before ≤ faults after
  pub missing_grow : before.missing_entries ≤ after.missing_entries
  pub counted : after.chained_entries ≡ before.chained_entries + length rows

pub scan_rows-Grown :
    (l : Logger) (x : ℕ) (c : Cursor) (res : Report) (rows : List Row)
    → Grown res (scan_rows l x (c, res) rows).1 rows
unfolding scan_rows
scan_rows-Grown l x c res [] = omega arith
scan_rows-Grown l x c res ((k, e) ∷ rows) =
    let res' = (scan_row l x (c, res) (k, e)).1 in
    rw (scan_row-behind l x c res k e rows) (
      omega (
        arith,
        faults-scan_row l x c res k e,
        missing-scan_row l x c res k e,
        chained-scan_row l x c res k e,
        scan_rows-Grown l x (behind k e.sig e.timestamp) res' rows,
      ))

-- Where the loop ends.
pub scan_rows_end :
    (l : Logger) (x n : ℕ) (p : Text) (t : ℕ) (res : Report) (rows : List Row)
    → let c = (scan_rows l x (behind n p t, res) rows).0 in
      (c.prev_seq ≡ end_seq n rows) × (c.prev_sig ≡ end_sig p rows) × (c.have_chain ≡ true)
unfolding scan_rows
scan_rows_end l x n p t res [] = (refl, refl, refl)
scan_rows_end l x n p t res ((k, e) ∷ rows) =
    rw (scan_row-behind l x (behind n p t) res k e rows)
      (scan_rows_end l x k e.sig e.timestamp (scan_row l x (behind n p t, res) (k, e)).1 rows)
