-- ===== src/Audit/Scan.antt =====
-- The check of the whole log: the loops and the check of the head in `scan` of
-- internal/audit/chain.go. lastSeq and lastSig are the cursor's prev_seq and prev_sig: the source
-- sets both pairs together, and reads the former only after the loop.
pub mod Rows
pub mod Faultless
pub mod Unchained
pub mod Sound
use vaultrun.Base.{
  length, is_empty, starts_with, text_eq, ℕ, ◌+◌, ◌-◌, Bool, true, false, ◌&&◌, ◌||◌, not, Option,
  none, some, List, [], ◌∷◌, map, ltb, ◌==◌, if◌then◌else◌,
}
use vaultrun.Audit.Classify.{load_head, valid_head}
use vaultrun.Audit.Report.{
  Problem, head_missing, head_altered, head_behind, head_mismatch, Report, empty_report, Cursor,
  start_cursor, append_range, add_invalid,
}
use vaultrun.Audit.Sign.{chain_sig_prefix, verify_audit_sig}
use vaultrun.Audit.Table.{Row, chained_rows, unchained_since, legacy_rows}
use vaultrun.Audit.Types.{
  Logger, AuditLog, AuditChainHead, Db, Reason, changed, sig_removed, seq_removed, prev_missing,
  prev_changed, first_has_parent,
}

unfoldable pub is_contiguous : Cursor → ℕ → Bool
is_contiguous c seq = not c.first && seq == c.prev_seq + 1

-- `expect_next` is 0 without a valid head.
unfoldable pub is_gap : ℕ → Cursor → ℕ → Bool
unfolding is_contiguous
is_gap expect_next c seq =
    (c.first && ltb 0 expect_next && ltb expect_next seq)
    || (not c.first && not (is_contiguous c seq))

unfoldable pub note_gap : ℕ → Cursor → ℕ → Report → Report
unfolding append_range
note_gap expect_next c seq res =
    let from = (if c.first then expect_next else c.prev_seq + 1) in
    record res {
      missing_entries = res.missing_entries + (seq - from);
      missing_seqs = append_range res.missing_seqs from (seq - 1);
    }

-- the `switch` of the loop
unfoldable pub row_reason : Logger → ℕ → Cursor → ℕ → AuditLog → Option Reason
unfolding is_contiguous is_gap
row_reason l expect_next c seq e =
    if is_empty e.sig
    then some sig_removed
    else if not (verify_audit_sig l e)
    then some changed
    else if seq == 1 && not (is_empty e.prev_sig)
    then some first_has_parent
    else if is_contiguous c seq && not (text_eq e.prev_sig c.prev_sig)
    then some prev_changed
    else if is_gap expect_next c seq
    then some prev_missing
    else none

abbrev pub mark : Option Reason → AuditLog → Bool → Report → Report
mark none e out_of_order res = res
mark (some r) e out_of_order res = add_invalid e r out_of_order res

unfoldable pub scan_row : Logger → ℕ → Cursor × Report → Row → Cursor × Report
scan_row l expect_next (c, res) (seq, e) =
    let counted : Report = record res {
      chained_entries = res.chained_entries + 1;
      chained_by = e.actor ∷ res.chained_by;
    } in
    let gapped =
      (if is_gap expect_next c seq then note_gap expect_next c seq counted else counted) in
    let marked =
      mark (row_reason l expect_next c seq e) e (is_contiguous c seq && ltb e.timestamp c.prev_time)
        gapped in
    (
      record {
        first = false;
        prev_seq = seq;
        prev_sig = e.sig;
        prev_time = e.timestamp;
        have_chain = true;
      },
      marked,
    )

unfoldable pub scan_rows : Logger → ℕ → Cursor × Report → List Row → Cursor × Report
scan_rows l expect_next s [] = s
scan_rows l expect_next s (r ∷ rows) = scan_rows l expect_next (scan_row l expect_next s r) rows

-- the numbers from `from` to `to` are missing at the end
unfoldable pub note_missing : ℕ → ℕ → Report → Report
unfolding append_range
note_missing from to res = record res {
  missing_entries = res.missing_entries + (to + 1 - from);
  missing_seqs = append_range res.missing_seqs from to;
}

-- the `switch` on the head after the loop; lastSeq and lastSig are the cursor's
unfoldable pub check_head : Option AuditChainHead × Bool → Cursor → Report → Report × List Problem
unfolding note_missing
check_head (none, v) c res = (res, if c.have_chain then head_missing ∷ [] else [])
check_head (some h, false) c res = (res, head_altered ∷ [])
check_head (some h, true) c res =
    if not c.have_chain && ltb h.pruned_through h.seq
    then (note_missing (h.pruned_through + 1) h.seq res, [])
    else if c.have_chain && ltb c.prev_seq h.seq
    then (note_missing (c.prev_seq + 1) h.seq res, [])
    else if c.have_chain && ltb h.seq c.prev_seq
    then (res, head_behind ∷ [])
    else if c.have_chain && not (text_eq c.prev_sig h.last_sig)
    then (res, head_mismatch ∷ [])
    else (res, [])

-- one row of the second query, over the unchained entries since the chain began
unfoldable pub scan_unchained_row : Logger → AuditLog → Report → Report
scan_unchained_row l e res =
    if is_empty e.sig
    then add_invalid e sig_removed false res
    else if verify_audit_sig l e
    then res
    else if starts_with chain_sig_prefix e.sig
    then add_invalid e seq_removed false res
    else add_invalid e changed false res

unfoldable pub scan_unchained : Logger → List AuditLog → Report → Report
unfolding scan_unchained_row
scan_unchained l [] res = res
scan_unchained l (e ∷ es) res = scan_unchained l es (scan_unchained_row l e res)

unfoldable pub count_legacy : List AuditLog → Report → Report
count_legacy rows res = record res {
  legacy_entries = res.legacy_entries + length rows;
  legacy_by = map (λ (e : AuditLog). e.actor) rows;
}

abbrev pub expected_next : Option AuditChainHead → ℕ
expected_next none = 0
expected_next (some h) = h.pruned_through + 1

abbrev pub later_unchained : Option AuditChainHead → Db → List AuditLog
later_unchained none db = []
later_unchained (some h) db = unchained_since h.started_at db.logs

-- The rows, then the head, then the unchained entries; the second part is `headProblems`.
unfoldable pub scan_tables : Logger → Db → Cursor × Report × List Problem
unfolding load_head check_head scan_unchained count_legacy start_cursor empty_report
scan_tables l db =
    let head = load_head l db in
    let s =
      scan_rows l (expected_next (valid_head head)) (start_cursor, empty_report)
        (chained_rows db.logs) in
    let checked = check_head head s.0 s.1 in
    let res = scan_unchained l (later_unchained (valid_head head) db) checked.0 in
    (s.0, count_legacy (legacy_rows db.logs) res, checked.1)
