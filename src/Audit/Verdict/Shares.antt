-- ===== src/Audit/Verdict/Shares.antt =====
-- What one key sees of the verdict: `ScopedTo` of internal/audit/chain.go.
use native.Mathlib.Nat.{add-zero}
use vaultrun.Base.{
  length, length-append, All, Text, text_eq_iff, is_empty, starts_with, text_eq, ℕ, ◌+◌, ◌≤◌, ◌≡◌,
  refl, subst, inl, inr, Bool, true, false, Option, none, some, List, [], ◌∷◌, ◌++◌, arith, ltb,
  if◌then◌else◌, ltb→lt, Bool-cases,
}
use vaultrun.Audit.Classify.{load_head, valid_head, reason_kind}
use vaultrun.Audit.Report.{
  max_reported_ids, max_tracked_bad, IntegrityEntry, Report, empty_report, Cursor, start_cursor,
  append_capped, add_invalid,
}
use vaultrun.Audit.Scan.{
  is_gap, note_gap, row_reason, mark, scan_row, scan_rows, note_missing, check_head,
  scan_unchained_row, scan_unchained, count_legacy, expected_next, later_unchained, scan_tables,
}
use vaultrun.Audit.Sign.{chain_sig_prefix, verify_audit_sig}
use vaultrun.Audit.Table.{Row, chained_rows}
use vaultrun.Audit.Types.{
  Logger, AuditLog, AuditChainHead, Db, Reason, changed, sig_removed, seq_removed,
}
use vaultrun.Audit.Verdict.{scan, Share, share_entry, share_all, no_share, scoped_to}

-- The counters of a report add up, and the lists of entries keep within their caps.
pub record IsTallied (res : Report) : Type 0 where
  pub sum : res.invalid_entries ≡ res.altered_entries + res.affected_entries
  pub tracked_le : length res.tracked ≤ res.invalid_entries
  pub tracked_cap : length res.tracked ≤ max_tracked_bad
  pub reported_cap : length res.entries ≤ max_reported_ids

length-append_capped :
    {A : Type 0} (n : ℕ) (xs : List A) (x : A)
    → (length (append_capped n xs x) ≤ length xs + 1)
      × (length xs ≤ n → length (append_capped n xs x) ≤ n)
length-append_capped n xs x = elim (Bool-cases (ltb (length xs) n)) [
  | inl room ↦ rw room (
    omega (arith, length-append xs (x ∷ [])),
    λ h. omega (arith, length-append xs (x ∷ []), ltb→lt (length xs) n room),
  )
  | inr full ↦ rw full (omega arith, λ h. h)
]

add_invalid-IsTallied :
    (e : AuditLog) (r : Reason) (b : Bool) (res : Report)
    → IsTallied res
    → IsTallied (add_invalid e r b res)
unfolding add_invalid
add_invalid-IsTallied e r b res v =
    let ie : IntegrityEntry = record {
      id = e.id;
      seq = e.seq;
      kind = reason_kind r;
      reason = r;
      out_of_order = b;
      actor = e.actor;
    } in
    let tr = length-append_capped max_tracked_bad res.tracked ie in
    let re = length-append_capped max_reported_ids res.entries ie in
    record {
      sum = ground (arith, v.sum);
      tracked_le = omega (arith, tr.0, v.tracked_le);
      tracked_cap = tr.1 v.tracked_cap;
      reported_cap = re.1 v.reported_cap;
    }

mark-IsTallied :
    (r : Option Reason) (e : AuditLog) (b : Bool) (res : Report)
    → IsTallied res
    → IsTallied (mark r e b res)
mark-IsTallied none e b res v = v
mark-IsTallied (some r) e b res v = add_invalid-IsTallied e r b res v

scan_row-IsTallied :
    (l : Logger) (x : ℕ) (c : Cursor) (res : Report) (r : Row)
    → IsTallied res
    → IsTallied (scan_row l x (c, res) r).1
unfolding scan_row note_gap
scan_row-IsTallied l x c res (k, e) v = mark-IsTallied (row_reason l x c k e) e _ _ (
    if_tallied (is_gap x c k) _ _
      (record {
        sum = v.sum;
        tracked_le = v.tracked_le;
        tracked_cap = v.tracked_cap;
        reported_cap = v.reported_cap;
      })
      (record {
        sum = v.sum;
        tracked_le = v.tracked_le;
        tracked_cap = v.tracked_cap;
        reported_cap = v.reported_cap;
      }))
  where
    if_tallied :
        (t : Bool) (a d : Report) → IsTallied a → IsTallied d → IsTallied (if t then a else d)
    if_tallied true a d va vd = va
    if_tallied false a d va vd = vd

scan_rows-IsTallied :
    (l : Logger) (x : ℕ) (c : Cursor) (res : Report) (rows : List Row)
    → IsTallied res
    → IsTallied (scan_rows l x (c, res) rows).1
unfolding scan_rows
scan_rows-IsTallied l x c res [] v = v
scan_rows-IsTallied l x c res (r ∷ rows) v =
    scan_rows-IsTallied l x (scan_row l x (c, res) r).0 (scan_row l x (c, res) r).1 rows
      (scan_row-IsTallied l x c res r v)

check_head-IsTallied :
    (h : Option AuditChainHead × Bool) (c : Cursor) (res : Report)
    → IsTallied res
    → IsTallied (check_head h c res).0
unfolding check_head note_missing
check_head-IsTallied (none, b) c res v = v
check_head-IsTallied (some h, false) c res v = v
check_head-IsTallied (some h, true) c res v = ground arith

scan_unchained-IsTallied :
    (l : Logger) (es : List AuditLog) (res : Report)
    → IsTallied res
    → IsTallied (scan_unchained l es res)
unfolding scan_unchained scan_unchained_row
scan_unchained-IsTallied l [] res v = v
scan_unchained-IsTallied l (e ∷ es) res v =
    scan_unchained-IsTallied l es (scan_unchained_row l e res)
      (row (is_empty e.sig) (verify_audit_sig l e) (starts_with chain_sig_prefix e.sig))
  where
    row :
        (a b d : Bool)
        → IsTallied (
            if a
            then add_invalid e sig_removed false res
            else if b
            then res
            else if d
            then add_invalid e seq_removed false res
            else add_invalid e changed false res)
    row true b d = add_invalid-IsTallied e sig_removed false res v
    row false true d = v
    row false false true = add_invalid-IsTallied e seq_removed false res v
    row false false false = add_invalid-IsTallied e changed false res v

-- The counters of a scan's report add up, and its lists keep within their caps.
pub scan-IsTallied : (l : Logger) (db : Db) → IsTallied (scan l db).report
unfolding scan scan_tables count_legacy empty_report
scan-IsTallied l db =
    let head = load_head l db in
    let s =
      scan_rows l (expected_next (valid_head head)) (start_cursor, empty_report)
        (chained_rows db.logs) in
    let v =
      scan_rows-IsTallied l (expected_next (valid_head head)) start_cursor empty_report
        (chained_rows db.logs) (omega arith) in
    let u =
      scan_unchained-IsTallied l (later_unchained (valid_head head) db) (check_head head s.0 s.1).0
        (check_head-IsTallied head s.0 s.1 v) in
    record {
      sum = u.sum;
      tracked_le = u.tracked_le;
      tracked_cap = u.tracked_cap;
      reported_cap = u.reported_cap;
    }

abbrev pub ByActor : Text → List IntegrityEntry → Type 0
ByActor actor = All (λ (e : IntegrityEntry). e.actor ≡ actor)

All-append_capped :
    (actor : Text) (n : ℕ) (xs : List IntegrityEntry) (x : IntegrityEntry)
    → ByActor actor xs
    → x.actor ≡ actor
    → ByActor actor (append_capped n xs x)
All-append_capped actor n xs x h e = elim (Bool-cases (ltb (length xs) n)) [
  | inl room ↦ rw room (snoc xs h)
  | inr full ↦ rw full h
]
  where
    snoc : (ys : List IntegrityEntry) → ByActor actor ys → ByActor actor (ys ++ x ∷ [])
    snoc [] g = (e, tt)
    snoc (y ∷ ys) g = (g.0, snoc ys g.1)

-- What the loop of ScopedTo keeps, after `n` entries.
record IsShare (actor : Text) (n : ℕ) (s : Share) : Type 0 where
  counted : s.own + s.other ≡ n
  parts : s.own ≡ s.own_altered + s.own_affected
  listed : ByActor actor s.entries

share_entry-IsShare :
    (actor : Text) (n : ℕ) (s : Share) (e : IntegrityEntry)
    → IsShare actor n s
    → IsShare actor (n + 1) (share_entry actor s e)
unfolding share_entry
share_entry-IsShare actor n s e v = elim (Bool-cases (text_eq e.actor actor)) [
  | inl own ↦ rw own (record {
    counted = omega (arith, v.counted);
    parts = ground (arith, v.parts);
    listed =
        All-append_capped actor max_reported_ids s.entries e v.listed
          ((text_eq_iff e.actor actor).0 own);
  })
  | inr other ↦
      rw other (record { counted = omega (arith, v.counted); parts = v.parts; listed = v.listed })
]

share_all-IsShare :
    (actor : Text) (n : ℕ) (s : Share) (es : List IntegrityEntry)
    → IsShare actor n s
    → IsShare actor (n + length es) (share_all actor s es)
unfolding share_all
share_all-IsShare actor n s [] v = rw (add-zero) v
share_all-IsShare actor n s (e ∷ es) v =
    subst (λ m. IsShare actor m (share_all actor (share_entry actor s e) es)) (omega arith)
      (share_all-IsShare actor (n + 1) (share_entry actor s e) es
        (share_entry-IsShare actor n s e v))

-- A key sees the status of the whole log; the entries listed for it are its own; and its own and
-- the others' invalid entries are together the invalid entries of the scan.
pub scoped_to_lem :
    (l : Logger) (db : Db) (actor : Text)
    → let s = scoped_to actor (scan l db) in
      (s.status ≡ (scan l db).status)
      × ByActor actor s.entries
      × (s.own_invalid + s.other_invalid ≡ (scan l db).report.invalid_entries)
unfolding scoped_to
scoped_to_lem l db actor =
    let res = (scan l db).report in
    let v =
      share_all-IsShare actor 0 no_share res.tracked
        (record { counted = refl; parts = refl; listed = tt }) in
    (refl, v.listed, omega (arith, v.counted, (scan-IsTallied l db).tracked_le))
