-- ===== src/Audit/Verdict/Sound.antt =====
-- What the verdict of `scan` (internal/audit/chain.go) means for the tables.
use vaultrun.Base.{
  all, null, All, ℕ, zero, suc, ◌≤◌, ◌≡◌, refl, sym, ap, ◌∙◌, ◌≢◌, ◌↔◌, inl, inr, true, false, ◌&&◌,
  not, Option, none, some, List, [], ◌∷◌, ◌++◌, arith, if◌then◌else◌, Bool-cases, Option-cases,
  and-eq_true,
}
use vaultrun.Audit.Classify.{load_head}
use vaultrun.Audit.Intact.{Checked, IsSound}
use vaultrun.Audit.Report.{Problem, entries_altered, entries_affected, entries_missing, Report}
use vaultrun.Audit.Scan.{check_head, scan_unchained, count_legacy, scan_tables}
use vaultrun.Audit.Scan.Rows.{faults}
use vaultrun.Audit.Scan.Sound.{rows_checked, Checked-of_Faultless, Faultless-of_Checked}
use vaultrun.Audit.Scan.Unchained.{unchained_sound, unchained_complete}
use vaultrun.Audit.Sign.{verify_audit_sig, head_valid}
use vaultrun.Audit.Table.{Row, chained_rows, unchained_since, legacy_rows}
use vaultrun.Audit.Types.{Logger, AuditLog, AuditChainHead, Db}
use vaultrun.Audit.Verdict.{intact, compromised, some_if, count_problems, scan}

null-some_if : (n : ℕ) (p : Problem) → null (some_if n p) ≡ true → n ≡ 0
null-some_if zero p h = refl
null-some_if (suc n) p h = cc

null-append : {A : Type 0} (xs ys : List A) → null (xs ++ ys) ≡ (null xs && null ys)
null-append [] ys = refl
null-append (x ∷ xs) ys = refl

null→nil : {A : Type 0} (xs : List A) → null xs ≡ true → xs ≡ []
null→nil [] h = refl
null→nil (x ∷ xs) h = cc

null-count_problems :
    (res : Report) → null (count_problems res) ≡ true → (faults res ≡ 0) × (res.missing_entries ≡ 0)
unfolding count_problems
null-count_problems res h =
    let a = some_if res.altered_entries (entries_altered res.altered_entries) in
    let b = some_if res.affected_entries (entries_affected res.affected_entries) in
    let c = some_if res.missing_entries (entries_missing res.missing_entries) in
    let (nab, nc) = and-eq_true (null (a ++ b)) (null c) (sym (null-append (a ++ b) c) ∙ h) in
    let (na, nb) = and-eq_true (null a) (null b) (sym (null-append a b) ∙ nab) in
    omega (
      arith,
      null-some_if res.altered_entries (entries_altered res.altered_entries) na,
      null-some_if res.affected_entries (entries_affected res.affected_entries) nb,
      null-some_if res.missing_entries (entries_missing res.missing_entries) nc,
    )

count_problems-nil :
    (res : Report) → faults res ≡ 0 → res.missing_entries ≡ 0 → count_problems res ≡ []
unfolding count_problems
count_problems-nil res f m =
    let a : res.altered_entries ≡ 0 = omega arith in
    let b : res.affected_entries ≡ 0 = omega arith in rw (a, b, m)

-- A scan of tables with the head `h`.
scan_valid :
    (l : Logger) (logs : List AuditLog) (h : AuditChainHead)
    → head_valid l h ≡ true
    → let r = rows_checked l h (chained_rows logs) in
      let res =
        count_legacy
          (legacy_rows logs)
          (scan_unchained l (unchained_since h.started_at logs) r.0) in
      (scan l (record { logs = logs; head = some h })).status
      ≡ (if not (null (r.1 ++ count_problems res)) then compromised else intact)
unfolding scan scan_tables rows_checked load_head
scan_valid l logs h mac = rw mac refl

scan_invalid :
    (l : Logger) (logs : List AuditLog) (h : AuditChainHead)
    → head_valid l h ≡ false
    → (scan l (record { logs = logs; head = some h })).status ≡ compromised
unfolding scan scan_tables load_head check_head
scan_invalid l logs h mac = rw mac refl

scan_headless :
    (l : Logger) (logs : List AuditLog)
    → (scan l (record { logs = logs; head = none })).status ≢ intact
unfolding scan scan_tables load_head check_head
scan_headless l logs = ground arith

null-faultless :
    (r : Report × List Problem) (res : Report)
    → (if not (null (r.1 ++ count_problems res)) then compromised else intact) ≡ intact
    → (r.1 ≡ []) × (faults res ≡ 0) × (res.missing_entries ≡ 0)
null-faultless r res h =
    let (heads, counts) =
      and-eq_true (null r.1) (null (count_problems res))
        (sym (null-append r.1 (count_problems res)) ∙ ground arith) in
    let counted = null-count_problems res counts in (null→nil r.1 heads, counted.0, counted.1)

clean_status :
    (heads : List Problem) (res : Report)
    → heads ≡ []
    → faults res ≡ 0
    → res.missing_entries ≡ 0
    → (if not (null (heads ++ count_problems res)) then compromised else intact) ≡ intact
clean_status heads res e f m = rw (e, count_problems-nil res f m)

-- A verdict "ok" over tables with a valid head.
ok-IsSound :
    (l : Logger) (logs : List AuditLog) (h : AuditChainHead)
    → head_valid l h ≡ true
    → (scan l (record { logs = logs; head = some h })).status ≡ intact
    → Checked l h (chained_rows logs)
      × (all (verify_audit_sig l) (unchained_since h.started_at logs) ≡ true)
unfolding count_legacy
ok-IsSound l logs h mac ok =
    let r = rows_checked l h (chained_rows logs) in
    let late = unchained_since h.started_at logs in
    let got = null-faultless r _ (sym (scan_valid l logs h mac) ∙ ok) in
    let second = unchained_sound l late r.0 in
    (
      Checked-of_Faultless l h (chained_rows logs)
          (omega (arith, got.1, second.0), omega (arith, got.2, second.1), got.0),
      second.2 (omega (arith, got.1, second.0)),
    )

IsSound-ok :
    (l : Logger) (logs : List AuditLog) (h : AuditChainHead)
    → head_valid l h ≡ true
    → All (λ (r : Row). 1 ≤ r.0) (chained_rows logs)
    → Checked l h (chained_rows logs)
    → all (verify_audit_sig l) (unchained_since h.started_at logs) ≡ true
    → (scan l (record { logs = logs; head = some h })).status ≡ intact
unfolding count_legacy
IsSound-ok l logs h mac low c late =
    let r = rows_checked l h (chained_rows logs) in
    let clean = Faultless-of_Checked l h (chained_rows logs) low c in
    let same = unchained_complete l (unchained_since h.started_at logs) r.0 late in
    scan_valid l logs h mac
    ∙ clean_status r.1 _ clean.2 (ap faults same ∙ clean.0)
        (ap (λ (x : Report). x.missing_entries) same ∙ clean.1)

with_head :
    (db : Db) {o : Option AuditChainHead} → db.head ≡ o → db ≡ record { logs = db.logs; head = o }
with_head db e = λ j. record { logs = db.logs; head = e j }

scan_at :
    (l : Logger) (db : Db) {o : Option AuditChainHead}
    → db.head ≡ o
    → (scan l db).status ≡ (scan l (record { logs = db.logs; head = o })).status
scan_at l db e = ap (λ d. (scan l d).status) (with_head db e)

ok-head :
    (l : Logger) (db : Db)
    → (scan l db).status ≡ intact
    → (h : AuditChainHead) × (db.head ≡ some h) × (head_valid l h ≡ true)
ok-head l db ok = elim (Option-cases db.head) [
  | inl gone ↦ absurd (scan_headless l db.logs (sym (scan_at l db gone) ∙ ok))
  | inr (h, here) ↦ elim (Bool-cases (head_valid l h)) [
    | inl mac ↦ (h, here, mac)
    | inr bad ↦ absurd (cc (scan_invalid l db.logs h bad, scan_at l db here, ok))
  ]
]

scan-IsSound : (l : Logger) (db : Db) → (scan l db).status ≡ intact → IsSound l db
scan-IsSound l db ok =
    let (h, here, mac) = ok-head l db ok in
    let got = ok-IsSound l db.logs h mac (sym (scan_at l db here) ∙ ok) in
    record { head = h; stored = here; mac = mac; checked = got.0; late_verify = got.1 }

-- Where no row has the chain number 0, which the logger never gives, the verdict of the scan is
-- "ok" exactly where the head verifies, the rows follow on what was pruned, are numbered without a
-- hole, correctly signed, each linked to the one before it, and end where the head says, and every
-- entry written without a number since chaining began is correctly signed.
pub scan-IsSound_iff :
    (l : Logger) (db : Db)
    → All (λ (r : Row). 1 ≤ r.0) (chained_rows db.logs)
    → ((scan l db).status ≡ intact) ↔ IsSound l db
scan-IsSound_iff l db low = (
  scan-IsSound l db,
  λ s. scan_at l db s.stored ∙ IsSound-ok l db.logs s.head s.mac low s.checked s.late_verify,
)
