-- ===== src/Audit/Scan/Unchained.antt =====
-- The loop of `scan` over the entries outside the chain.
use vaultrun.Base.{all, ◌+◌, ◌≤◌, ◌≡◌, refl, ◌⊎◌, true, List, [], ◌∷◌, arith, and-eq_true}
use vaultrun.Audit.Report.{Report, add_invalid}
use vaultrun.Audit.Scan.{scan_unchained_row, scan_unchained}
use vaultrun.Audit.Scan.Rows.{faults}
use vaultrun.Audit.Sign.{verify_audit_sig}
use vaultrun.Audit.Sign.Verified.{verify_audit_sig-is_empty}
use vaultrun.Audit.Types.{Logger, AuditLog}

-- The second loop adds a fault for each entry that does not verify.
unchained_row :
    (l : Logger) (e : AuditLog) (res : Report)
    → let res' = scan_unchained_row l e res in
      (res'.missing_entries ≡ res.missing_entries)
      × (((verify_audit_sig l e ≡ true) × (faults res' ≡ faults res))
          ⊎ (faults res' ≡ faults res + 1))
unfolding scan_unchained_row add_invalid
unchained_row l e res = ground arith

pub unchained_sound :
    (l : Logger) (es : List AuditLog) (res : Report)
    → (faults res ≤ faults (scan_unchained l es res))
      × ((scan_unchained l es res).missing_entries ≡ res.missing_entries)
      × (faults (scan_unchained l es res) ≡ faults res → all (verify_audit_sig l) es ≡ true)
unfolding scan_unchained
unchained_sound l [] res = (omega arith, refl, λ h. refl)
unchained_sound l (e ∷ es) res =
    let rest = unchained_sound l es (scan_unchained_row l e res) in
    ground (arith, unchained_row l e res, rest)

pub unchained_complete :
    (l : Logger) (es : List AuditLog) (res : Report)
    → all (verify_audit_sig l) es ≡ true
    → scan_unchained l es res ≡ res
unfolding scan_unchained scan_unchained_row
unchained_complete l [] res h = refl
unchained_complete l (e ∷ es) res h =
    let (v, vs) = and-eq_true (verify_audit_sig l e) (all (verify_audit_sig l) es) h in
    ground (arith, verify_audit_sig-is_empty l e v, unchained_complete l es res vs)
