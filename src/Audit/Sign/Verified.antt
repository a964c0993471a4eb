-- ===== src/Audit/Sign/Verified.antt =====
-- What a signature says of an entry: `sign` and `VerifyAuditSig` of internal/audit/audit.go.
use vaultrun.Base.{
  Text, text_eq_refl, is_empty, ℕ, ◌≡◌, refl, ap, inl, inr, true, false, not, Option, none, some,
  ◌++◌, arith, Bool-cases,
}
use vaultrun.Audit.Sign.{
  enabled, signed_fields, prefix_of, sign, trim_sig_prefix, verify_audit_sig, head_mac, head_valid,
}
use vaultrun.Audit.Types.{Logger, AuditLog, AuditChainHead}

prefixed_not_empty : (seq : Option ℕ) (s : Text) → is_empty (prefix_of seq ++ s) ≡ false
prefixed_not_empty none s = refl
prefixed_not_empty (some n) s = refl

pub is_empty-sign : (l : Logger) (e : AuditLog) → enabled l ≡ true → is_empty (sign l e) ≡ false
unfolding sign enabled
is_empty-sign l e on = elim (Bool-cases (is_empty l.hmac_key)) [
  | inl key ↦ absurd (cc (on, ap not key))
  | inr key ↦ rw key (prefixed_not_empty e.seq (l.hmac l.hmac_key (signed_fields e)))
]

-- The signature does not cover itself.
sign-sig : (l : Logger) (e : AuditLog) (s : Text) → sign l (record e { sig = s }) ≡ sign l e
unfolding sign
sign-sig l e s = refl

-- An entry that carries the signature made for it verifies, with signing on.
pub verify_audit_sig-sign :
    (l : Logger) (e : AuditLog)
    → enabled l ≡ true
    → verify_audit_sig l (record e { sig = sign l e }) ≡ true
unfolding verify_audit_sig enabled
verify_audit_sig-sign l e on = ground (
  arith,
  is_empty-sign l e on,
  sign-sig l e (sign l e),
  text_eq_refl (trim_sig_prefix (sign l e)),
)

-- A verified entry has a signature.
pub verify_audit_sig-is_empty :
    (l : Logger) (e : AuditLog) → verify_audit_sig l e ≡ true → is_empty e.sig ≡ false
unfolding verify_audit_sig
verify_audit_sig-is_empty l e h = ground arith

pub verify_audit_sig-enabled :
    (l : Logger) (e : AuditLog) → verify_audit_sig l e ≡ true → enabled l ≡ true
unfolding verify_audit_sig enabled
verify_audit_sig-enabled l e h = ground arith

pub head_valid-head_mac :
    (l : Logger) (h : AuditChainHead) → head_valid l (record h { mac = head_mac l h }) ≡ true
unfolding head_valid head_mac
head_valid-head_mac l h = text_eq_refl _
