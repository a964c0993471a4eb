-- ===== src/Audit/Sign.antt =====
-- Signatures of entries and of the chain head: internal/audit/audit.go.
pub mod Verified
use vaultrun.Base.{
  Text, codes, is_empty, starts_with, text_eq, ℕ, ◌-◌, ◌%◌, Bool, false, ◌&&◌, ◌||◌, not, Option,
  none, some, List, [], ◌∷◌, ◌++◌, ltb, if◌then◌else◌, is_some,
}
use vaultrun.Audit.Types.{
  Field, text, number, time, uuid, no_uuid, metadata, Logger, AuditLog, AuditChainHead, SigStatus,
  valid, invalid, unsigned, unverifiable,
}

abbrev pub sig_prefix : Text
sig_prefix = codes "v2:"

abbrev pub chain_sig_prefix : Text
chain_sig_prefix = codes "v3:"

-- time.Truncate(time.Microsecond)
abbrev pub truncate : ℕ → ℕ
truncate t = t - t % 1000

unfoldable pub enabled : Logger → Bool
enabled l = not (is_empty l.hmac_key)

abbrev pub uuid_str : Option ℕ → Field
uuid_str none = no_uuid
uuid_str (some u) = uuid u

-- The six fields that every signature covers.
abbrev pub base_fields : AuditLog → List Field
base_fields e =
    uuid e.id
    ∷ time e.timestamp
    ∷ text e.actor
    ∷ text e.action
    ∷ uuid_str e.session_id
    ∷ uuid_str e.run_id
    ∷ []

-- The fields of a chained entry go before the metadata.
abbrev pub chain_fields : Option ℕ → Text → List Field
chain_fields none prev = []
chain_fields (some n) prev = number n ∷ text prev ∷ []

abbrev pub signed_fields : AuditLog → List Field
signed_fields e = base_fields e ++ chain_fields e.seq e.prev_sig ++ metadata e.metadata ∷ []

abbrev pub prefix_of : Option ℕ → Text
prefix_of none = sig_prefix
prefix_of (some n) = chain_sig_prefix

unfoldable pub sign : Logger → AuditLog → Text
sign l e =
    if is_empty l.hmac_key then [] else prefix_of e.seq ++ l.hmac l.hmac_key (signed_fields e)

abbrev drop_prefix : Text → Text → Text
drop_prefix [] s = s
drop_prefix (p ∷ ps) [] = []
drop_prefix (p ∷ ps) (c ∷ s) = drop_prefix ps s

-- strings.TrimPrefix
abbrev trim_prefix : Text → Text → Text
trim_prefix p s = if starts_with p s then drop_prefix p s else s

unfoldable pub trim_sig_prefix : Text → Text
trim_sig_prefix s = trim_prefix chain_sig_prefix (trim_prefix sig_prefix s)

unfoldable pub verify_audit_sig : Logger → AuditLog → Bool
verify_audit_sig l e =
    if is_empty l.hmac_key || is_empty e.sig
    then false
    else text_eq (trim_sig_prefix e.sig) (trim_sig_prefix (sign l e))

unfoldable pub head_mac : Logger → AuditChainHead → Text
head_mac l h = l.hmac l.hmac_key (
    text (codes "audit-chain-head")
    ∷ number h.seq
    ∷ text h.last_sig
    ∷ number h.pruned_through
    ∷ time (truncate h.started_at)
    ∷ [])

unfoldable pub head_valid : Logger → AuditChainHead → Bool
head_valid l h = text_eq h.mac (head_mac l h)

abbrev before_opt : ℕ → Option ℕ → Bool
before_opt t none = false
before_opt t (some v) = ltb t v

-- `verified_since` is the time of the earliest entry with `sig_prefix`, if there is one.
unfoldable pub sig_status : Logger → AuditLog → Option ℕ → SigStatus
sig_status l e verified_since =
    if not (is_empty e.sig) && verify_audit_sig l e
    then valid
    else if before_opt e.timestamp verified_since
    then (if is_empty e.sig then unsigned else unverifiable)
    else if is_empty e.sig && not (is_some verified_since)
    then unsigned
    else invalid
