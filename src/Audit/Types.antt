-- ===== src/Audit/Types.antt =====
-- The data of the audit log: internal/audit (the logger's key, the reasons) and the rows of
-- audit_logs and audit_chain (internal/models/models.go, internal/db/queries.go). Times are
-- nanoseconds since 1970, and identifiers the numbers that the UUIDs are.
use vaultrun.Base.{ℕ, Text, Option, List}

-- One value written into a MAC. The rendering of each (fmt, time.RFC3339Nano, the canonical JSON
-- of the metadata) and the NUL bytes between them belong to `hmac` below.
pub data Field : Type 0 where
  text : Text → Field
  number : ℕ → Field
  time : ℕ → Field
  uuid : ℕ → Field
  no_uuid : Field
  metadata : Text → Field

-- `hmac key fields` is hex.EncodeToString of HMAC-SHA256 over the rendered fields.
pub record Logger : Type 0 where
  pub hmac_key : Text
  pub hmac : Text → List Field → Text

pub record AuditLog : Type 0 where
  pub id : ℕ
  pub timestamp : ℕ
  pub actor : Text
  pub session_id : Option ℕ
  pub run_id : Option ℕ
  pub action : Text
  pub metadata : Text
  pub sig : Text
  pub seq : Option ℕ
  pub prev_sig : Text

pub record AuditChainHead : Type 0 where
  pub seq : ℕ
  pub last_sig : Text
  pub pruned_through : ℕ
  pub started_at : ℕ
  pub mac : Text

-- The two tables. The order of `logs` carries no meaning: every query orders its rows.
pub record Db : Type 0 where
  pub logs : List AuditLog
  pub head : Option AuditChainHead

-- The constants `Reason…`; "" is `none` of an `Option Reason`.
pub data Reason : Type 0 where
  changed sig_removed seq_removed unchained prev_missing prev_changed first_has_parent : Reason

-- models.AuditSig…
pub data SigStatus : Type 0 where
  valid invalid unsigned unverifiable : SigStatus

-- models.AuditKind…
pub data Kind : Type 0 where
  altered chain : Kind
