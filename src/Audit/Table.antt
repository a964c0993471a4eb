-- ===== src/Audit/Table.antt =====
-- The queries on audit_logs and audit_chain: internal/db/queries.go and the SELECTs of
-- internal/audit/chain.go. A row of the chain is read with its number, `*e.Seq`.
pub mod Rows
pub mod Filters
use vaultrun.Base.{
  length, any, keep_if, ℕ, ◌-◌, ◌<◌, Bool, true, false, ◌&&◌, not, Option, none, some, List, [],
  ◌∷◌, ltb, leb, ◌==◌, if◌then◌else◌, is_some,
}
use vaultrun.Audit.Types.{AuditLog, AuditChainHead, Db}

abbrev pub Row : Type 0
Row = ℕ × AuditLog

-- ORDER BY seq, one row at a time
unfoldable pub insert_row : Row → List Row → List Row
insert_row r [] = r ∷ []
insert_row r (s ∷ rows) =
    let rest = insert_row r rows in if leb r.0 s.0 then r ∷ s ∷ rows else s ∷ rest

abbrev pub add_row : Option ℕ → AuditLog → List Row → List Row
add_row none e rows = rows
add_row (some n) e rows = insert_row (n, e) rows

-- SELECT * FROM audit_logs WHERE seq IS NOT NULL ORDER BY seq
unfoldable pub chained_rows : List AuditLog → List Row
chained_rows [] = []
chained_rows (e ∷ logs) = add_row e.seq e (chained_rows logs)

abbrev pub last_row : List Row → Option Row
last_row [] = none
last_row (r ∷ []) = some r
last_row (r ∷ s ∷ rows) = last_row (s ∷ rows)

-- LastChainedAuditEntry
abbrev pub last_chained : List AuditLog → Option Row
last_chained logs = last_row (chained_rows logs)

abbrev pub seq_is : ℕ → Option ℕ → Bool
seq_is n none = false
seq_is n (some k) = k == n

abbrev pub has_seq : ℕ → AuditLog → Bool
has_seq n e = seq_is n e.seq

abbrev pub is_taken : Option ℕ → List AuditLog → Bool
is_taken none logs = false
is_taken (some n) logs = any (has_seq n) logs

-- CreateAuditLog: `none` is the unique index on seq, audit_logs_seq_idx, refusing the row.
unfoldable pub create_audit_log : AuditLog → Db → Option Db
create_audit_log e db =
    if is_taken e.seq db.logs then none else some (record db { logs = e ∷ db.logs })

-- InsertAuditChainHead: ON CONFLICT DO NOTHING
unfoldable pub insert_head : AuditChainHead → Db → Db
insert_head h db = elim db.head [ none ↦ record db { head = some h } | some old ↦ db ]

-- UpdateAuditChainHead: started_at is not written, and no row means no write.
unfoldable pub update_head : AuditChainHead → Db → Db
update_head h db = elim db.head [
  | none ↦ db
  | some old ↦ record db { head = some (record h { started_at = old.started_at }) }
]

-- A test that asks whether the entry has a number.
abbrev pub if_numbered : (AuditLog → Bool) → (ℕ → AuditLog → Bool) → Option ℕ → AuditLog → Bool
if_numbered other q none e = other e
if_numbered other q (some k) e = q k e

abbrev pub unchained : AuditLog → Bool
unchained e = not (is_some e.seq)

-- NOT (seq IS NOT NULL AND seq <= $1)
abbrev pub outlives : ℕ → AuditLog → Bool
outlives n e = if_numbered (λ _. true) (λ k _. not (leb k n)) e.seq e

-- DeleteAuditSeqThrough, with the count of deleted rows
unfoldable pub delete_through : ℕ → Db → Db × ℕ
delete_through n db =
    let left = keep_if (outlives n) db.logs in
    (record db { logs = left }, length db.logs - length left)

abbrev pub cutoff : ℕ → Option ℕ → ℕ
cutoff before none = before
cutoff before (some start) = if ltb start before then start else before

-- NOT (seq IS NULL AND timestamp < $1)
abbrev pub not_legacy_before : ℕ → AuditLog → Bool
not_legacy_before before e = if_numbered (λ x. not (ltb x.timestamp before)) (λ _ _. true) e.seq e

-- DeleteUnchainedAuditBefore
unfoldable pub delete_unchained : ℕ → Option ℕ → Db → Db × ℕ
delete_unchained before start db =
    let left = keep_if (not_legacy_before (cutoff before start)) db.logs in
    (record db { logs = left }, length db.logs - length left)

-- SELECT * FROM audit_logs WHERE seq IS NULL AND timestamp >= $1
unfoldable pub unchained_since : ℕ → List AuditLog → List AuditLog
unchained_since start = keep_if (λ e. unchained e && leb start e.timestamp)

-- SELECT actor, COUNT(*) FROM audit_logs WHERE seq IS NULL GROUP BY actor, as the rows counted
unfoldable pub legacy_rows : List AuditLog → List AuditLog
legacy_rows = keep_if unchained

-- DeleteOldAuditLogs
unfoldable pub delete_old : ℕ → Db → Db × ℕ
delete_old before db =
    let left = keep_if (λ e. not (ltb e.timestamp before)) db.logs in
    (record db { logs = left }, length db.logs - length left)

-- Numbers above `n`, each above the one before.
abbrev pub Increasing : ℕ → List Row → Type 0
Increasing n [] = Unit
Increasing n (r ∷ rows) = (n < r.0) × Increasing r.0 rows

-- The rows of a table whose unique index on seq, audit_logs_seq_idx, holds.
abbrev pub IsIndexed : List Row → Type 0
IsIndexed [] = Unit
IsIndexed (r ∷ rows) = Increasing r.0 rows
