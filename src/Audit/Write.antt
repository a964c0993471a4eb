-- ===== src/Audit/Write.antt =====
-- Writing an entry: `Log` and `logChained` of internal/audit/audit.go. The readings of the clock
-- are arguments. A transaction that fails is rolled back: it is `none`, and the tables stay.
pub mod Keeps
pub mod Runs
use vaultrun.Base.{Text, ℕ, ◌+◌, Option, none, some, [], if◌then◌else◌}
use vaultrun.Audit.Sign.{truncate, enabled, sign, head_mac, head_valid}
use vaultrun.Audit.Table.{Row, last_chained, create_audit_log, insert_head, update_head}
use vaultrun.Audit.Types.{metadata, Logger, AuditLog, AuditChainHead, Db}

pub record Event : Type 0 where
  pub actor : Text
  pub session_id : Option ℕ
  pub run_id : Option ℕ
  pub action : Text
  pub metadata : Text

unfoldable pub first_head : Logger → ℕ → AuditChainHead
first_head l now =
    let h : AuditChainHead = record {
      seq = 0;
      last_sig = [];
      pruned_through = 0;
      started_at = truncate now;
      mac = [];
    } in
    record h { mac = head_mac l h }

abbrev ensure : Logger → ℕ → Option AuditChainHead → Option Row → Db → Db
ensure l now (some h) last db = db
ensure l now none (some r) db = db
ensure l now none none db = insert_head (first_head l now) db

-- The first entry ever starts the chain; a missing head is not made again where rows exist.
unfoldable pub ensure_head : Logger → ℕ → Db → Db
ensure_head l now db = ensure l now db.head (last_chained db.logs) db

abbrev pub if_valid : Logger → Option AuditChainHead → Option AuditChainHead
if_valid l none = none
if_valid l (some h) = if head_valid l h then some h else none

-- The head, if it is there and verifies.
unfoldable pub trusted_head : Logger → Db → Option AuditChainHead
trusted_head l db = if_valid l db.head

abbrev pub end_of : Option AuditChainHead → Option Row → ℕ × Text
end_of (some h) last = (h.seq, h.last_sig)
end_of none (some (n, e)) = (n, e.sig)
end_of none none = (0, [])

-- Where the next entry hangs: number and signature of the entry before it.
unfoldable pub chain_end : Logger → Db → ℕ × Text
chain_end l db = end_of (trusted_head l db) (last_chained db.logs)

-- The entry as it is written.
unfoldable pub chain_entry : Logger → ℕ → ℕ × Text → AuditLog → AuditLog
chain_entry l now at entry =
    let e : AuditLog = record entry {
      seq = some (at.0 + 1);
      prev_sig = at.1;
      timestamp = truncate now;
    } in
    record e { sig = sign l e }

unfoldable pub advance_head : Logger → ℕ → Text → AuditChainHead → AuditChainHead
advance_head l next sig h =
    let h' : AuditChainHead = record h { seq = next; last_sig = sig } in
    record h' { mac = head_mac l h' }

-- the head is written only where it was trusted, and nothing where the row was refused
abbrev pub move_head : Logger → ℕ → Text → Option AuditChainHead → Option Db → Option Db
move_head l next sig trusted none = none
move_head l next sig none (some db) = some db
move_head l next sig (some h) (some db) = some (update_head (advance_head l next sig h) db)

unfoldable pub log_chained : Logger → ℕ → ℕ → AuditLog → Db → Option Db
unfolding ensure_head trusted_head chain_end
log_chained l now_head now entry db =
    let db1 = ensure_head l now_head db in
    let at = chain_end l db1 in
    let e = chain_entry l now at entry in
    move_head l (at.0 + 1) e.sig (trusted_head l db1) (create_audit_log e db1)

abbrev pub or_unchanged : Db → Option Db → Db
or_unchanged db none = db
or_unchanged db (some db') = db'

-- `Log`: an error is reported to the process log only. `id` is the new UUID.
unfoldable pub log : Logger → (id now now_head now_entry : ℕ) → Event → Db → Db
unfolding log_chained
log l id now now_head now_entry ev db =
    let entry : AuditLog = record {
      id = id;
      timestamp = truncate now;
      actor = ev.actor;
      session_id = ev.session_id;
      run_id = ev.run_id;
      action = ev.action;
      metadata = ev.metadata;
      sig = [];
      seq = none;
      prev_sig = [];
    } in
    let result =
      (if enabled l
        then log_chained l now_head now_entry entry db
        else create_audit_log entry db) in
    or_unchanged db result
