-- ===== src/Audit/Write/Keeps.antt =====
-- Writing entries keeps the log intact: `logChained` of internal/audit/audit.go.
use vaultrun.Base.{
  length, length-append, keep_if, Text, ℕ, ◌+◌, ◌≡◌, refl, sym, ap, ◌∙◌, true, none, some, List, [],
  ◌∷◌, ◌++◌, arith,
}
use vaultrun.Audit.Intact.{
  Linked, IsIntact, Linked-append, end_seq-append, end_sig-append, Linked-AllBelow,
}
use vaultrun.Audit.Sign.{truncate, enabled, verify_audit_sig, head_valid}
use vaultrun.Audit.Sign.Verified.{verify_audit_sig-sign, head_valid-head_mac}
use vaultrun.Audit.Table.{add_row, chained_rows, create_audit_log, update_head, unchained_since}
use vaultrun.Audit.Table.Rows.{AllBelow, insert_row_last, any-has_seq, any-AllBelow}
use vaultrun.Audit.Types.{Logger, AuditLog, AuditChainHead, Db}
use vaultrun.Audit.Write.{Event, chain_entry, advance_head, log_chained, or_unchanged, log}

create_audit_log_fresh :
    (n : ℕ) (e : AuditLog) (db : Db)
    → e.seq ≡ some n
    → AllBelow n (chained_rows db.logs)
    → create_audit_log e db ≡ some (record db { logs = e ∷ db.logs })
unfolding create_audit_log
create_audit_log_fresh n e db s below =
    rw (s, any-has_seq n db.logs, any-AllBelow n (chained_rows db.logs) below)

-- An entry with a number above all others is the last row.
chained_rows_last :
    (n : ℕ) (e : AuditLog) (logs : List AuditLog)
    → e.seq ≡ some n
    → AllBelow n (chained_rows logs)
    → chained_rows (e ∷ logs) ≡ chained_rows logs ++ (n, e) ∷ []
unfolding chained_rows
chained_rows_last n e logs s below =
    ap (λ o. add_row o e (chained_rows logs)) s ∙ insert_row_last (n, e) (chained_rows logs) below

unchained_since_chained :
    (n start : ℕ) (e : AuditLog) (logs : List AuditLog)
    → e.seq ≡ some n
    → unchained_since start (e ∷ logs) ≡ unchained_since start logs
unfolding unchained_since keep_if
unchained_since_chained n start e logs s = ground arith

chain_entry_verify :
    (l : Logger) (now : ℕ) (at : ℕ × Text) (entry : AuditLog)
    → enabled l ≡ true
    → verify_audit_sig l (chain_entry l now at entry) ≡ true
unfolding chain_entry
chain_entry_verify l now at entry on = verify_audit_sig-sign l _ on

-- What `log_chained` writes behind the head `h`.
pub written : Logger → ℕ → AuditLog → AuditChainHead → AuditLog
written l now entry h = chain_entry l now (h.seq, h.last_sig) entry

pub after : Logger → ℕ → AuditLog → List AuditLog → AuditChainHead → Db
after l now entry logs h =
    let e = written l now entry h in
    record { logs = e ∷ logs; head = some (advance_head l (h.seq + 1) e.sig h) }

log_chained_trusted :
    (l : Logger) (now_head now : ℕ) (entry : AuditLog) (logs : List AuditLog) (h : AuditChainHead)
    → head_valid l h ≡ true
    → AllBelow (h.seq + 1) (chained_rows logs)
    → log_chained l now_head now entry (record { logs = logs; head = some h })
      ≡ some (after l now entry logs h)
unfolding log_chained after written update_head advance_head
log_chained_trusted l now_head now entry logs h mac below =
    let db : Db = record { logs = logs; head = some h } in
    rw mac (
      rw
        (create_audit_log_fresh (h.seq + 1) (chain_entry l now (h.seq, h.last_sig) entry) db
          (unfold chain_entry in refl) below)
        refl)

module _ (l : Logger) (on : enabled l ≡ true) (now : ℕ) (entry : AuditLog) where
  below_next : (db : Db) (i : IsIntact l db) → AllBelow (i.head.seq + 1) (chained_rows db.logs)
  below_next db i =
      rw i.ends_seq at
        (Linked-AllBelow l i.head.pruned_through i.anchor (chained_rows db.logs) i.linked)

  rows_after :
      (db : Db) (i : IsIntact l db)
      → chained_rows (written l now entry i.head ∷ db.logs)
        ≡ chained_rows db.logs ++ (i.head.seq + 1, written l now entry i.head) ∷ []
  rows_after db i =
      chained_rows_last (i.head.seq + 1) (written l now entry i.head) db.logs
        (unfold written chain_entry in refl) (below_next db i)

  Linked-after :
      (db : Db) (i : IsIntact l db)
      → Linked l i.head.pruned_through i.anchor
          (chained_rows (written l now entry i.head ∷ db.logs))
  Linked-after db i =
      let e = written l now entry i.head in
      rw (rows_after db i) (
        rw i.ends_seq at (
          Linked-append l i.head.pruned_through i.anchor (chained_rows db.logs) e i.linked
            (unfold written in chain_entry_verify l now (i.head.seq, i.head.last_sig) entry on)
            (unfold written chain_entry in sym i.ends_sig)))

  after-IsIntact : (db : Db) (i : IsIntact l db) → IsIntact l (after l now entry db.logs i.head)
  unfolding after written advance_head
  after-IsIntact db i =
      let e = chain_entry l now (i.head.seq, i.head.last_sig) entry in
      record {
        head = advance_head l (i.head.seq + 1) e.sig i.head;
        stored = refl;
        mac = head_valid-head_mac l (record i.head { seq = i.head.seq + 1; last_sig = e.sig });
        anchor = i.anchor;
        anchored = i.anchored;
        linked = Linked-after db i;
        ends_seq =
            rw (rows_after db i)
              (end_seq-append i.head.pruned_through (chained_rows db.logs) (i.head.seq + 1) e);
        ends_sig =
            rw (rows_after db i)
              (end_sig-append i.anchor (chained_rows db.logs) (i.head.seq + 1) e);
        none_late =
            unchained_since_chained (i.head.seq + 1) i.head.started_at e db.logs
              (unfold chain_entry in refl)
            ∙ i.none_late;
      }

-- One call of `Log`: the new UUID, the readings of the clock, and the event.
pub record Call : Type 0 where
  pub id : ℕ
  pub now : ℕ
  pub now_head : ℕ
  pub now_entry : ℕ
  pub event : Event

abbrev pub log_call : Logger → Call → Db → Db
log_call l c db = log l c.id c.now c.now_head c.now_entry c.event db

unfoldable pub log_all : Logger → List Call → Db → Db
log_all l [] db = db
log_all l (c ∷ cs) db = log_all l cs (log_call l c db)

split_db :
    (db : Db) {h : AuditChainHead}
    → db.head ≡ some h
    → db ≡ record { logs = db.logs; head = some h }
split_db db e = λ j. record { logs = db.logs; head = e j }

abbrev pub entry_of : Call → AuditLog
entry_of c = record {
  id = c.id;
  timestamp = truncate c.now;
  actor = c.event.actor;
  session_id = c.event.session_id;
  run_id = c.event.run_id;
  action = c.event.action;
  metadata = c.event.metadata;
  sig = [];
  seq = none;
  prev_sig = [];
}

-- A call whose transaction commits leaves what was committed.
pub log_call_done :
    (l : Logger) (c : Call) (db db' : Db)
    → enabled l ≡ true
    → log_chained l c.now_head c.now_entry (entry_of c) db ≡ some db'
    → log_call l c db ≡ db'
unfolding log
log_call_done l c db db' on done = rw on (ap (or_unchanged db) done)

pub log_chained_intact :
    (l : Logger) (on : enabled l ≡ true) (c : Call) (db : Db) (i : IsIntact l db)
    → log_chained l c.now_head c.now_entry (entry_of c) db
      ≡ some (after l c.now_entry (entry_of c) db.logs i.head)
log_chained_intact l on c db i =
    ap (log_chained l c.now_head c.now_entry (entry_of c)) (split_db db i.stored)
    ∙ log_chained_trusted l c.now_head c.now_entry (entry_of c) db.logs i.head i.mac
        (below_next l on c.now_entry (entry_of c) db i)

pub log_call_intact :
    (l : Logger) (on : enabled l ≡ true) (c : Call) (db : Db) (i : IsIntact l db)
    → log_call l c db ≡ after l c.now_entry (entry_of c) db.logs i.head
log_call_intact l on c db i = log_call_done l c db _ on (log_chained_intact l on c db i)

-- Each call on an intact log keeps it intact and adds one row to the chain.
pub log_call-IsIntact :
    (l : Logger)
    → enabled l ≡ true
    → (c : Call) (db : Db) → IsIntact l db
    → IsIntact l (log_call l c db)
      × (length (chained_rows (log_call l c db).logs) ≡ length (chained_rows db.logs) + 1)
log_call-IsIntact l on c db i = rw (log_call_intact l on c db i) (
  after-IsIntact l on c.now_entry (entry_of c) db i,
  unfold after in
      rw (rows_after l on c.now_entry (entry_of c) db i) (length-append (chained_rows db.logs) _),
)
