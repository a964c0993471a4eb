-- ===== src/Audit/Write/Runs.antt =====
-- Any number of calls of `Log`, from tables where nothing is chained yet.
use vaultrun.Base.{length, ℕ, ◌+◌, ◌≡◌, refl, sym, ap, ◌∙◌, true, none, some, List, [], ◌∷◌, arith}
use vaultrun.Audit.Intact.{IsIntact}
use vaultrun.Audit.Sign.{truncate, enabled}
use vaultrun.Audit.Sign.Verified.{head_valid-head_mac}
use vaultrun.Audit.Table.{chained_rows, insert_head, unchained_since}
use vaultrun.Audit.Types.{Logger, AuditLog, Db}
use vaultrun.Audit.Write.{first_head, ensure_head, log_chained}
use vaultrun.Audit.Write.Keeps.{
  Call, log_call, log_all, entry_of, log_call_done, log_chained_intact, log_call_intact,
  log_call-IsIntact,
}

-- Nothing is chained yet, and no entry is dated at or after the moment `now` at which chaining
-- will begin.
pub record IsFresh (now : ℕ) (db : Db) : Type 0 where
  pub no_head : db.head ≡ none
  pub no_rows : chained_rows db.logs ≡ []
  pub legacy_older : unchained_since (truncate now) db.logs ≡ []

fresh_db : Logger → ℕ → List AuditLog → Db
fresh_db l now logs = record { logs = logs; head = some (first_head l now) }

fresh_db-IsIntact :
    (l : Logger) (now : ℕ) (db : Db) → IsFresh now db → IsIntact l (fresh_db l now db.logs)
unfolding fresh_db first_head
fresh_db-IsIntact l now db f = record {
  head = first_head l now;
  stored = refl;
  mac =
      head_valid-head_mac l (record {
        seq = 0;
        last_sig = [];
        pruned_through = 0;
        started_at = truncate now;
        mac = [];
      });
  anchor = [];
  anchored = λ _. refl;
  linked = rw f.no_rows tt;
  ends_seq = rw f.no_rows refl;
  ends_sig = rw f.no_rows refl;
  none_late = f.legacy_older;
}

ensure_head_fresh :
    (l : Logger) (now : ℕ) (logs : List AuditLog)
    → chained_rows logs ≡ []
    → ensure_head l now (record { logs = logs; head = none }) ≡ fresh_db l now logs
unfolding ensure_head fresh_db insert_head
ensure_head_fresh l now logs e = rw e

ensure_head_again :
    (l : Logger) (now : ℕ) (logs : List AuditLog)
    → ensure_head l now (fresh_db l now logs) ≡ fresh_db l now logs
unfolding ensure_head fresh_db
ensure_head_again l now logs = refl

log_chained_fresh :
    (l : Logger) (now_head now : ℕ) (entry : AuditLog) (logs : List AuditLog)
    → chained_rows logs ≡ []
    → log_chained l now_head now entry (record { logs = logs; head = none })
      ≡ log_chained l now_head now entry (fresh_db l now_head logs)
unfolding log_chained
log_chained_fresh l now_head now entry logs e =
    rw (ensure_head_fresh l now_head logs e, ensure_head_again l now_head logs)

fresh_split : (db : Db) → db.head ≡ none → db ≡ record { logs = db.logs; head = none }
fresh_split db e = λ j. record { logs = db.logs; head = e j }

log_call_fresh :
    (l : Logger)
    → enabled l ≡ true
    → (c : Call) (db : Db) → IsFresh c.now_head db
    → log_call l c db ≡ log_call l c (fresh_db l c.now_head db.logs)
log_call_fresh l on c db f =
    let d = fresh_db l c.now_head db.logs in
    let i = fresh_db-IsIntact l c.now_head db f in
    log_call_done l c db _ on (
      ap (log_chained l c.now_head c.now_entry (entry_of c)) (fresh_split db f.no_head)
      ∙ log_chained_fresh l c.now_head c.now_entry (entry_of c) db.logs f.no_rows
      ∙ log_chained_intact l on c d i)
    ∙ sym (log_call_intact l on c d i)

-- The first call starts the chain with its one row.
log_call_first :
    (l : Logger)
    → enabled l ≡ true
    → (c : Call) (db : Db) → IsFresh c.now_head db
    → IsIntact l (log_call l c db) × (length (chained_rows (log_call l c db).logs) ≡ 1)
log_call_first l on c db f =
    let d = fresh_db l c.now_head db.logs in
    let kept = log_call-IsIntact l on c d (fresh_db-IsIntact l c.now_head db f) in
    rw (log_call_fresh l on c db f)
      (kept.0, unfold fresh_db in kept.1 ∙ ap (λ rows. length rows + 1) f.no_rows)

log_all-IsIntact :
    (l : Logger)
    → enabled l ≡ true
    → (cs : List Call) (db : Db) → IsIntact l db
    → IsIntact l (log_all l cs db)
      × (length (chained_rows (log_all l cs db).logs) ≡ length (chained_rows db.logs) + length cs)
unfolding log_all
log_all-IsIntact l on [] db i = (i, omega arith)
log_all-IsIntact l on (c ∷ cs) db i =
    let step = log_call-IsIntact l on c db i in
    let rest = log_all-IsIntact l on cs (log_call l c db) step.0 in
    (rest.0, omega (arith, step.1, rest.1))

pub log_all-IsIntact_fresh :
    (l : Logger) (c : Call) (cs : List Call) (db : Db)
    → enabled l ≡ true
    → IsFresh c.now_head db
    → IsIntact l (log_all l (c ∷ cs) db)
      × (length (chained_rows (log_all l (c ∷ cs) db).logs) ≡ length cs + 1)
unfolding log_all
log_all-IsIntact_fresh l c cs db on f =
    let step = log_call_first l on c db f in
    let rest = log_all-IsIntact l on cs (log_call l c db) step.0 in
    (rest.0, omega (arith, step.1, rest.1))
