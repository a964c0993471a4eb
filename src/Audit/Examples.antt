-- ===== src/Audit/Examples.antt =====
-- The theorems of the audit log at concrete entries, and tests of its definitions.
use vaultrun.Base.{
  length, keep_if, codes, text_eq, ℕ, ◌+◌, ◌≡◌, refl, ◌↔◌, ◌⊎◌, inl, inr, true, not, none, List, [],
  ◌∷◌, arith,
}
use vaultrun.Audit.Classify.{load_head}
use vaultrun.Audit.Intact.{IsSound, IsIntact}
use vaultrun.Audit.Prune.{
  Blocked, old_problem, walk_old, moved_back, old_prefix, delete_prefix, prune,
}
use vaultrun.Audit.Prune.Kept.{prune-IsIntact}
use vaultrun.Audit.Prune.Young.{young, young-prune}
use vaultrun.Audit.Report.{empty_report, start_cursor, add_invalid}
use vaultrun.Audit.Scan.{
  is_contiguous, is_gap, note_gap, row_reason, scan_row, scan_rows, check_head, scan_unchained,
  count_legacy, scan_tables,
}
use vaultrun.Audit.Sign.{enabled, sign, trim_sig_prefix, verify_audit_sig, head_mac, head_valid}
use vaultrun.Audit.Table.{
  insert_row, chained_rows, has_seq, create_audit_log, insert_head, update_head, delete_through,
  delete_unchained, unchained_since, IsIndexed,
}
use vaultrun.Audit.Types.{Logger, Db}
use vaultrun.Audit.Verdict.{intact, compromised, count_problems, scan, scoped_to}
use vaultrun.Audit.Verdict.Shares.{ByActor, scoped_to_lem}
use vaultrun.Audit.Verdict.Sound.{scan-IsSound_iff}
use vaultrun.Audit.Write.{
  Event, first_head, ensure_head, trusted_head, chain_end, chain_entry, advance_head, log_chained,
  log,
}
use vaultrun.Audit.Write.Keeps.{Call, log_all}
use vaultrun.Audit.Write.Runs.{IsFresh, log_all-IsIntact_fresh}

-- A MAC for the examples: it only counts the fields, in a digit that is no letter.
abbrev toy : Logger
toy = record { hmac_key = codes "k"; hmac = λ key fields. (48 + length fields) ∷ [] }

abbrev login : Event
login = record {
  actor = codes "ann";
  session_id = none;
  run_id = none;
  action = codes "login";
  metadata = [];
}

abbrev first_call : Call
first_call = record { id = 1; now = 5000; now_head = 5000; now_entry = 6000; event = login }

abbrev second_call : Call
second_call = record { id = 2; now = 7000; now_head = 7000; now_entry = 7500; event = login }

abbrev calls : List Call
calls = first_call ∷ second_call ∷ []

abbrev empty_db : Db
empty_db = record { logs = []; head = none }

toy-enabled : enabled toy ≡ true
unfolding enabled
toy-enabled = refl

empty_db-IsFresh : IsFresh 5000 empty_db
unfolding chained_rows unchained_since keep_if
empty_db-IsFresh = record { no_head = refl; no_rows = refl; legacy_older = refl }

scan-IsSound_iff_example :
    ((scan toy (log_all toy calls empty_db)).status ≡ intact)
    ↔ IsSound toy (log_all toy calls empty_db)
unfolding log_all log log_chained create_audit_log chained_rows insert_row enabled chain_entry
    ensure_head insert_head trusted_head chain_end head_valid text_eq head_mac update_head
    advance_head first_head
scan-IsSound_iff_example = scan-IsSound_iff toy (log_all toy calls empty_db) (omega arith)

-- The second entry lost its predecessor.
abbrev tampered : Db
tampered =
    let db = log_all toy calls empty_db in
    record db { logs = keep_if (λ e. not (has_seq 1 e)) db.logs }

tampered_compromised : (scan toy tampered).status ≡ compromised
unfolding log_all log log_chained create_audit_log chained_rows insert_row enabled chain_entry
    ensure_head insert_head trusted_head chain_end head_valid text_eq head_mac update_head
    advance_head first_head scan scan_tables scan_rows scan_row row_reason is_gap is_contiguous
    note_gap keep_if load_head check_head scan_unchained count_legacy count_problems
    verify_audit_sig sign add_invalid start_cursor empty_report unchained_since trim_sig_prefix
tampered_compromised = refl

abbrev result : Blocked ⊎ (Db × ℕ) → Db × ℕ
result (inl p) = (empty_db, 0)
result (inr r) = r

-- The first of two entries is old.
abbrev pruned : Db × ℕ
pruned = result (prune toy 6500 (log_all toy calls empty_db))

calls-IsIndexed : IsIndexed (chained_rows (log_all toy calls empty_db).logs)
unfolding log_all log log_chained create_audit_log chained_rows insert_row enabled chain_entry
    ensure_head insert_head trusted_head chain_end head_valid text_eq head_mac update_head
    advance_head first_head verify_audit_sig sign trim_sig_prefix prune old_prefix walk_old
    old_problem moved_back delete_prefix delete_through delete_unchained keep_if
calls-IsIndexed = omega arith

prune_passes : prune toy 6500 (log_all toy calls empty_db) ≡ inr (pruned.0, pruned.1)
unfolding log_all log log_chained create_audit_log chained_rows insert_row enabled chain_entry
    ensure_head insert_head trusted_head chain_end head_valid text_eq head_mac update_head
    advance_head first_head verify_audit_sig sign trim_sig_prefix prune old_prefix walk_old
    old_problem moved_back delete_prefix delete_through delete_unchained keep_if
prune_passes = refl

prune_one : pruned.1 ≡ 1
unfolding log_all log log_chained create_audit_log chained_rows insert_row enabled chain_entry
    ensure_head insert_head trusted_head chain_end head_valid text_eq head_mac update_head
    advance_head first_head verify_audit_sig sign trim_sig_prefix prune old_prefix walk_old
    old_problem moved_back delete_prefix delete_through delete_unchained keep_if
prune_one = refl

young-prune_example :
    keep_if (young 6500) pruned.0.logs ≡ keep_if (young 6500) (log_all toy calls empty_db).logs
young-prune_example =
    young-prune toy 6500 (log_all toy calls empty_db) pruned.0 pruned.1 calls-IsIndexed prune_passes

calls-IsIntact : IsIntact toy (log_all toy calls empty_db)
unfolding chained_rows unchained_since keep_if
calls-IsIntact =
    (log_all-IsIntact_fresh toy first_call (second_call ∷ []) empty_db toy-enabled
      empty_db-IsFresh).0

prune-IsIntact_example : IsIntact toy pruned.0 × ((scan toy pruned.0).status ≡ intact)
prune-IsIntact_example =
    prune-IsIntact toy 6500 (log_all toy calls empty_db) pruned.0 pruned.1 toy-enabled
      calls-IsIntact prune_passes

scoped_to_example :
    let s = scoped_to (codes "bob") (scan toy tampered) in
    (s.status ≡ (scan toy tampered).status)
    × ByActor (codes "bob") s.entries
    × (s.own_invalid + s.other_invalid ≡ (scan toy tampered).report.invalid_entries)
scoped_to_example = scoped_to_lem toy tampered (codes "bob")
