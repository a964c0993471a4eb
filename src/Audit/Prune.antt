-- ===== src/Audit/Prune.antt =====
-- Retention: `Prune` and `oldPrefix` of internal/audit/chain.go.
pub mod Young
pub mod Cuts
pub mod Kept
use vaultrun.Base.{
  any, null, Text, is_empty, text_eq, ℕ, ◌+◌, ◌⊎◌, inl, inr, Bool, true, false, ◌&&◌, ◌||◌, not,
  Option, none, some, List, [], ◌∷◌, ltb, ◌==◌, if◌then◌else◌,
}
use vaultrun.Audit.Sign.{enabled, verify_audit_sig, head_mac, head_valid}
use vaultrun.Audit.Table.{
  Row, chained_rows, update_head, delete_through, delete_unchained, delete_old,
}
use vaultrun.Audit.Types.{Logger, AuditLog, AuditChainHead, Db}

pub data Blocked : Type 0 where
  head_bad entry_missing entry_fails entry_claims_parent entry_unlinked entry_misdated : Blocked
  timestamp_moved : Blocked

-- the variables of the loop of oldPrefix
pub record Walk : Type 0 where
  pub last : ℕ
  pub expect : ℕ
  pub first : Bool
  pub prev_sig : Text
  pub prev_time : ℕ

-- the `switch` of the loop: what is wrong with an old entry
unfoldable pub old_problem : Logger → Walk → ℕ → AuditLog → Option Blocked
old_problem l w seq e =
    if not (seq == w.expect)
    then some entry_missing
    else if is_empty e.sig || not (verify_audit_sig l e)
    then some entry_fails
    else if w.first && seq == 1 && not (is_empty e.prev_sig)
    then some entry_claims_parent
    else if not w.first && not (text_eq e.prev_sig w.prev_sig)
    then some entry_unlinked
    else if not w.first && ltb e.timestamp w.prev_time
    then some entry_misdated
    else none

-- How the loop ends: at a problem, at an entry that is not old, or after the last row.
pub data Ending : Type 0 where
  failed : Blocked → Ending
  stopped_at : ℕ → ℕ → Ending
  exhausted : ℕ → Ending

unfoldable pub walk_old : Logger → ℕ → Walk → List Row → Ending
unfolding old_problem
walk_old l before w [] = exhausted w.last
walk_old l before w ((seq, e) ∷ rows) =
    let rest =
      walk_old l before
        (record {
          last = seq;
          expect = seq + 1;
          first = false;
          prev_sig = e.sig;
          prev_time = e.timestamp;
        })
        rows in
    if not (ltb e.timestamp before)
    then stopped_at w.last seq
    else elim (old_problem l w seq e) [ some p ↦ failed p | none ↦ rest ]

-- SELECT seq … WHERE seq > $1 AND timestamp < $2: some later row is older than the cutoff
unfoldable pub moved_back : ℕ → ℕ → List Row → Bool
moved_back stop before = any (λ (r : Row). ltb stop r.0 && ltb r.1.timestamp before)

abbrev pub start_walk : AuditChainHead → Walk
start_walk head = record {
  last = 0;
  expect = head.pruned_through + 1;
  first = true;
  prev_sig = [];
  prev_time = 0;
}

-- The number of the last entry to delete, 0 for none.
unfoldable pub old_prefix : Logger → AuditChainHead → ℕ → List Row → Blocked ⊎ ℕ
unfolding walk_old moved_back
old_prefix l head before rows = elim (walk_old l before (start_walk head) rows) [
  | failed p ↦ inl p
  | exhausted last ↦ inr last
  | stopped_at last stop ↦
      if ltb 0 stop && moved_back stop before rows then inl timestamp_moved else inr last
]

abbrev pub prune_head : Logger → ℕ → AuditChainHead → AuditChainHead
prune_head l last h =
    let h' : AuditChainHead = record h { pruned_through = last } in
    record h' { mac = head_mac l h' }

-- what is deleted once the prefix is known
unfoldable pub delete_prefix : Logger → (last before : ℕ) → AuditChainHead → Db → Db × ℕ
unfolding delete_through delete_unchained update_head
delete_prefix l last before h db =
    if ltb 0 last
    then (let (db1, n) = delete_through last db in
        let (db2, m) =
          delete_unchained before (some h.started_at) (update_head (prune_head l last h) db1) in
        (db2, n + m))
    else delete_unchained before (some h.started_at) db

abbrev pub delete_found :
    Logger → (before : ℕ) → AuditChainHead → Db → Blocked ⊎ ℕ → Blocked ⊎ (Db × ℕ)
delete_found l before h db (inl p) = inl p
delete_found l before h db (inr last) = inr (delete_prefix l last before h db)

abbrev pub prune_chain : Logger → ℕ → Db → Option AuditChainHead → Blocked ⊎ (Db × ℕ)
prune_chain l before db none =
    if null (chained_rows db.logs) then inr (delete_unchained before none db) else inl head_bad
prune_chain l before db (some h) =
    if not (head_valid l h)
    then inl head_bad
    else delete_found l before h db (old_prefix l h before (chained_rows db.logs))

-- `Prune`: the tables afterwards and how many entries went, or why nothing was deleted.
unfoldable pub prune : Logger → ℕ → Db → Blocked ⊎ (Db × ℕ)
prune l before db =
    if not (enabled l) then inr (delete_old before db) else prune_chain l before db db.head
