-- ===== src/Audit/Classify.antt =====
-- The verdict on one entry of a page: `classify` of internal/audit/chain.go, with the head that
-- `loadHead` read and the predecessors that AuditPredsBySeq returned.
use vaultrun.Base.{
  Text, is_empty, starts_with, text_eq, ℕ, ◌-◌, Bool, true, false, ◌&&◌, not, Option, none, some,
  List, [], ◌∷◌, map, ltb, leb, ◌==◌, if◌then◌else◌,
}
use vaultrun.Audit.Sign.{chain_sig_prefix, enabled, verify_audit_sig, head_valid, sig_status}
use vaultrun.Audit.Table.{Row, chained_rows}
use vaultrun.Audit.Types.{
  Logger, AuditLog, AuditChainHead, Db, Reason, changed, sig_removed, seq_removed, unchained,
  prev_missing, prev_changed, first_has_parent, SigStatus, valid, invalid, Kind, altered, chain,
}

-- chainHead: the stored head, if it is present and untampered
unfoldable pub load_head : Logger → Db → Option AuditChainHead × Bool
load_head l db = elim db.head [ none ↦ (none, false) | some h ↦ (some h, head_valid l h) ]

-- `head.head` where `head.valid`
abbrev pub valid_head : Option AuditChainHead × Bool → Option AuditChainHead
valid_head (h, v) = if v then h else none

unfoldable pub reason_kind : Reason → Kind
reason_kind prev_changed = chain
reason_kind prev_missing = chain
reason_kind _ = altered

-- AuditPred
pub record AuditPred : Type 0 where
  pub sig : Text
  pub timestamp : ℕ

-- AuditPredsBySeq at one number
unfoldable pub pred_of : List Row → ℕ → Option AuditPred
pred_of [] n = none
pred_of ((k, e) ∷ rows) n =
    if k == n then some (record { sig = e.sig; timestamp = e.timestamp }) else pred_of rows n

abbrev started_before : Option AuditChainHead → ℕ → Bool
started_before none t = false
started_before (some h) t = leb h.started_at t

abbrev pub pruned_of : Option AuditChainHead → ℕ
pruned_of none = 0
pruned_of (some h) = h.pruned_through

abbrev status_reason : SigStatus → SigStatus × Option Reason
status_reason invalid = (invalid, some changed)
status_reason s = (s, none)

abbrev pub Verdict : Type 0
Verdict = SigStatus × Option Reason

-- an entry without a number
classify_unchained : Logger → AuditLog → Option AuditChainHead → Option ℕ → Verdict
classify_unchained l e head verified_since =
    if not (is_empty e.sig) && verify_audit_sig l e
    then (valid, none)
    else if starts_with chain_sig_prefix e.sig
    then (invalid, some seq_removed)
    else if started_before head e.timestamp
    then (if is_empty e.sig then (invalid, some sig_removed) else (invalid, some unchained))
    else status_reason (sig_status l e verified_since)

-- what the entry says of the one before it
classify_link : AuditLog → ℕ → Option AuditChainHead → Option AuditPred → Verdict
classify_link e seq head (some pred) =
    if text_eq pred.sig e.prev_sig then (valid, none) else (invalid, some prev_changed)
classify_link e seq head none =
    if ltb (pruned_of head) (seq - 1) then (invalid, some prev_missing) else (valid, none)

unfoldable pub classify_chained :
    Logger → AuditLog → ℕ → Option AuditChainHead → (ℕ → Option AuditPred) → Verdict
unfolding classify_link
classify_chained l e seq head preds =
    if is_empty e.sig
    then (invalid, some sig_removed)
    else if not (verify_audit_sig l e)
    then (invalid, some changed)
    else if seq == 1
    then (if is_empty e.prev_sig then (valid, none) else (invalid, some first_has_parent))
    else classify_link e seq head (preds (seq - 1))

-- `head` is the valid head, if there is one.
unfoldable pub classify_entry :
    Logger → AuditLog → Option AuditChainHead → Option ℕ → (ℕ → Option AuditPred) → Verdict
unfolding classify_unchained classify_chained
classify_entry l e head verified_since preds = elim e.seq [
  | none ↦ classify_unchained l e head verified_since
  | some seq ↦ classify_chained l e seq head preds
]

-- An entry of a page, as `Classify` marks it.
pub record Marked : Type 0 where
  pub entry : AuditLog
  pub sig_status : SigStatus
  pub sig_reason : Option Reason
  pub sig_valid : Bool
  pub sig_kind : Option Kind
  pub out_of_order : Bool

abbrev dated_before : ℕ → Option AuditPred → Bool
dated_before t none = false
dated_before t (some pred) = ltb t pred.timestamp

unfoldable pub mark_entry : Logger → Db → Option ℕ → AuditLog → Marked
unfolding classify_entry load_head reason_kind pred_of
mark_entry l db verified_since e =
    let preds = pred_of (chained_rows db.logs) in
    let v = classify_entry l e (valid_head (load_head l db)) verified_since preds in
    record {
      entry = e;
      sig_status = v.0;
      sig_reason = v.1;
      sig_valid = elim v.0 [ valid ↦ true | _ ↦ false ];
      sig_kind = elim v.0 [
        | invalid ↦ elim v.1 [ none ↦ none | some r ↦ some (reason_kind r) ]
        | _ ↦ none
      ];
      out_of_order = elim e.seq [
        | none ↦ false
        | some seq ↦ ltb 1 seq && dated_before e.timestamp (preds (seq - 1))
      ];
    }

-- `Classify` over a page. Without a key the entries are left untouched.
unfoldable pub classify_page : Logger → Db → Option ℕ → List AuditLog → Option (List Marked)
unfolding mark_entry
classify_page l db verified_since entries =
    if enabled l then some (map (mark_entry l db verified_since) entries) else none
