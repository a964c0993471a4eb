-- ===== src/Audit/Report.antt =====
-- What `scan` of internal/audit/chain.go collects: the counters of Integrity, and the local variables
-- of its loop. A reported range of numbers is `(from, to)`.
use vaultrun.Base.{
  Text, ℕ, ◌+◌, Bool, true, false, Option, List, [], ◌∷◌, ◌++◌, ltb, leb, if◌then◌else◌, length,
}
use vaultrun.Audit.Classify.{reason_kind}
use vaultrun.Audit.Types.{AuditLog, Reason, Kind, altered, chain}

abbrev pub max_reported_ids : ℕ
max_reported_ids = 25

abbrev pub max_tracked_bad : ℕ
max_tracked_bad = 10000

pub record IntegrityEntry : Type 0 where
  pub id : ℕ
  pub seq : Option ℕ
  pub kind : Kind
  pub reason : Reason
  pub out_of_order : Bool
  pub actor : Text

pub data Problem : Type 0 where
  head_missing head_altered head_behind head_mismatch : Problem
  entries_altered entries_affected entries_missing : ℕ → Problem

-- chainedBy and legacyBy: the actors of the rows counted, one for each row
pub record Report : Type 0 where
  pub chained_entries : ℕ
  pub legacy_entries : ℕ
  pub invalid_entries : ℕ
  pub altered_entries : ℕ
  pub affected_entries : ℕ
  pub missing_entries : ℕ
  pub missing_seqs : List (ℕ × ℕ)
  pub tracked : List IntegrityEntry
  pub entries : List IntegrityEntry
  pub chained_by : List Text
  pub legacy_by : List Text

unfoldable pub empty_report : Report
empty_report = record {
  chained_entries = 0;
  legacy_entries = 0;
  invalid_entries = 0;
  altered_entries = 0;
  affected_entries = 0;
  missing_entries = 0;
  missing_seqs = [];
  tracked = [];
  entries = [];
  chained_by = [];
  legacy_by = [];
}

-- the variables of the loop over the chained rows
pub record Cursor : Type 0 where
  pub first : Bool
  pub prev_seq : ℕ
  pub prev_sig : Text
  pub prev_time : ℕ
  pub have_chain : Bool

unfoldable pub start_cursor : Cursor
start_cursor = record {
  first = true;
  prev_seq = 0;
  prev_sig = [];
  prev_time = 0;
  have_chain = false;
}

abbrev pub append_capped {ℓ} : {A : Type ℓ} → ℕ → List A → A → List A
append_capped n xs x = if ltb (length xs) n then xs ++ x ∷ [] else xs

-- appendRange
unfoldable pub append_range : List (ℕ × ℕ) → ℕ → ℕ → List (ℕ × ℕ)
append_range rs from to = if leb max_reported_ids (length rs) then rs else rs ++ (from, to) ∷ []

unfoldable pub add_invalid : AuditLog → Reason → Bool → Report → Report
unfolding reason_kind
add_invalid e reason out_of_order res =
    let kind = reason_kind reason in
    let ie : IntegrityEntry = record {
      id = e.id;
      seq = e.seq;
      kind = kind;
      reason = reason;
      out_of_order = out_of_order;
      actor = e.actor;
    } in
    record res {
      invalid_entries = res.invalid_entries + 1;
      altered_entries = elim kind [
        | chain ↦ res.altered_entries
        | altered ↦ res.altered_entries + 1
      ];
      affected_entries = elim kind [
        | chain ↦ res.affected_entries + 1
        | altered ↦ res.affected_entries
      ];
      tracked = append_capped max_tracked_bad res.tracked ie;
      entries = append_capped max_reported_ids res.entries ie;
    }
