-- ===== src/Audit/Verdict.antt =====
-- The verdict over the whole log, and the part of it that one key sees: the end of `scan`,
-- `Integrity` and `ScopedTo` of internal/audit/chain.go.
pub mod Sound
pub mod Shares
use vaultrun.Base.{
  length, null, Text, text_eq, ℕ, zero, suc, ◌+◌, ◌-◌, ◌*◌, Bool, false, ◌&&◌, not, Option, none,
  some, List, [], ◌∷◌, ◌++◌, map, ltb, ◌==◌, if◌then◌else◌, is_some,
}
use vaultrun.Audit.Report.{
  max_reported_ids, IntegrityEntry, Problem, entries_altered, entries_affected, entries_missing,
  Report, empty_report, append_capped,
}
use vaultrun.Audit.Scan.{scan_tables}
use vaultrun.Audit.Sign.{enabled}
use vaultrun.Audit.Types.{Logger, Db, altered, chain}

pub data Status : Type 0 where
  intact compromised not_started disabled : Status

pub record Integrity : Type 0 where
  pub status : Status
  pub scope_own : Bool
  pub report : Report
  pub problems : List Problem
  pub head_problems : List Problem
  pub own_invalid : Option ℕ
  pub other_invalid : Option ℕ

abbrev pub some_if : ℕ → Problem → List Problem
some_if zero p = []
some_if (suc n) p = p ∷ []

unfoldable pub count_problems : Report → List Problem
count_problems res =
    some_if res.altered_entries (entries_altered res.altered_entries)
    ++ some_if res.affected_entries (entries_affected res.affected_entries)
    ++ some_if res.missing_entries (entries_missing res.missing_entries)

unfoldable pub scan : Logger → Db → Integrity
unfolding scan_tables count_problems
scan l db =
    let (c, res, head_problems) = scan_tables l db in
    let problems = head_problems ++ count_problems res in
    record {
      status =
          (if not (null problems)
            then compromised
            else if not (is_some db.head) && not c.have_chain
            then not_started
            else intact);
      scope_own = false;
      report = res;
      problems = problems;
      head_problems = head_problems;
      own_invalid = none;
      other_invalid = none;
    }

-- `Integrity` with its cache: the last result, when it was made, and the fingerprint of the
-- tables then. `fingerprint` is the database's hash of every row.
pub record Cached : Type 0 where
  pub result : Integrity
  pub at : ℕ
  pub fingerprint : ℕ

abbrev pub cache_ttl : ℕ
cache_ttl = 60 * 1000000000

abbrev pub is_fresh : ℕ → ℕ → Option Cached → Bool
is_fresh now fp none = false
is_fresh now fp (some c) = c.fingerprint == fp && ltb (now - c.at) cache_ttl

unfoldable pub disabled_result : Integrity
unfolding empty_report
disabled_result = record {
  status = disabled;
  scope_own = false;
  report = empty_report;
  problems = [];
  head_problems = [];
  own_invalid = none;
  other_invalid = none;
}

unfoldable pub integrity :
    Logger → (Db → ℕ) → (force : Bool) → (now : ℕ) → Db → Option Cached → Integrity × Option Cached
integrity l fingerprint force now db cache =
    if not (enabled l) then (disabled_result, cache) else elim cache [
      | none ↦
          (scan l db, some (record { result = scan l db; at = now; fingerprint = fingerprint db }))
      | some c ↦
          if not force && is_fresh now (fingerprint db) (some c) then (c.result, some c) else (
            scan l db,
            some (record { result = scan l db; at = now; fingerprint = fingerprint db }),
          )
    ]

-- the counters of the loop of ScopedTo, over the tracked entries
pub record Share : Type 0 where
  pub own : ℕ
  pub other : ℕ
  pub own_altered : ℕ
  pub own_affected : ℕ
  pub entries : List IntegrityEntry

unfoldable pub share_entry : Text → Share → IntegrityEntry → Share
share_entry actor s e =
    if text_eq e.actor actor
    then record s {
      own = s.own + 1;
      own_altered = elim e.kind [ chain ↦ s.own_altered | altered ↦ s.own_altered + 1 ];
      own_affected = elim e.kind [ chain ↦ s.own_affected + 1 | altered ↦ s.own_affected ];
      entries = append_capped max_reported_ids s.entries e;
    }
    else record s { other = s.other + 1 }

unfoldable pub share_all : Text → Share → List IntegrityEntry → Share
share_all actor s [] = s
share_all actor s (e ∷ es) = share_all actor (share_entry actor s e) es

abbrev pub no_share : Share
no_share = record { own = 0; other = 0; own_altered = 0; own_affected = 0; entries = [] }

-- chainedBy[actor]
unfoldable pub count_actor : Text → List Text → ℕ
count_actor actor [] = 0
count_actor actor (a ∷ as') = let n = count_actor actor as' in if text_eq a actor then suc n else n

-- What ScopedTo adds to the problems of the head. `own_…` and `others_…` stand for its texts.
pub data ScopedProblem : Type 0 where
  head_problem : Problem → ScopedProblem
  own_altered own_affected others_failed all_missing : ℕ → ScopedProblem

pub record Scoped : Type 0 where
  pub status : Status
  pub entries : List IntegrityEntry
  pub own_invalid : ℕ
  pub other_invalid : ℕ
  pub chained_entries : ℕ
  pub legacy_entries : ℕ
  pub problems : List ScopedProblem

abbrev scoped_if : (ℕ → ScopedProblem) → ℕ → List ScopedProblem
scoped_if p zero = []
scoped_if p (suc n) = p (suc n) ∷ []

unfoldable pub scoped_to : Text → Integrity → Scoped
unfolding share_all share_entry count_actor
scoped_to actor i =
    let s = share_all actor no_share i.report.tracked in
    let other = s.other + (i.report.invalid_entries - length i.report.tracked) in
    record {
      status = i.status;
      entries = s.entries;
      own_invalid = s.own;
      other_invalid = other;
      chained_entries = count_actor actor i.report.chained_by;
      legacy_entries = count_actor actor i.report.legacy_by;
      problems =
          map head_problem i.head_problems
          ++ scoped_if own_altered s.own_altered
          ++ scoped_if own_affected s.own_affected
          ++ scoped_if others_failed other
          ++ scoped_if all_missing i.report.missing_entries;
    }
