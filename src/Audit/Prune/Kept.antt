-- ===== src/Audit/Prune/Kept.antt =====
-- Retention leaves an intact log intact: `Prune` of internal/audit/chain.go.
use vaultrun.Base.{
  keep_if, ℕ, ◌<◌, ◌≡◌, refl, sym, ap, ◌∙◌, subst, ◌⊎◌, inl, inr, Bool, true, ◌&&◌, not, Option,
  some, List, [], ◌∷◌, arith, ltb, leb, ltb→lt, Bool-cases,
}
use vaultrun.Audit.Intact.{IsIntact, IsIntact-IsSound, IsIntact-Numbered}
use vaultrun.Audit.Prune.{
  Blocked, walk_old, start_walk, old_prefix, prune_head, delete_prefix, delete_found, prune_chain,
  prune,
}
use vaultrun.Audit.Prune.Cuts.{Cut, cut, walk_old-bound}
use vaultrun.Audit.Prune.Young.{ended, old_prefix-ended}
use vaultrun.Audit.Sign.{enabled}
use vaultrun.Audit.Sign.Verified.{head_valid-head_mac}
use vaultrun.Audit.Table.{
  Row, chained_rows, update_head, unchained, outlives, delete_through, cutoff, not_legacy_before,
  delete_unchained, unchained_since,
}
use vaultrun.Audit.Table.Filters.{on_row, chained_rows-keep_if}
use vaultrun.Audit.Types.{Logger, AuditLog, AuditChainHead, Db}
use vaultrun.Audit.Verdict.{intact, scan}
use vaultrun.Audit.Verdict.Sound.{scan-IsSound_iff}

keep_if-nil :
    (p q : AuditLog → Bool) (logs : List AuditLog)
    → keep_if p logs ≡ []
    → keep_if p (keep_if q logs) ≡ []
unfolding keep_if
keep_if-nil p q [] h = refl
keep_if-nil p q (e ∷ logs) h = elim (Bool-cases (p e)) [
  | inl kept ↦ absurd (full (rw kept at h))
  | inr out ↦ elim (Bool-cases (q e)) [
    | inl stays ↦ rw stays (rw out (keep_if-nil p q logs (rw out at h)))
    | inr goes ↦ rw goes (keep_if-nil p q logs (rw out at h))
  ]
]
  where
    full : {es : List AuditLog} → ◌≡◌ {A = List AuditLog} (e ∷ es) [] → ⊥
    full f = cc

keep_if-true : (rows : List Row) → keep_if (on_row (λ _ _. true)) rows ≡ rows
unfolding keep_if
keep_if-true [] = refl
keep_if-true (r ∷ rows) = ap (λ rs. r ∷ rs) (keep_if-true rows)

-- the entries outside the chain that go change nothing
legacy-IsIntact :
    (l : Logger) (before : ℕ) (start : Option ℕ) (db : Db)
    → IsIntact l db
    → IsIntact l (delete_unchained before start db).0
unfolding delete_unchained unchained_since
legacy-IsIntact l before start db i =
    let same =
      chained_rows-keep_if (λ x. not (ltb x.timestamp (cutoff before start))) (λ _ _. true) db.logs
      ∙ keep_if-true (chained_rows db.logs) in
    record {
      head = i.head;
      stored = i.stored;
      mac = i.mac;
      anchor = i.anchor;
      anchored = i.anchored;
      linked = rw same i.linked;
      ends_seq = rw same i.ends_seq;
      ends_sig = rw same i.ends_sig;
      none_late =
          keep_if-nil (λ e. unchained e && leb i.head.started_at e.timestamp)
            (not_legacy_before (cutoff before start)) db.logs i.none_late;
    }

-- the tables after the oldest rows went and the head says so
abbrev cut_db : Logger → ℕ → AuditChainHead → Db → Db
cut_db l last h db = update_head (prune_head l last h) (delete_through last db).0

cut_db-IsIntact :
    (l : Logger) (last : ℕ) (db : Db) (i : IsIntact l db)
    → 0 < last
    → Cut l i.head.pruned_through last i.anchor (chained_rows db.logs)
    → IsIntact l (cut_db l last i.head db)
unfolding update_head delete_through unchained_since
cut_db-IsIntact l last db i pos c =
    let same = chained_rows-keep_if (λ _. true) (λ k _. not (leb k last)) db.logs in
    rw i.stored (record {
      head = prune_head l last i.head;
      stored = refl;
      mac = head_valid-head_mac l (record i.head { pruned_through = last });
      anchor = c.anchor;
      anchored = λ z. absurd (omega (arith, z, pos));
      linked = rw same c.linked;
      ends_seq = rw same (c.same_seq ∙ i.ends_seq);
      ends_sig = rw same (c.same_sig ∙ i.ends_sig);
      none_late =
          keep_if-nil (λ e. unchained e && leb i.head.started_at e.timestamp) (outlives last)
            db.logs i.none_late;
    })

-- where the walk deletes something, it cuts the chain at a row
walk_old-Cut :
    (l : Logger) (last before : ℕ) (db : Db) (i : IsIntact l db)
    → ended (walk_old l before (start_walk i.head) (chained_rows db.logs)) ≡ some last
    → 0 < last
    → Cut l i.head.pruned_through last i.anchor (chained_rows db.logs)
walk_old-Cut l last before db i h pos =
    let rows = chained_rows db.logs in
    let n = i.head.pruned_through in
    elim (walk_old-bound l before n i.anchor (start_walk i.head) rows last i.linked h) [
      | inl none_old ↦ absurd (omega (arith, none_old, pos))
      | inr within ↦ cut l n last i.anchor rows i.linked within.0 within.1
    ]

delete_prefix-IsIntact :
    (l : Logger) (last before : ℕ) (db : Db) (i : IsIntact l db)
    → ended (walk_old l before (start_walk i.head) (chained_rows db.logs)) ≡ some last
    → IsIntact l (delete_prefix l last before i.head db).0
unfolding delete_prefix
delete_prefix-IsIntact l last before db i h = elim (Bool-cases (ltb 0 last)) [
  | inr nothing ↦ rw nothing (legacy-IsIntact l before (some i.head.started_at) db i)
  | inl positive ↦
      let pos = ltb→lt 0 last positive in
      rw positive (
        legacy-IsIntact l before (some i.head.started_at) (cut_db l last i.head db)
          (cut_db-IsIntact l last db i pos (walk_old-Cut l last before db i h pos)))
]

-- What is said of the tables afterwards, if something was deleted.
abbrev IntactKept : Logger → Blocked ⊎ (Db × ℕ) → Type 0
IntactKept l (inl p) = Unit
IntactKept l (inr r) = IsIntact l r.0

delete_found-IntactKept :
    (l : Logger) (before : ℕ) (db : Db) (i : IsIntact l db) (found : Blocked ⊎ ℕ)
    → old_prefix l i.head before (chained_rows db.logs) ≡ found
    → IntactKept l (delete_found l before i.head db found)
delete_found-IntactKept l before db i (inl p) e = tt
delete_found-IntactKept l before db i (inr last) e =
    delete_prefix-IsIntact l last before db i
      (old_prefix-ended l i.head before (chained_rows db.logs) last e)

prune-IntactKept :
    (l : Logger) (before : ℕ) (db : Db)
    → enabled l ≡ true
    → IsIntact l db
    → IntactKept l (prune l before db)
unfolding prune
prune-IntactKept l before db on i = rw on (
    subst (λ o. IntactKept l (prune_chain l before db o)) (sym i.stored)
      (rw i.mac (delete_found-IntactKept l before db i _ refl)))

-- Where retention deletes from an intact log, with signing on, the log is intact afterwards, and the
-- scan finds it "ok".
pub prune-IsIntact :
    (l : Logger) (before : ℕ) (db db' : Db) (n : ℕ)
    → enabled l ≡ true
    → IsIntact l db
    → prune l before db ≡ inr (db', n)
    → IsIntact l db' × ((scan l db').status ≡ intact)
prune-IsIntact l before db db' n on i p =
    let kept = subst (IntactKept l) p (prune-IntactKept l before db on i) in
    (kept, (scan-IsSound_iff l db' (IsIntact-Numbered l db' kept)).1 (IsIntact-IsSound l db' kept))
