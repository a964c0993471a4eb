-- ===== src/Audit/Prune/Young.antt =====
-- Retention never deletes an entry that is not old: `Prune` of internal/audit/chain.go.
use vaultrun.Base.{
  all, null, keep_if, ℕ, ◌+◌, ◌≤◌, ◌<◌, ◌≡◌, refl, sym, ◌∙◌, subst, ◌⊎◌, inl, inr, Bool, true,
  false, ◌||◌, not, Option, none, some, List, [], ◌∷◌, arith, ltb, leb, if◌then◌else◌, ltb→lt,
  Bool-cases, and-eq_true,
}
use vaultrun.Audit.Prune.{
  Blocked, Walk, Ending, failed, stopped_at, exhausted, walk_old, start_walk, old_prefix,
  prune_head, delete_prefix, delete_found, prune_chain, prune,
}
use vaultrun.Audit.Sign.{enabled, head_valid}
use vaultrun.Audit.Table.{
  Row, chained_rows, if_numbered, outlives, delete_through, cutoff, not_legacy_before,
  delete_unchained, delete_old, Increasing, IsIndexed,
}
use vaultrun.Audit.Table.Filters.{on_row, all-chained_rows}
use vaultrun.Audit.Table.Rows.{logs-update_head}
use vaultrun.Audit.Types.{Logger, AuditLog, AuditChainHead, Db}

-- `n` is where the walk ended, if it met no problem.
abbrev pub ended : Ending → Option ℕ
ended (failed p) = none
ended (stopped_at last stop) = some last
ended (exhausted last) = some last

-- A row numbered up to `last` is older than the cutoff.
abbrev old_through : ℕ → ℕ → ℕ → AuditLog → Bool
old_through last before k e = not (leb k last) || ltb e.timestamp before

above_old :
    (n before : ℕ) (rows : List Row)
    → Increasing n rows
    → all (on_row (old_through n before)) rows ≡ true
above_old n before [] i = refl
above_old n before (r ∷ rows) i = ground (arith, above_old_le n r.0 before rows (omega arith) i.1)
  where
    above_old_le :
        (m k before : ℕ) (rows : List Row)
        → m ≤ k
        → Increasing k rows
        → all (on_row (old_through m before)) rows ≡ true
    above_old_le m k before [] h j = refl
    above_old_le m k before (s ∷ rows) h j =
        ground (arith, above_old_le m s.0 before rows (omega (arith, j.0)) j.1)

walk_old-old :
    (l : Logger) (before : ℕ) (w : Walk) (rows : List Row) (last : ℕ)
    → Increasing w.last rows
    → ended (walk_old l before w rows) ≡ some last
    → (w.last ≤ last) × (all (on_row (old_through last before)) rows ≡ true)
unfolding walk_old
walk_old-old l before w [] last i h = (ground arith, refl)
walk_old-old l before w ((k, e) ∷ rows) last i h =
    let w' : Walk = record {
      last = k;
      expect = k + 1;
      first = false;
      prev_sig = e.sig;
      prev_time = e.timestamp;
    } in
    elim (Bool-cases (ltb e.timestamp before)) [
      | inr young ↦
          let here : w.last ≡ last = ground arith in
          subst (λ n. (w.last ≤ n) × (all (on_row (old_through n before)) ((k, e) ∷ rows) ≡ true))
            here (omega arith, above_old w.last before ((k, e) ∷ rows) i)
      | inl old ↦ ground (arith, old, walk_old-old l before w' rows last i.1)
    ]

pub old_prefix-ended :
    (l : Logger) (h : AuditChainHead) (before : ℕ) (rows : List Row) (last : ℕ)
    → old_prefix l h before rows ≡ inr last
    → ended (walk_old l before (start_walk h) rows) ≡ some last
unfolding old_prefix
old_prefix-ended l h before rows last r = ground arith

-- What a successful walk hands to the deletion.
old_prefix-old :
    (l : Logger) (h : AuditChainHead) (before : ℕ) (rows : List Row) (last : ℕ)
    → IsIndexed rows
    → ended (walk_old l before (start_walk h) rows) ≡ some last
    → 0 < last
    → all (on_row (old_through last before)) rows ≡ true
unfolding walk_old
old_prefix-old l h before [] last i r pos = refl
old_prefix-old l h before ((k, e) ∷ rows) last i r pos =
    let w : Walk = record {
      last = k;
      expect = k + 1;
      first = false;
      prev_sig = e.sig;
      prev_time = e.timestamp;
    } in
    ground (arith, walk_old-old l before w rows last i)

-- The entries dated at or after the cutoff.
abbrev pub young : ℕ → AuditLog → Bool
young before e = not (ltb e.timestamp before)

keep_if-keep_if :
    (p q : AuditLog → Bool) (logs : List AuditLog)
    → all (λ e. q e || not (p e)) logs ≡ true
    → keep_if p (keep_if q logs) ≡ keep_if p logs
unfolding keep_if
keep_if-keep_if p q [] h = refl
keep_if-keep_if p q (e ∷ logs) h = elim (Bool-cases (q e)) [
  | inl kept ↦ ground (arith, kept, keep_if-keep_if p q logs)
  | inr gone ↦ ground (arith, gone, keep_if-keep_if p q logs)
]

young_outlive :
    (before last : ℕ) (logs : List AuditLog)
    → all (on_row (old_through last before)) (chained_rows logs) ≡ true
    → keep_if (young before) (keep_if (outlives last) logs) ≡ keep_if (young before) logs
young_outlive before last logs h =
    keep_if-keep_if (young before) (outlives last) logs
      (all_weaken logs (sym (all-chained_rows (old_through last before) logs) ∙ h))
  where
    one :
        (o : Option ℕ) (e : AuditLog)
        → if_numbered (λ _. true) (old_through last before) o e ≡ true
        → (if_numbered (λ _. true) (λ k _. not (leb k last)) o e || not (young before e)) ≡ true
    one none e h = refl
    one (some k) e h = ground arith

    all_weaken :
        (es : List AuditLog)
        → all (λ (e : AuditLog). if_numbered (λ _. true) (old_through last before) e.seq e) es
          ≡ true
        → all (λ e. outlives last e || not (young before e)) es ≡ true
    all_weaken [] h = refl
    all_weaken (e ∷ es) h =
        let (a, b) = and-eq_true (if_numbered (λ _. true) (old_through last before) e.seq e) _ h in
        rw (one e.seq e a) (all_weaken es b)

young_not_legacy :
    (before c : ℕ) (logs : List AuditLog)
    → c ≤ before
    → keep_if (young before) (keep_if (not_legacy_before c) logs) ≡ keep_if (young before) logs
young_not_legacy before c logs h =
    keep_if-keep_if (young before) (not_legacy_before c) logs (all_young logs)
  where
    one :
        (o : Option ℕ) (e : AuditLog)
        → (if_numbered (λ x. not (ltb x.timestamp c)) (λ _ _. true) o e || not (young before e))
          ≡ true
    one none e = ground arith
    one (some k) e = refl

    all_young :
        (es : List AuditLog) → all (λ e. not_legacy_before c e || not (young before e)) es ≡ true
    all_young [] = refl
    all_young (e ∷ es) = rw (one e.seq e) (all_young es)

cutoff-le : (before : ℕ) (start : Option ℕ) → cutoff before start ≤ before
cutoff-le before none = omega arith
cutoff-le before (some s) = ground arith

logs-delete_prefix :
    (l : Logger) (last before : ℕ) (h : AuditChainHead) (db : Db)
    → (delete_prefix l last before h db).0.logs
      ≡ keep_if
          (not_legacy_before (cutoff before (some h.started_at)))
          (if ltb 0 last then keep_if (outlives last) db.logs else db.logs)
unfolding delete_prefix delete_through delete_unchained
logs-delete_prefix l last before h db = elim (Bool-cases (ltb 0 last)) [
  | inl some_old ↦
      rw some_old (rw (logs-update_head (prune_head l last h) (delete_through last db).0) refl)
  | inr none_old ↦ rw none_old refl
]

young-delete_prefix :
    (l : Logger) (last before : ℕ) (h : AuditChainHead) (db : Db)
    → (0 < last → all (on_row (old_through last before)) (chained_rows db.logs) ≡ true)
    → keep_if (young before) (delete_prefix l last before h db).0.logs
      ≡ keep_if (young before) db.logs
young-delete_prefix l last before h db old =
    let c = cutoff before (some h.started_at) in
    let c_le = cutoff-le before (some h.started_at) in
    rw (logs-delete_prefix l last before h db) (elim (Bool-cases (ltb 0 last)) [
      | inl some_old ↦ rw some_old (
          young_not_legacy before c (keep_if (outlives last) db.logs) c_le
          ∙ young_outlive before last db.logs (old (ltb→lt 0 last some_old)))
      | inr none_old ↦ rw none_old (young_not_legacy before c db.logs c_le)
    ])

young-delete_old :
    (before : ℕ) (db : Db)
    → keep_if (young before) (delete_old before db).0.logs ≡ keep_if (young before) db.logs
unfolding delete_old
young-delete_old before db = keep_if-keep_if (young before) (young before) db.logs (either db.logs)
  where
    either : (es : List AuditLog) → all (λ e. young before e || not (young before e)) es ≡ true
    either [] = refl
    either (e ∷ es) = ground (arith, either es)

-- What is said of the tables afterwards, if something was deleted.
abbrev YoungKept : ℕ → Db → Blocked ⊎ (Db × ℕ) → Type 0
YoungKept before db (inl p) = Unit
YoungKept before db (inr r) = keep_if (young before) r.0.logs ≡ keep_if (young before) db.logs

delete_found-YoungKept :
    (l : Logger) (before : ℕ) (h : AuditChainHead) (db : Db) (found : Blocked ⊎ ℕ)
    → IsIndexed (chained_rows db.logs)
    → old_prefix l h before (chained_rows db.logs) ≡ found
    → YoungKept before db (delete_found l before h db found)
delete_found-YoungKept l before h db (inl p) i e = tt
delete_found-YoungKept l before h db (inr last) i e = young-delete_prefix l last before h db (
    old_prefix-old l h before (chained_rows db.logs) last i
      (old_prefix-ended l h before (chained_rows db.logs) last e))

prune_chain-YoungKept :
    (l : Logger) (before : ℕ) (db : Db) (o : Option AuditChainHead)
    → IsIndexed (chained_rows db.logs)
    → YoungKept before db (prune_chain l before db o)
unfolding delete_unchained
prune_chain-YoungKept l before db none i = elim (Bool-cases (null (chained_rows db.logs))) [
  | inl empty ↦ rw empty (young_not_legacy before before db.logs (omega arith))
  | inr rows ↦ rw rows tt
]
prune_chain-YoungKept l before db (some h) i = elim (Bool-cases (head_valid l h)) [
  | inl good ↦ rw good (delete_found-YoungKept l before h db _ i refl)
  | inr bad ↦ rw bad tt
]

prune-YoungKept :
    (l : Logger) (before : ℕ) (db : Db)
    → IsIndexed (chained_rows db.logs)
    → YoungKept before db (prune l before db)
unfolding prune
prune-YoungKept l before db i = elim (Bool-cases (enabled l)) [
  | inl on ↦ rw on (prune_chain-YoungKept l before db db.head i)
  | inr off ↦ rw off (young-delete_old before db)
]

-- Whatever the tables hold, as long as the unique index on the numbers holds, retention leaves the
-- entries dated at or after the cutoff as they are: it deletes none of them, with or without
-- signing.
pub young-prune :
    (l : Logger) (before : ℕ) (db db' : Db) (n : ℕ)
    → IsIndexed (chained_rows db.logs)
    → prune l before db ≡ inr (db', n)
    → keep_if (young before) db'.logs ≡ keep_if (young before) db.logs
young-prune l before db db' n i p = subst (YoungKept before db) p (prune-YoungKept l before db i)
