-- ===== src/Audit/Table/Rows.antt =====
-- How the queries on the chained rows answer to writes and deletions.
use vaultrun.Base.{
  any, All, ℕ, ◌<◌, ◌≡◌, refl, sym, ap, ◌∙◌, Bool, false, ◌||◌, Option, none, some, List, [], ◌∷◌,
  ◌++◌, arith, ◌==◌,
}
use vaultrun.Audit.Table.{Row, insert_row, add_row, chained_rows, seq_is, has_seq, update_head}
use vaultrun.Audit.Types.{AuditLog, AuditChainHead, Db}

abbrev pub AllBelow : ℕ → List Row → Type 0
AllBelow n = All (λ (r : Row). r.0 < n)

pub insert_row_last :
    (r : Row) (rows : List Row) → AllBelow r.0 rows → insert_row r rows ≡ rows ++ r ∷ []
unfolding insert_row
insert_row_last r [] h = refl
insert_row_last r (s ∷ rows) h = ground (arith, insert_row_last r rows)

any-insert_row :
    (p : Row → Bool) (r : Row) (rows : List Row) → any p (insert_row r rows) ≡ (p r || any p rows)
unfolding insert_row
any-insert_row p r [] = refl
any-insert_row p r (s ∷ rows) = ground (arith, any-insert_row p r rows)

any-add_row :
    (n : ℕ) (o : Option ℕ) (e : AuditLog) (rows : List Row)
    → any (λ (r : Row). r.0 == n) (add_row o e rows)
      ≡ (seq_is n o || any (λ (r : Row). r.0 == n) rows)
any-add_row n none e rows = refl
any-add_row n (some k) e rows = any-insert_row (λ (r : Row). r.0 == n) (k, e) rows

pub any-has_seq :
    (n : ℕ) (logs : List AuditLog)
    → any (has_seq n) logs ≡ any (λ (r : Row). r.0 == n) (chained_rows logs)
unfolding chained_rows
any-has_seq n [] = refl
any-has_seq n (e ∷ logs) =
    ap (λ b. seq_is n e.seq || b) (any-has_seq n logs)
    ∙ sym (any-add_row n e.seq e (chained_rows logs))

pub any-AllBelow :
    (n : ℕ) (rows : List Row) → AllBelow n rows → any (λ (r : Row). r.0 == n) rows ≡ false
any-AllBelow n [] h = refl
any-AllBelow n (r ∷ rows) h = ground (arith, any-AllBelow n rows h.1)

pub logs-update_head : (h : AuditChainHead) (db : Db) → (update_head h db).logs ≡ db.logs
unfolding update_head
logs-update_head h db = ground arith
