-- ===== src/Audit/Intact.antt =====
-- What it means that the log is as the logger left it: the rows hang together, and the head
-- records their end. Two predicates: what every write keeps, and what a check can establish.
use vaultrun.Base.{
  all, All, Text, ℕ, ◌+◌, ◌≤◌, ◌≡◌, refl, ◌∙◌, true, some, List, [], ◌∷◌, ◌++◌, arith,
}
use vaultrun.Audit.Sign.{verify_audit_sig, head_valid}
use vaultrun.Audit.Table.{Row, chained_rows, unchained_since}
use vaultrun.Audit.Table.Rows.{AllBelow}
use vaultrun.Audit.Types.{Logger, AuditLog, AuditChainHead, Db}

-- The rows are numbered from `n` on without a hole, each is correctly signed, and each carries the
-- signature of the one before it, the first the signature `p`.
abbrev pub Linked : Logger → ℕ → Text → List Row → Type 0
Linked l n p [] = Unit
Linked l n p ((k, e) ∷ rows) =
    (k ≡ n + 1) × (verify_audit_sig l e ≡ true) × (e.prev_sig ≡ p) × Linked l k e.sig rows

-- Number and signature of the last row.
abbrev pub end_seq : ℕ → List Row → ℕ
end_seq n [] = n
end_seq n ((k, e) ∷ rows) = end_seq k rows

abbrev pub end_sig : Text → List Row → Text
end_sig p [] = p
end_sig p ((k, e) ∷ rows) = end_sig e.sig rows

-- What every operation of the logger keeps.
pub record IsIntact (l : Logger) (db : Db) : Type 0 where
  pub head : AuditChainHead
  pub stored : db.head ≡ some head
  pub mac : head_valid l head ≡ true
  pub anchor : Text
  pub anchored : head.pruned_through ≡ 0 → anchor ≡ []
  pub linked : Linked l head.pruned_through anchor (chained_rows db.logs)
  pub ends_seq : end_seq head.pruned_through (chained_rows db.logs) ≡ head.seq
  pub ends_sig : end_sig anchor (chained_rows db.logs) ≡ head.last_sig
  pub none_late : unchained_since head.started_at db.logs ≡ []

-- The rows as a check against the head `h` wants them: the first follows what was pruned, and the
-- last is the one that the head names. Without rows, all were pruned.
abbrev pub Checked : Logger → AuditChainHead → List Row → Type 0
Checked l h [] = h.seq ≤ h.pruned_through
Checked l h ((k, e) ∷ rows) =
    (verify_audit_sig l e ≡ true)
    × (k ≤ h.pruned_through + 1)
    × (k ≡ 1 → e.prev_sig ≡ [])
    × Linked l k e.sig rows
    × (end_seq k rows ≡ h.seq)
    × (end_sig e.sig rows ≡ h.last_sig)

-- What a check of the tables can establish: as above, but rows that the head takes for pruned may
-- still be there, and entries outside the chain need their signatures only.
pub record IsSound (l : Logger) (db : Db) : Type 0 where
  pub head : AuditChainHead
  pub stored : db.head ≡ some head
  pub mac : head_valid l head ≡ true
  pub checked : Checked l head (chained_rows db.logs)
  pub late_verify : all (verify_audit_sig l) (unchained_since head.started_at db.logs) ≡ true

pub Linked-append :
    (l : Logger) (n : ℕ) (p : Text) (rows : List Row) (e : AuditLog)
    → Linked l n p rows
    → verify_audit_sig l e ≡ true
    → e.prev_sig ≡ end_sig p rows
    → Linked l n p (rows ++ (end_seq n rows + 1, e) ∷ [])
Linked-append l n p [] e h v q = (refl, v, q, tt)
Linked-append l n p ((k, d) ∷ rows) e h v q =
    (h.0, h.1, h.2, Linked-append l k d.sig rows e h.3 v q)

pub end_seq-append :
    (n : ℕ) (rows : List Row) (k : ℕ) (e : AuditLog) → end_seq n (rows ++ (k, e) ∷ []) ≡ k
end_seq-append n [] k e = refl
end_seq-append n ((j, d) ∷ rows) k e = end_seq-append j rows k e

pub end_sig-append :
    (p : Text) (rows : List Row) (k : ℕ) (e : AuditLog) → end_sig p (rows ++ (k, e) ∷ []) ≡ e.sig
end_sig-append p [] k e = refl
end_sig-append p ((j, d) ∷ rows) k e = end_sig-append d.sig rows k e

pub end_seq-le :
    (l : Logger) (n : ℕ) (p : Text) (rows : List Row) → Linked l n p rows → n ≤ end_seq n rows
end_seq-le l n p [] h = omega arith
end_seq-le l n p ((k, e) ∷ rows) h = omega (arith, h.0, end_seq-le l k e.sig rows h.3)

-- The numbers of linked rows are at most the last one.
pub Linked-AllBelow :
    (l : Logger) (n : ℕ) (p : Text) (rows : List Row)
    → Linked l n p rows
    → AllBelow (end_seq n rows + 1) rows
Linked-AllBelow l n p [] h = tt
Linked-AllBelow l n p ((k, e) ∷ rows) h =
    (omega (arith, end_seq-le l k e.sig rows h.3), Linked-AllBelow l k e.sig rows h.3)

Linked-Checked :
    (l : Logger) (h : AuditChainHead) (p : Text) (rows : List Row)
    → (h.pruned_through ≡ 0 → p ≡ [])
    → Linked l h.pruned_through p rows
    → end_seq h.pruned_through rows ≡ h.seq
    → end_sig p rows ≡ h.last_sig
    → Checked l h rows
Linked-Checked l h p [] a c s g = omega (arith, s)
Linked-Checked l h p ((k, e) ∷ rows) a c s g =
    (c.1, omega (arith, c.0), λ first. c.2 ∙ a (omega (arith, first, c.0)), c.3, s, g)

-- What the writes keep is more than a check can see.
pub IsIntact-IsSound : (l : Logger) (db : Db) → IsIntact l db → IsSound l db
IsIntact-IsSound l db i = record {
  head = i.head;
  stored = i.stored;
  mac = i.mac;
  checked =
      Linked-Checked l i.head i.anchor (chained_rows db.logs) i.anchored i.linked i.ends_seq
        i.ends_sig;
  late_verify = rw i.none_late refl;
}

-- Rows of an intact log are numbered from 1.
Linked-Numbered :
    (l : Logger) (n : ℕ) (p : Text) (rows : List Row)
    → Linked l n p rows
    → All (λ (r : Row). 1 ≤ r.0) rows
Linked-Numbered l n p [] c = tt
Linked-Numbered l n p ((k, e) ∷ rows) c = (omega (arith, c.0), Linked-Numbered l k e.sig rows c.3)

pub IsIntact-Numbered :
    (l : Logger) (db : Db) → IsIntact l db → All (λ (r : Row). 1 ≤ r.0) (chained_rows db.logs)
IsIntact-Numbered l db i =
    Linked-Numbered l i.head.pruned_through i.anchor (chained_rows db.logs) i.linked
