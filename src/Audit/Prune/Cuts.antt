-- ===== src/Audit/Prune/Cuts.antt =====
-- What is left of the chain when its oldest rows go: `Prune` of internal/audit/chain.go.
use vaultrun.Base.{
  keep_if, Text, ℕ, ◌+◌, ◌≤◌, ◌≡◌, refl, ap, ◌⊎◌, inl, inr, Bool, true, false, not, some, List, [],
  ◌∷◌, arith, ltb, leb, leb→le, Bool-cases,
}
use vaultrun.Audit.Intact.{Linked, end_seq, end_sig}
use vaultrun.Audit.Prune.{Walk, walk_old}
use vaultrun.Audit.Prune.Young.{ended, young}
use vaultrun.Audit.Table.{Row}
use vaultrun.Audit.Types.{Logger}

-- A row after the number `last`.
abbrev pub after : ℕ → Row → Bool
after last r = not (leb r.0 last)

le-end_seq :
    (l : Logger) (n : ℕ) (p : Text) (rows : List Row) → Linked l n p rows → n ≤ end_seq n rows
le-end_seq l n p [] k = omega arith
le-end_seq l n p ((m, e) ∷ rows) k =
    let rest = le-end_seq l m e.sig rows k.3 in omega (arith, k.0, rest)

keep_if-after :
    (l : Logger) (n last : ℕ) (p : Text) (rows : List Row)
    → Linked l n p rows
    → last ≤ n
    → keep_if (after last) rows ≡ rows
unfolding keep_if
keep_if-after l n last p [] k h = refl
keep_if-after l n last p ((m, e) ∷ rows) k h =
    let stays : not (leb m last) ≡ true = ground (arith, k.0, h) in
    rw stays
      (ap (λ rs. (m, e) ∷ rs) (keep_if-after l m last e.sig rows k.3 (omega (arith, k.0, h))))

-- The rows after `last` hang together, and end as before.
pub record Cut (l : Logger) (n last : ℕ) (p : Text) (rows : List Row) : Type 0 where
  pub anchor : Text
  pub linked : Linked l last anchor (keep_if (after last) rows)
  pub same_seq : end_seq last (keep_if (after last) rows) ≡ end_seq n rows
  pub same_sig : end_sig anchor (keep_if (after last) rows) ≡ end_sig p rows

pub cut :
    (l : Logger) (n last : ℕ) (p : Text) (rows : List Row)
    → Linked l n p rows
    → n ≤ last
    → last ≤ end_seq n rows
    → Cut l n last p rows
unfolding keep_if
cut l n last p [] k h h' = record {
  anchor = p;
  linked = tt;
  same_seq = omega (arith, h, h');
  same_sig = refl;
}
cut l n last p ((m, e) ∷ rows) k h h' = elim (Bool-cases (leb m last)) [
  | inl gone ↦
      let rest = cut l m last e.sig rows k.3 (leb→le m last gone) h' in
      record {
        anchor = rest.anchor;
        linked = rw gone rest.linked;
        same_seq = rw gone rest.same_seq;
        same_sig = rw gone rest.same_sig;
      }
  | inr first ↦
      let here : n ≡ last = ground (arith, first, h, k.0) in
      let all_stay = keep_if-after l m last e.sig rows k.3 (omega (arith, here, k.0)) in
      record {
        anchor = p;
        linked = rw first (rw all_stay (omega (arith, k.0, here), k.1, k.2, k.3));
        same_seq = rw first (rw all_stay refl);
        same_sig = rw first (rw all_stay refl);
      }
]

-- A walk that meets no problem ends at its start, or at a row.
pub walk_old-bound :
    (l : Logger) (before n : ℕ) (p : Text) (w : Walk) (rows : List Row) (last : ℕ)
    → Linked l n p rows
    → ended (walk_old l before w rows) ≡ some last
    → (last ≡ w.last) ⊎ ((n ≤ last) × (last ≤ end_seq n rows))
unfolding walk_old
walk_old-bound l before n p w [] last k h = inl (ground arith)
walk_old-bound l before n p w ((m, e) ∷ rows) last k h =
    let w' : Walk = record {
      last = m;
      expect = m + 1;
      first = false;
      prev_sig = e.sig;
      prev_time = e.timestamp;
    } in
    let low = le-end_seq l m e.sig rows k.3 in
    elim (Bool-cases (ltb e.timestamp before)) [
      | inr young ↦ inl (ground (arith, young))
      | inl old ↦ ground (arith, old, k.0, low, walk_old-bound l before m e.sig w' rows last k.3)
    ]
