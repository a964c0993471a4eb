-- ===== src/Redact/Secrets.antt =====
-- What a redactor made of secrets hides: NewRedactor of internal/secrets/redact.go.
use vaultrun.Base.{
  length, all, Text, ◌≡◌, refl, sym, ◌∙◌, subst, inl, inr, Bool, true, false, some, List, [], ◌∷◌,
  arith, Bool-cases,
}
use vaultrun.Redact.{Needle, Redactor, redact}
use vaultrun.Redact.Added.{
  Holds, refl-Holds, forms, is_short, is_covered, marked, hides_form, is_from, all-keeps,
  all-keeps_covered, add_all-covers, all-if, add_all-all, filled-forms, hides_form-marked,
}
use vaultrun.Redact.Build.{
  collect, has_pat, add_all, patterns, sort_needles, some_needles, new_redactor,
}
use vaultrun.Redact.Sorted.{all-sort_needles, any-sort_needles, sort_needles-sorted}
use vaultrun.Redact.Whole.{Redacts, is_filled, is_sorted, process-Redacts}

collect_short :
    (ns : List Needle) (name val : Text) (secrets : List (Text × Text))
    → is_short val ≡ true
    → collect ns ((name, val) ∷ secrets) ≡ collect ns secrets
unfolding collect
collect_short ns name val secrets short = rw short refl

collect_long :
    (ns : List Needle) (name val : Text) (secrets : List (Text × Text))
    → is_short val ≡ false
    → collect ns ((name, val) ∷ secrets) ≡ collect (add_all name ns (patterns val)) secrets
unfolding collect
collect_long ns name val secrets long = rw long refl

-- `patterns` gives the forms
patterns-forms : (val : Text) → patterns val ≡ forms val
unfolding patterns
patterns-forms val = refl

record Collected (p : Needle → Bool) (ns : List Needle) (secrets : List (Text × Text))
    (found : List Needle) : Type 0 where
  holds : Holds ns found
  covered : all (is_covered found) secrets ≡ true
  hidden : all p found ≡ true

collect-Collected :
    (p : Needle → Bool) (ns : List Needle) (secrets : List (Text × Text))
    → ((n : Needle) → is_from secrets n ≡ true → p n ≡ true)
    → all is_filled ns ≡ true
    → all p ns ≡ true
    → Collected p ns secrets (collect ns secrets)
collect-Collected p ns [] w f q =
    (unfold collect in record { holds = refl-Holds ns f; covered = refl; hidden = q })
collect-Collected p ns ((name, val) ∷ secrets) w f q =
    let later : (n : Needle) → is_from secrets n ≡ true → p n ≡ true =
      (λ n h. w n (rw h (ground arith))) in
    elim (Bool-cases (is_short val)) [
      | inl short ↦
          let rest = collect-Collected p ns secrets later f q in
          subst (Collected p ns ((name, val) ∷ secrets))
            (sym (collect_short ns name val secrets short))
            (record { holds = rest.holds; covered = rw short rest.covered; hidden = rest.hidden })
      | inr long ↦
          let added = add_all-covers name ns (forms val) f (filled-forms val long) in
          let made =
            all-if (λ pat. hides_form (marked name pat) (name, val)) (λ pat. p (marked name pat))
              (forms val) (λ pat h. w (marked name pat) (rw h refl))
              (hides_form-marked name val long) in
          let rest =
            collect-Collected p (add_all name ns (forms val)) secrets later added.0.filled
              (add_all-all p name ns (forms val) q made) in
          let own = all-keeps _ _ (forms val) rest.holds added.1 in
          subst (Collected p ns ((name, val) ∷ secrets))
            (sym (collect_long ns name val secrets long))
            (rw (patterns-forms val) (record {
              holds = record {
                filled = rest.holds.filled;
                keeps = λ v k. rest.holds.keeps v (added.0.keeps v k);
              };
              covered = rw long (rw (own, rest.covered) refl);
              hidden = rest.hidden;
            }))
    ]

-- What holds of the needles of a redactor made of secrets.
record MadeOf (secrets : List (Text × Text)) (ns : List Needle) : Type 0 where
  filled : all is_filled ns ≡ true
  sorted : is_sorted ns ≡ true
  covered : all (is_covered ns) secrets ≡ true
  hidden : all (is_from secrets) ns ≡ true

sorted-Holds : (ns : List Needle) → all is_filled ns ≡ true → Holds ns (sort_needles ns)
sorted-Holds ns f = record {
  filled = all-sort_needles is_filled ns ∙ f;
  keeps = λ v k. any-sort_needles (has_pat v) ns ∙ k;
}

some_needles-MadeOf :
    (secrets : List (Text × Text)) (ns : List Needle) (r : Redactor)
    → Collected (is_from secrets) [] secrets ns
    → some_needles ns ≡ some r
    → MadeOf secrets r.needles
some_needles-MadeOf secrets [] r c e = cc
some_needles-MadeOf secrets (n ∷ ns) r c e =
    let same : record { needles = sort_needles (n ∷ ns) } ≡ r = cc in
    let h = sorted-Holds (n ∷ ns) c.holds.filled in
    subst (λ (q : Redactor). MadeOf secrets q.needles) same
      (record {
        filled = h.filled;
        sorted = sort_needles-sorted (n ∷ ns);
        covered = all-keeps_covered (n ∷ ns) (sort_needles (n ∷ ns)) secrets h c.covered;
        hidden = all-sort_needles (is_from secrets) (n ∷ ns) ∙ c.hidden;
      })

-- Of any text, a redactor made of secrets replaces, from the left, the longest of its needles that
-- stands, and keeps a byte only where none stands. Of each secret of at least four bytes, the value
-- and its four encodings in base64, standard and URL-safe, padded and not, are among its needles'
-- patterns; and each needle has such a pattern, which is replaced by "[REDACTED:", the name of its
-- secret and "]".
pub new_redactor-Redacts :
    (secrets : List (Text × Text)) (r : Redactor) (s : Text)
    → new_redactor secrets ≡ some r
    → Redacts r.needles s (redact (some r) s)
      × (all (is_covered r.needles) secrets ≡ true)
      × (all (is_from secrets) r.needles ≡ true)
unfolding redact new_redactor
new_redactor-Redacts secrets r s h =
    let found = collect-Collected (is_from secrets) [] secrets (λ n k. k) refl refl in
    let m = some_needles-MadeOf secrets (collect [] secrets) r found h in
    (process-Redacts r m.filled m.sorted (length s) s (omega arith), m.covered, m.hidden)
