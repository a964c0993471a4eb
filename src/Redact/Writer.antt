-- ===== src/Redact/Writer.antt =====
-- That the writer of internal/secrets/redact.go gives what Redact gives, however the output is cut.
use mathlib.Core.List.{append_assoc, append-nil}
use vaultrun.Base.{Text, ◌≡◌, sym, ap, ◌∙◌, true, false, some, List, [], ◌∷◌, ◌++◌, arith}
use vaultrun.Redact.{Redactor, process, redact, writer, write, close, write_all}
use vaultrun.Redact.Stream.{prefix_free, process-more}

abbrev pub concat : List Text → Text
concat [] = []
concat (p ∷ ps) = p ++ concat ps

module _ (r : Redactor) (free : prefix_free r.needles ≡ true) where
  write_all-process :
      (ps : List Text) (hold passed : Text)
      → (close (write_all ps (record { redactor = r; hold = hold; passed = passed }))).passed
        ≡ passed ++ (process r true 0 (hold ++ concat ps)).0
  unfolding close write_all write
  write_all-process [] hold passed =
      ap (λ s. passed ++ (process r true 0 s).0) (sym (append-nil hold))
  write_all-process (p ∷ ps) hold passed =
      let part = process r false 0 (hold ++ p) in
      write_all-process ps part.1 (passed ++ part.0)
      ∙ append_assoc passed part.0 (process r true 0 (part.1 ++ concat ps)).0
      ∙ ap (λ s. passed ++ s)
          (sym (
            ap (λ s. (process r true 0 s).0) (sym (append_assoc hold p (concat ps)))
            ∙ ap (λ q. q.0) (process-more r free true 0 (hold ++ p) (concat ps) (omega arith))))

-- Where no needle continues another, it does not matter how the output of a command is cut into
-- writes, within a secret or not: once the writer is closed, what has passed is what Redact gives of
-- the whole.
pub write_all-redact :
    (r : Redactor) (ps : List Text)
    → prefix_free r.needles ≡ true
    → (close (write_all ps (writer r))).passed ≡ redact (some r) (concat ps)
unfolding redact
write_all-redact r ps free = write_all-process r free ps [] []
