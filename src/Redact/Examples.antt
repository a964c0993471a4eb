-- ===== src/Redact/Examples.antt =====
-- Tests and witnesses for internal/secrets/redact.go.
use vaultrun.Base.{all, Text, codes, text_eq, ◌≡◌, refl, true, Option, none, some, List, [], ◌∷◌}
use vaultrun.Redact.{
  Redactor, is_first, match_at, could_extend, process, redact, writer, write, close, write_all,
}
use vaultrun.Redact.Added.{is_covered, is_from}
use vaultrun.Redact.Build.{
  collect, b64, add_needle, patterns, insert_needle, sort_needles, new_redactor,
}
use vaultrun.Redact.Secrets.{new_redactor-Redacts}
use vaultrun.Redact.Stream.{prefix_free}
use vaultrun.Redact.Whole.{Redacts}
use vaultrun.Redact.Writer.{write_all-redact}

-- "hunter22" as a secret
abbrev password : List (Text × Text)
password = (codes "PW", codes "hunter22") ∷ (codes "PIN", codes "123") ∷ []

abbrev or_empty : Option Redactor → Redactor
or_empty none = record { needles = [] }
or_empty (some r) = r

abbrev redactor : Redactor
redactor = or_empty (new_redactor password)

new_redactor-Redacts_example :
    Redacts redactor.needles (codes "pw=hunter22!") (redact (some redactor) (codes "pw=hunter22!"))
    × (all (is_covered redactor.needles) password ≡ true)
    × (all (is_from password) redactor.needles ≡ true)
unfolding new_redactor collect patterns b64 add_needle text_eq sort_needles insert_needle
new_redactor-Redacts_example = new_redactor-Redacts password redactor (codes "pw=hunter22!") refl

-- Plain and in base64, where "aHVudGVyMjI=" and the same without its padding are both needles.
password_hidden :
    redact (new_redactor password) (codes "pw=hunter22 aHVudGVyMjI= 123")
    ≡ codes "pw=[REDACTED:PW] [REDACTED:PW] 123"
unfolding redact new_redactor collect patterns b64 add_needle text_eq sort_needles insert_needle
    process is_first match_at
password_hidden = refl

-- One needle, whose value is cut in two by the writes.
abbrev token : Redactor
token = record { needles = record { pat = codes "s3cret"; repl = codes "[REDACTED:T]" } ∷ [] }

write_all-redact_example :
    (close (write_all (codes "a s3c" ∷ codes "ret b s3" ∷ []) (writer token))).passed
    ≡ redact (some token) (codes "a s3cret b s3")
unfolding prefix_free text_eq
write_all-redact_example = write_all-redact token (codes "a s3c" ∷ codes "ret b s3" ∷ []) refl

cut_hidden :
    (close (write_all (codes "a s3c" ∷ codes "ret b s3" ∷ []) (writer token))).passed
    ≡ codes "a [REDACTED:T] b s3"
unfolding write_all write close process is_first match_at could_extend
cut_hidden = refl

-- A secret that begins with another one: "abcdWXYZ" is hidden whole where it comes in one piece, but
-- its end is passed through where a write ends behind the shorter one.
abbrev nested : Option Redactor
nested = new_redactor ((codes "A", codes "abcd") ∷ (codes "B", codes "abcdWXYZ") ∷ [])

nested_hidden : redact nested (codes "abcdWXYZ") ≡ codes "[REDACTED:B]"
unfolding redact new_redactor collect patterns b64 add_needle text_eq sort_needles insert_needle
    process is_first match_at
nested_hidden = refl

nested_leaks :
    (close (write_all (codes "abcd" ∷ codes "WXYZ" ∷ []) (writer (or_empty nested)))).passed
    ≡ codes "[REDACTED:A]WXYZ"
unfolding new_redactor collect patterns b64 add_needle text_eq sort_needles insert_needle write_all
    write close process is_first match_at could_extend
nested_leaks = refl
