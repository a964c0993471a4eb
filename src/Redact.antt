-- ===== src/Redact.antt =====
-- The redaction of secrets in the output of commands: internal/secrets/redact.go, with what it uses
-- of encoding/base64.
pub mod Build
pub mod Stream
pub mod Writer
pub mod Whole
pub mod Sorted
pub mod Added
pub mod Secrets
mod Examples
use vaultrun.Base.{
  length, any, Text, starts_with, ℕ, zero, suc, ◌-◌, Bool, true, false, ◌&&◌, not, Option, none,
  some, List, [], ◌∷◌, ◌++◌, ltb, ◌==◌, if◌then◌else◌,
}

pub record Needle : Type 0 where
  pub pat : Text
  pub repl : Text

-- `Redactor`; its table `first` is `is_first` below, and maxLen is never read
pub record Redactor : Type 0 where
  pub needles : List Needle

abbrev pub begins : ℕ → Text → Bool
begins c [] = false
begins c (d ∷ s) = d == c

abbrev pub begins_with : ℕ → Needle → Bool
begins_with c n = begins c n.pat

-- `r.first[c]`: some needle begins with the byte
unfoldable pub is_first : Redactor → ℕ → Bool
is_first r c = any (begins_with c) r.needles

abbrev pub is_at : Text → Needle → Bool
is_at buf n = starts_with n.pat buf

-- the first of the needles that stands at the front of the buffer
unfoldable pub match_at : List Needle → Text → Option Needle
match_at [] buf = none
match_at (n ∷ needles) buf = if is_at buf n then some n else match_at needles buf

abbrev pub is_cut : Text → Needle → Bool
is_cut tail n = ltb (length tail) (length n.pat) && starts_with tail n.pat

-- `couldExtend`
unfoldable pub could_extend : Redactor → Text → Bool
could_extend r tail = any (is_cut tail) r.needles

abbrev pub emit : Text → Text × Text → Text × Text
emit s (out, rest) = (s ++ out, rest)

-- Where no needle matches: the byte is copied, or the tail held back. `go` is the loop on what
-- follows the byte, after as many bytes as it is given.
abbrev pub unmatched : Bool → (ℕ → Text × Text) → ℕ → Text → Text × Text
unmatched false go c s = emit (c ∷ []) (go 0)
unmatched true go c s = ([], c ∷ s)

abbrev pub tried : Redactor → Bool → (ℕ → Text × Text) → ℕ → Text → Option Needle → Text × Text
tried r final go c s (some n) = emit n.repl (go (length n.pat - 1))
tried r final go c s none = unmatched (not final && could_extend r (c ∷ s)) go c s

abbrev pub scanned : Redactor → Bool → (ℕ → Text × Text) → ℕ → Text → Bool → Text × Text
scanned r final go c s false = emit (c ∷ []) (go 0)
scanned r final go c s true = tried r final go c s (match_at r.needles (c ∷ s))

-- The loop of `process`, with the output and the tail that is held back. The bytes of a needle that
-- was found are passed over: `skip` of them are left.
unfoldable pub process : Redactor → Bool → (skip : ℕ) → Text → Text × Text
process r final skip [] = ([], [])
process r final (suc skip) (c ∷ s) = process r final skip s
process r final zero (c ∷ s) = scanned r final (λ skip. process r final skip s) c s (is_first r c)

-- `Redact`; a nil Redactor is none
unfoldable pub redact : Option Redactor → Text → Text
redact none s = s
redact (some r) s = (process r true 0 s).0

-- `redactWriter`, with what was written through to `w` so far
pub record RedactWriter : Type 0 where
  pub redactor : Redactor
  pub hold : Text
  pub passed : Text

abbrev pub writer : Redactor → RedactWriter
writer r = record { redactor = r; hold = []; passed = [] }

abbrev pub hold_rest : RedactWriter → Text × Text → RedactWriter
hold_rest w (out, rest) = record w { hold = rest; passed = w.passed ++ out }

-- `Write`, where `w` takes what it is given
unfoldable pub write : Text → RedactWriter → RedactWriter
write p w = hold_rest w (process w.redactor false 0 (w.hold ++ p))

-- `Close`; with nothing held back it writes nothing
unfoldable pub close : RedactWriter → RedactWriter
close w = record w { hold = []; passed = w.passed ++ (process w.redactor true 0 w.hold).0 }

unfoldable pub write_all : List Text → RedactWriter → RedactWriter
write_all [] w = w
write_all (p ∷ ps) w = write_all ps (write p w)
