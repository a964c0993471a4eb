-- ===== src/Redact/Build.antt =====
-- How a redactor is made of the secrets: NewRedactor of internal/secrets/redact.go.
use vaultrun.Base.{
  length, any, Text, codes, is_empty, text_eq, ℕ, zero, suc, ◌+◌, ◌-◌, ◌*◌, ◌/◌, ◌%◌, Bool, true,
  false, ◌||◌, Option, none, some, List, [], ◌∷◌, ◌++◌, ltb, ◌==◌, if◌then◌else◌,
}
use vaultrun.Redact.{Needle, Redactor}

abbrev pub min_redact_len : ℕ
min_redact_len = 4

-- a digit of base64; the last two are those of the encoding
abbrev pub b64_digit : (plus slash v : ℕ) → ℕ
b64_digit plus slash v =
    if ltb v 26
    then 65 + v
    else if ltb v 52
    then 71 + v
    else if ltb v 62
    then v - 4
    else if v == 62
    then plus
    else slash

abbrev pub padding : Bool → ℕ → Text
padding false n = []
padding true zero = []
padding true (suc n) = 61 ∷ padding true n

-- EncodeToString of an encoding, with or without padding
unfoldable pub b64 : (plus slash : ℕ) → Bool → Text → Text
b64 plus slash pad [] = []
b64 plus slash pad (a ∷ []) =
    b64_digit plus slash (a / 4) ∷ b64_digit plus slash (a % 4 * 16) ∷ padding pad 2
b64 plus slash pad (a ∷ b ∷ []) =
    b64_digit plus slash (a / 4)
    ∷ b64_digit plus slash (a % 4 * 16 + b / 16)
    ∷ b64_digit plus slash (b % 16 * 4)
    ∷ padding pad 1
b64 plus slash pad (a ∷ b ∷ c ∷ s) =
    b64_digit plus slash (a / 4)
    ∷ b64_digit plus slash (a % 4 * 16 + b / 16)
    ∷ b64_digit plus slash (b % 16 * 4 + c / 64)
    ∷ b64_digit plus slash (c % 64)
    ∷ b64 plus slash pad s

abbrev pub has_pat : Text → Needle → Bool
has_pat pat n = text_eq n.pat pat

-- `add`: an empty or known pattern is passed over
unfoldable pub add_needle : Text → List Needle → Text → List Needle
add_needle name needles pat =
    if is_empty pat || any (has_pat pat) needles
    then needles
    else needles ++ record { pat = pat; repl = codes "[REDACTED:" ++ name ++ codes "]" } ∷ []

abbrev pub add_all : Text → List Needle → List Text → List Needle
add_all name needles [] = needles
add_all name needles (pat ∷ pats) = add_all name (add_needle name needles pat) pats

-- the standard and URL-safe encodings, with and without padding
abbrev pub encodings : Text → List Text
encodings val =
    b64 43 47 true val ∷ b64 43 47 false val ∷ b64 45 95 true val ∷ b64 45 95 false val ∷ []

-- the patterns of a value
unfoldable pub patterns : Text → List Text
patterns val = val ∷ encodings val

-- the loop over the secrets, in the order in which the map gives them
unfoldable pub collect : List Needle → List (Text × Text) → List Needle
collect needles [] = needles
collect needles ((name, val) ∷ secrets) =
    let added =
      (if ltb (length val) min_redact_len then needles else add_all name needles (patterns val)) in
    collect added secrets

-- Longest first. sort.Slice leaves open the order of patterns of one length, of which at most one
-- can stand at a place.
unfoldable pub insert_needle : Needle → List Needle → List Needle
insert_needle n [] = n ∷ []
insert_needle n (m ∷ ms) =
    let rest = insert_needle n ms in
    if ltb (length n.pat) (length m.pat) then m ∷ rest else n ∷ m ∷ ms

unfoldable pub sort_needles : List Needle → List Needle
sort_needles [] = []
sort_needles (n ∷ ns) = insert_needle n (sort_needles ns)

abbrev pub some_needles : List Needle → Option Redactor
some_needles [] = none
some_needles (n ∷ ns) = some (record { needles = sort_needles (n ∷ ns) })

-- `NewRedactor`; none is nil
unfoldable pub new_redactor : List (Text × Text) → Option Redactor
new_redactor secrets = some_needles (collect [] secrets)
