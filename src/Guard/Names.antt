-- ===== src/Guard/Names.antt =====
-- The names that the guard recognises: the regular expressions of internal/dockerguard/policy.go and
-- guard.go, as functions on bytes. Each is anchored at both ends, and what follows a run of hex
-- digits is never a hex digit, so that the first way to match is the only one.
use vaultrun.Base.{
  Text, codes, is_empty, starts_with, text_eq, ℕ, zero, suc, Bool, false, ◌&&◌, ◌||◌, Option, none,
  some, List, [], ◌∷◌, leb, ◌==◌, if◌then◌else◌,
}

abbrev pub is_digit : ℕ → Bool
is_digit c = leb b'0' c && leb c b'9'

-- [0-9a-f]
abbrev pub is_hex : ℕ → Bool
is_hex c = is_digit c || (leb b'a' c && leb c b'f')

abbrev pub is_lower : ℕ → Bool
is_lower c = leb b'a' c && leb c b'z'

-- The text behind `n` hex digits.
unfoldable pub after_hex : ℕ → Text → Option Text
after_hex zero s = some s
after_hex (suc n) [] = none
after_hex (suc n) (c ∷ s) = let rest = after_hex n s in if is_hex c then rest else none

-- The text behind a literal.
unfoldable pub after_literal : Text → Text → Option Text
after_literal [] s = some s
after_literal (p ∷ ps) [] = none
after_literal (p ∷ ps) (c ∷ s) = let rest = after_literal ps s in if p == c then rest else none

infixl 5 ◌>>=◌
abbrev pub ◌>>=◌ {ℓ κ} : {A : Type ℓ} {B : Type κ} → Option A → (A → Option B) → Option B
none >>= f = none
some a >>= f = f a

abbrev pub at_end : Option Text → Bool
at_end none = false
at_end (some s) = is_empty s

-- uuidPattern
unfoldable pub after_uuid : Text → Option Text
unfolding after_hex after_literal
after_uuid s = do
  a ← after_hex 8 s
  b ← after_literal (codes "-") a
  c ← after_hex 4 b
  d ← after_literal (codes "-") c
  e ← after_hex 4 d
  f ← after_literal (codes "-") e
  g ← after_hex 4 f
  h ← after_literal (codes "-") g
  after_hex 12 h

unfoldable pub is_uuid : Text → Bool
unfolding after_uuid
is_uuid s = at_end (after_uuid s)

-- `p` and then a UUID
unfoldable pub is_named_uuid : Text → Text → Bool
unfolding after_uuid after_literal
is_named_uuid p s = at_end (after_literal p s >>= after_uuid)

-- WorkspaceNameRe
unfoldable pub is_workspace_name : Text → Bool
unfolding is_uuid is_named_uuid
is_workspace_name s = is_uuid s || is_named_uuid (codes "warm-") s

-- sessionNetRe
unfoldable pub is_session_net : Text → Bool
unfolding is_named_uuid
is_session_net s = is_named_uuid (codes "vaultrun-net-") s

-- bridgeRe
unfoldable pub is_bridge : Text → Bool
unfolding after_literal after_hex
is_bridge s = at_end (after_literal (codes "br-") s >>= after_hex 12)

-- how many hex digits a text begins with, and what is behind them
unfoldable pub hex_run : Text → ℕ × Text
hex_run [] = (0, [])
hex_run (c ∷ s) = let (n, rest) = hex_run s in if is_hex c then (suc n, rest) else (0, c ∷ s)

abbrev is_chain_tail : ℕ × Text → Bool
is_chain_tail (n, rest) = leb 1 n && leb n 12 && (is_empty rest || text_eq rest (codes "-in"))

abbrev chain_tail : Option Text → Bool
chain_tail none = false
chain_tail (some s) = is_chain_tail (hex_run s)

-- chainRe: vr-, one to twelve hex digits, and -in or nothing
unfoldable pub is_chain : Text → Bool
unfolding after_literal hex_run text_eq
is_chain s = chain_tail (after_literal (codes "vr-") s)

-- strings.Contains
unfoldable pub contains : Text → Text → Bool
contains p [] = is_empty p
contains p (c ∷ s) = let rest = contains p s in starts_with p (c ∷ s) || rest

abbrev push_head : ℕ → List Text → List Text
push_head c [] = (c ∷ []) ∷ []
push_head c (p ∷ ps) = (c ∷ p) ∷ ps

-- strings.Split at a byte; the result is never empty
unfoldable pub split : ℕ → Text → List Text
split b [] = [] ∷ []
split b (c ∷ s) = let rest = split b s in if c == b then [] ∷ rest else push_head c rest
