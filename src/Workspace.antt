-- ===== src/Workspace.antt =====
-- The paths that users give inside a workspace: CheckPath and relPath of
-- internal/workspace/workspace.go, with what they use of url.PathUnescape, strings.Split and
-- filepath.Clean of the standard library. filepath.ToSlash changes nothing on Linux.
pub mod Decoded
pub mod Inside
mod Examples
use vaultrun.Base.{
  length, any, Text, codes, is_empty, text_eq, ℕ, zero, suc, ◌+◌, ◌-◌, ◌*◌, Bool, ◌&&◌, ◌||◌,
  Option, none, some, List, [], ◌∷◌, leb, ◌==◌, if◌then◌else◌,
}

-- a hexadecimal digit's value
unfoldable pub unhex : ℕ → Option ℕ
unhex c =
    if leb 48 c && leb c 57
    then some (c - 48)
    else if leb 97 c && leb c 102
    then some (c - 87)
    else if leb 65 c && leb c 70
    then some (c - 55)
    else none

abbrev pub cons_to : ℕ → Option Text → Option Text
cons_to c none = none
cons_to c (some s) = some (c ∷ s)

abbrev pub byte_to : Option ℕ → Option ℕ → Option Text → Option Text
byte_to (some a) (some b) s = cons_to (a * 16 + b) s
byte_to _ _ s = none

-- url.PathUnescape: `%` and two hexadecimal digits are one byte, a `%` without them is an error
unfoldable pub path_unescape : Text → Option Text
path_unescape [] = some []
path_unescape (c ∷ []) = if c == 37 then none else some (c ∷ [])
path_unescape (c ∷ a ∷ []) = if c == 37 then none else cons_to c (path_unescape (a ∷ []))
path_unescape (c ∷ a ∷ b ∷ s) =
    let plain = cons_to c (path_unescape (a ∷ b ∷ s)) in
    let byte = byte_to (unhex a) (unhex b) (path_unescape s) in if c == 37 then byte else plain

-- a round of the loop of CheckPath, with what the rounds after it make of a path
abbrev pub decode_on : (Text → Text) → Text → Option Text → Text
decode_on more s none = s
decode_on more s (some t) = if text_eq t s then s else more t

-- the loop: decoding changes a path only by making it shorter, so as many rounds as it has bytes
-- are enough
unfoldable pub decode : ℕ → Text → Text
decode zero s = s
decode (suc n) s = decode_on (decode n) s (path_unescape s)

abbrev pub add_byte : ℕ → List Text → List Text
add_byte c [] = (c ∷ []) ∷ []
add_byte c (part ∷ parts) = (c ∷ part) ∷ parts

-- strings.Split at "/"
unfoldable pub split_path : Text → List Text
split_path [] = [] ∷ []
split_path (c ∷ s) = let parts = split_path s in if c == 47 then [] ∷ parts else add_byte c parts

abbrev pub is_parent : Text → Bool
is_parent part = text_eq part (codes "..")

-- `CheckPath`; none is ErrPathTraversal
unfoldable pub check_path : Text → Option Text
check_path path =
    let decoded = decode (length path) path in
    if any is_parent (split_path decoded) then none else some decoded

-- filepath.Clean of a rooted path, as the list of its components: "." and empty ones go, and ".."
-- takes the one before it with it; `before` are those so far, the last one first
abbrev pub add_part : Text → List Text → List Text
add_part part before =
    if is_empty part || text_eq part (codes ".")
    then before
    else if is_parent part
    then drop_last before
    else part ∷ before
  where
    drop_last : List Text → List Text
    drop_last [] = []
    drop_last (p ∷ before) = before

unfoldable pub clean_parts : List Text → List Text → List Text
clean_parts [] before = before
clean_parts (part ∷ parts) before = clean_parts parts (add_part part before)

-- The components of filepath.Clean("/" + path), the last one first; none of them is the root, for
-- which relPath returns ".".
unfoldable pub clean_rooted : Text → List Text
clean_rooted path = clean_parts (split_path path) []

abbrev pub map_cleaned : Option Text → Option (List Text)
map_cleaned none = none
map_cleaned (some decoded) = some (clean_rooted decoded)

-- `relPath`, its result as components, the last one first
unfoldable pub rel_path : Text → Option (List Text)
rel_path path = map_cleaned (check_path path)
