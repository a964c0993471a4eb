-- ===== src/Workspace/Examples.antt =====
-- Tests and witnesses for the paths of internal/workspace/workspace.go.
use vaultrun.Base.{All, Text, codes, text_eq, ◌≡◌, refl, none, some, [], ◌∷◌}
use vaultrun.Workspace.{
  unhex, path_unescape, decode, split_path, check_path, clean_parts, clean_rooted, rel_path,
}
use vaultrun.Workspace.Inside.{IsName, rel_path-IsName}

-- "a" and "b", with an encoded slash between them, encoded twice.
abbrev twice : Text
twice = codes "a%252fb/./c"

rel_path-IsName_example : All IsName (codes "c" ∷ codes "b" ∷ codes "a" ∷ [])
unfolding rel_path clean_rooted clean_parts check_path decode path_unescape unhex split_path text_eq
rel_path-IsName_example = rel_path-IsName twice (codes "c" ∷ codes "b" ∷ codes "a" ∷ []) refl

-- A parent encoded three times is found.
hidden_parent : check_path (codes "x/%25252e%25252e/y") ≡ none
unfolding check_path decode path_unescape unhex split_path text_eq
hidden_parent = refl

-- Two dots within a name are no parent, and a bad escape ends the decoding.
dots_within : check_path (codes "foo..txt%zz") ≡ some (codes "foo..txt%zz")
unfolding check_path decode path_unescape unhex split_path text_eq
dots_within = refl
