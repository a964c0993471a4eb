-- ===== src/Workspace/Inside.antt =====
-- Where the paths of relPath of internal/workspace/workspace.go lead.
use vaultrun.Base.{
  any, All, Text, codes, is_empty, text_eq, ℕ, ◌≡◌, refl, subst, inl, inr, Bool, false, ◌||◌,
  Option, none, some, List, [], ◌∷◌, arith, ◌==◌, Bool-cases, Option-cases,
}
use vaultrun.Workspace.{
  add_byte, split_path, is_parent, check_path, add_part, clean_parts, clean_rooted, rel_path,
}
use vaultrun.Workspace.Decoded.{check_path-IsSettled}

abbrev pub is_slash : ℕ → Bool
is_slash c = c == 47

-- A name of an entry of a directory: not empty, neither "." nor "..", and without a slash.
pub record IsName (p : Text) : Type 0 where
  pub not_empty : is_empty p ≡ false
  pub not_here : text_eq p (codes ".") ≡ false
  pub not_parent : is_parent p ≡ false
  pub no_slash : any is_slash p ≡ false

add_byte-All :
    (c : ℕ) (parts : List Text)
    → is_slash c ≡ false
    → All (λ p. any is_slash p ≡ false) parts
    → All (λ p. any is_slash p ≡ false) (add_byte c parts)
add_byte-All c [] h a = (rw h refl, tt)
add_byte-All c (p ∷ parts) h a = (rw h a.0, a.1)

split_path-All : (s : Text) → All (λ p. any is_slash p ≡ false) (split_path s)
unfolding split_path
split_path-All [] = (refl, tt)
split_path-All (c ∷ s) = elim (Bool-cases (c == 47)) [
  | inl slash ↦ rw slash (refl, split_path-All s)
  | inr other ↦ rw other (add_byte-All c (split_path s) other (split_path-All s))
]

add_part-All :
    (p : Text) (before : List Text)
    → is_parent p ≡ false
    → any is_slash p ≡ false
    → All IsName before
    → All IsName (add_part p before)
add_part-All p before up slash b = elim (Bool-cases (is_empty p || text_eq p (codes "."))) [
  | inl here ↦ rw here b
  | inr entry ↦ rw entry (
      rw up (
        record {
          not_empty = ground (arith, entry);
          not_here = ground (arith, entry);
          not_parent = up;
          no_slash = slash;
        },
        b,
      ))
]

clean_parts-All :
    (parts before : List Text)
    → All (λ p. is_parent p ≡ false) parts
    → All (λ p. any is_slash p ≡ false) parts
    → All IsName before
    → All IsName (clean_parts parts before)
unfolding clean_parts
clean_parts-All [] before up slash b = b
clean_parts-All (p ∷ parts) before up slash b =
    clean_parts-All parts (add_part p before) up.1 slash.1 (add_part-All p before up.0 slash.0 b)

-- Every component of a path that relPath gives is the name of an entry, so the path leads from the
-- root of the workspace only downwards.
pub rel_path-IsName :
    (path : Text) (parts : List Text) → rel_path path ≡ some parts → All IsName parts
unfolding rel_path clean_rooted
rel_path-IsName path parts h = elim (Option-cases (check_path path)) [
  | inl refused ↦ absurd (never (rw refused at h))
  | inr (decoded, passes) ↦
      let same : some (clean_parts (split_path decoded) []) ≡ some parts = rw passes at h in
      let e : clean_parts (split_path decoded) [] ≡ parts = cc in
      subst (All IsName) e (
        clean_parts-All (split_path decoded) [] (check_path-IsSettled path decoded passes).1
          (split_path-All decoded) tt)
]
  where
    never : ◌≡◌ {A = Option (List Text)} none (some parts) → ⊥
    never e = cc
