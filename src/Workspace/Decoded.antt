-- ===== src/Workspace/Decoded.antt =====
-- That CheckPath of internal/workspace/workspace.go decodes a path completely.
use vaultrun.Base.{
  length, any, All, Text, text_eq_iff, text_eq, ℕ, zero, suc, ◌+◌, ◌*◌, ◌≤◌, ◌<◌, ◌≡◌, refl, sym,
  ap, ◌∙◌, subst, ◌⊎◌, inl, inr, Bool, true, false, Option, none, some, List, [], ◌∷◌, arith, ◌==◌,
  if◌then◌else◌, Bool-cases,
}
use vaultrun.Workspace.{
  unhex, cons_to, byte_to, path_unescape, decode_on, decode, split_path, is_parent, check_path,
}

-- A result of decoding is the path itself, or shorter.
Shrinks : Text → Option Text → Type 0
Shrinks s o = (t : Text) → o ≡ some t → (t ≡ s) ⊎ (length t < length s)

none-Shrinks : (s : Text) → Shrinks s none
unfolding Shrinks
none-Shrinks s t e = cc

cons-Shrinks : (c : ℕ) (s : Text) (o : Option Text) → Shrinks s o → Shrinks (c ∷ s) (cons_to c o)
unfolding Shrinks
cons-Shrinks c s none h t e = cc
cons-Shrinks c s (some u) h t e =
    let same : c ∷ u ≡ t = cc in
    elim (h u refl) [
      | inl kept ↦ inl (sym same ∙ ap (λ x. c ∷ x) kept)
      | inr short ↦ inr (rw (sym same) (omega (arith, short)))
    ]

byte-Shrinks :
    (c a b : ℕ) (x y : Option ℕ) (s : Text) (o : Option Text)
    → Shrinks s o
    → Shrinks (c ∷ a ∷ b ∷ s) (byte_to x y o)
unfolding Shrinks
byte-Shrinks c a b (some x) (some y) s none h t e = cc
byte-Shrinks c a b (some x) (some y) s (some u) h t e =
    let same : (x * 16 + y) ∷ u ≡ t = cc in
    elim (h u refl) [
      | inl kept ↦ inr (rw (sym same) (rw kept (omega arith)))
      | inr short ↦ inr (rw (sym same) (omega (arith, short)))
    ]
byte-Shrinks c a b (some x) none s o h t e = cc
byte-Shrinks c a b none y s o h t e = cc

if_Shrinks :
    (s : Text) (b : Bool) (o o' : Option Text)
    → Shrinks s o
    → Shrinks s o'
    → Shrinks s (if b then o else o')
if_Shrinks s true o o' h h' = h
if_Shrinks s false o o' h h' = h'

self-Shrinks : (s : Text) → Shrinks s (some s)
unfolding Shrinks
self-Shrinks s t e = inl cc

path_unescape-Shrinks : (s : Text) → Shrinks s (path_unescape s)
unfolding path_unescape
path_unescape-Shrinks [] = self-Shrinks []
path_unescape-Shrinks (c ∷ []) =
    if_Shrinks (c ∷ []) (c == 37) none (some (c ∷ [])) (none-Shrinks _) (self-Shrinks _)
path_unescape-Shrinks (c ∷ a ∷ []) =
    if_Shrinks (c ∷ a ∷ []) (c == 37) none (cons_to c (path_unescape (a ∷ []))) (none-Shrinks _)
      (cons-Shrinks c (a ∷ []) _ (path_unescape-Shrinks (a ∷ [])))
path_unescape-Shrinks (c ∷ a ∷ b ∷ s) =
    if_Shrinks (c ∷ a ∷ b ∷ s) (c == 37) (byte_to (unhex a) (unhex b) (path_unescape s))
      (cons_to c (path_unescape (a ∷ b ∷ s)))
      (byte-Shrinks c a b (unhex a) (unhex b) s _ (path_unescape-Shrinks s))
      (cons-Shrinks c (a ∷ b ∷ s) _ (path_unescape-Shrinks (a ∷ b ∷ s)))

-- Decoding once more does not change the path: it fails, or gives the path again.
unfoldable pub IsSettled : Text → Type 0
IsSettled s = (t : Text) → path_unescape s ≡ some t → t ≡ s

decode_on-IsSettled :
    (more : Text → Text) (n : ℕ) (s : Text) (o : Option Text)
    → ((u : Text) → length u ≤ n → IsSettled (more u))
    → length s ≤ n + 1
    → path_unescape s ≡ o
    → IsSettled (decode_on more s o)
unfolding IsSettled Shrinks
decode_on-IsSettled more n s none rest h fails = λ t e. absurd (differs t (sym fails ∙ e))
  where
    differs : (t : Text) → ◌≡◌ {A = Option Text} none (some t) → ⊥
    differs t e = cc
decode_on-IsSettled more n s (some u) rest h gives = elim (Bool-cases (text_eq u s)) [
  | inl kept ↦ rw kept (λ t e.
      let again : some u ≡ some t = sym gives ∙ e in
      let same : u ≡ t = cc in sym same ∙ (text_eq_iff u s).0 kept)
  | inr changed ↦ rw changed (elim (path_unescape-Shrinks s u gives) [
    | inl kept ↦ absurd (differ ((text_eq_iff u s).1 kept) changed)
    | inr short ↦ rest u (omega (arith, h, short))
  ])
]
  where
    differ : {b : Bool} → b ≡ true → b ≡ false → ⊥
    differ f e = cc

empty-IsSettled : IsSettled []
unfolding IsSettled Shrinks
empty-IsSettled t e = elim (path_unescape-Shrinks [] t e) [
  | inl kept ↦ kept
  | inr short ↦ absurd (omega (arith, short))
]

decode-IsSettled_from : (n : ℕ) (s : Text) → length s ≤ n → IsSettled (decode n s)
unfolding decode
decode-IsSettled_from zero [] h = empty-IsSettled
decode-IsSettled_from zero (c ∷ s) h = absurd (omega (arith, h))
decode-IsSettled_from (suc n) s h =
    decode_on-IsSettled (decode n) n s (path_unescape s) (decode-IsSettled_from n)
      (omega (arith, h)) refl

-- no component is ".."
not_parents :
    (parts : List Text) → any is_parent parts ≡ false → All (λ p. is_parent p ≡ false) parts
not_parents [] h = tt
not_parents (p ∷ parts) h = (ground (arith, h), not_parents parts (ground (arith, h)))

pub check_path-IsSettled :
    (path decoded : Text)
    → check_path path ≡ some decoded
    → IsSettled decoded × All (λ p. is_parent p ≡ false) (split_path decoded)
unfolding check_path
check_path-IsSettled path decoded h =
    let d = decode (length path) path in
    elim (Bool-cases (any is_parent (split_path d))) [
      | inl parent ↦ absurd (refused (rw parent at h))
      | inr none_parent ↦
          let same : some d ≡ some decoded = rw none_parent at h in
          let e : d ≡ decoded = cc in
          subst (λ x. IsSettled x × All (λ p. is_parent p ≡ false) (split_path x)) e
            (
              decode-IsSettled_from (length path) path (omega arith),
              not_parents (split_path d) none_parent,
            )
    ]
  where
    refused : ◌≡◌ {A = Option Text} none (some decoded) → ⊥
    refused e = cc
