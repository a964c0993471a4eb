-- ===== src/Tasks/Lists.antt =====
-- The entries of the map of tasks: what finding, replacing, adding and cleaning do to one another
-- (sdk/mcp/tasks.go).
use vaultrun.Base.{
  keep_if, Text, text_eq_iff, text_eq_sym, text_eq, ℕ, ◌+◌, ◌≤◌, ◌≡◌, refl, sym, ap, ◌∙◌, subst,
  inl, inr, Bool, true, false, not, Option, none, some, List, [], ◌∷◌, map, arith, if◌then◌else◌,
  Bool-cases,
}
use vaultrun.Tasks.Store.{find, replace, insert, one_if, inflight, is_over_age, age, stays}
use vaultrun.Tasks.Types.{TaskRecord, terminal}

-- Every ID has one entry.
unfoldable pub Distinct : List TaskRecord → Type 0
Distinct [] = Unit
Distinct (t ∷ ts) = (find t.id ts ≡ none) × Distinct ts

pub find-id : (i : Text) (ts : List TaskRecord) (t : TaskRecord) → find i ts ≡ some t → t.id ≡ i
unfolding find
find-id i [] t h = absurd cc
find-id i (u ∷ ts) t h = elim (Bool-cases (text_eq u.id i)) [
  | inl same ↦
      let e : some u ≡ some t = subst (λ b. (if b then some u else find i ts) ≡ some t) same h in
      let e2 : u ≡ t = cc in subst (λ x. x.id ≡ i) e2 ((text_eq_iff u.id i).0 same)
  | inr other ↦ find-id i ts t (subst (λ b. (if b then some u else find i ts) ≡ some t) other h)
]

pub find-replace_same :
    (i : Text) (new t : TaskRecord) (ts : List TaskRecord)
    → find i ts ≡ some t
    → new.id ≡ i
    → find i (replace i new ts) ≡ some new
unfolding find replace
find-replace_same i new t [] h e = absurd cc
find-replace_same i new t (u ∷ ts) h e = elim (Bool-cases (text_eq u.id i)) [
  | inl same ↦ let at : text_eq new.id i ≡ true = (text_eq_iff new.id i).1 e in rw same (rw at refl)
  | inr other ↦ rw other (
      rw other (
        find-replace_same i new t ts
          (subst (λ b. (if b then some u else find i ts) ≡ some t) other h) e))
]

pub find-replace_other :
    (i j : Text) (new : TaskRecord) (ts : List TaskRecord)
    → new.id ≡ j
    → text_eq j i ≡ false
    → find i (replace j new ts) ≡ find i ts
unfolding find replace
find-replace_other i j new [] e d = refl
find-replace_other i j new (u ∷ ts) e d = elim (Bool-cases (text_eq u.id j)) [
  | inl same ↦
      let at : u.id ≡ j = (text_eq_iff u.id j).0 same in
      let a : text_eq new.id i ≡ false = subst (λ x. text_eq x i ≡ false) (sym e) d in
      let b : text_eq u.id i ≡ false = subst (λ x. text_eq x i ≡ false) (sym at) d in
      rw same (rw a (rw b refl))
  | inr other ↦
      rw other
        (ap (λ rest. if text_eq u.id i then some u else rest) (find-replace_other i j new ts e d))
]

pub find-insert_other :
    (i : Text) (t : TaskRecord) (ts : List TaskRecord)
    → text_eq t.id i ≡ false
    → find i (insert t ts) ≡ find i ts
unfolding find insert
find-insert_other i t [] d = rw d refl
find-insert_other i t (u ∷ ts) d = elim (Bool-cases (text_eq u.id t.id)) [
  | inl same ↦
      let at : u.id ≡ t.id = (text_eq_iff u.id t.id).0 same in
      let b : text_eq u.id i ≡ false = subst (λ x. text_eq x i ≡ false) (sym at) d in
      rw same (rw d (rw b refl))
  | inr other ↦
      rw other (ap (λ rest. if text_eq u.id i then some u else rest) (find-insert_other i t ts d))
]

pub age-id : (now max_age : ℕ) (t : TaskRecord) → (age now max_age t).id ≡ t.id
unfolding age
age-id now max_age t = elim (Bool-cases (is_over_age now max_age t)) [
  | inl over ↦ rw over refl
  | inr young ↦ rw young refl
]

abbrev pub cleaned : (now max_age ttl : ℕ) → List TaskRecord → List TaskRecord
cleaned now max_age ttl ts = keep_if (stays now ttl) (map (age now max_age) ts)

-- what cleaning does to one record
abbrev pub kept_of : (now max_age ttl : ℕ) → Option TaskRecord → Option TaskRecord
kept_of now max_age ttl none = none
kept_of now max_age ttl (some t) =
    if stays now ttl (age now max_age t) then some (age now max_age t) else none

pub one_if-bound : (b : Bool) → one_if b ≤ 1
one_if-bound true = omega arith
one_if-bound false = omega arith

age-live :
    (now max_age : ℕ) (t : TaskRecord)
    → one_if (not (terminal (age now max_age t))) ≤ one_if (not (terminal t))
unfolding age
age-live now max_age t = elim (Bool-cases (is_over_age now max_age t)) [
  | inl over ↦ rw over (omega arith)
  | inr young ↦ rw young (omega arith)
]

module _ (now max_age ttl : ℕ) where
  pub find-cleaned-none :
      (i : Text) (ts : List TaskRecord)
      → find i ts ≡ none
      → find i (cleaned now max_age ttl ts) ≡ none
  unfolding find keep_if
  find-cleaned-none i [] h = refl
  find-cleaned-none i (u ∷ ts) h = elim (Bool-cases (text_eq u.id i)) [
    | inl same ↦
        absurd (
          let e : some u ≡ none = subst (λ b. (if b then some u else find i ts) ≡ none) same h in
          cc)
    | inr other ↦
        let rest =
          find-cleaned-none i ts (subst (λ b. (if b then some u else find i ts) ≡ none) other h) in
        let at : text_eq (age now max_age u).id i ≡ false =
          subst (λ x. text_eq x i ≡ false) (sym (age-id now max_age u)) other in
        elim (Bool-cases (stays now ttl (age now max_age u))) [
          | inl yes_ ↦ rw yes_ (rw at rest)
          | inr no_ ↦ rw no_ rest
        ]
  ]

  pub find-cleaned :
      (i : Text) (ts : List TaskRecord)
      → Distinct ts
      → find i (cleaned now max_age ttl ts) ≡ kept_of now max_age ttl (find i ts)
  unfolding find keep_if Distinct
  find-cleaned i [] d = refl
  find-cleaned i (u ∷ ts) d = elim (Bool-cases (text_eq u.id i)) [
    | inl same ↦
        let at : text_eq (age now max_age u).id i ≡ true =
          subst (λ x. text_eq x i ≡ true) (sym (age-id now max_age u)) same in
        let only : find i ts ≡ none =
          subst (λ x. find x ts ≡ none) ((text_eq_iff u.id i).0 same) d.0 in
        let rest = find-cleaned-none i ts only in
        rw same (elim (Bool-cases (stays now ttl (age now max_age u))) [
          | inl yes_ ↦ rw yes_ (rw at refl)
          | inr no_ ↦ rw no_ rest
        ])
    | inr other ↦
        let at : text_eq (age now max_age u).id i ≡ false =
          subst (λ x. text_eq x i ≡ false) (sym (age-id now max_age u)) other in
        let rest = find-cleaned i ts d.1 in
        rw other (elim (Bool-cases (stays now ttl (age now max_age u))) [
          | inl yes_ ↦ rw yes_ (rw at rest)
          | inr no_ ↦ rw no_ rest
        ])
  ]

  pub cleaned-Distinct :
      (ts : List TaskRecord) → Distinct ts → Distinct (cleaned now max_age ttl ts)
  unfolding keep_if Distinct
  cleaned-Distinct [] d = tt
  cleaned-Distinct (u ∷ ts) d =
      let rest = cleaned-Distinct ts d.1 in
      let only : find (age now max_age u).id (cleaned now max_age ttl ts) ≡ none =
        subst (λ x. find x (cleaned now max_age ttl ts) ≡ none) (sym (age-id now max_age u))
          (find-cleaned-none u.id ts d.0) in
      elim (Bool-cases (stays now ttl (age now max_age u))) [
        | inl yes_ ↦ rw yes_ (only, rest)
        | inr no_ ↦ rw no_ rest
      ]

  pub inflight-cleaned :
      (ts : List TaskRecord) → inflight (cleaned now max_age ttl ts) ≤ inflight ts
  unfolding keep_if inflight
  inflight-cleaned [] = omega arith
  inflight-cleaned (u ∷ ts) =
      let rest = inflight-cleaned ts in
      let this = age-live now max_age u in
      elim (Bool-cases (stays now ttl (age now max_age u))) [
        | inl yes_ ↦ rw yes_ (omega (arith, rest, this))
        | inr no_ ↦ rw no_ (omega (arith, rest))
      ]

pub insert-Distinct : (t : TaskRecord) (ts : List TaskRecord) → Distinct ts → Distinct (insert t ts)
unfolding insert Distinct find
insert-Distinct t [] d = (refl, tt)
insert-Distinct t (u ∷ ts) d = elim (Bool-cases (text_eq u.id t.id)) [
  | inl same ↦ rw same (subst (λ x. find x ts ≡ none) ((text_eq_iff u.id t.id).0 same) d.0, d.1)
  | inr other ↦
      rw other (
        find-insert_other u.id t ts (text_eq_sym t.id u.id ∙ other) ∙ d.0,
        insert-Distinct t ts d.1,
      )
]

pub replace-Distinct :
    (i : Text) (new : TaskRecord) (ts : List TaskRecord)
    → new.id ≡ i
    → Distinct ts
    → Distinct (replace i new ts)
unfolding replace Distinct
replace-Distinct i new [] e d = tt
replace-Distinct i new (u ∷ ts) e d = elim (Bool-cases (text_eq u.id i)) [
  | inl same ↦
      rw same (subst (λ x. find x ts ≡ none) ((text_eq_iff u.id i).0 same ∙ sym e) d.0, d.1)
  | inr other ↦ rw other (
    find-replace_other u.id i new ts e (text_eq_sym i u.id ∙ other) ∙ d.0,
    replace-Distinct i new ts e d.1,
  )
]

pub inflight-replace :
    (i : Text) (new t : TaskRecord) (ts : List TaskRecord)
    → find i ts ≡ some t
    → terminal t ≡ false
    → inflight (replace i new ts) ≤ inflight ts
unfolding replace inflight find
inflight-replace i new t [] h live = absurd cc
inflight-replace i new t (u ∷ ts) h live = elim (Bool-cases (text_eq u.id i)) [
  | inl same ↦
      let e : some u ≡ some t = subst (λ b. (if b then some u else find i ts) ≡ some t) same h in
      let e2 : t ≡ u = cc in
      let live2 : terminal u ≡ false = subst (λ x. terminal x ≡ false) e2 live in
      let small = one_if-bound (not (terminal new)) in rw same (rw live2 (omega (arith, small)))
  | inr other ↦
      let rest =
        inflight-replace i new t ts
          (subst (λ b. (if b then some u else find i ts) ≡ some t) other h) live in
      rw other (omega (arith, rest))
]

pub inflight-insert :
    (t : TaskRecord) (ts : List TaskRecord) → inflight (insert t ts) ≤ inflight ts + 1
unfolding insert inflight
inflight-insert t [] = let small = one_if-bound (not (terminal t)) in (omega (arith, small))
inflight-insert t (u ∷ ts) =
    let small = one_if-bound (not (terminal t)) in
    let rest = inflight-insert t ts in
    elim (Bool-cases (text_eq u.id t.id)) [
      | inl same ↦ rw same (omega (arith, small))
      | inr other ↦ rw other (omega (arith, rest))
    ]
