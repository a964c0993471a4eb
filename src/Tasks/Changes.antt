-- ===== src/Tasks/Changes.antt =====
-- How the entries of the store change: by the functions that `update` is given, by cleanupLoop, and by
-- a new task (sdk/mcp/tasks.go).
use vaultrun.Base.{
  Text, text_eq_iff, text_eq, ℕ, ◌≤◌, ◌<◌, ◌≡◌, refl, sym, ◌∙◌, subst, ◌⊎◌, inl, inr, true, false,
  Option, none, some, List, arith, Bool-cases,
}
use vaultrun.Tasks.Events.{TaskEvent, restarts}
use vaultrun.Tasks.Lists.{
  Distinct, find-id, find-replace_same, find-replace_other, find-insert_other, cleaned, kept_of,
  find-cleaned, cleaned-Distinct, inflight-cleaned, insert-Distinct, replace-Distinct,
  inflight-replace, inflight-insert,
}
use vaultrun.Tasks.Store.{find, replace, insert, inflight, is_over_age, age, stays}
use vaultrun.Tasks.Types.{TaskRecord, terminal}

-- the fields that are set once
pub record Stays (t t2 : TaskRecord) : Type 0 where
  pub same_id : t2.id ≡ t.id
  pub same_owner : t2.owner ≡ t.owner
  pub same_created : t2.created_at ≡ t.created_at

pub data Change (max max_age : ℕ) (e : TaskEvent) : List TaskRecord → List TaskRecord → Type 0 where
  untouched : (ts : List TaskRecord) → Change max max_age e ts ts
  edited :
      (i : Text) (t t2 : TaskRecord) (ts : List TaskRecord)
      → find i ts ≡ some t
      → terminal t ≡ false
      → Stays t t2
      → Change max max_age e ts (replace i t2 ts)
  swept :
      (now ttl : ℕ) (ts : List TaskRecord) → Change max max_age e ts (cleaned now max_age ttl ts)
  added :
      (t : TaskRecord) (ts : List TaskRecord)
      → restarts t.id e ≡ true
      → inflight ts < max
      → Change max max_age e ts (insert t ts)
  both :
      (ts us vs : List TaskRecord)
      → Change max max_age e ts us
      → Change max max_age e us vs
      → Change max max_age e ts vs

module _ (max max_age : ℕ) (e : TaskEvent) where
  pub Change-inflight :
      (ts us : List TaskRecord) → Change max max_age e ts us → inflight ts ≤ max → inflight us ≤ max
  Change-inflight ts us (untouched _) h = h
  Change-inflight ts us (edited i t t2 _ at live s) h =
      let small = inflight-replace i t2 t ts at live in (omega (arith, h, small))
  Change-inflight ts us (swept now ttl _) h =
      let small = inflight-cleaned now max_age ttl ts in (omega (arith, h, small))
  Change-inflight ts us (added t _ new room) h =
      let small = inflight-insert t ts in (omega (arith, room, small))
  Change-inflight ts us (both _ ms _ c d) h = Change-inflight ms us d (Change-inflight ts ms c h)

  pub Change-Distinct :
      (ts us : List TaskRecord) → Change max max_age e ts us → Distinct ts → Distinct us
  Change-Distinct ts us (untouched _) d = d
  Change-Distinct ts us (edited i t t2 _ at live s) d =
      replace-Distinct i t2 ts (s.same_id ∙ find-id i ts t at) d
  Change-Distinct ts us (swept now ttl _) d = cleaned-Distinct now max_age ttl ts d
  Change-Distinct ts us (added t _ new room) d = insert-Distinct t ts d
  Change-Distinct ts us (both _ ms _ c f) d = Change-Distinct ms us f (Change-Distinct ts ms c d)

-- What can have become of a task: it is gone, or it is there with the fields that are set once, and as
-- it was if it was finished.
pub data Fate (t : TaskRecord) : Option TaskRecord → Type 0 where
  gone : Fate t none
  there : (t2 : TaskRecord) → Stays t t2 → (terminal t ≡ false) ⊎ (t2 ≡ t) → Fate t (some t2)

pub refl-Stays : (t : TaskRecord) → Stays t t
refl-Stays t = record { same_id = refl; same_owner = refl; same_created = refl }

pub trans-Stays : (t u v : TaskRecord) → Stays t u → Stays u v → Stays t v
trans-Stays t u v a b = record {
  same_id = b.same_id ∙ a.same_id;
  same_owner = b.same_owner ∙ a.same_owner;
  same_created = b.same_created ∙ a.same_created;
}

-- what became of what a task became
unfoldable pub FateOf : Option TaskRecord → Option TaskRecord → Type 0
FateOf none o = o ≡ none
FateOf (some t) o = Fate t o

pub refl-FateOf : (o : Option TaskRecord) → FateOf o o
unfolding FateOf
refl-FateOf none = refl
refl-FateOf (some t) = there t (refl-Stays t) (inr refl)

there-then :
    (t u : TaskRecord) (o : Option TaskRecord)
    → Stays t u
    → (terminal t ≡ false) ⊎ (u ≡ t)
    → Fate u o
    → Fate t o
there-then t u o s k gone = gone
there-then t u o s (inl live) (there v s2 l) = there v (trans-Stays t u v s s2) (inl live)
there-then t u o s (inr e) (there v s2 (inl l)) =
    there v (trans-Stays t u v s s2) (inl (subst (λ x. terminal x ≡ false) e l))
there-then t u o s (inr e) (there v s2 (inr l)) = there v (trans-Stays t u v s s2) (inr (l ∙ e))

pub trans-FateOf : (a b c : Option TaskRecord) → FateOf a b → FateOf b c → FateOf a c
unfolding FateOf
trans-FateOf none b c f g = subst (λ x. FateOf x c) f g
trans-FateOf (some t) none c gone g = subst (λ x. Fate t x) (sym g) gone
trans-FateOf (some t) (some u) c (there _ s k) g = there-then t u c s k g

age-fate :
    (now max_age : ℕ) (t : TaskRecord)
    → Stays t (age now max_age t) × ((terminal t ≡ false) ⊎ (age now max_age t ≡ t))
unfolding age
age-fate now max_age t = elim (Bool-cases (is_over_age now max_age t)) [
  | inl over ↦
      let live : terminal t ≡ false = ground (arith, over) in
      rw over (record { same_id = refl; same_owner = refl; same_created = refl }, inl live)
  | inr young ↦ rw young (refl-Stays t, inr refl)
]

kept_of-FateOf :
    (now max_age ttl : ℕ) (o : Option TaskRecord) → FateOf o (kept_of now max_age ttl o)
unfolding FateOf
kept_of-FateOf now max_age ttl none = refl
kept_of-FateOf now max_age ttl (some t) =
    let f = age-fate now max_age t in
    elim (Bool-cases (stays now ttl (age now max_age t))) [
      | inl yes_ ↦ rw yes_ (there (age now max_age t) f.0 f.1)
      | inr no_ ↦ rw no_ gone
    ]

edited-FateOf :
    (i j : Text) (t t2 : TaskRecord) (ts : List TaskRecord)
    → find j ts ≡ some t
    → terminal t ≡ false
    → Stays t t2
    → FateOf (find i ts) (find i (replace j t2 ts))
unfolding FateOf
edited-FateOf i j t t2 ts at live s = elim (Bool-cases (text_eq j i)) [
  | inl same ↦
      let e : j ≡ i = (text_eq_iff j i).0 same in
      let now_ : find j (replace j t2 ts) ≡ some t2 =
        find-replace_same j t2 t ts at (s.same_id ∙ find-id j ts t at) in
      subst (λ k. FateOf (find k ts) (find k (replace j t2 ts))) e
        (subst (λ x. FateOf x (find j (replace j t2 ts))) (sym at)
          (subst (λ x. FateOf (some t) x) (sym now_) (there t2 s (inl live))))
  | inr other ↦
      let e = find-replace_other i j t2 ts (s.same_id ∙ find-id j ts t at) other in
      subst (λ x. FateOf (find i ts) x) (sym e) (refl-FateOf (find i ts))
]

module _ (max max_age : ℕ) (e : TaskEvent) (i : Text) (fresh : restarts i e ≡ false) where
  pub Change-FateOf :
      (ts us : List TaskRecord)
      → Change max max_age e ts us
      → Distinct ts
      → FateOf (find i ts) (find i us)
  Change-FateOf ts us (untouched _) d = refl-FateOf (find i ts)
  Change-FateOf ts us (edited j t t2 _ at live s) d = edited-FateOf i j t t2 ts at live s
  Change-FateOf ts us (swept now ttl _) d =
      subst (λ x. FateOf (find i ts) x) (sym (find-cleaned now max_age ttl i ts d))
        (kept_of-FateOf now max_age ttl (find i ts))
  Change-FateOf ts us (added t _ new room) d = elim (Bool-cases (text_eq t.id i)) [
    | inl same ↦ absurd (
        let k : restarts i e ≡ true =
          subst (λ x. restarts x e ≡ true) ((text_eq_iff t.id i).0 same) new in
        cc)
    | inr other ↦
        subst (λ x. FateOf (find i ts) x) (sym (find-insert_other i t ts other))
          (refl-FateOf (find i ts))
  ]
  Change-FateOf ts us (both _ ms _ c f) d =
      trans-FateOf (find i ts) (find i ms) (find i us) (Change-FateOf ts ms c d)
        (Change-FateOf ms us f (Change-Distinct max max_age e ts ms c d))
