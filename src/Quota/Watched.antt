-- ===== src/Quota/Watched.antt =====
-- What sweep of internal/quota/quota.go leaves paused.
use vaultrun.Base.{
  All, Text, text_eq_iff, text_eq_refl, text_eq, ℕ, ◌≤◌, ◌<◌, ◌≡◌, refl, sym, ap, ◌∙◌, ◌≢◌, ◌⊎◌,
  inl, inr, Bool, true, false, ◌||◌, Option, none, some, List, [], ◌∷◌, ◌++◌, arith, if◌then◌else◌,
  Bool-cases, Option-cases,
}
use vaultrun.Quota.{
  Engine, Session, Found, Opened, missing, unreadable, root, size, Enforcer, is_over, Stamps, World,
  is_paused, pause_session, pause_unpaused, sweep_measured, sweep_container, sweep_sessions,
}
use vaultrun.Quota.Admitted.{session}
use vaultrun.Quota.Sizes.{
  bytes, size-bytes, size-missing, size-unreadable, is_over-less, is_over-within, files,
}

abbrev pub set_paused : Text → (Text → Option Bool) → Text → Option Bool
set_paused c before k = if text_eq k c then some true else before k

-- The daemon's documented answer: after a pause that did not fail the container is paused, and the
-- others are as they were.
unfoldable pub Pauses : {D : Type 0} → Engine D → Type 0
Pauses {D} docker =
    (d d' : D) (c k : Text)
    → docker.pause d c ≡ some d'
    → docker.inspect d' k ≡ set_paused c (docker.inspect d) k

-- The container is another one, or the sizes of the regular files that were met fit.
abbrev pub FitsOrOther : Enforcer → Text → Session × (Opened × Stamps) → Type 0
FitsOrOther e k (s, (o, at)) = (s.container_id ≢ some k) ⊎ (bytes (files o) ≤ e.max_bytes)

module _ {D : Type 0} (docker : Engine D) (e : Enforcer) (law : Pauses docker) where
  paused_next :
      (d d' : D) (c k : Text)
      → docker.pause d c ≡ some d'
      → is_paused docker e d' k ≡ (text_eq k c || is_paused docker e d k)
  unfolding is_paused Pauses
  paused_next d d' c k h =
      rw (law d d' c k h)
        (elim (Bool-cases (text_eq k c)) [ inl same ↦ rw same refl | inr other ↦ rw other refl ])

  -- what pausing an unpaused container does to the container `k`
  pause_unpaused-is_paused :
      (at : Stamps) (id n : ℕ) (c k : Text) (w : World docker e)
      → is_paused docker e w.daemon k ≡ true
      → is_paused docker e (pause_unpaused docker e at id c n w).daemon k ≡ true
  unfolding pause_unpaused pause_session
  pause_unpaused-is_paused at id n c k w h = elim (Bool-cases (is_paused docker e w.daemon c)) [
    | inl already ↦ rw already h
    | inr running ↦ rw running (elim (Option-cases (docker.pause w.daemon c)) [
      | inl failed ↦ rw failed h
      | inr (d', paused) ↦ rw paused (rw (paused_next w.daemon d' c k paused) (rw h (ground arith)))
    ])
  ]

  pause_unpaused-own :
      (at : Stamps) (id n : ℕ) (c : Text) (w : World docker e)
      → (is_paused docker e (pause_unpaused docker e at id c n w).daemon c ≡ true)
        ⊎ (docker.pause w.daemon c ≡ none)
  unfolding pause_unpaused pause_session
  pause_unpaused-own at id n c w = elim (Bool-cases (is_paused docker e w.daemon c)) [
    | inl already ↦ rw already (inl already)
    | inr running ↦ rw running (elim (Option-cases (docker.pause w.daemon c)) [
      | inl failed ↦ inr failed
      | inr (d', paused) ↦
          rw paused (inl (rw (paused_next w.daemon d' c c paused) (rw (text_eq_refl c) refl)))
    ])
  ]

  pause_unpaused-other :
      (at : Stamps) (id n : ℕ) (c k : Text) (w : World docker e)
      → text_eq k c ≡ false
      → is_paused docker e (pause_unpaused docker e at id c n w).daemon k
        ≡ is_paused docker e w.daemon k
  unfolding pause_unpaused pause_session
  pause_unpaused-other at id n c k w other = elim (Bool-cases (is_paused docker e w.daemon c)) [
    | inl already ↦ rw already refl
    | inr running ↦ rw running (elim (Option-cases (docker.pause w.daemon c)) [
      | inl failed ↦ rw failed refl
      | inr (d', paused) ↦ rw paused (rw (paused_next w.daemon d' c k paused) (rw other refl))
    ])
  ]

  -- a paused container stays so
  swept-is_paused :
      (s : Session) (o : Opened) (at : Stamps) (w : World docker e) (k : Text)
      → is_paused docker e w.daemon k ≡ true
      → is_paused docker e (sweep_container docker e at s.id o w s.container_id).daemon k ≡ true
  swept-is_paused s o at w k h = container_case s.container_id
    where
      measured_case :
          (c : Text) (m : Option ℕ)
          → is_paused docker e (sweep_measured docker e at s.id c m w).daemon k ≡ true
      measured_case c none = h
      measured_case c (some n) = elim (Bool-cases (is_over e n)) [
        | inl over ↦ rw over (pause_unpaused-is_paused at s.id n c k w h)
        | inr under ↦ rw under h
      ]

      container_case :
          (c : Option Text)
          → is_paused docker e (sweep_container docker e at s.id o w c).daemon k ≡ true
      container_case none = h
      container_case (some c) = measured_case c (size o)

  sweep_sessions-is_paused :
      (sessions : List (Session × (Opened × Stamps))) (w : World docker e) (k : Text)
      → is_paused docker e w.daemon k ≡ true
      → is_paused docker e (sweep_sessions docker e sessions w).daemon k ≡ true
  unfolding sweep_sessions
  sweep_sessions-is_paused [] w k h = h
  sweep_sessions-is_paused ((s, (o, at)) ∷ sessions) w k h =
      sweep_sessions-is_paused sessions _ k (swept-is_paused s o at w k h)

  sweep_sessions-append :
      (before after : List (Session × (Opened × Stamps))) (w : World docker e)
      → sweep_sessions docker e (before ++ after) w
        ≡ sweep_sessions docker e after (sweep_sessions docker e before w)
  unfolding sweep_sessions
  sweep_sessions-append [] after w = refl
  sweep_sessions-append ((s, (o, at)) ∷ before) after w = sweep_sessions-append before after _

  sweep_over :
      (id : ℕ) (c : Text) (found : List Found) (at : Stamps)
      → (after : List (Session × (Opened × Stamps))) (w : World docker e)
      → e.max_bytes < bytes found
      → bytes found < 9223372036854775808
      → sweep_sessions docker e ((session docker e id c, (root found, at)) ∷ after) w
        ≡ sweep_sessions docker e after (pause_unpaused docker e at id c (bytes found) w)
  unfolding sweep_sessions
  sweep_over id c found at after w over small =
      rw (size-bytes found small) (rw (is_over-less e (bytes found) small over) refl)

  -- Take a sweep, and in it a session with a container and a workspace that could be walked through,
  -- whose regular files' sizes add up to more than the cap but less than 2 ^ 63. When the sweep is
  -- done the container is paused, unless the daemon refused to pause it when the session's turn came.
  pub sweep_sessions-pauses :
      (before after : List (Session × (Opened × Stamps)))
      → (id : ℕ) (c : Text) (found : List Found) (at : Stamps) (w : World docker e)
      → e.max_bytes < bytes found
      → bytes found < 9223372036854775808
      → (is_paused docker e
            (sweep_sessions docker e
              (before ++ (session docker e id c, (root found, at)) ∷ after)
              w).daemon
            c
          ≡ true)
        ⊎ (docker.pause (sweep_sessions docker e before w).daemon c ≡ none)
  sweep_sessions-pauses before after id c found at w over small =
      let w1 = sweep_sessions docker e before w in
      let n = bytes found in
      rw (sweep_sessions-append before ((session docker e id c, (root found, at)) ∷ after) w)
        (elim (pause_unpaused-own at id n c w1) [
          | inr failed ↦ inr failed
          | inl paused ↦ inl (
              rw (sweep_over id c found at after w1 over small)
                (sweep_sessions-is_paused after (pause_unpaused docker e at id c n w1) c paused))
        ])

  -- what the sweep does with one session does not concern another container, or one whose workspace
  -- fits
  swept-spares :
      (s : Session) (o : Opened) (at : Stamps) (w : World docker e) (k : Text)
      → e.max_bytes < 9223372036854775808
      → FitsOrOther e k (s, (o, at))
      → is_paused docker e (sweep_container docker e at s.id o w s.container_id).daemon k
        ≡ is_paused docker e w.daemon k
  swept-spares s o at w k cap spared = container_case s.container_id spared
    where
      within_case :
          (c : Text) (found : List Found)
          → bytes found ≤ e.max_bytes
          → is_paused docker e (sweep_measured docker e at s.id c (size (root found)) w).daemon k
            ≡ is_paused docker e w.daemon k
      within_case c found fits =
          rw (size-bytes found (omega (arith, fits, cap)))
            (rw (is_over-within e (bytes found) fits) refl)

      fits_case :
          (c : Text) (p : Opened)
          → bytes (files p) ≤ e.max_bytes
          → is_paused docker e (sweep_measured docker e at s.id c (size p) w).daemon k
            ≡ is_paused docker e w.daemon k
      fits_case c (root found) fits = within_case c found fits
      fits_case c missing fits = rw size-missing (rw (is_over-within e 0 (omega arith)) refl)
      fits_case c unreadable fits = rw size-unreadable refl

      other_case :
          (c : Text) (m : Option ℕ)
          → text_eq k c ≡ false
          → is_paused docker e (sweep_measured docker e at s.id c m w).daemon k
            ≡ is_paused docker e w.daemon k
      other_case c none other = refl
      other_case c (some n) other = elim (Bool-cases (is_over e n)) [
        | inl over ↦ rw over (pause_unpaused-other at s.id n c k w other)
        | inr under ↦ rw under refl
      ]

      container_case :
          (c : Option Text)
          → ((c ≢ some k) ⊎ (bytes (files o) ≤ e.max_bytes))
          → is_paused docker e (sweep_container docker e at s.id o w c).daemon k
            ≡ is_paused docker e w.daemon k
      container_case none h = refl
      container_case (some c) (inr fits) = fits_case c o fits
      container_case (some c) (inl other) = elim (Bool-cases (text_eq k c)) [
        | inl same ↦ absurd (other (ap (λ x. some x) (sym ((text_eq_iff k c).0 same))))
        | inr no_match ↦ other_case c (size o) no_match
      ]

  -- A sweep pauses nothing else: with a cap below 2 ^ 63, a container is paused after a sweep just if
  -- it was before, where each session with that container has a workspace whose regular files' sizes
  -- add up to no more than the cap, or one that is not there or could not be walked through.
  pub sweep_sessions-spares :
      (sessions : List (Session × (Opened × Stamps))) (w : World docker e) (k : Text)
      → e.max_bytes < 9223372036854775808
      → All (FitsOrOther e k) sessions
      → is_paused docker e (sweep_sessions docker e sessions w).daemon k
        ≡ is_paused docker e w.daemon k
  unfolding sweep_sessions
  sweep_sessions-spares [] w k cap spared = refl
  sweep_sessions-spares ((s, (o, at)) ∷ sessions) w k cap spared =
      sweep_sessions-spares sessions _ k cap spared.1 ∙ swept-spares s o at w k cap spared.0
