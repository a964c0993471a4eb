-- ===== src/Quota/Admitted.antt =====
-- What Admit of internal/quota/quota.go lets through.
use vaultrun.Base.{
  Text, ℕ, ◌≤◌, ◌<◌, ◌≡◌, refl, inl, inr, false, Option, none, some, List, arith, leb, Bool-cases,
}
use vaultrun.Quota.{
  Engine, Session, Found, root, Enforcer, Stamps, Admission, admitted, World, is_paused, resumed,
  admit_measured, admit,
}
use vaultrun.Quota.Sizes.{bytes, size-bytes, is_over-less, is_over-within}

-- The daemon's documented answer: a container just unpaused is not paused.
unfoldable pub Unpauses : {D : Type 0} → Engine D → Type 0
Unpauses {D} docker =
    (d d' : D) (c : Text) → docker.unpause d c ≡ some d' → docker.inspect d' c ≡ some false

module _ {D : Type 0} (docker : Engine D) (e : Enforcer) where
  abbrev pub session : ℕ → Text → Session
  session id c = record { id = id; container_id = some c }

  -- what holds after a run was admitted, or not
  abbrev AdmittedOk : ℕ → Text → World docker e × Admission → Type 0
  AdmittedOk n c r = r.1 ≡ admitted → (n ≤ e.max_bytes) × (is_paused docker e r.0.daemon c ≡ false)

  resumed-AdmittedOk :
      (n : ℕ) (c : Text) (w : World docker e) (o : Option D)
      → n ≤ e.max_bytes
      → ((d : D) → o ≡ some d → docker.inspect d c ≡ some false)
      → AdmittedOk n c (resumed docker e w o)
  unfolding is_paused
  resumed-AdmittedOk n c w none within law h = cc
  resumed-AdmittedOk n c w (some d) within law h = (within, rw (law d refl) refl)

  measured-AdmittedOk :
      (at : Stamps) (id n : ℕ) (c : Text) (w : World docker e)
      → Unpauses docker
      → n < 9223372036854775808
      → AdmittedOk n c (admit_measured docker e at id c (some n) w)
  unfolding Unpauses
  measured-AdmittedOk at id n c w law small = elim (Bool-cases (leb n e.max_bytes)) [
    | inr over ↦ rw (is_over-less e n small (ground (arith, over))) (λ h. cc)
    | inl fits ↦
        let within : n ≤ e.max_bytes = ground (arith, fits) in
        rw (is_over-within e n within) (elim (Bool-cases (is_paused docker e w.daemon c)) [
          | inl frozen ↦ rw frozen (
              resumed-AdmittedOk n c w (docker.unpause w.daemon c) within
                (λ d' h. law w.daemon d' c h))
          | inr runs ↦ rw runs (λ h. (within, runs))
        ])
  ]

  -- With a cap set, where a run is admitted in a session with a container and a workspace that could
  -- be walked through, the sizes of the workspace's regular files, whose sum is below 2 ^ 63, add up
  -- to no more than the cap, and the daemon does not call the container paused.
  pub admit-bytes :
      (at : Stamps) (id : ℕ) (c : Text) (found : List Found) (w : World docker e)
      → Unpauses docker
      → 1 ≤ e.max_bytes
      → bytes found < 9223372036854775808
      → (admit docker e at (session id c) (root found) w).1 ≡ admitted
      → (bytes found ≤ e.max_bytes)
        × (is_paused docker e (admit docker e at (session id c) (root found) w).0.daemon c ≡ false)
  unfolding admit
  admit-bytes at id c found w law cap small =
      let on : leb e.max_bytes 0 ≡ false = ground (arith, cap) in
      rw on (rw (size-bytes found small) (measured-AdmittedOk at id (bytes found) c w law small))
