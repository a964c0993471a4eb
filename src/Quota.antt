-- ===== src/Quota.antt =====
-- The watch over the size of workspaces: internal/quota/quota.go. The Docker daemon is a parameter,
-- a record of the three calls that are made of it; what a walk through a workspace meets is an
-- argument, since the sandbox may change it at any time. Sizes are int64: a sum that does not fit
-- wraps around, and one of at least 2 ^ 63 is negative.
pub mod Sizes
pub mod Admitted
pub mod Watched
mod Examples
use vaultrun.Audit.Types.{Logger, Db}
use vaultrun.Audit.Write.{Event, log}
use vaultrun.Base.{
  Text, codes, ℕ, ◌+◌, ◌%◌, Bool, true, false, ◌&&◌, not, Option, none, some, List, [], ◌∷◌, ltb,
  leb, if◌then◌else◌,
}

-- ContainerInspect (none where it fails or gives no state, otherwise whether the container is
-- paused), ContainerPause and ContainerUnpause (none where they fail).
pub record Engine (D : Type 0) : Type 0 where
  pub inspect : D → Text → Option Bool
  pub pause : D → Text → Option D
  pub unpause : D → Text → Option D

-- models.Session, what is read of it.
pub record Session : Type 0 where
  pub id : ℕ
  pub container_id : Option Text

-- What WalkDir hands to its callback: an error, or an entry, with its size where Info succeeds.
pub data Found : Type 0 where
  gone : Found
  entry : Bool → Option ℕ → Found

-- ws.Root: not there, another error, or the entries of the walk.
pub data Opened : Type 0 where
  missing unreadable : Opened
  root : List Found → Opened

abbrev pub int64 : ℕ → ℕ
int64 n = n % 18446744073709551616

abbrev pub is_positive : ℕ → Bool
is_positive n = ltb 0 n && ltb n 9223372036854775808

abbrev pub add_size : ℕ → Found → ℕ
add_size total (entry true (some n)) = int64 (total + n)
add_size total _ = total

unfoldable pub total_size : ℕ → List Found → ℕ
total_size total [] = total
total_size total (f ∷ found) = total_size (add_size total f) found

-- `Size`: the two's complement of the sum, or none for an error.
unfoldable pub size : Opened → Option ℕ
size missing = some 0
size unreadable = none
size (root found) = some (total_size 0 found)

-- `Enforcer`: its Audit and MaxBytes, and the rendering of a pause's metadata.
pub record Enforcer : Type 0 where
  pub audit : Logger
  pub max_bytes : ℕ
  pub metadata : ℕ → ℕ → Text

-- `size > e.MaxBytes`, which `Admit` and `Run` ask only of a positive cap
unfoldable pub is_over : Enforcer → ℕ → Bool
is_over e n = is_positive n && ltb e.max_bytes n

-- The id of the entry that a pause writes, and the readings of the clock.
pub record Stamps : Type 0 where
  pub id : ℕ
  pub now : ℕ
  pub now_head : ℕ
  pub now_entry : ℕ

-- What `Admit` returns.
pub data Admission : Type 0 where
  admitted over_quota unpause_failed : Admission

module _ {D : Type 0} (docker : Engine D) (e : Enforcer) where
  -- the daemon and the audit log
  pub record World : Type 0 where
    pub daemon : D
    pub db : Db

  abbrev says_paused : Option Bool → Bool
  says_paused (some true) = true
  says_paused _ = false

  unfoldable pub is_paused : D → Text → Bool
  is_paused d c = says_paused (docker.inspect d c)

  abbrev pub exceeded : ℕ → ℕ → Event
  exceeded session n = record {
    actor = codes "system";
    session_id = some session;
    run_id = none;
    action = codes "session.quota_exceeded";
    metadata = e.metadata n e.max_bytes;
  }

  abbrev pub record_pause : Stamps → ℕ → ℕ → World → Option D → World
  record_pause at session n w none = w
  record_pause at session n w (some d) = record {
    daemon = d;
    db = log e.audit at.id at.now at.now_head at.now_entry (exceeded session n) w.db;
  }

  -- `pause`; a failure goes to the process log only
  unfoldable pub pause_session : Stamps → ℕ → Text → ℕ → World → World
  pause_session at session c n w = record_pause at session n w (docker.pause w.daemon c)

  unfoldable pub pause_unpaused : Stamps → ℕ → Text → ℕ → World → World
  pause_unpaused at session c n w =
      if not (is_paused w.daemon c) then pause_session at session c n w else w

  abbrev pub resumed : World → Option D → World × Admission
  resumed w none = (w, unpause_failed)
  resumed w (some d) = (record w { daemon = d }, admitted)

  abbrev pub admit_measured : Stamps → ℕ → Text → Option ℕ → World → World × Admission
  admit_measured at session c none w = (w, admitted)
  admit_measured at session c (some n) w =
      if is_over e n
      then (pause_unpaused at session c n w, over_quota)
      else if is_paused w.daemon c
      then resumed w (docker.unpause w.daemon c)
      else (w, admitted)

  abbrev pub admit_container : Stamps → ℕ → Opened → World → Option Text → World × Admission
  admit_container at session o w none = (w, admitted)
  admit_container at session o w (some c) = admit_measured at session c (size o) w

  -- `Admit`
  unfoldable pub admit : Stamps → Session → Opened → World → World × Admission
  admit at s o w =
      if leb e.max_bytes 0 then (w, admitted) else admit_container at s.id o w s.container_id

  abbrev pub sweep_measured : Stamps → ℕ → Text → Option ℕ → World → World
  sweep_measured at session c none w = w
  sweep_measured at session c (some n) w =
      if not (is_over e n) then w else pause_unpaused at session c n w

  abbrev pub sweep_container : Stamps → ℕ → Opened → World → Option Text → World
  sweep_container at session o w none = w
  sweep_container at session o w (some c) = sweep_measured at session c (size o) w

  -- the loop of `sweep`: each session with what the walk through its workspace meets
  unfoldable pub sweep_sessions : List (Session × (Opened × Stamps)) → World → World
  sweep_sessions [] w = w
  sweep_sessions ((s, (o, at)) ∷ sessions) w =
      sweep_sessions sessions (sweep_container at s.id o w s.container_id)

  -- `sweep`; none where the sessions cannot be listed
  abbrev pub sweep : Option (List (Session × (Opened × Stamps))) → World → World
  sweep none w = w
  sweep (some sessions) w = sweep_sessions sessions w

  -- `Run`: what a number of ticks do
  unfoldable pub run_ticks : List (Option (List (Session × (Opened × Stamps)))) → World → World
  run_ticks [] w = w
  run_ticks (sessions ∷ ticks) w = run_ticks ticks (sweep sessions w)

  unfoldable pub run : List (Option (List (Session × (Opened × Stamps)))) → World → World
  run ticks w = if leb e.max_bytes 0 then w else run_ticks ticks w
