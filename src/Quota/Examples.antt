-- ===== src/Quota/Examples.antt =====
-- Tests and witnesses for the watch over workspaces of internal/quota/quota.go.
use vaultrun.Audit.Types.{Logger, Db}
use vaultrun.Audit.Write.Keeps.{Call, log_all}
use vaultrun.Base.{
  length, All, Text, codes, text_eq_refl, text_eq, ◌+◌, ◌^◌, ◌≤◌, ◌≡◌, refl, sym, ◌≢◌, ◌⊎◌, inl,
  inr, Bool, true, false, none, some, List, [], ◌∷◌, arith, if◌then◌else◌, Bool-cases,
}
use vaultrun.Quota.{
  Engine, Session, Found, gone, entry, Opened, root, total_size, size, Enforcer, is_over, Stamps,
  admitted, World, is_paused, pause_session, pause_unpaused, admit, sweep_sessions,
}
use vaultrun.Quota.Admitted.{Unpauses, session, admit-bytes}
use vaultrun.Quota.Sizes.{bytes}
use vaultrun.Quota.Watched.{Pauses, FitsOrOther, sweep_sessions-pauses, sweep_sessions-spares}

-- A daemon that remembers which containers are paused.
abbrev remember : Text → Bool → (Text → Bool) → Text → Bool
remember c b paused k = if text_eq k c then b else paused k

abbrev toy_engine : Engine (Text → Bool)
toy_engine = record {
  inspect = λ paused c. some (paused c);
  pause = λ paused c. some (remember c true paused);
  unpause = λ paused c. some (remember c false paused);
}

toy_engine-Unpauses : Unpauses toy_engine
unfolding Unpauses
toy_engine-Unpauses d d' c h =
    let now : remember c false d ≡ d' = cc in rw (sym now) (rw (text_eq_refl c) refl)

toy_engine-Pauses : Pauses toy_engine
unfolding Pauses
toy_engine-Pauses d d' c k h =
    let now : remember c true d ≡ d' = cc in
    rw (sym now)
      (elim (Bool-cases (text_eq k c)) [ inl same ↦ rw same refl | inr other ↦ rw other refl ])

abbrev toy_logger : Logger
toy_logger = record { hmac_key = codes "k"; hmac = λ key fields. (48 + length fields) ∷ [] }

abbrev one_mb : Enforcer
one_mb = record { audit = toy_logger; max_bytes = 1048576; metadata = λ n m. n ∷ m ∷ [] }

abbrev stamps : Stamps
stamps = record { id = 7; now = 9000; now_head = 9000; now_entry = 9000 }

abbrev box : Text
box = codes "box"

abbrev start_call : Call
start_call = record {
  id = 1;
  now = 5000;
  now_head = 5000;
  now_entry = 6000;
  event = record {
    actor = codes "ann";
    session_id = some 4;
    run_id = none;
    action = codes "session.created";
    metadata = [];
  };
}

abbrev logged_db : Db
logged_db = log_all toy_logger (start_call ∷ []) (record { logs = []; head = none })

abbrev frozen_world : World toy_engine one_mb
frozen_world = record { daemon = λ c. true; db = logged_db }

abbrev running_world : World toy_engine one_mb
running_world = record { daemon = λ c. false; db = logged_db }

abbrev small : List Found
small = entry true (some 500) ∷ gone ∷ entry false (some 4096) ∷ []

abbrev large : List Found
large = entry true (some 1048576) ∷ entry true (some 1) ∷ []

-- A paused container whose workspace is small again is unpaused.
admit-bytes_example :
    (bytes small ≤ 1048576)
    × (is_paused toy_engine one_mb
          (admit toy_engine one_mb stamps
            (session toy_engine one_mb 4 box)
            (root small)
            frozen_world).0.daemon
          box
        ≡ false)
unfolding admit size total_size is_over is_paused
admit-bytes_example =
    admit-bytes toy_engine one_mb stamps 4 box small frozen_world toy_engine-Unpauses (omega arith)
      (omega arith) refl

abbrev crate : Text
crate = codes "crate"

abbrev sessions : List (Session × (Opened × Stamps))
sessions =
    (session toy_engine one_mb 5 crate, (root small, stamps))
    ∷ (session toy_engine one_mb 4 box, (root large, stamps))
    ∷ []

-- The second of the two sessions has too large a workspace.
sweep_sessions-pauses_example :
    (is_paused toy_engine one_mb
        (sweep_sessions toy_engine one_mb sessions running_world).daemon
        box
      ≡ true)
    ⊎ (toy_engine.pause
          (sweep_sessions toy_engine one_mb
            ((session toy_engine one_mb 5 crate, (root small, stamps)) ∷ [])
            running_world).daemon
          box
        ≡ none)
sweep_sessions-pauses_example =
    sweep_sessions-pauses toy_engine one_mb toy_engine-Pauses
      ((session toy_engine one_mb 5 crate, (root small, stamps)) ∷ []) [] 4 box large stamps
      running_world (omega arith) (omega arith)

crate_spared : All (FitsOrOther one_mb crate) sessions
unfolding text_eq
crate_spared = (inr (omega arith), (inl box_other, tt))
  where
    box_other : some box ≢ some crate
    box_other e = cc

sweep_sessions-spares_example :
    is_paused toy_engine one_mb
      (sweep_sessions toy_engine one_mb sessions running_world).daemon
      crate
    ≡ is_paused toy_engine one_mb running_world.daemon crate
sweep_sessions-spares_example =
    sweep_sessions-spares toy_engine one_mb toy_engine-Pauses sessions running_world crate
      (omega arith) crate_spared

-- The large one is paused and the small one runs on.
sweep_both :
    let w = sweep_sessions toy_engine one_mb sessions running_world in
    (w.daemon box ≡ true) × (w.daemon (codes "crate") ≡ false)
unfolding sweep_sessions pause_unpaused pause_session size total_size is_over is_paused text_eq
sweep_both = (refl, refl)

-- Two sparse files of 2 ^ 62 bytes: the sum is negative as an int64, and not over any cap.
sparse_under :
    let sparse = root (entry true (some (2 ^ 62)) ∷ entry true (some (2 ^ 62)) ∷ []) in
    (admit toy_engine one_mb stamps (session toy_engine one_mb 4 box) sparse running_world).1
    ≡ admitted
unfolding admit size total_size is_over is_paused
sparse_under = refl
