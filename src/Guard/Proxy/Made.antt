-- ===== src/Guard/Proxy/Made.antt =====
-- Execs that were made through the guard: internal/dockerguard/guard.go.
use vaultrun.Base.{All, Text, ℕ, ◌≡◌, Bool, some, []}
use vaultrun.Guard.Proxy.{Request, Daemon, create_exec, does}
use vaultrun.Guard.Proxy.Routing.{Execs, serve, after_outcome}
use vaultrun.Guard.Proxy.Safe.{IsChecked, Safe}
use vaultrun.Guard.Types.{Policy, ExecOptions, FileKind}

module _ (clean dir base : Text → Text) (lstat : Text → FileKind) (d : Daemon) (p : Policy) where
  -- The execs that the guard may know, after any requests at any times.
  pub data Reach : Execs → Type 0 where
    start : Reach []
    next :
        {execs : Execs} (dirs : Bool) (req : Request) (now : ℕ)
        → Reach execs
        → Reach (
            after_outcome clean dir base lstat d p now execs
              (serve clean dir base lstat d p dirs execs req))

  -- An exec that was made through the guard: on a request, the guard had the daemon make it, and the
  -- daemon gave the ID.
  pub record IsMade (id : Text) : Type 0 where
    pub before : Execs
    pub dirs : Bool
    pub req : Request
    pub in_container : Text
    pub options : ExecOptions
    pub netpolicy : Bool
    pub reached : Reach before
    pub served :
        serve clean dir base lstat d p dirs before req
        ≡ does (create_exec in_container options netpolicy)
    pub made : d.create_exec in_container options ≡ some id
    pub asked : req.exec_body ≡ some options
    pub checked : IsChecked clean dir base lstat d p in_container options netpolicy

  abbrev pub AllMade : Execs → Type 0
  AllMade = All (λ (e : Text × ℕ). IsMade e.0)
