-- ===== src/Lib.antt =====
-- Verification library of vaultrun, a service that runs commands of agents in Docker sandboxes.
--
-- Ten parts of the Go code are modelled, each in a file of its name with child modules for its
-- proofs; the parts' tests and witnesses stand in their modules Examples, and the names that they
-- share in Base.
--
-- Audit is the audit log: internal/audit/audit.go, internal/audit/chain.go and the statements on its
-- two tables in internal/db/queries.go. Audit/Types has the rows, Audit/Table the statements,
-- Audit/Sign the signatures, Audit/Write the writing of entries (log, log_chained), Audit/Classify
-- the status of an entry on a page, Audit/Report, Audit/Scan and Audit/Verdict the integrity scan with
-- its cache and what one key may see of it, Audit/Prune retention. Audit/Intact says what it is that
-- the log is as the logger left it. Every definition has the name of the function it models, in
-- lower case with underscores (logChained is log_chained); parts of a long function have names of
-- their own and are composed as the code composes them. The tables are values passed from call to
-- call; a transaction returns none where it fails.
--
-- Guard is the proxy before the Docker daemon: internal/dockerguard/policy.go (Guard/Policy,
-- Guard/Iptables) and internal/dockerguard/guard.go (Guard/Proxy). A check returns what it refuses or
-- none. A request arrives with its body decoded, and what the guard has the daemon do is an action.
-- Guard/Names has the regular expressions, as functions on strings; Guard/Uuids, Guard/Iptables/Shapes
-- and Guard/Proxy/Creates say without them which names and which requests are meant.
--
-- RateLimit is cmd/api/middleware/ratelimit.go: the token buckets, their collector, and the four
-- middlewares, two of which count in Redis. A request is one step: a round of the collector that
-- runs between its two locks is not among the orders considered.
--
-- Quota is internal/quota/quota.go. Its pauses write to the audit log of Audit, through log.
-- Quota/Sizes has the sum that the walk over a workspace should arrive at.
--
-- Cost is the billing of running time, internal/cost/accrual.go, with the insert of
-- internal/cost/tracker.go. Several API instances bill at once, so AccrueUsage is a step function on
-- the table and the instances' jobs (Cost/Tiled has what a session's rows are like, Cost/Instances
-- and Cost/Billed how a step changes them).
--
-- JobQueue is internal/jobqueue/queue.go: the bounded queue, and the callbacks with their retries.
--
-- Workspace is how internal/workspace/workspace.go checks a path that a user gives, CheckPath and
-- relPath. What these use of the standard library is modelled with them.
--
-- Redact is the redaction of secrets in output, internal/secrets/redact.go: Redact/Build makes the
-- redactor (NewRedactor), Redact itself has Redact and the writer. A needle that begins another one
-- may be replaced by the writer before the rest of the longer one arrives.
--
-- Tasks is the store of pollable tasks of the MCP server: sdk/mcp/tasks.go and sdk/mcp/tasks_input.go,
-- with the store in memory. Tasks/Store has the map of tasks with get, put, update, the cancellation
-- and the cleaning (expire), Tasks/Input the questions a task asks and their answers, Tasks/Updates
-- updateTaskResult, Tasks/Work what startToolTask starts: its goroutine is a sequence of turns, each of
-- which ends where another goroutine can take the store's lock. Tasks/Events puts requests, cleaning and
-- turns in any order. A request is one event there, though updateTaskResult takes the store's lock
-- several times. Tasks/Changes, Tasks/Careful, Tasks/Requests and Tasks/Steps say what every event
-- leaves as it is, Tasks/Turns to Tasks/Approval what an event does to a tool that waits for its
-- confirmation.
--
-- Netpolicy is the firewall of a sandbox, internal/docker/netpolicy.go: the commands that
-- applyEgressPolicy and removeEgressPolicy issue, which Guard's check_exec has to let through, and the
-- errors that stop them. Netpolicy/Chains has the names of chains and bridges.
--
-- Strings are lists of bytes, UUIDs are numbers (but the IDs of tasks are strings), times are
-- nanoseconds since 1970. Numbers are natural numbers: chain numbers are int64 in the source and would take longer than the service lives to
-- overflow; sizes of workspaces wrap around as int64 does. The loop that splits a time by months
-- (Cost, split) has as many rounds as the time has nanoseconds, which is enough since each round moves
-- the start on. The loop that decodes a path (Workspace, decode) has as many rounds as the path has
-- bytes, enough since decoding changes a path only by making it shorter. Every other loop goes over
-- rows, sessions, events, attempts, arguments, needles, bytes or commands.
--
-- Code outside the repository is a parameter. The MAC is a function of a key and the fields, with the
-- rendering of the fields in it. Cleaning a path, its directory and base name, and os.Lstat are
-- functions. The Docker daemon is a record of what the code asks of it (Guard/Proxy, Quota), and
-- Redis's answer to INCR an argument. The fingerprint of the tables, which the database computes, is a
-- parameter of the cache. The first of the next month (time.Date), json.Marshal, the server that a
-- callback goes to and the execution of a run are parameters, too. So are,
-- for the tasks, uuid.Parse, what json.Unmarshal finds in the arguments of a tool and in an answer, and
-- what a tool gives (Tasks/Types, Outside), and for the firewall net.ParseIP and net.ParseCIDR.
--
-- Not modelled: failures of the database other than of the unique index on chain numbers, the texts
-- of refusals and problems (they are constructors), the background loop WatchIntegrity, which only
-- logs, the transport of HTTP and the workspace endpoints of the guard, and the rounding of the
-- rate limiter's float64, for which exact numbers stand. The parts of the service that are left out
-- altogether are the API's handlers, authentication, the rest of the Docker client, the queue and the
-- tasks in Redis, missions, collaboration, the rest of cost accounting, the encryption of secrets and the clients.
mod Base
pub mod Audit
pub mod Guard
pub mod RateLimit
pub mod Quota
pub mod Cost
pub mod JobQueue
pub mod Workspace
pub mod Redact
pub mod Tasks
pub mod Netpolicy
