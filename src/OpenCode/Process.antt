-- ===== src/OpenCode/Process.antt =====
-- src/opencode.rs: the state of the agent's process, and each section of code that holds its lock.
use caroba_guard.Prelude.{
  ℕ, ◌+◌, ◌-◌, ◌%◌, ◌^◌, String, Bool, true, false, not, ◌&&◌, Option, none, some, str_eq, leb,
  ◌==◌, if◌then◌else◌,
}
use caroba_guard.OpenCode.{same_mode, AiPermissionMode, unrestricted}

-- The process that `Command` spawned, with what it was configured with.
pub record Child : Type 0 where
  pub pid : ℕ
  pub permission_config : AiPermissionMode
  pub current_dir : String
  pub is_pure : Bool

pub record Connection : Type 0 where
  pub base_url : String
  pub username : String
  pub password : String

pub data AgentPhase : Type 0 where
  sleeping starting ready error : AgentPhase

abbrev pub is_ready : AgentPhase → Bool
is_ready ready = true
is_ready _ = false

-- `event_task` is the generation that the task serves.
pub record ProcessState : Type 0 where
  pub phase : AgentPhase
  pub session_id : Option String
  pub event_task : Option ℕ
  pub child : Option Child
  pub connection : Option Connection
  pub project_path : Option String
  pub mode : AiPermissionMode
  pub version : Option String
  pub started_at : Option ℕ
  pub last_active : ℕ
  pub active_requests : ℕ
  pub generation : ℕ
  pub error : Option String

-- `u64::wrapping_add(1)`
abbrev pub next_generation : ℕ → ℕ
next_generation g = (g + 1) % 2 ^ 64

-- What is left after the child has been taken.
unfoldable pub detach_child : ProcessState → ProcessState
detach_child s = record s {
  event_task = none;
  child = none;
  phase = sleeping;
  connection = none;
  started_at = none;
  active_requests = 0;
  generation = next_generation s.generation;
  error = none;
}

-- What `try_wait` answers.
pub data TryWait : Type 0 where
  exited : String → TryWait
  running : TryWait
  wait_failed : String → TryWait

abbrev pub refresh_with : TryWait → ProcessState → ProcessState
refresh_with (exited status) s = record s {
  phase = error;
  error = some status;
  child = none;
  connection = none;
  active_requests = 0;
  generation = next_generation s.generation;
  event_task = none;
}
refresh_with running s = s
refresh_with (wait_failed e) s = record s { phase = error; error = some e }

abbrev pub refresh_for : Option Child → TryWait → ProcessState → ProcessState
refresh_for none answer s = s
refresh_for (some _) answer s = refresh_with answer s

unfoldable pub refresh_child_status : TryWait → ProcessState → ProcessState
refresh_child_status answer s = refresh_for s.child answer s

-- The text of `OpenCode exited with {status}` is that of the answer `exited`.
abbrev pub fail_phase : String → ProcessState → ProcessState
fail_phase text s = record s { phase = error; error = some text }

-- `request_json` up to its guard.
pub record Opened : Type 0 where
  pub connection : Connection
  pub generation : ℕ
  pub directory : Option String

pub data Opening : Type 0 where
  opened : Opened → Opening
  not_ready : Opening
  no_connection : Opening

-- `.expect("ready connection")` panics with the lock held, after the two writes.
abbrev pub expect_connection : ProcessState → Option Connection → Opening
expect_connection s none = no_connection
expect_connection s (some c) =
    opened (record { connection = c; generation = s.generation; directory = s.project_path })

abbrev pub open_refreshed : ℕ → ProcessState → Opening × ProcessState
open_refreshed now s =
    if is_ready s.phase
    then (
      expect_connection s s.connection,
      record s { active_requests = s.active_requests + 1; last_active = now },
    )
    else (not_ready, s)

unfoldable pub open_request : TryWait → ℕ → ProcessState → Opening × ProcessState
unfolding refresh_child_status
open_request answer now s = open_refreshed now (refresh_child_status answer s)

-- `ActiveRequestGuard::release`
unfoldable pub release : ℕ → ℕ → ProcessState → ProcessState
release generation now s =
    if s.generation == generation
    then record s { active_requests = s.active_requests - 1; last_active = now }
    else s

-- `start_inner`: whether the process can serve as it is.
abbrev pub serves : String → AiPermissionMode → ProcessState → Bool
serves project mode s =
    is_ready s.phase
    && elim s.project_path [ none ↦ false | some p ↦ str_eq p project ]
    && same_mode s.mode mode

pub data Check : Type 0 where
  reused : Check
  busy : Check
  go_on : Check

unfoldable pub start_check : String → AiPermissionMode → ℕ → ProcessState → Check × ProcessState
start_check project mode now s =
    if serves project mode s
    then (reused, record s { last_active = now })
    else if s.active_requests == 0
    then (go_on, s)
    else (busy, s)

unfoldable pub start_detach : String → AiPermissionMode → TryWait → ProcessState → ProcessState
unfolding detach_child refresh_child_status
start_detach project mode answer s = record (detach_child (refresh_child_status answer s)) {
  phase = starting;
  error = none;
  mode = mode;
  project_path = some project;
}

-- The command line: any mode but `Unrestricted` runs with `--pure`.
unfoldable pub spawned : ℕ → String → AiPermissionMode → Child
spawned pid project mode = record {
  pid = pid;
  permission_config = mode;
  current_dir = project;
  is_pure = not (same_mode mode unrestricted);
}

unfoldable pub start_spawned : Child → Connection → ℕ → ProcessState → ProcessState
start_spawned child connection now s = record s {
  generation = next_generation s.generation;
  child = some child;
  connection = some connection;
  started_at = some now;
  last_active = now;
}

-- A failure after the spawn.
unfoldable pub start_failed : String → ProcessState → ProcessState
unfolding detach_child
start_failed text s = fail_phase text (detach_child s)

abbrev pub has_pid : ℕ → Option Child → Bool
has_pid pid none = false
has_pid pid (some child) = child.pid == pid

-- The last section of `start_inner`: `none` when the process changed during the startup.
unfoldable pub start_ready : ℕ → String → ℕ → ProcessState → Option ProcessState
start_ready spawned_pid version now s =
    if has_pid spawned_pid s.child
    then some (record s { version = some version; phase = ready; last_active = now })
    else none

-- The end of an event stream.
unfoldable pub event_stream_ended : ℕ → String → ProcessState → ProcessState
unfolding detach_child
event_stream_ended generation reason s =
    if s.generation == generation then fail_phase reason (detach_child s) else s

-- The idle reaper, after its health check.
unfoldable pub reap : TryWait → Bool → ℕ → ℕ → ProcessState → ProcessState
unfolding detach_child refresh_child_status
reap answer unhealthy timeout now s0 =
    let s = refresh_child_status answer s0 in
    if unhealthy
    then fail_phase "OpenCode health check failed" (detach_child s)
    else if is_ready s.phase && s.active_requests == 0 && leb timeout (now - s.last_active)
    then detach_child s
    else s
