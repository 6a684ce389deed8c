-- ===== src/Lib.antt =====
-- CarobaGuard: the server of a panel for one host, that shows its state and lets signed-in users run
-- containers, services and an AI agent. The development models the parts that decide something.
--
-- src/error.rs (Error): the errors of the handlers, and the result that they return.
-- src/auth.rs (Auth): roles, login, sessions, cookies and the CSRF token. The tables that its
--   queries read and write are lists (AuthDb); a handler takes the time and the random tokens as
--   arguments, and token hashing and Argon2 are the record Crypto. login is login_start, up to the query
--   of the user, and login_finish; Auth.Limits interleaves the two of many logins as a step relation.
--   Auth.Access, Auth.Cookies and Auth.Sessions prove what the other parts promise.
-- src/logs.rs (Logs): the decoder of Docker's log streams (DockerLogDecoder: push, push_text,
--   finish). Its loop over the frames runs on fuel: as many rounds as there are bytes, of which
--   every round takes eight. `stream` is the loop of docker_stream over the data that arrives, and
--   `docker_stream` all that is sent for a body that ends. Logs.Lines, Logs.Frames, Logs.Chunks, Logs.Cuts,
--   Logs.Bounds and Logs.Ends.
-- src/context.rs (Context): what is put before a prompt (build_context), its limits and redaction.
--   What the adapters answer is the record Adapters, and the JSON printer is one of its fields.
-- src/audit.rs (Audit): the record of an action (record), and their list (list).
-- src/projects.rs (Projects): the registered projects (register, remove) with their records. Which
--   statements fail is a part of the record Call; the file system and the settings are Host.
-- src/docker.rs, src/services.rs (Adapters): the names that are checked before they reach the two daemons
--   (validate_container_id, validate_unit, validate_since) and decode_docker_log_stream, whose loop
--   runs on fuel, with as many rounds as there are bytes. In Adapters.Actions what an operator has the
--   daemons do (action, in both files), with its record; in Adapters.Containers and Adapters.Units what
--   is read from their answers (containers, parse_stats, details, parse_properties).
-- src/config.rs (Config): the settings (Config::from_env).
-- src/opencode.rs (OpenCode): the permission modes, and the life of the agent's process.
--   OpenCode.Process has one function for every section of code that holds the lock of the state;
--   OpenCode.Lifecycle interleaves them as events (step, run) under the start lock. The generation is
--   a u64 and its wrap-around is written out. OpenCode.Questions has the questions of the agent and the
--   check of the answers; a text there is the list of its code points.
-- src/opencode/session_manager.rs (Sessions): the workspace sessions (sync_sessions, the actions sleep,
--   stop and archive, delete_session), and in Sessions.Permissions what the agent asks to be allowed
--   (the event permission.asked of observe_event, permission_decision). The replies that are sent to
--   the agent are kept beside the state. Which update of put_away fails is an argument; a deletion takes the
--   stored messages of the session with it, as the table's foreign key has it.
-- src/doctor.rs (Doctor): the findings on the host (Doctor.Report.run, available_updates). Floating-point
--   numbers are the record Floats, with three laws on their orders.
-- src/telemetry.rs (Telemetry): Telemetry.Readings and Telemetry.Counters read the texts of /proc and /sys
--   (RawSnapshot::collect, parse_cpu, parse_meminfo, parse_network), Telemetry.Snapshot makes a sample of
--   two readings (build_snapshot), Telemetry.Service has the profiles, the settings of src/db.rs and
--   TelemetryService, Telemetry.Collector the loop of spawn_collector, one function for each part between
--   two of its waits. Telemetry.Reachable interleaves these with the parts of configure as a step
--   relation, and Telemetry.Settling says what a round then shows; Telemetry.Requests has the request
--   that calls configure (configure_metrics of src/api.rs).
-- src/terminal.rs (Terminal): websocket and its checks; in Terminal.Session the loop of run_session over
--   the events that `select!` takes, in Terminal.Lifetime what stands around it, in Terminal.Pty the
--   two workers and the signals of cleanup_child. Terminal.Slots puts the sessions together as a step
--   relation, in which each holds its permit. The loop is a recursion on the list of its events.
--
-- Not modelled: the HTTP and WebSocket transport, SQL other than what its statements select, the
-- spawning and killing of processes beyond its effect on the state, the web interface.
pub mod Prelude
pub mod Error
pub mod Auth
pub mod Logs
pub mod Context
pub mod Audit
pub mod Projects
pub mod Adapters
pub mod OpenCode
pub mod Sessions
pub mod Telemetry
pub mod Terminal
pub mod Config
pub mod Json
pub mod Doctor
