-- ===== src/Sessions.antt =====
-- src/opencode/session_manager.rs: the workspace sessions of the agent. A session is a row; which of
-- them the process serves, and what is pending or approved, is in memory. Tables are lists.
pub mod Sync
pub mod Rows
pub mod Deletion
pub mod Permissions
pub mod Sections
pub mod Grants
pub mod Recovery
pub mod Tools
pub mod Once
mod Tests
mod Examples
use caroba_guard.Prelude.{
  ℕ, String, Bool, true, false, not, ◌&&◌, ◌||◌, Option, none, some, List, [], map, str_eq,
  if◌then◌else◌, is_some, keep, first, Bytes, codes,
}
use caroba_guard.Error.{
  ok, err, bad_request, not_found, service_unavailable, internal, ◌>>=◌, ◌>>◌, reject_if, or_fail,
  then_do, ApiResult,
}
use caroba_guard.Auth.{require, Headers, verify_csrf, Role, AuthUser, Crypto, admin, operator}
use caroba_guard.Context.{string_value, object_value, no_fields, field, Value, Fields}
use caroba_guard.Audit.{record_event, NewAuditEvent, AuditEvent, AuditEnv}
use caroba_guard.OpenCode.{unrestricted}
use caroba_guard.OpenCode.Process.{
  detach_child, refresh_child_status, Child, AgentPhase, ProcessState, TryWait, sleeping, starting,
  ready, error,
}

pub record AiSession : Type 0 where
  pub id : String
  pub opencode_session_id : Option String
  pub permission_mode : String
  pub status : String
  pub updated_at : ℕ
  pub pid : Option ℕ
  pub error : Option String

-- A pending permission request: `local_session_id`, `sessionID` and what `approval_key` reads.
pub record Details : Type 0 where
  pub local_session_id : String
  pub remote_session_id : String
  pub permission : Value
  pub patterns : Value
  pub resources : Value
  pub metadata : Value

pub record SessionState : Type 0 where
  pub process : ProcessState
  pub sessions : List AiSession
  pub pending : List (String × Details)
  pub approvals : List (String × Bytes)
  pub ai_messages : List (String × Bytes)
  pub audit_events : List AuditEvent

-- The times, the answers of the system and the failures that a call meets.
pub record SessionCall : Type 0 where
  pub now : ℕ
  pub answer : TryWait
  pub audit : AuditEnv
  pub statement_fails : Bool

abbrev pub is_opt : Option String → String → Bool
is_opt none s = false
is_opt (some t) s = str_eq t s

abbrev pub timeline_event : String → String → Fields → NewAuditEvent
timeline_event id action metadata = record {
  actor_user_id = none;
  actor_name = "Session Manager";
  origin = "opencode";
  action = action;
  target = id;
  command = none;
  result = if str_eq action "error" then "failure" else "success";
  duration_ms = 0;
  exit_code = none;
  ai_session_id = some id;
  ai_permission_mode = none;
  metadata = object_value metadata;
}

-- `timeline`: what a section answers once its record is written, or that it is not.
abbrev pub recorded : Option (List AuditEvent) → SessionState → ApiResult (Unit {0}) × SessionState
recorded none s = (err internal, s)
recorded (some events) s = (ok tt, record s { audit_events = events })

pub timeline :
    AuditEnv → String → String → Fields → SessionState → ApiResult (Unit {0}) × SessionState
timeline env id action metadata s =
    recorded (record_event env (timeline_event id action metadata) s.audit_events) s

abbrev pub has_id : String → AiSession → Bool
has_id id session = str_eq session.id id

abbrev pub find_session : String → List AiSession → Option AiSession
find_session id sessions = first (has_id id) sessions

-- `UPDATE ai_sessions SET ... WHERE id=?`
abbrev pub update_row : String → (AiSession → AiSession) → AiSession → AiSession
update_row id f session = if has_id id session then f session else session

abbrev pub update : String → (AiSession → AiSession) → List AiSession → List AiSession
update id f sessions = map (update_row id f) sessions

-- `ai_session`; `is_uuid` is `Uuid::parse_str`.
pub ai_session : (String → Bool) → String → List AiSession → ApiResult AiSession
ai_session is_uuid id sessions = do
  reject_if (not (is_uuid id)) (bad_request "invalid AI session ID")
  or_fail (find_session id sessions) (not_found "AI session not found")

abbrev pub phase_name : AgentPhase → String
phase_name ready = "ready"
phase_name starting = "starting"
phase_name sleeping = "sleeping"
phase_name error = "error"

abbrev pub phase_action : AgentPhase → String
phase_action ready = "session.ready"
phase_action starting = "session.started"
phase_action sleeping = "session.sleep"
phase_action error = "error"

abbrev pub is_up : AgentPhase → Bool
is_up ready = true
is_up starting = true
is_up _ = false

abbrev pub is_put_away : String → Bool
is_put_away status = str_eq status "archived" || str_eq status "stopped"

abbrev pub child_pid : Option Child → Option ℕ
child_pid none = none
child_pid (some child) = some child.pid

abbrev pub synced_row : ℕ → ProcessState → AiSession → AiSession
synced_row now p session = record session {
  status = phase_name p.phase;
  pid = child_pid p.child;
  error = p.error;
  updated_at = if str_eq session.status (phase_name p.phase) then session.updated_at else now;
}

abbrev pub forget_grants : SessionState → SessionState
forget_grants s = if is_up s.process.phase then s else record s { pending = []; approvals = [] }

-- The selected session's row follows the process, unless it is archived or stopped.
abbrev pub sync_row :
    SessionCall → String → AiSession → SessionState → ApiResult (Unit {0}) × SessionState
sync_row call id session s =
    if is_put_away session.status
    then (ok tt, s)
    else if call.statement_fails
    then (err internal, s)
    else (let written = record s {
      sessions = update id (synced_row call.now s.process) s.sessions;
    } in
        if str_eq session.status (phase_name s.process.phase)
        then (ok tt, written)
        else timeline call.audit id (phase_action s.process.phase)
            (field (codes "state") (string_value (codes (phase_name s.process.phase))) no_fields)
            written)

abbrev pub sync_found :
    SessionCall → String → Option AiSession → SessionState → ApiResult (Unit {0}) × SessionState
sync_found call id none s = (ok tt, s)
sync_found call id (some session) s = sync_row call id session s

abbrev pub sync_selected :
    SessionCall → Option String → SessionState → ApiResult (Unit {0}) × SessionState
sync_selected call none s = (ok tt, s)
sync_selected call (some id) s = sync_found call id (find_session id s.sessions) s

abbrev pub refreshed : SessionCall → SessionState → SessionState
refreshed call s = record s { process = refresh_child_status call.answer s.process }

pub sync_sessions : SessionCall → SessionState → ApiResult (Unit {0}) × SessionState
unfolding timeline
sync_sessions call s0 =
    let s = forget_grants (refreshed call s0) in sync_selected call s.process.session_id s

-- `sleep`, `stop` and `archive`, under the locks.
pub data PutAway : Type 0 where
  sleep stop archive : PutAway

abbrev pub final_status : PutAway → String
final_status sleep = "sleeping"
final_status stop = "stopped"
final_status archive = "archived"

abbrev pub final_action : PutAway → String
final_action sleep = "session.sleep"
final_action stop = "session.stopped"
final_action archive = "session.archived"

abbrev pub detach_if : Bool → ProcessState → ProcessState
detach_if selected p = if selected then detach_child p else p

abbrev pub is_other_pending : String → String × Details → Bool
is_other_pending id (request, d) = not (str_eq d.local_session_id id)

abbrev pub is_other_approval : String → String × Bytes → Bool
is_other_approval id (session, key) = not (str_eq session id)

-- The first of the two updates spares an archived row; the second does not.
abbrev pub stopping_row : ℕ → AiSession → AiSession
stopping_row now session =
    if str_eq session.status "archived"
    then session
    else record session { status = "stopping"; updated_at = now }

abbrev pub put_away_row : ℕ → PutAway → AiSession → AiSession
put_away_row now action session = record session {
  status = final_status action;
  pid = none;
  error = none;
  updated_at = now;
}

-- After the first update, and with nothing of the session left in memory.
abbrev pub stopping_state : ℕ → String → SessionState → SessionState
stopping_state now id s = record s {
  process = detach_if (is_opt s.process.session_id id) s.process;
  sessions = update id (stopping_row now) s.sessions;
  pending = keep (is_other_pending id) s.pending;
  approvals = keep (is_other_approval id) s.approvals;
}

abbrev pub put_away_state : ℕ → PutAway → String → SessionState → SessionState
put_away_state now action id s =
    let stopping = stopping_state now id s in
    record stopping { sessions = update id (put_away_row now action) stopping.sessions }

-- Which of the two updates fails.
pub data UpdateFailure : Type 0 where
  no_update_fails first_update_fails second_update_fails : UpdateFailure

pub put_away :
    SessionCall
    → UpdateFailure
    → PutAway
    → String
    → SessionState
    → ApiResult (Unit {0}) × SessionState
unfolding timeline
put_away call first_update_fails action id s = (err internal, s)
put_away call second_update_fails action id s = (err internal, stopping_state call.now id s)
put_away call no_update_fails action id s =
    timeline call.audit id (final_action action) no_fields (put_away_state call.now action id s)

-- The guards that the handlers share.
abbrev pub require_admin_if : Bool → Role → ApiResult (Unit {0})
require_admin_if unrestricted_session role =
    if unrestricted_session then require role admin else ok tt

pub chosen_session : (String → Bool) → Role → String → SessionState → ApiResult AiSession
unfolding ai_session
chosen_session is_uuid role id s = do
  session ← ai_session is_uuid id s.sessions
  require_admin_if (str_eq session.permission_mode "unrestricted") role
  ok session

pub may_act :
    (String → Bool) → Crypto → AuthUser → Headers → String → SessionState → ApiResult AiSession
unfolding chosen_session
may_act is_uuid crypto user headers id s = do
  require user.role operator
  verify_csrf crypto user headers
  chosen_session is_uuid user.role id s

-- `session_action` with one of these three actions.
pub session_action_put_away :
    (String → Bool)
    → Crypto
    → SessionCall
    → UpdateFailure
    → AuthUser
    → Headers
    → PutAway
    → String
    → SessionState
    → ApiResult AiSession × SessionState
unfolding may_act put_away ai_session
session_action_put_away is_uuid crypto call failure user headers action id s =
    then_do (may_act is_uuid crypto user headers id s, s)
      (λ session s.
        then_do (put_away call failure action id s) (λ u s. (ai_session is_uuid id s.sessions, s)))

-- The stored messages of a session are deleted with its row (ON DELETE CASCADE).
abbrev pub deleted_state : String → SessionState → SessionState
deleted_state id s = record s {
  sessions = keep (λ session. not (has_id id session)) s.sessions;
  pending = keep (is_other_pending id) s.pending;
  approvals = keep (is_other_approval id) s.approvals;
  ai_messages = keep (is_other_approval id) s.ai_messages;
}

pub may_delete :
    (String → Bool)
    → Crypto
    → AuthUser
    → Headers
    → Bool
    → String
    → SessionState
    → ApiResult (Unit {0})
unfolding chosen_session
may_delete is_uuid crypto user headers workspace_busy id s = do
  require user.role operator
  verify_csrf crypto user headers
  reject_if workspace_busy (service_unavailable "stop the active request before deletion")
  session ← chosen_session is_uuid user.role id s
  reject_if (is_opt s.process.session_id id && is_some s.process.child)
      (bad_request "stop or sleep the session before deletion")

abbrev pub delete_recorded : Bool → String → SessionState → ApiResult (Unit {0}) × SessionState
delete_recorded statement_fails id s =
    if statement_fails then (err internal, s) else (ok tt, deleted_state id s)

pub delete_session :
    (String → Bool)
    → Crypto
    → SessionCall
    → AuthUser
    → Headers
    → Bool
    → String
    → SessionState
    → ApiResult (Unit {0}) × SessionState
unfolding may_delete timeline
delete_session is_uuid crypto call user headers workspace_busy id s =
    then_do (may_delete is_uuid crypto user headers workspace_busy id s, s)
      (λ u s.
        then_do
          (timeline call.audit id "session.deleted"
            (field (codes "actor") (string_value (codes user.id)) no_fields) s)
          (λ u s. delete_recorded call.statement_fails id s))
