-- ===== src/Sessions/Tools.antt =====
-- src/opencode/session_manager.rs, observe_event: the record of a tool's calls. An update of a call may come
-- more than once, and in any order.
use caroba_guard.Prelude.{
  String, Bool, false, ◌&&◌, ◌||◌, Option, none, some, List, [], ◌∷◌, str_eq, ◌==◌, if◌then◌else◌,
  unwrap_or, count_if, Bytes, codes, bytes_eq,
}
use caroba_guard.Error.{ok, then_do, ApiResult}
use caroba_guard.Context.{string_value, no_fields, field, Value}
use caroba_guard.Json.{index, as_str}
use caroba_guard.Audit.{AuditEvent, AuditEnv}
use caroba_guard.Sessions.{is_opt, timeline, SessionState}

-- What one update meets: the records of the call and of a changed file.
pub record ToolEnv : Type 0 where
  pub call_audit : AuditEnv
  pub file_audit : AuditEnv

abbrev pub is_text : Value → Bytes → Bool
is_text value text = elim (as_str value) [ none ↦ false | some t ↦ bytes_eq t text ]

abbrev pub tool_action : Bytes → Option String
tool_action status =
    if bytes_eq status (codes "running")
    then some "command.started"
    else if bytes_eq status (codes "completed") || bytes_eq status (codes "error")
    then some "command.finished"
    else none

-- The rows that the query for an earlier record counts.
abbrev pub is_call_record : String → String → Bytes → AuditEvent → Bool
is_call_record id action call e =
    is_opt e.event.ai_session_id id
    && str_eq e.event.action action
    && is_text (index (codes "call_id") e.event.metadata) call

abbrev pub text_or_empty : Value → Bytes
text_or_empty value = unwrap_or (as_str value) []

abbrev pub is_edit : Value → Bool
is_edit tool =
    is_text tool (codes "edit")
    || is_text tool (codes "write")
    || is_text tool (codes "apply_patch")

abbrev pub note_file :
    ToolEnv → String → Bytes → Bytes → Value → SessionState → ApiResult (Unit {0}) × SessionState
note_file env id status call part s =
    if bytes_eq status (codes "completed") && is_edit (index (codes "tool") part)
    then timeline env.file_audit id "file.modified"
        (field (codes "call_id") (string_value call) (
          field (codes "path")
            (index (codes "filePath") (index (codes "input") (index (codes "state") part)))
            no_fields))
        s
    else (ok tt, s)

unfoldable pub note_call :
    ToolEnv
    → String
    → String
    → Bytes
    → Bytes
    → Value
    → SessionState
    → ApiResult (Unit {0}) × SessionState
unfolding timeline
note_call env id action status call part s =
    if count_if (is_call_record id action call) s.audit_events == 0
    then then_do
        (timeline env.call_audit id action
          (field (codes "call_id") (string_value call) (
            field (codes "tool") (index (codes "tool") part)
              (field (codes "status") (string_value status) no_fields)))
          s)
        (λ _ s. note_file env id status call part s)
    else (ok tt, s)

abbrev pub part_status : Value → Bytes
part_status part = text_or_empty (index (codes "status") (index (codes "state") part))

abbrev pub note_status :
    ToolEnv → String → Option String → Value → SessionState → ApiResult (Unit {0}) × SessionState
note_status env id none part s = (ok tt, s)
note_status env id (some action) part s =
    note_call env id action (part_status part) (text_or_empty (index (codes "callID") part)) part s

-- The last part of `message.part.updated`.
unfoldable pub observe_tool :
    ToolEnv → String → Value → SessionState → ApiResult (Unit {0}) × SessionState
observe_tool env id part s =
    if is_text (index (codes "type") part) (codes "tool")
    then note_status env id (tool_action (part_status part)) part s
    else (ok tt, s)

pub record ToolUpdate : Type 0 where
  pub env : ToolEnv
  pub session : String
  pub part : Value

-- The updates of one event stream, which an update that fails ends.
unfoldable pub observe_tools : List ToolUpdate → SessionState → ApiResult (Unit {0}) × SessionState
observe_tools [] s = (ok tt, s)
observe_tools (u ∷ us) s =
    then_do (observe_tool u.env u.session u.part s) (λ _ s. observe_tools us s)
