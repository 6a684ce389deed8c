-- ===== src/Sessions/Examples.antt =====
-- Runs of recover and of the tool calls of src/opencode/session_manager.rs.
use caroba_guard.Prelude.{◌+◌, ◌≡◌, refl, List, [], ◌∷◌, arith, length, All, Bytes, codes}
use caroba_guard.Error.{ok}
use caroba_guard.Audit.{record_event, row}
use caroba_guard.Context.{string_value, object_value, no_fields, field, Value}
use caroba_guard.Sessions.{timeline_event, timeline, SessionState}
use caroba_guard.Sessions.Recovery.{
  recover_one, recover_each, stale_ids, recover, IsQuiet, recover-IsQuiet,
}
use caroba_guard.Sessions.Tools.{note_call, observe_tool, observe_tools, ToolUpdate}
use caroba_guard.Sessions.Once.{OncePerCall, observe_tools-once}
use caroba_guard.Sessions.Tests.{session_of, two_sessions, audit_env, call}

runs : Unit {0}
unfolding recover recover_each recover_one timeline record_event observe_tools observe_tool
    note_call
runs = tt

-- A server that stopped while a session was ready.
abbrev after_crash : SessionState
after_crash = record two_sessions {
  sessions = session_of "a" "ready" ∷ session_of "b" "archived" ∷ [];
}

abbrev recovered : SessionState
recovered = record two_sessions {
  sessions = record (session_of "a" "sleeping") { updated_at = 9 } ∷ session_of "b" "archived" ∷ [];
  audit_events =
      row audit_env (
        timeline_event "a" "session.sleep"
          (field (codes "reason") (string_value (codes "backend_restart")) no_fields))
      ∷ [];
}

recover_runs : recover (λ id. call) after_crash ≡ (ok tt, recovered)
unfolding runs
recover_runs = refl

recover-IsQuiet_example :
    All IsQuiet recovered.sessions
    × (length recovered.audit_events
        ≡ length after_crash.audit_events + length (stale_ids after_crash.sessions))
recover-IsQuiet_example = recover-IsQuiet (λ id. call) after_crash recover_runs

abbrev tool_part : Bytes → Value
tool_part status = object_value (
    field (codes "type") (string_value (codes "tool")) (
      field (codes "callID") (string_value (codes "c1")) (
        field (codes "tool") (string_value (codes "bash")) (
          field (codes "state")
            (object_value (field (codes "status") (string_value status) no_fields)) no_fields))))

abbrev update_to : Bytes → ToolUpdate
update_to status = record {
  env = record { call_audit = audit_env; file_audit = audit_env };
  session = "a";
  part = tool_part status;
}

-- The start comes twice.
abbrev three_updates : List ToolUpdate
three_updates =
    update_to (codes "running") ∷ update_to (codes "running") ∷ update_to (codes "completed") ∷ []

two_records : length (observe_tools three_updates two_sessions).1.audit_events ≡ 2
unfolding runs
two_records = refl

observe_tools-once_example : OncePerCall (observe_tools three_updates two_sessions).1.audit_events
observe_tools-once_example =
    observe_tools-once three_updates two_sessions (λ id action call a. omega arith)
