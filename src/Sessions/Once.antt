-- ===== src/Sessions/Once.antt =====
-- src/opencode/session_manager.rs, observe_event: each call of a tool has its records once.
use caroba_guard.Prelude.{
  ◌≤◌, String, ◌≡◌, refl, sym, subst, ◌⊎◌, inl, inr, Bool, true, false, ◌&&◌, Option, none, some,
  List, [], ◌∷◌, arith, str_eq, eq_iff, ◌==◌, ==_iff, Bool-cases, count_if, Bytes, codes, bytes_eq,
  eq_of_bytes_eq,
}
use caroba_guard.Context.{string_value, no_fields, field, Value, Fields}
use caroba_guard.Audit.{row, record_event-row, record_event-none, AuditEvent, AuditEnv}
use caroba_guard.Sessions.{timeline_event, timeline, SessionState}
use caroba_guard.Sessions.Tools.{
  is_text, tool_action, is_call_record, text_or_empty, is_edit, note_file, note_call, part_status,
  note_status, observe_tool, observe_tools, ToolEnv, ToolUpdate,
}
use caroba_guard.Json.{index}
use caroba_guard.Error.{ok, err, panicked, then_do, ApiResult}

abbrev pub IsCallAction : String → Type 0
IsCallAction action = (action ≡ "command.started") ⊎ (action ≡ "command.finished")

-- At most one record for each session, call, and end of it.
abbrev pub OncePerCall : List AuditEvent → Type 0
OncePerCall rows =
    (id action : String) (call : Bytes)
    → IsCallAction action
    → count_if (is_call_record id action call) rows ≤ 1

-- What a record leaves in the table: nothing, or its row on top.
timeline-rows :
    (env : AuditEnv) (id action : String) (metadata : Fields) (s : SessionState)
    → ((timeline env id action metadata s).1.audit_events ≡ s.audit_events)
      ⊎ ((timeline env id action metadata s).1.audit_events
          ≡ row env (timeline_event id action metadata) ∷ s.audit_events)
unfolding timeline
timeline-rows env id action metadata s = elim (Bool-cases env.fails) [
  | inl f ↦
      inl (rw (record_event-none env (timeline_event id action metadata) s.audit_events f) refl)
  | inr w ↦
      inr (rw (record_event-row env (timeline_event id action metadata) s.audit_events w) refl)
]

OncePerCall-timeline :
    (env : AuditEnv) (id action : String) (metadata : Fields) (s : SessionState)
    → OncePerCall (row env (timeline_event id action metadata) ∷ s.audit_events)
    → OncePerCall s.audit_events
    → OncePerCall (timeline env id action metadata s).1.audit_events
OncePerCall-timeline env id action metadata s more same =
    elim (timeline-rows env id action metadata s) [
      | inl e ↦ subst OncePerCall (sym e) same
      | inr e ↦ subst OncePerCall (sym e) more
    ]

-- A record of something else.
OncePerCall-other :
    (r : AuditEvent) (rows : List AuditEvent)
    → r.event.action ≡ "file.modified"
    → OncePerCall rows
    → OncePerCall (r ∷ rows)
OncePerCall-other r rows e once id action call (inl a) =
    let apart : str_eq r.event.action action ≡ false = rw (e, a) refl in
    ground (arith, apart, once id action call (inl a))
OncePerCall-other r rows e once id action call (inr a) =
    let apart : str_eq r.event.action action ≡ false = rw (e, a) refl in
    ground (arith, apart, once id action call (inr a))

-- The first record of a call.
OncePerCall-call :
    (env : AuditEnv) (id action : String) (call : Bytes) (rest : Fields) (rows : List AuditEvent)
    → count_if (is_call_record id action call) rows ≡ 0
    → OncePerCall rows
    → OncePerCall (
        row env (timeline_event id action (field (codes "call_id") (string_value call) rest))
        ∷ rows)
OncePerCall-call env id action call rest rows none_yet once id' action' call' a =
    elim (Bool-cases (str_eq id id' && str_eq action action' && bytes_eq call call')) [
      | inr n ↦ rw n (omega (arith, once id' action' call' a))
      | inl y ↦
          let (i, o, k) = three (str_eq id id') (str_eq action action') (bytes_eq call call') y in
          let same : count_if (is_call_record id' action' call') rows ≡ 0 =
            rw (← (eq_iff id id').0 i, ← (eq_iff action action').0 o, ← eq_of_bytes_eq call call' k)
              none_yet in
          rw y (omega (arith, same))
    ]
  where
    three : (a b c : Bool) → (a && b && c) ≡ true → (a ≡ true) × (b ≡ true) × (c ≡ true)
    three true true c h = (refl, refl, h)
    three true false c h = cc h
    three false b c h = cc h

OncePerCall-file :
    (env : AuditEnv) (id : String) (metadata : Fields) (s : SessionState)
    → OncePerCall s.audit_events
    → OncePerCall (timeline env id "file.modified" metadata s).1.audit_events
OncePerCall-file env id metadata s once =
    OncePerCall-timeline env id "file.modified" metadata s
      (OncePerCall-other (row env (timeline_event id "file.modified" metadata)) s.audit_events refl
        once)
      once

note_file-once :
    (env : ToolEnv) (id : String) (status call : Bytes) (part : Value) (s : SessionState)
    → OncePerCall s.audit_events
    → OncePerCall (note_file env id status call part s).1.audit_events
note_file-once env id status call part s once =
    elim (Bool-cases (bytes_eq status (codes "completed") && is_edit (index (codes "tool") part))) [
      | inr n ↦ rw n once
      | inl y ↦ rw y (
          OncePerCall-file env.file_audit id
            (field (codes "call_id") (string_value call) (
              field (codes "path")
                (index (codes "filePath") (index (codes "input") (index (codes "state") part)))
                no_fields))
            s once)
    ]

-- A step that keeps the records, after one that has.
OncePerCall-then :
    (r : ApiResult (Unit {0}) × SessionState)
    (next : Unit {0} → SessionState → ApiResult (Unit {0}) × SessionState)
    → OncePerCall r.1.audit_events
    → ((s : SessionState) → OncePerCall s.audit_events → OncePerCall (next tt s).1.audit_events)
    → OncePerCall (then_do r next).1.audit_events
OncePerCall-then (ok done, s) next once keeps = keeps s once
OncePerCall-then (err why, s) next once keeps = once
OncePerCall-then (panicked, s) next once keeps = once

note_call-once :
    (env : ToolEnv) (id action : String) (status call : Bytes) (part : Value) (s : SessionState)
    → OncePerCall s.audit_events
    → OncePerCall (note_call env id action status call part s).1.audit_events
unfolding note_call
note_call-once env id action status call part s once =
    elim (Bool-cases (count_if (is_call_record id action call) s.audit_events == 0)) [
      | inr n ↦ rw (n, note_call) once
      | inl y ↦
          rw (y, note_call)
            (OncePerCall-then (timeline env.call_audit id action metadata s)
              (λ _ s. note_file env id status call part s)
              (OncePerCall-timeline env.call_audit id action metadata s
                (OncePerCall-call env.call_audit id action call rest s.audit_events
                  ((==_iff _ 0).0 y) once)
                once)
              (note_file-once env id status call part))
    ]
  where
    rest : Fields
    rest =
        field (codes "tool") (index (codes "tool") part)
          (field (codes "status") (string_value status) no_fields)

    metadata : Fields
    metadata = field (codes "call_id") (string_value call) rest

observe_tool-once :
    (env : ToolEnv) (id : String) (part : Value) (s : SessionState)
    → OncePerCall s.audit_events
    → OncePerCall (observe_tool env id part s).1.audit_events
unfolding observe_tool
observe_tool-once env id part s once =
    elim (Bool-cases (is_text (index (codes "type") part) (codes "tool"))) [
      | inr n ↦ rw (n, observe_tool) once
      | inl y ↦ rw (y, observe_tool) (of_status (tool_action (part_status part)))
    ]
  where
    of_status : (o : Option String) → OncePerCall (note_status env id o part s).1.audit_events
    of_status none = once
    of_status (some action) =
        note_call-once env id action (part_status part)
          (text_or_empty (index (codes "callID") part)) part s once

-- However often the updates of tool calls arrive, in whatever order, and even where a record fails
-- and ends the stream: each call of a session has at most one record of its start and at most one of
-- its end, if that was so before.
pub observe_tools-once :
    (updates : List ToolUpdate) (s : SessionState)
    → OncePerCall s.audit_events
    → OncePerCall (observe_tools updates s).1.audit_events
unfolding observe_tools
observe_tools-once [] s once = once
observe_tools-once (u ∷ us) s once =
    OncePerCall-then (observe_tool u.env u.session u.part s) (λ _ s. observe_tools us s)
      (observe_tool-once u.env u.session u.part s once) (observe_tools-once us)
