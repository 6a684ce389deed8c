-- ===== src/Sessions/Permissions.antt =====
-- src/opencode/session_manager.rs: what the agent asks to be allowed, and who allows it. What is sent to
-- the agent is kept beside the state, newest first; whether it arrives is part of the call.
use caroba_guard.Prelude.{
  String, Bool, true, false, not, ◌&&◌, ◌||◌, Option, none, some, List, ◌∷◌, str_eq, ltb,
  if◌then◌else◌, unwrap_or, length, any, keep, first, Bytes, codes, bytes_eq,
}
use caroba_guard.Error.{
  ok, err, bad_request, forbidden, not_found, internal, ◌>>=◌, ◌>>◌, reject_if, or_fail, then_do,
  ApiResult,
}
use caroba_guard.Context.{
  string_value, array_value, no_items, item, no_fields, field, Value, Fields,
}
use caroba_guard.Audit.{AuditEnv}
use caroba_guard.OpenCode.{same_mode, AiPermissionMode, read_only}
use caroba_guard.Sessions.{is_opt, timeline, AiSession, Details, SessionState}

pub data PermissionReply : Type 0 where
  once always reject : PermissionReply

abbrev pub reply_text : PermissionReply → String
reply_text once = "once"
reply_text always = "always"
reply_text reject = "reject"

abbrev pub is_reject : PermissionReply → Bool
is_reject reject = true
is_reject _ = false

pub record PermissionReplyRequest : Type 0 where
  pub reply : PermissionReply
  pub message : Option Bytes

-- `POST /permission/{request_id}/reply`
pub record Reply : Type 0 where
  pub request_id : String
  pub reply : PermissionReply

pub record Asking : Type 0 where
  pub state : SessionState
  pub sent : List Reply

pub record AskCall : Type 0 where
  pub asked : AuditEnv
  pub answered : AuditEnv
  pub arrives : Bool

-- The array of the four fields, as `serde_json` prints it.
abbrev pub approval_key : (Value → Bytes) → Details → Bytes
approval_key print d = print (
    array_value (item d.permission (item d.patterns (item d.resources (item d.metadata no_items)))))

abbrev pub same_grant : String → Bytes → String × Bytes → Bool
same_grant id key (session, granted) = str_eq session id && bytes_eq granted key

abbrev pub decision_action : PermissionReply → String
decision_action reject = "permission.denied"
decision_action _ = "permission.approved"

abbrev pub request_field : String → Fields
request_field request_id = field (codes "request_id") (string_value (codes request_id)) no_fields

abbrev pub in_state : ApiResult (Unit {0}) × SessionState → Asking → ApiResult (Unit {0}) × Asking
in_state (r, s) a = (r, record a { state = s })

unfoldable pub noted : AuditEnv → String → String → Fields → Asking → ApiResult (Unit {0}) × Asking
unfolding timeline
noted env id action metadata a = in_state (timeline env id action metadata a.state) a

-- `request_json`: the reply is sent, and may fail.
unfoldable pub post : Bool → String → PermissionReply → Asking → ApiResult (Unit {0}) × Asking
post arrives request_id reply a = (
  if arrives then ok tt else err internal,
  record a { sent = record { request_id = request_id; reply = reply } ∷ a.sent },
)

abbrev pub automatic_reply : AiPermissionMode → PermissionReply
automatic_reply read_only = reject
automatic_reply _ = once

abbrev pub is_automatic : (Value → Bytes) → Details → SessionState → Bool
is_automatic print d s =
    same_mode s.process.mode read_only
    || any (same_grant d.local_session_id (approval_key print d)) s.approvals

abbrev pub insert_pending : String → Details → List (String × Details) → List (String × Details)
insert_pending request_id d pending =
    (request_id, d) ∷ keep (λ (p : String × Details). not (str_eq p.0 request_id)) pending

-- The event `permission.asked` of the session that the process serves, once it has been noted.
abbrev pub answer_asked :
    (Value → Bytes) → AskCall → String → Details → Asking → ApiResult (Unit {0}) × Asking
answer_asked print call request_id d a =
    if is_automatic print d a.state
    then then_do (post call.arrives request_id (automatic_reply a.state.process.mode) a) (λ u b.
      noted call.answered d.local_session_id
        (decision_action (automatic_reply a.state.process.mode)) (request_field request_id) b)
    else if ltb (length a.state.pending) 128
    then (
      ok tt,
      record a {
        state = record (a.state) { pending = insert_pending request_id d a.state.pending };
      },
    )
    else (err internal, a)

unfoldable pub permission_asked :
    (Value → Bytes) → AskCall → String → Details → Asking → ApiResult (Unit {0}) × Asking
unfolding noted post
permission_asked print call request_id d a =
    then_do (noted call.asked d.local_session_id "permission.asked" (request_field request_id) a)
      (λ u b. answer_asked print call request_id d b)

abbrev pub find_pending : String → List (String × Details) → Option (String × Details)
find_pending request_id pending = first (λ (p : String × Details). str_eq p.0 request_id) pending

-- The reply that goes to the agent: never `always`.
abbrev pub upstream : PermissionReply → PermissionReply
upstream reject = reject
upstream _ = once

abbrev pub is_too_long : Option Bytes → Bool
is_too_long none = false
is_too_long (some message) = ltb 4096 (length message)

-- The guards of `permission_decision`, with the details of the request.
unfoldable pub may_decide :
    AiSession → String → PermissionReplyRequest → SessionState → ApiResult Details
may_decide session request_id request s = do
  found ← or_fail (find_pending request_id s.pending) (not_found "permission is no longer pending")
  reject_if
      (not (str_eq found.1.local_session_id session.id)
        || not (str_eq found.1.remote_session_id (unwrap_or session.opencode_session_id ""))
        || not (is_opt s.process.session_id session.id))
      (forbidden "permission belongs to another session")
  reject_if (not (str_eq session.permission_mode "approval") && not (is_reject request.reply))
      (forbidden "this session cannot approve actions")
  reject_if (is_too_long request.message) (bad_request "permission context is too long")
  ok found.1

abbrev pub granted :
    PermissionReply → String → Bytes → List (String × Bytes) → List (String × Bytes)
granted always id key approvals = (id, key) ∷ approvals
granted _ id key approvals = approvals

abbrev pub decided :
    (Value → Bytes) → AiSession → String → PermissionReply → Details → Asking → Asking
decided print session request_id reply d a = record a {
  state = record (a.state) {
    approvals = granted reply session.id (approval_key print d) a.state.approvals;
    pending = keep (λ (p : String × Details). not (str_eq p.0 request_id)) a.state.pending;
  };
}

abbrev pub decide_on :
    (Value → Bytes)
    → AskCall
    → AiSession
    → String
    → PermissionReply
    → Details
    → Asking
    → ApiResult (Unit {0}) × Asking
decide_on print call session request_id reply d a =
    then_do
      (noted call.answered session.id (decision_action (upstream reply)) (request_field request_id)
        a)
      (λ u b.
        then_do (post call.arrives request_id (upstream reply) b)
          (λ u c. (ok tt, decided print session request_id reply d c)))

unfoldable pub permission_decision :
    (Value → Bytes)
    → AskCall
    → AiSession
    → String
    → PermissionReplyRequest
    → Asking
    → ApiResult (Unit {0}) × Asking
unfolding may_decide noted post
permission_decision print call session request_id request a =
    then_do (may_decide session request_id request a.state, a)
      (λ d a. decide_on print call session request_id request.reply d a)
