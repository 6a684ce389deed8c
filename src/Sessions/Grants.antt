-- ===== src/Sessions/Grants.antt =====
-- src/opencode/session_manager.rs: what any sequence of requests and decisions lets the agent do.
use caroba_guard.Prelude.{
  String, ◌≡◌, refl, sym, ap, subst, ◌≢◌, ◌⊎◌, inl, inr, true, false, not, ◌&&◌, ◌||◌, List, [],
  ◌∷◌, str_eq, unwrap_or, any, All, Bytes,
}
use caroba_guard.Error.{ok, forbidden, not_found, reject_if, or_fail, >>=-eq-ok}
use caroba_guard.Context.{Value}
use caroba_guard.OpenCode.Process.{ProcessState}
use caroba_guard.Sessions.{is_opt, AiSession, Details, SessionState}
use caroba_guard.Sessions.Permissions.{
  is_reject, approval_key, same_grant, automatic_reply, permission_asked, find_pending, upstream,
  may_decide, granted, permission_decision, PermissionReply, PermissionReplyRequest, Reply, Asking,
  AskCall, once, always, reject,
}
use caroba_guard.OpenCode.{same_mode, AiPermissionMode, read_only, approval, unrestricted}
use caroba_guard.Sessions.Sections.{permission_asked-Kept, permission_decision-Kept}

-- The process may change in any way between the two operations.
pub data AskEvent : Type 0 where
  asks : AskCall → String → Details → AskEvent
  decides : AskCall → AiSession → String → PermissionReplyRequest → AskEvent
  becomes : ProcessState → AskEvent
  forgets : AskEvent

unfoldable pub ask_step : (Value → Bytes) → AskEvent → Asking → Asking
ask_step print (asks call request_id d) a = (permission_asked print call request_id d a).1
ask_step print (decides call session request_id request) a =
    (permission_decision print call session request_id request a).1
ask_step print (becomes p) a = record a { state = record (a.state) { process = p } }
ask_step print forgets a = record a { state = record (a.state) { pending = []; approvals = [] } }

unfoldable pub ask_run : (Value → Bytes) → List AskEvent → Asking → Asking
unfolding ask_step
ask_run print [] a = a
ask_run print (event ∷ events) a = ask_run print events (ask_step print event a)

-- No sequence of requests and decisions ever sends `always` to the agent, whose newer versions could
-- store it as a rule: whatever is allowed is allowed once.
pub ask_run-never_always :
    (print : Value → Bytes) (events : List AskEvent) (a : Asking)
    → All (λ (r : Reply). r.reply ≢ always) a.sent
    → All (λ (r : Reply). r.reply ≢ always) (ask_run print events a).sent
unfolding ask_run
ask_run-never_always print [] a h = h
ask_run-never_always print (event ∷ events) a h =
    ask_run-never_always print events (ask_step print event a) (of_event event a h)
  where
    automatic : (m : AiPermissionMode) → automatic_reply m ≢ always
    automatic read_only = λ e. cc e
    automatic approval = λ e. cc e
    automatic unrestricted = λ e. cc e

    sent_up : (r : PermissionReply) → upstream r ≢ always
    sent_up once = λ e. cc e
    sent_up always = λ e. cc e
    sent_up reject = λ e. cc e

    of_event :
        (event : AskEvent) (a : Asking)
        → All (λ (r : Reply). r.reply ≢ always) a.sent
        → All (λ (r : Reply). r.reply ≢ always) (ask_step print event a).sent
    of_event (asks call request_id d) a h =
        (permission_asked-Kept (λ (r : Reply). r.reply ≢ always) (λ g. Unit {0}) print call
          request_id d a (λ b e t f. automatic b.state.process.mode) (tt, h)).1
    of_event (decides call session request_id request) a h =
        (permission_decision-Kept (λ (r : Reply). r.reply ≢ always) (λ g. Unit {0}) print call
          session request_id request a (λ d e. (sent_up request.reply, λ g t. tt)) (tt, h)).1
    of_event (becomes p) a h = h
    of_event forgets a h = h

-- A decision that allows nothing: a rejection, or one for a session that is not in approval mode.
abbrev pub AllowsNothing : AskEvent → Type 0
AllowsNothing (decides call session request_id request) =
    (request.reply ≡ reject) ⊎ (str_eq session.permission_mode "approval" ≡ false)
AllowsNothing _ = Unit

may_decide-reject :
    (session : AiSession) (request_id : String) (request : PermissionReplyRequest)
    (s : SessionState) {d : Details}
    → (request.reply ≡ reject) ⊎ (str_eq session.permission_mode "approval" ≡ false)
    → may_decide session request_id request s ≡ ok d
    → request.reply ≡ reject
unfolding may_decide
may_decide-reject session request_id request s (inl e) h = e
may_decide-reject session request_id request s (inr mode) h =
    let r1 =
      >>=-eq-ok
        (or_fail (find_pending request_id s.pending) (not_found "permission is no longer pending"))
        _ h in
    let r2 =
      >>=-eq-ok
        (reject_if
          (not (str_eq r1.0.1.local_session_id session.id)
            || not (str_eq r1.0.1.remote_session_id (unwrap_or session.opencode_session_id ""))
            || not (is_opt s.process.session_id session.id))
          (forbidden "permission belongs to another session"))
        _ r1.2 in
    let r3 =
      >>=-eq-ok
        (reject_if
          (not (str_eq session.permission_mode "approval") && not (is_reject request.reply))
          (forbidden "this session cannot approve actions"))
        _ r2.2 in
    of_reply request.reply (rw mode at r3.1)
  where
    of_reply :
        (r : PermissionReply)
        → reject_if (not (is_reject r)) (forbidden "this session cannot approve actions") ≡ ok tt
        → r ≡ reject
    of_reply reject e = refl
    of_reply once e = cc e
    of_reply always e = cc e

-- While no decision allows anything and nothing has been granted before, whatever is asked and
-- however the process changes, the only answer that the agent gets is `reject`, and nothing is
-- granted.
pub ask_run-rejects :
    (print : Value → Bytes) (events : List AskEvent) (a : Asking)
    → All AllowsNothing events
    → a.state.approvals ≡ []
    → All (λ (r : Reply). r.reply ≡ reject) a.sent
    → ((ask_run print events a).state.approvals ≡ [])
      × All (λ (r : Reply). r.reply ≡ reject) (ask_run print events a).sent
unfolding ask_run
ask_run-rejects print [] a n g h = (g, h)
ask_run-rejects print (event ∷ events) a n g h =
    let k = of_event event a n.0 (g, h) in
    ask_run-rejects print events (ask_step print event a) n.1 k.0 k.1
  where
    automatic :
        (m : AiPermissionMode) (d : Details) (grants : List (String × Bytes))
        → grants ≡ []
        → (same_mode m read_only
            || any (same_grant d.local_session_id (approval_key print d)) grants)
          ≡ true
        → automatic_reply m ≡ reject
    automatic read_only d grants e f = refl
    automatic approval d grants e f = cc (rw e at f)
    automatic unrestricted d grants e f = cc (rw e at f)

    of_event :
        (event : AskEvent) (a : Asking)
        → AllowsNothing event
        → (a.state.approvals ≡ []) × All (λ (r : Reply). r.reply ≡ reject) a.sent
        → ((ask_step print event a).state.approvals ≡ [])
          × All (λ (r : Reply). r.reply ≡ reject) (ask_step print event a).sent
    of_event (asks call request_id d) a n k =
        permission_asked-Kept (λ (r : Reply). r.reply ≡ reject) (λ g. g ≡ []) print call request_id
          d a (λ b e t f. automatic b.state.process.mode d b.state.approvals t f) k
    of_event (decides call session request_id request) a n k =
        permission_decision-Kept (λ (r : Reply). r.reply ≡ reject) (λ g. g ≡ []) print call session
          request_id request a
          (λ d e.
            let rejected : request.reply ≡ reject =
              may_decide-reject session request_id request a.state n e in
            (
              ap upstream rejected,
              λ grants t.
                  subst
                    (λ (r : PermissionReply).
                      granted r session.id (approval_key print d) grants ≡ [])
                    (sym rejected) t,
            ))
          k
    of_event (becomes p) a n k = k
    of_event forgets a n k = (refl, k.1)
