-- ===== src/Sessions/Sections.antt =====
-- src/opencode/session_manager.rs: what each section of the two operations on permissions keeps.
use caroba_guard.Prelude.{
  String, ◌≡◌, refl, sym, ap, subst, inl, inr, Bool, true, List, ltb, Bool-cases, length, All,
  Bytes,
}
use caroba_guard.Error.{ok, err, panicked, then_do, ApiResult}
use caroba_guard.Context.{Value, Fields}
use caroba_guard.Audit.{AuditEnv}
use caroba_guard.Sessions.{AiSession, Details, SessionState}
use caroba_guard.Sessions.Sync.{timeline-kept}
use caroba_guard.Sessions.Permissions.{
  approval_key, decision_action, request_field, noted, post, automatic_reply, is_automatic,
  answer_asked, permission_asked, upstream, may_decide, granted, decide_on, permission_decision,
  PermissionReply, PermissionReplyRequest, Reply, Asking, AskCall,
}

-- What is true of the grants and of every reply, and what each section needs to keep it.
module _ {ℓ κ} (P : Reply → Type ℓ) (R : List (String × Bytes) → Type κ) where
  abbrev Kept : Asking → Type (ℓ ⊔ κ)
  Kept a = R a.state.approvals × All P a.sent

  noted-Kept :
      (env : AuditEnv) (id action : String) (metadata : Fields) (a : Asking)
      → Kept a
      → Kept (noted env id action metadata a).1
  unfolding noted
  noted-Kept env id action metadata a h = (
    subst (λ (s : SessionState). R s.approvals) (sym (timeline-kept env id action metadata a.state))
        h.0,
    h.1,
  )

  post-Kept :
      (arrives : Bool) (request_id : String) (reply : PermissionReply) (a : Asking)
      → P (record { request_id = request_id; reply = reply })
      → Kept a
      → Kept (post arrives request_id reply a).1
  unfolding post
  post-Kept arrives request_id reply a p h = (h.0, (p, h.1))

  -- Through a chain: what the first step keeps, and the next.
  then_do-Kept :
      {A B : Type 0} (r : ApiResult A × Asking) (next : A → Asking → ApiResult B × Asking)
      → Kept r.1
      → ((x : A) → r.0 ≡ ok x → Kept (next x r.1).1)
      → Kept (then_do r next).1
  then_do-Kept (ok x, a) next h k = k x refl
  then_do-Kept (err e, a) next h k = h
  then_do-Kept (panicked, a) next h k = h

  answer_asked-Kept :
      (print : Value → Bytes) (call : AskCall) (request_id : String) (d : Details) (a : Asking)
      → (R a.state.approvals
          → is_automatic print d a.state ≡ true
          → P (record { request_id = request_id; reply = automatic_reply a.state.process.mode }))
      → Kept a
      → Kept (answer_asked print call request_id d a).1
  answer_asked-Kept print call request_id d a p h =
      elim (Bool-cases (is_automatic print d a.state)) [
        | inl e ↦
            let reply : PermissionReply = automatic_reply a.state.process.mode in
            let k : Kept (post call.arrives request_id reply a).1 =
              post-Kept call.arrives request_id reply a (p h.0 e) h in
            rw e (
              then_do-Kept (post call.arrives request_id reply a) _ k (λ u f.
                noted-Kept call.answered d.local_session_id (decision_action reply)
                  (request_field request_id) (post call.arrives request_id reply a).1 k))
        | inr e ↦ rw e (elim (Bool-cases (ltb (length a.state.pending) 128)) [
          | inl f ↦ rw f h
          | inr f ↦ rw f h
        ])
      ]

  decide_on-Kept :
      (print : Value → Bytes) (call : AskCall) (session : AiSession) (request_id : String)
      (reply : PermissionReply) (d : Details) (a : Asking)
      → P (record { request_id = request_id; reply = upstream reply })
      → ((grants : List (String × Bytes))
          → R grants
          → R (granted reply session.id (approval_key print d) grants))
      → Kept a
      → Kept (decide_on print call session request_id reply d a).1
  decide_on-Kept print call session request_id reply d a p r h =
      let b : ApiResult (Unit {0}) × Asking =
        noted call.answered session.id (decision_action (upstream reply)) (request_field request_id)
          a in
      let kb : Kept b.1 =
        noted-Kept call.answered session.id (decision_action (upstream reply))
          (request_field request_id) a h in
      then_do-Kept b _ kb (λ u e.
        let c : ApiResult (Unit {0}) × Asking = post call.arrives request_id (upstream reply) b.1 in
        let kc : Kept c.1 = post-Kept call.arrives request_id (upstream reply) b.1 p kb in
        then_do-Kept c _ kc (λ v f. (r c.1.state.approvals kc.0, kc.1)))

  pub permission_asked-Kept :
      (print : Value → Bytes) (call : AskCall) (request_id : String) (d : Details) (a : Asking)
      → ((b : Asking)
          → b.state.process ≡ a.state.process
          → R b.state.approvals
          → is_automatic print d b.state ≡ true
          → P (record { request_id = request_id; reply = automatic_reply b.state.process.mode }))
      → Kept a
      → Kept (permission_asked print call request_id d a).1
  unfolding permission_asked
  permission_asked-Kept print call request_id d a p h =
      let b : ApiResult (Unit {0}) × Asking =
        noted call.asked d.local_session_id "permission.asked" (request_field request_id) a in
      let k : Kept b.1 =
        noted-Kept call.asked d.local_session_id "permission.asked" (request_field request_id) a
          h in
      then_do-Kept b _ k (λ u e.
        answer_asked-Kept print call request_id d b.1
          (p b.1 (
            noted-process call.asked d.local_session_id "permission.asked"
              (request_field request_id) a))
          k)
    where
      noted-process :
          (env : AuditEnv) (id action : String) (metadata : Fields) (a : Asking)
          → (noted env id action metadata a).1.state.process ≡ a.state.process
      noted-process env id action metadata a =
          ap (λ (s : SessionState). s.process) (timeline-kept env id action metadata a.state)

  pub permission_decision-Kept :
      (print : Value → Bytes) (call : AskCall) (session : AiSession) (request_id : String)
      (request : PermissionReplyRequest) (a : Asking)
      → ((d : Details)
          → may_decide session request_id request a.state ≡ ok d
          → P (record { request_id = request_id; reply = upstream request.reply })
            × ((grants : List (String × Bytes))
                → R grants
                → R (granted request.reply session.id (approval_key print d) grants)))
      → Kept a
      → Kept (permission_decision print call session request_id request a).1
  unfolding permission_decision
  permission_decision-Kept print call session request_id request a p h =
      then_do-Kept (may_decide session request_id request a.state, a) _ h
        (λ d e.
          decide_on-Kept print call session request_id request.reply d a (p d e).0 (p d e).1 h)
