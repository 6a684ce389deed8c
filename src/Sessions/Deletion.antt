-- ===== src/Sessions/Deletion.antt =====
-- src/opencode/session_manager.rs, `delete_session`.
use caroba_guard.Prelude.{
  String, ◌≡◌, refl, sym, ap, subst, ◌∙◌, ◌≢◌, inl, inr, Bool, true, false, not, ◌&&◌, none, List,
  [], ◌∷◌, arith, str_eq, eq_iff, Bool-cases, is_some, keep, All, Bytes, codes,
}
use caroba_guard.Error.{
  ok, service_unavailable, reject_if, >>=-eq-ok, then_do-ok, ApiError, ApiResult,
}
use caroba_guard.Auth.{require, Headers, verify_csrf, AuthUser, Crypto, operator}
use caroba_guard.Context.{string_value, no_fields, field, Fields}
use caroba_guard.Sessions.{
  is_opt, timeline, has_id, find_session, is_other_pending, is_other_approval, chosen_session,
  deleted_state, may_delete, delete_recorded, delete_session, AiSession, SessionState, SessionCall,
}
use caroba_guard.Sessions.Sync.{timeline-kept}
use caroba_guard.Sessions.Rows.{no_approvals, other_approvals, forgotten, Forgotten}

find_session-deleted :
    (id : String) (rows : List AiSession)
    → find_session id (keep (λ x. not (has_id id x)) rows) ≡ none
find_session-deleted id [] = refl
find_session-deleted id (x ∷ rows) = elim (Bool-cases (str_eq x.id id)) [
  | inl e ↦ rw e (find_session-deleted id rows)
  | inr e ↦ rw (e, e) (find_session-deleted id rows)
]

find_session-others :
    (id other : String) (rows : List AiSession)
    → other ≢ id
    → find_session other (keep (λ x. not (has_id id x)) rows) ≡ find_session other rows
find_session-others id other [] ne = refl
find_session-others id other (x ∷ rows) ne = elim (Bool-cases (str_eq x.id id)) [
  | inl e ↦
      let there : x.id ≡ id = (eq_iff x.id id).0 e in
      let apart : str_eq x.id other ≡ false = ground (arith, eq_iff x.id other) in
      rw (e, apart) (find_session-others id other rows ne)
  | inr e ↦ rw e (elim (Bool-cases (str_eq x.id other)) [
    | inl g ↦ rw g
    | inr g ↦ rw g (find_session-others id other rows ne)
  ])
]

reject_if-false : (b : Bool) (e : ApiError) {u : Unit {0}} → reject_if b e ≡ ok u → b ≡ false
reject_if-false true e h = cc
reject_if-false false e h = refl

may_delete-ok :
    (is_uuid : String → Bool) (crypto : Crypto) (user : AuthUser) (headers : Headers)
    (in_use : Bool) (id : String) (s : SessionState)
    → may_delete is_uuid crypto user headers in_use id s ≡ ok tt
    → (require user.role operator ≡ ok tt)
      × (in_use ≡ false)
      × ((is_opt s.process.session_id id && is_some s.process.child) ≡ false)
unfolding may_delete
may_delete-ok is_uuid crypto user headers in_use id s h =
    let r1 = >>=-eq-ok (require user.role operator) _ h in
    let r2 = >>=-eq-ok (verify_csrf crypto user headers) _ r1.2 in
    let r3 =
      >>=-eq-ok (reject_if in_use (service_unavailable "stop the active request before deletion")) _
        r2.2 in
    let r4 = >>=-eq-ok (chosen_session is_uuid user.role id s) _ r3.2 in
    (r1.1, reject_if-false in_use _ r3.1, reject_if-false _ _ r4.2)

delete_recorded-ok :
    (fails : Bool) (id : String) (s after : SessionState)
    → delete_recorded fails id s ≡ (ok tt, after)
    → after ≡ deleted_state id s
delete_recorded-ok true id s after h = cc h
delete_recorded-ok false id s after h =
    ap (λ (x : ApiResult (Unit {0}) × SessionState). x.1) (sym h)

-- What a deletion by a user leaves.
pub record Deleted (id other : String) (user : AuthUser) (in_use : Bool) (s after : SessionState)
    : Type 0 where
  pub permitted : require user.role operator ≡ ok tt
  pub idle : in_use ≡ false
  pub unserved : (is_opt s.process.session_id id && is_some s.process.child) ≡ false
  pub gone : find_session id after.sessions ≡ none
  pub others : find_session other after.sessions ≡ find_session other s.sessions
  pub forgets : Forgotten id other s after
  pub no_messages : All (λ (m : String × Bytes). str_eq m.0 id ≡ false) after.ai_messages
  pub other_messages :
      keep (λ (m : String × Bytes). str_eq m.0 other) after.ai_messages
      ≡ keep (λ (m : String × Bytes). str_eq m.0 other) s.ai_messages
  pub same_process : after.process ≡ s.process

-- A deletion that succeeds was an operator's, with no request running and no process that serves the
-- session. The session is not found any more, and neither a pending request nor a grant nor a stored
-- message of it is left. Every other session is found as it was, with its pending requests, its grants
-- and its stored messages, and the state of the process has not changed.
pub delete_session-ok :
    (is_uuid : String → Bool) (crypto : Crypto) (call : SessionCall) (user : AuthUser)
    (headers : Headers) (in_use : Bool) (id other : String) (s after : SessionState)
    → other ≢ id
    → delete_session is_uuid crypto call user headers in_use id s ≡ (ok tt, after)
    → Deleted id other user in_use s after
unfolding delete_session
delete_session-ok is_uuid crypto call user headers in_use id other s after ne h =
    let r1 = then_do-ok (may_delete is_uuid crypto user headers in_use id s, s) _ h in
    let allowed = may_delete-ok is_uuid crypto user headers in_use id s r1.1 in
    let meta : Fields = field (codes "actor") (string_value (codes user.id)) no_fields in
    let r2 = then_do-ok (timeline call.audit id "session.deleted" meta s) _ r1.2 in
    let t : SessionState = (timeline call.audit id "session.deleted" meta s).1 in
    let kept = timeline-kept call.audit id "session.deleted" meta s in
    let rows : t.sessions ≡ s.sessions = ap (λ (x : SessionState). x.sessions) kept in
    let messages : t.ai_messages ≡ s.ai_messages = ap (λ (x : SessionState). x.ai_messages) kept in
    let left : after ≡ deleted_state id t =
      delete_recorded-ok call.statement_fails id t after r2.2 in
    subst (Deleted id other user in_use s) (sym left) (record {
      permitted = allowed.0;
      idle = allowed.1;
      unserved = allowed.2;
      gone = find_session-deleted id t.sessions;
      others = find_session-others id other t.sessions ne ∙ ap (find_session other) rows;
      forgets =
          forgotten id other s (deleted_state id t) ne
            (ap (λ (x : SessionState). keep (is_other_pending id) x.pending) kept)
            (ap (λ (x : SessionState). keep (is_other_approval id) x.approvals) kept);
      no_messages = no_approvals id t.ai_messages;
      other_messages =
          other_approvals id other t.ai_messages ne
          ∙ ap (keep (λ (m : String × Bytes). str_eq m.0 other)) messages;
      same_process = ap (λ (x : SessionState). x.process) kept;
    })
