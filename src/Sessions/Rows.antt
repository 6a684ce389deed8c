-- ===== src/Sessions/Rows.antt =====
-- src/opencode/session_manager.rs: what is left of a session that is put to sleep, stopped or archived.
use caroba_guard.Prelude.{
  ℕ, String, ◌≡◌, refl, sym, ap, subst, ◌∙◌, ◌≢◌, inl, inr, true, false, not, ◌&&◌, Option, none,
  some, List, [], ◌∷◌, arith, str_eq, eq_iff, if◌then◌else◌, Bool-cases, map_option, is_some, keep,
  All, keep-keep_stronger, Bytes,
}
use caroba_guard.Sessions.{
  is_opt, timeline, find_session, update, final_action, detach_if, is_other_pending,
  is_other_approval, stopping_row, put_away_row, stopping_state, put_away_state, put_away,
  AiSession, Details, SessionState, SessionCall, PutAway, UpdateFailure, sleep, stop, archive,
  no_update_fails, first_update_fails, second_update_fails,
}
use caroba_guard.Context.{no_fields}
use caroba_guard.Error.{ok, err, internal, ApiResult}
use caroba_guard.Audit.{record_event, AuditEnv}
use caroba_guard.OpenCode.Process.{detach_child, ProcessState}
use caroba_guard.Sessions.Sync.{find_session-update, find_session-updated, timeline-kept}

id-stopping_row : (now : ℕ) (x : AiSession) → (stopping_row now x).id ≡ x.id
id-stopping_row now x = elim (Bool-cases (str_eq x.status "archived")) [
  | inl e ↦ rw e
  | inr e ↦ rw e
]

put_away_state-sessions :
    (now : ℕ) (action : PutAway) (id : String) (rows : List AiSession)
    → find_session id (update id (put_away_row now action) (update id (stopping_row now) rows))
      ≡ map_option
          (λ (x : AiSession). put_away_row now action (stopping_row now x))
          (find_session id rows)
put_away_state-sessions now action id rows =
    find_session-updated id (put_away_row now action) (λ x. refl)
      (update id (stopping_row now) rows)
    ∙ ap (map_option (put_away_row now action))
        (find_session-updated id (stopping_row now) (id-stopping_row now) rows)
    ∙ twice (find_session id rows)
  where
    twice :
        (o : Option AiSession)
        → map_option (put_away_row now action) (map_option (stopping_row now) o)
          ≡ map_option (λ (x : AiSession). put_away_row now action (stopping_row now x)) o
    twice none = refl
    twice (some x) = refl

no_child :
    (p : ProcessState) (id : String)
    → let q = detach_if (is_opt p.session_id id) p in
      (is_opt q.session_id id && is_some q.child) ≡ false
unfolding detach_child
no_child p id = elim (Bool-cases (is_opt p.session_id id)) [
  | inl e ↦ rw (e, e) refl
  | inr e ↦ rw (e, e) refl
]

pub no_pending :
    (id : String) (pending : List (String × Details))
    → All
        (λ (p : String × Details). str_eq p.1.local_session_id id ≡ false)
        (keep (is_other_pending id) pending)
no_pending id [] = tt
no_pending id ((r, d) ∷ pending) = elim (Bool-cases (str_eq d.local_session_id id)) [
  | inl e ↦ rw e (no_pending id pending)
  | inr e ↦ rw e (e, no_pending id pending)
]

pub no_approvals :
    (id : String) (approvals : List (String × Bytes))
    → All (λ (a : String × Bytes). str_eq a.0 id ≡ false) (keep (is_other_approval id) approvals)
no_approvals id [] = tt
no_approvals id ((a, k) ∷ approvals) = elim (Bool-cases (str_eq a id)) [
  | inl e ↦ rw e (no_approvals id approvals)
  | inr e ↦ rw e (e, no_approvals id approvals)
]

-- Nothing of a session is pending or granted, and all of another one is.
pub record Forgotten (id other : String) (s after : SessionState) : Type 0 where
  pub no_requests :
      All (λ (p : String × Details). str_eq p.1.local_session_id id ≡ false) after.pending
  pub no_grants : All (λ (a : String × Bytes). str_eq a.0 id ≡ false) after.approvals
  pub other_requests :
      keep (λ (p : String × Details). str_eq p.1.local_session_id other) after.pending
      ≡ keep (λ (p : String × Details). str_eq p.1.local_session_id other) s.pending
  pub other_grants :
      keep (λ (a : String × Bytes). str_eq a.0 other) after.approvals
      ≡ keep (λ (a : String × Bytes). str_eq a.0 other) s.approvals

pub is_other :
    (id other name : String) → other ≢ id → str_eq name other ≡ true → not (str_eq name id) ≡ true
is_other id other name ne h =
    let same : name ≡ other = (eq_iff name other).0 h in ground (arith, eq_iff name id, same, ne)

pub other_approvals :
    (id other : String) (rows : List (String × Bytes))
    → other ≢ id
    → keep (λ (a : String × Bytes). str_eq a.0 other) (keep (is_other_approval id) rows)
      ≡ keep (λ (a : String × Bytes). str_eq a.0 other) rows
other_approvals id other rows ne =
    keep-keep_stronger (λ (a : String × Bytes). str_eq a.0 other) (is_other_approval id) rows
      (λ a. is_other id other a.0 ne)

pub forgotten :
    (id other : String) (s after : SessionState)
    → other ≢ id
    → after.pending ≡ keep (is_other_pending id) s.pending
    → after.approvals ≡ keep (is_other_approval id) s.approvals
    → Forgotten id other s after
forgotten id other s after ne p a = record {
  no_requests = rw p (no_pending id s.pending);
  no_grants = rw a (no_approvals id s.approvals);
  other_requests = rw p (
      keep-keep_stronger (λ (p : String × Details). str_eq p.1.local_session_id other)
        (is_other_pending id) s.pending (λ p. is_other id other p.1.local_session_id ne));
  other_grants = rw a (other_approvals id other s.approvals ne);
}

-- How a session rests.
abbrev pub resting : PutAway → String
resting sleep = "sleeping"
resting stop = "stopped"
resting archive = "archived"

abbrev pub rested : ℕ → PutAway → AiSession → AiSession
rested now action x = record x {
  status = resting action;
  pid = none;
  error = none;
  updated_at = now;
}

-- What is left, by the update that fails.
abbrev pub PutAwayLeaves :
    SessionCall
    → UpdateFailure
    → PutAway
    → String
    → String
    → AiSession
    → SessionState
    → ApiResult (Unit {0}) × SessionState
    → Type 0
PutAwayLeaves call first_update_fails action id other x s (answer, after) =
    (answer ≡ err internal) × (after ≡ s)
PutAwayLeaves call second_update_fails action id other x s (answer, after) =
    (answer ≡ err internal)
    × (find_session id after.sessions
        ≡ some (
            if str_eq x.status "archived"
            then x
            else record x { status = "stopping"; updated_at = call.now }))
    × ((is_opt after.process.session_id id && is_some after.process.child) ≡ false)
    × Forgotten id other s after
PutAwayLeaves call no_update_fails action id other x s (answer, after) =
    (answer ≡ (if call.audit.fails then err internal else ok tt))
    × (find_session id after.sessions ≡ some (rested call.now action x))
    × ((is_opt after.process.session_id id && is_some after.process.child) ≡ false)
    × Forgotten id other s after

timeline-answer :
    (env : AuditEnv) (id action : String) (s : SessionState)
    → (timeline env id action no_fields s).0 ≡ (if env.fails then err internal else ok tt)
unfolding timeline record_event
timeline-answer env id action s = elim (Bool-cases env.fails) [
  | inl e ↦ rw (e, record_event) refl
  | inr e ↦ rw (e, record_event) refl
]

rested-row :
    (now : ℕ) (action : PutAway) (x : AiSession)
    → put_away_row now action (stopping_row now x) ≡ rested now action x
rested-row now action x = elim (Bool-cases (str_eq x.status "archived")) [
  | inl e ↦ rw e (same action)
  | inr e ↦ rw e (same action)
]
  where
    same : (action : PutAway) → put_away_row now action x ≡ rested now action x
    same sleep = refl
    same stop = refl
    same archive = refl

-- What is left of a session that is put to sleep, stopped or archived, whichever statement fails. If the
-- first update fails, nothing has changed. If the second fails, the answer is an error, and the row is
-- that of a session that is stopping, or as it was if it was archived. If neither fails, the row has the
-- status of the action, no process and no error, and the answer is an error if the record cannot be
-- written. In the last two cases the process does not serve the session, none of its requests is pending
-- and none of its grants is left, while those of another session are. Every other session is found as it was.
pub put_away-PutAwayLeaves :
    (call : SessionCall) (failure : UpdateFailure) (action : PutAway) (id other : String)
    (x : AiSession) (s : SessionState)
    → other ≢ id
    → find_session id s.sessions ≡ some x
    → PutAwayLeaves call failure action id other x s (put_away call failure action id s)
      × (find_session other (put_away call failure action id s).1.sessions
          ≡ find_session other s.sessions)
unfolding put_away
put_away-PutAwayLeaves call first_update_fails action id other x s ne found = ((refl, refl), refl)
put_away-PutAwayLeaves call second_update_fails action id other x s ne found = (
  (
    refl,
    find_session-updated id (stopping_row call.now) (id-stopping_row call.now) s.sessions
        ∙ ap (map_option (stopping_row call.now)) found,
    no_child s.process id,
    forgotten id other s (stopping_state call.now id s) ne refl refl,
  ),
  find_session-update id (stopping_row call.now) (id-stopping_row call.now) other s.sessions ne,
)
put_away-PutAwayLeaves call no_update_fails action id other x s ne found =
    let t : SessionState = put_away_state call.now action id s in
    let after : SessionState = (timeline call.audit id (final_action action) no_fields t).1 in
    let kept = timeline-kept call.audit id (final_action action) no_fields t in
    let rows : after.sessions ≡ t.sessions = ap (λ (y : SessionState). y.sessions) kept in
    let process : after.process ≡ t.process = ap (λ (y : SessionState). y.process) kept in
    (
      (
        timeline-answer call.audit id (final_action action) t,
        ap (find_session id) rows
            ∙ put_away_state-sessions call.now action id s.sessions
            ∙ ap (map_option (λ y. put_away_row call.now action (stopping_row call.now y))) found
            ∙ ap (λ (y : AiSession). Option.some y) (rested-row call.now action x),
        subst (λ (p : ProcessState). (is_opt p.session_id id && is_some p.child) ≡ false)
            (sym process) (no_child s.process id),
        forgotten id other s after ne (ap (λ (y : SessionState). y.pending) kept)
            (ap (λ (y : SessionState). y.approvals) kept),
      ),
      ap (find_session other) rows
          ∙ find_session-update id (put_away_row call.now action) (λ x. refl) other
              (update id (stopping_row call.now) s.sessions) ne
          ∙ find_session-update id (stopping_row call.now) (id-stopping_row call.now) other
              s.sessions ne,
    )
