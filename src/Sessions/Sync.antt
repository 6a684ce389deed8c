-- ===== src/Sessions/Sync.antt =====
-- src/opencode/session_manager.rs: updates of the session table, and the rows that a synchronisation touches.
use caroba_guard.Prelude.{
  String, ◌≡◌, refl, sym, ap, subst, ◌∙◌, ◌≢◌, ◌⊎◌, inl, inr, Bool, true, false, Option, none, some,
  List, [], ◌∷◌, arith, str_eq, eq_iff, if◌then◌else◌, Bool-cases, map_option, codes,
}
use caroba_guard.Sessions.{
  is_opt, timeline_event, recorded, timeline, find_session, update, phase_name, phase_action, is_up,
  is_put_away, synced_row, sync_row, sync_found, sync_selected, refreshed, sync_sessions, AiSession,
  SessionState, SessionCall,
}
use caroba_guard.Error.{ok}
use caroba_guard.Context.{string_value, no_fields, field, Fields}
use caroba_guard.Audit.{record_event, AuditEvent, AuditEnv}
use caroba_guard.OpenCode.Process.{
  exited, running, wait_failed, refresh_for, refresh_child_status, Child, ProcessState, TryWait,
}

-- An update of one row: every other is found as it was, and the row is found updated.
module _ (id : String) (f : AiSession → AiSession)
    (same_id : (x : AiSession) → (f x).id ≡ x.id) where
  pub find_session-update :
      (other : String) (rows : List AiSession)
      → other ≢ id
      → find_session other (update id f rows) ≡ find_session other rows
  find_session-update other [] ne = refl
  find_session-update other (x ∷ rows) ne = elim (Bool-cases (str_eq x.id id)) [
    | inl e ↦
        let there : x.id ≡ id = (eq_iff x.id id).0 e in
        let apart : str_eq x.id other ≡ false = ground (arith, eq_iff x.id other) in
        rw (e, same_id x, apart) (find_session-update other rows ne)
    | inr e ↦ rw e (elim (Bool-cases (str_eq x.id other)) [
      | inl g ↦ rw g
      | inr g ↦ rw g (find_session-update other rows ne)
    ])
  ]

  pub find_session-updated :
      (rows : List AiSession)
      → find_session id (update id f rows) ≡ map_option f (find_session id rows)
  find_session-updated [] = refl
  find_session-updated (x ∷ rows) = elim (Bool-cases (str_eq x.id id)) [
    | inl e ↦ rw (e, same_id x, e)
    | inr e ↦ rw (e, e) (find_session-updated rows)
  ]

-- `timeline` changes nothing but the records.
pub timeline-kept :
    (env : AuditEnv) (id action : String) (metadata : Fields) (s : SessionState)
    → let after = (timeline env id action metadata s).1 in
      after ≡ record s { audit_events = after.audit_events }
unfolding timeline
timeline-kept env id action metadata s =
    of_record (record_event env (timeline_event id action metadata) s.audit_events)
  where
    of_record :
        (events : Option (List AuditEvent))
        → (recorded events s).1 ≡ record s { audit_events = (recorded events s).1.audit_events }
    of_record none = refl
    of_record (some events) = refl

-- Whether the sync passes a row over.
abbrev pub Spared : SessionState → String → AiSession → Type 0
Spared s other session =
    (is_opt s.process.session_id other ≡ false) ⊎ (is_put_away session.status ≡ true)

sync_row-Spared :
    (call : SessionCall) (id other : String) (chosen session : AiSession) (s : SessionState)
    → find_session id s.sessions ≡ some chosen
    → find_session other s.sessions ≡ some session
    → (str_eq id other ≡ false) ⊎ (is_put_away session.status ≡ true)
    → find_session other (sync_row call id chosen s).1.sessions ≡ some session
sync_row-Spared call id other chosen session s c o spared =
    elim (Bool-cases (is_put_away chosen.status)) [
      | inl e ↦ rw e o
      | inr e ↦ elim (Bool-cases call.statement_fails) [
        | inl f ↦ rw (e, f) o
        | inr f ↦ rw (e, f) (written (str_eq chosen.status (phase_name s.process.phase)) e)
      ]
    ]
  where
    moved : SessionState
    moved = record s { sessions = update id (synced_row call.now s.process) s.sessions }

    apart :
        (str_eq id other ≡ false) ⊎ (is_put_away session.status ≡ true)
        → is_put_away chosen.status ≡ false
        → other ≢ id
    apart (inl n) p = λ g. let t : str_eq id other ≡ true = (eq_iff id other).1 (sym g) in cc
    apart (inr away) p = λ g.
        let same : some chosen ≡ some session =
          sym c ∙ ap (λ (i : String). find_session i s.sessions) (sym g) ∙ o in
        let equal : chosen ≡ session = cc in
        let t : is_put_away chosen.status ≡ true =
          subst (λ (x : AiSession). is_put_away x.status ≡ true) (sym equal) away in
        cc

    found : is_put_away chosen.status ≡ false → find_session other moved.sessions ≡ some session
    found p =
        find_session-update id (synced_row call.now s.process) (λ x. refl) other s.sessions
          (apart spared p)
        ∙ o

    written :
        (unchanged : Bool)
        → is_put_away chosen.status ≡ false
        → find_session other
            (if unchanged
              then (ok tt, moved)
              else timeline call.audit id
                  (phase_action s.process.phase)
                  (field
                    (codes "state")
                    (string_value (codes (phase_name s.process.phase)))
                    no_fields)
                  moved).1.sessions
          ≡ some session
    written true p = found p
    written false p =
        ap (find_session other) (
          ap (λ (x : SessionState). x.sessions)
            (timeline-kept call.audit id (phase_action s.process.phase)
              (field (codes "state") (string_value (codes (phase_name s.process.phase))) no_fields)
              moved))
        ∙ found p

sync_selected-Spared :
    (call : SessionCall) (o : Option String) (other : String) (session : AiSession)
    (s : SessionState)
    → find_session other s.sessions ≡ some session
    → (is_opt o other ≡ false) ⊎ (is_put_away session.status ≡ true)
    → find_session other (sync_selected call o s).1.sessions ≡ some session
sync_selected-Spared call none other session s e spared = e
sync_selected-Spared call (some id) other session s e spared =
    of_found (find_session id s.sessions) refl
  where
    of_found :
        (o : Option AiSession)
        → find_session id s.sessions ≡ o
        → find_session other (sync_found call id o s).1.sessions ≡ some session
    of_found none n = e
    of_found (some chosen) c = sync_row-Spared call id other chosen session s c e spared

session_id-refresh :
    (answer : TryWait) (p : ProcessState)
    → (refresh_child_status answer p).session_id ≡ p.session_id
unfolding refresh_child_status
session_id-refresh answer p = of_child answer p.child
  where
    of_child :
        (answer : TryWait) (c : Option Child) → (refresh_for c answer p).session_id ≡ p.session_id
    of_child answer none = refl
    of_child (exited status) (some c) = refl
    of_child running (some c) = refl
    of_child (wait_failed text) (some c) = refl

-- A synchronisation writes into the selected session only, and not even there when that session is
-- archived or stopped: every other row is found as it was.
pub sync_sessions-Spared :
    (call : SessionCall) (other : String) (session : AiSession) (s : SessionState)
    → find_session other s.sessions ≡ some session
    → Spared s other session
    → find_session other (sync_sessions call s).1.sessions ≡ some session
unfolding sync_sessions
sync_sessions-Spared call other session s e spared =
    of_grants (is_up (refreshed call s).process.phase)
  where
    selected : Option String
    selected = (refreshed call s).process.session_id

    spared_too : (is_opt selected other ≡ false) ⊎ (is_put_away session.status ≡ true)
    spared_too =
        subst
          (λ (o : Option String). (is_opt o other ≡ false) ⊎ (is_put_away session.status ≡ true))
          (sym (session_id-refresh call.answer s.process)) spared

    of_grants :
        (up : Bool)
        → find_session other
            (let t =
                if up
                then refreshed call s
                else record (refreshed call s) { pending = []; approvals = [] } in
              sync_selected call t.process.session_id t).1.sessions
          ≡ some session
    of_grants true =
        sync_selected-Spared call selected other session (refreshed call s) e spared_too
    of_grants false =
        sync_selected-Spared call selected other session
          (record (refreshed call s) { pending = []; approvals = [] }) e spared_too
