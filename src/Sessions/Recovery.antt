-- ===== src/Sessions/Recovery.antt =====
-- src/opencode/session_manager.rs, recover: after a restart of the server no session is taken to run.
use caroba_guard.Prelude.{
  ℕ, ◌+◌, String, ◌≡◌, refl, sym, ap, subst, inl, inr, Bool, true, false, ◌||◌, Option, none, some,
  List, [], ◌∷◌, arith, str_eq, eq_refl, if◌then◌else◌, Bool-cases, is_some, length, any, All,
  codes,
}
use caroba_guard.Error.{ok, err, internal, then_do, then_do-ok, ApiResult}
use caroba_guard.Context.{string_value, no_fields, field}
use caroba_guard.Audit.{record_event, record_event-length, NewAuditEvent, AuditEvent}
use caroba_guard.Sessions.{
  timeline_event, recorded, timeline, update_row, update, AiSession, SessionState, SessionCall,
}

abbrev pub is_stale : AiSession → Bool
is_stale session =
    str_eq session.status "ready"
    || str_eq session.status "starting"
    || str_eq session.status "stopping"
    || is_some session.pid

abbrev pub asleep_row : ℕ → AiSession → AiSession
asleep_row now session = record session {
  status = "sleeping";
  pid = none;
  error = none;
  updated_at = now;
}

unfoldable pub recover_one :
    SessionCall → String → SessionState → ApiResult (Unit {0}) × SessionState
unfolding timeline
recover_one call id s =
    if call.statement_fails
    then (err internal, s)
    else timeline call.audit id "session.sleep"
        (field (codes "reason") (string_value (codes "backend_restart")) no_fields)
        (record s { sessions = update id (asleep_row call.now) s.sessions })

unfoldable pub recover_each :
    (String → SessionCall) → List String → SessionState → ApiResult (Unit {0}) × SessionState
recover_each calls [] s = (ok tt, s)
recover_each calls (id ∷ ids) s =
    then_do (recover_one (calls id) id s) (λ _ s. recover_each calls ids s)

abbrev pub stale_ids : List AiSession → List String
stale_ids [] = []
stale_ids (session ∷ sessions) =
    let rest = stale_ids sessions in if is_stale session then session.id ∷ rest else rest

-- `recover`; each session meets a time and failures of its own.
unfoldable pub recover : (String → SessionCall) → SessionState → ApiResult (Unit {0}) × SessionState
unfolding recover_each recover_one
recover calls s = recover_each calls (stale_ids s.sessions) s

-- A row that is still to come, or quiet.
abbrev Pending : List String → AiSession → Type 0
Pending ids session = (is_stale session ≡ true) → any (str_eq session.id) ids ≡ true

Pending-update :
    (id : String) (now : ℕ) (ids : List String) (session : AiSession)
    → Pending (id ∷ ids) session
    → Pending ids (update_row id (asleep_row now) session)
Pending-update id now ids session p = elim (Bool-cases (str_eq session.id id)) [
  | inl e ↦ rw e (λ s. cc)
  | inr n ↦ rw n (λ s. ground (arith, p s))
]

recover_one-ok :
    (call : SessionCall) (id : String) (s : SessionState) {s' : SessionState}
    → recover_one call id s ≡ (ok tt, s')
    → (s'.sessions ≡ update id (asleep_row call.now) s.sessions)
      × (length s'.audit_events ≡ length s.audit_events + 1)
unfolding recover_one timeline
recover_one-ok call id s {s'} h = elim (Bool-cases call.statement_fails) [
  | inl f ↦ cc (rw (f, recover_one) at h)
  | inr w ↦ of_record (record_event call.audit event s.audit_events) refl (rw (w, recover_one) at h)
]
  where
    event : NewAuditEvent
    event =
        timeline_event id "session.sleep"
          (field (codes "reason") (string_value (codes "backend_restart")) no_fields)

    written : SessionState
    written = record s { sessions = update id (asleep_row call.now) s.sessions }

    of_record :
        (r : Option (List AuditEvent))
        → record_event call.audit event s.audit_events ≡ r
        → recorded r written ≡ (ok tt, s')
        → (s'.sessions ≡ update id (asleep_row call.now) s.sessions)
          × (length s'.audit_events ≡ length s.audit_events + 1)
    of_record none e g = cc
    of_record (some events) e g =
        ground (arith, record_event-length call.audit event s.audit_events e)

Pending-map :
    (id : String) (now : ℕ) (ids : List String) (sessions : List AiSession)
    → All (Pending (id ∷ ids)) sessions
    → All (Pending ids) (update id (asleep_row now) sessions)
Pending-map id now ids [] a = tt
Pending-map id now ids (x ∷ xs) a = (Pending-update id now ids x a.0, Pending-map id now ids xs a.1)

abbrev pub IsQuiet : AiSession → Type 0
IsQuiet session = is_stale session ≡ false

Pending-IsQuiet : (sessions : List AiSession) → All (Pending []) sessions → All IsQuiet sessions
Pending-IsQuiet [] a = tt
Pending-IsQuiet (x ∷ xs) a = (ground (arith, a.0), Pending-IsQuiet xs a.1)

recover_each-ok :
    (calls : String → SessionCall) (ids : List String) (s : SessionState) {s' : SessionState}
    → All (Pending ids) s.sessions
    → recover_each calls ids s ≡ (ok tt, s')
    → All IsQuiet s'.sessions × (length s'.audit_events ≡ length s.audit_events + length ids)
unfolding recover_each
recover_each-ok calls [] s {s'} a h =
    let e : s ≡ s' = cc h in
    subst
      (λ (x : SessionState).
        All IsQuiet x.sessions × (length x.audit_events ≡ length s.audit_events + 0))
      e (Pending-IsQuiet s.sessions a, omega arith)
recover_each-ok calls (id ∷ ids) s {s'} a h =
    let (_, e, h1) = then_do-ok (recover_one (calls id) id s) _ h in
    let s1 = (recover_one (calls id) id s).1 in
    let (same, more) =
      recover_one-ok (calls id) id s (ap (λ (r : ApiResult (Unit {0})). (r, s1)) e) in
    let rest =
      recover_each-ok calls ids s1
        (subst (All (Pending ids)) (sym same) (Pending-map id (calls id).now ids s.sessions a))
        h1 in
    (rest.0, omega (arith, rest.1, more))

Pending-more :
    (id : String) (ids : List String) (sessions : List AiSession)
    → All (Pending ids) sessions
    → All (Pending (id ∷ ids)) sessions
Pending-more id ids [] a = tt
Pending-more id ids (x ∷ xs) a = ((λ s. ground (arith, a.0 s)), Pending-more id ids xs a.1)

Pending-stale_ids : (sessions : List AiSession) → All (Pending (stale_ids sessions)) sessions
Pending-stale_ids [] = tt
Pending-stale_ids (x ∷ xs) = elim (Bool-cases (is_stale x)) [
  | inl e ↦
      subst (λ (ids : List String). All (Pending ids) (x ∷ xs)) (sym (named e))
        (
          (λ s. ground (arith, eq_refl x.id)),
          Pending-more x.id (stale_ids xs) xs (Pending-stale_ids xs),
        )
  | inr n ↦
      subst (λ (ids : List String). All (Pending ids) (x ∷ xs)) (sym (passed n))
        ((λ s. cc), Pending-stale_ids xs)
]
  where
    named : is_stale x ≡ true → stale_ids (x ∷ xs) ≡ x.id ∷ stale_ids xs
    named e = rw e refl

    passed : is_stale x ≡ false → stale_ids (x ∷ xs) ≡ stale_ids xs
    passed n = rw n refl

-- After a recovery that succeeds no session counts as ready, starting or stopping and none has a process
-- identifier; and there is exactly one more record for each session that did or had.
pub recover-IsQuiet :
    (calls : String → SessionCall) (s : SessionState) {s' : SessionState}
    → recover calls s ≡ (ok tt, s')
    → All IsQuiet s'.sessions
      × (length s'.audit_events ≡ length s.audit_events + length (stale_ids s.sessions))
unfolding recover
recover-IsQuiet calls s h =
    recover_each-ok calls (stale_ids s.sessions) s (Pending-stale_ids s.sessions) h
