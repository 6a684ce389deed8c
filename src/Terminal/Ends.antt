-- ===== src/Terminal/Ends.antt =====
-- src/terminal.rs, run_session: when a session is over.
use caroba_guard.Prelude.{
  ℕ, ◌+◌, ◌≤◌, String, ◌≡◌, refl, sym, subst, ◌≢◌, ◌⊎◌, inl, inr, Bool, true, false, Option, none,
  some, List, [], ◌∷◌, ◌++◌, arith, if◌then◌else◌, Option-cases, Bytes,
}
use caroba_guard.Terminal.Session.{
  input, resize, text, bytes, pty_failed, exited, received, output, tick, continues, breaks,
  Flow-cases, from_secs, terminal_timeout_reason, on_client_message, on_text, timeout_at, on_tick,
  on_event, run_loop, ClientMessage, Poll, Event, TerminalConfig, Session, Closed, close, ping,
  pong, binary, running, poll_failed,
}
use caroba_guard.Terminal.Lifetime.{entering, after_open, around_loop, run_session, World, Outcome}
use caroba_guard.Auth.{AuthUser}
use caroba_guard.Audit.{AuditEvent}
use caroba_guard.Terminal.{PtySize}

-- The last time at which the client sent a text, after the events.
abbrev pub heard : Event → ℕ → ℕ
heard (received now (some (text body)) works) last = now
heard _ last = last

abbrev pub last_heard : List Event → ℕ → ℕ
last_heard [] last = last
last_heard (event ∷ events) last = last_heard events (heard event last)

-- A session is due when it is too old, or when the client has been silent for too long.
abbrev pub IsDue : TerminalConfig → ℕ → ℕ → ℕ → Type 0
IsDue config started last now =
    (started + from_secs config.terminal_max_duration_seconds ≤ now)
    ⊎ (last + from_secs config.terminal_idle_timeout_seconds ≤ now)

module _ (decode : Bytes → Option ClientMessage) (config : TerminalConfig) (started : ℕ) where
  message_keeps :
      (works : Bool) (message : ClientMessage) (s : Session) {s' : Session}
      → on_client_message works message s ≡ continues s'
      → s'.last_input ≡ s.last_input
  unfolding on_client_message
  message_keeps works (input typed) s h = ground arith
  message_keeps works (resize cols rows) s h = ground arith

  heard_by :
      (event : Event) (s : Session) {s' : Session}
      → on_event decode config started event s ≡ continues s'
      → s'.last_input ≡ heard event s.last_input
  unfolding on_event
  heard_by (received now (some (text body)) works) s h = elim (Option-cases (decode body)) [
    | inl e ↦ cc (rw (e, on_text) at h)
    | inr (message, e) ↦
        message_keeps works message (record s { last_input = now }) (rw (e, on_text) at h)
  ]
  heard_by (received now none works) s h = cc
  heard_by (received now (some close) works) s h = cc
  heard_by (received now (some ping) works) s h = ground arith
  heard_by (received now (some pong) works) s h = ground arith
  heard_by (received now (some binary) works) s h = cc
  heard_by (received now (some caroba_guard.Terminal.Session.broken) works) s h = cc
  heard_by (output none works) s h = cc
  heard_by (output (some pty_failed) works) s h = cc
  heard_by (output (some (bytes shown)) works) s h = ground arith
  heard_by (tick now (exited code)) s h = cc
  heard_by (tick now poll_failed) s h = cc
  heard_by (tick now running) s h = ground arith

  due-timeout :
      (now : ℕ) (s : Session)
      → IsDue config started s.last_input now
      → timeout_at config started now s ≢ none
  unfolding terminal_timeout_reason
  due-timeout now s (inl old) e = ground arith
  due-timeout now s (inr silent) e = ground arith

  -- A tick of a session that is due breaks the loop.
  due-breaks :
      (now : ℕ) (poll : Poll) (s : Session)
      → IsDue config started s.last_input now
      → (reason : String) × (code : Option ℕ) × (on_event decode config started (tick now poll) s
          ≡ breaks reason code s)
  unfolding on_event
  due-breaks now (exited code) s d = (_, _, refl)
  due-breaks now poll_failed s d = (_, _, refl)
  due-breaks now running s d = elim (Option-cases (timeout_at config started now s)) [
    | inl e ↦ absurd (due-timeout now s d e)
    | inr (reason, e) ↦ (reason, none, rw (e, on_tick) refl)
  ]

  -- Up to the tick the loop may end by itself; then nothing after that is read either.
  run_loop-due :
      (before after : List Event) (now : ℕ) (poll : Poll) (s : Session)
      → IsDue config started (last_heard before s.last_input) now
      → (c : Closed) × (run_loop decode config started (before ++ tick now poll ∷ after) s ≡ some c)
        × (run_loop decode config started (before ++ tick now poll ∷ []) s ≡ some c)
  unfolding run_loop
  run_loop-due [] after now poll s d =
      let (reason, code, e) = due-breaks now poll s d in
      (
        record { reason = reason; exit_code = code; session = s },
        rw (e, run_loop) refl,
        rw (e, run_loop) refl,
      )
  run_loop-due (event ∷ before) after now poll s d =
      elim (Flow-cases (on_event decode config started event s)) [
        | inl (s', e) ↦
            rw (e, run_loop)
              (run_loop-due before after now poll s' (
                subst (λ l. IsDue config started (last_heard before l) now)
                  (sym (heard_by event s e)) d))
        | inr (reason, code, s', e) ↦ (
          record { reason = reason; exit_code = code; session = s' },
          rw (e, run_loop) refl,
          rw (e, run_loop) refl,
        )
      ]

abbrev IsOver : Option Outcome → Type 0
IsOver result = (o : Outcome) × (result ≡ some o)

if-IsOver :
    (test : Bool) (x y : Option Outcome) → IsOver x → IsOver y → IsOver (if test then x else y)
if-IsOver true x y hx hy = hx
if-IsOver false x y hx hy = hy

module _ (user : AuthUser) (world : World) (size : PtySize) (audit : List AuditEvent) where
  after_open-IsOver :
      (c : Closed) (recorded : Option (List AuditEvent))
      → IsOver (after_open user world audit (some c) recorded)
  after_open-IsOver c none = (_, refl)
  after_open-IsOver c (some audit') = if-IsOver world.status_is_sent _ _ (_, refl) (_, refl)

  around_loop-IsOver : (c : Closed) → IsOver (around_loop user world size audit (some c))
  unfolding around_loop
  around_loop-IsOver c = if-IsOver world.spawns _ _ (after_open-IsOver c _) (_, refl)

-- A session ends at the latest with the first tick at which it is due, because it is older than the
-- maximum or because the client has been silent for the idle time, and nothing that comes after that
-- tick is looked at.
pub run_session-ends :
    (user : AuthUser) (world : World) (decode : Bytes → Option ClientMessage)
    (config : TerminalConfig) (size : PtySize) (before after : List Event) (now : ℕ) (poll : Poll)
    (audit : List AuditEvent)
    → IsDue config world.started (last_heard before world.entered) now
    → (o : Outcome) × (run_session user world decode config size
          (before ++ tick now poll ∷ after)
          audit
        ≡ some o)
      × (run_session user world decode config size (before ++ tick now poll ∷ []) audit ≡ some o)
unfolding run_session
run_session-ends user world decode config size before after now poll audit d =
    let (c, loops, stops) =
      run_loop-due decode config world.started before after now poll (entering user world) d in
    let (o, e) = around_loop-IsOver user world size audit c in (o, rw loops e, rw stops e)
