-- ===== src/Terminal/Silence.antt =====
-- src/terminal.rs, run_session: what is typed and shown leaves no trace but its length.
use caroba_guard.Prelude.{
  ℕ, ◌≡◌, refl, ap, inl, inr, Bool, Option, some, List, [], ◌∷◌, length, Bytes,
}
use caroba_guard.Terminal.Session.{
  input, text, bytes, received, output, Flow-cases, on_client_message, on_text, on_event, run_loop,
  ClientMessage, Event, TerminalConfig, Session,
}
use caroba_guard.Terminal.Lifetime.{entering, around_loop, run_session, World}
use caroba_guard.Auth.{AuthUser}
use caroba_guard.Audit.{AuditEvent}
use caroba_guard.Terminal.{PtySize}

module _ (decode : Bytes → Option ClientMessage) where
  -- The same event, or two that differ in what is typed or shown but not in how much.
  pub data Alike : Event → Event → Type 0 where
    same : (event : Event) → Alike event event
    typed :
        (now : ℕ) (works : Bool) (body body' data_sent data_sent' : Bytes)
        → decode body ≡ some (input data_sent)
        → decode body' ≡ some (input data_sent')
        → length data_sent ≡ length data_sent'
        → Alike (received now (some (text body)) works) (received now (some (text body')) works)
    shown :
        (works : Bool) (screen screen' : Bytes)
        → length screen ≡ length screen'
        → Alike (output (some (bytes screen)) works) (output (some (bytes screen')) works)

  pub data AllAlike : List Event → List Event → Type 0 where
    none_left : AllAlike [] []
    one_more :
        {event event' : Event} {events events' : List Event}
        → Alike event event'
        → AllAlike events events'
        → AllAlike (event ∷ events) (event' ∷ events')

  module _ (config : TerminalConfig) (started : ℕ) where
    on_event-Alike :
        {event event' : Event} (s : Session)
        → Alike event event'
        → on_event decode config started event s ≡ on_event decode config started event' s
    unfolding on_event on_client_message
    on_event-Alike s (same event) = refl
    on_event-Alike s (typed now works body body' a b ea eb l) = rw (ea, eb, on_text) (rw l refl)
    on_event-Alike s (shown works a b l) = rw l refl

    run_loop-Alike :
        {events events' : List Event} (s : Session)
        → AllAlike events events'
        → run_loop decode config started events s ≡ run_loop decode config started events' s
    unfolding run_loop
    run_loop-Alike s none_left = refl
    run_loop-Alike s (one_more {event} {event'} {events} {events'} e es) =
        elim (Flow-cases (on_event decode config started event' s)) [
          | inl (s', f) ↦ rw (on_event-Alike s e, f, run_loop) (run_loop-Alike s' es)
          | inr (reason, code, s', f) ↦ rw (on_event-Alike s e, f, run_loop) refl
        ]

-- Two sessions that differ only in what is typed and what is shown, not in how much, send the same
-- status, error and exit messages, signal the same processes and leave the same records.
pub run_session-Alike :
    (user : AuthUser) (world : World) (decode : Bytes → Option ClientMessage)
    (config : TerminalConfig) (size : PtySize) (events events' : List Event)
    (audit : List AuditEvent)
    → AllAlike decode events events'
    → run_session user world decode config size events audit
      ≡ run_session user world decode config size events' audit
unfolding run_session
run_session-Alike user world decode config size events events' audit a =
    ap (around_loop user world size audit)
      (run_loop-Alike decode config world.started (entering user world) a)
