-- ===== src/Terminal/Counts.antt =====
-- src/terminal.rs, run_session: the two counters of the loop.
use caroba_guard.Prelude.{
  ℕ, ◌+◌, ◌≤◌, String, ◌≡◌, refl, ap, subst, inl, inr, Bool, Option, none, some, List, [], ◌∷◌,
  ◌++◌, arith, ltb, if◌then◌else◌, Option-cases, length, Bytes,
}
use caroba_guard.Terminal.Session.{
  input, resize, text, bytes, pty_failed, exited, received, output, tick, continues, breaks,
  Flow-cases, saturating_add, on_client_message, on_text, on_event, run_loop, ClientMessage, Event,
  TerminalConfig, Session, Flow, Closed, close, ping, pong, binary, running, poll_failed,
}
use caroba_guard.Terminal.{max_client_message_bytes}

-- How many bytes an event shows the client.
abbrev pub shown_by : Event → ℕ
shown_by (output (some (bytes screen)) works) = length screen
shown_by _ = 0

abbrev pub sum_of : (Event → ℕ) → List Event → ℕ
sum_of f [] = 0
sum_of f (event ∷ events) = f event + sum_of f events

some-closed : {c d : Closed} → Option.some c ≡ some d → c ≡ d
some-closed h = cc

module _ (decode : Bytes → Option ClientMessage) where
  abbrev pub accepted : Option ClientMessage → ℕ
  accepted (some (input typed)) =
      if ltb max_client_message_bytes (length typed) then 0 else length typed
  accepted _ = 0

  -- How many bytes an event gives the shell.
  abbrev pub typed_by : Event → ℕ
  typed_by (received now (some (text body)) works) = accepted (decode body)
  typed_by _ = 0

  abbrev session_of : Flow → Session
  session_of (continues s) = s
  session_of (breaks reason code s) = s

  -- The two counters after so many more bytes.
  abbrev pub Counts : Session → ℕ → ℕ → Session → Type 0
  Counts s typed shown s' =
      (s'.input_bytes ≡ saturating_add s.input_bytes typed)
      × (s'.output_bytes ≡ saturating_add s.output_bytes shown)

  abbrev pub Fits : Session → Type 0
  Fits s = (s.input_bytes ≤ 0xFFFFFFFFFFFFFFFF) × (s.output_bytes ≤ 0xFFFFFFFFFFFFFFFF)

  module _ (config : TerminalConfig) (started : ℕ) where
    message-Counts :
        (works : Bool) (message : ClientMessage) (s : Session)
        → Fits s
        → Counts s (accepted (some message)) 0 (session_of (on_client_message works message s))
    unfolding on_client_message
    message-Counts works (input typed) s h = ground arith
    message-Counts works (resize cols rows) s h = ground arith

    on_event-Counts :
        (event : Event) (s : Session)
        → Fits s
        → Counts s
            (typed_by event)
            (shown_by event)
            (session_of (on_event decode config started event s))
    unfolding on_event
    on_event-Counts (received now (some (text body)) works) s h =
        elim (Option-cases (decode body)) [
          | inl e ↦ rw (e, on_text) (omega arith, omega arith)
          | inr (message, e) ↦
              rw (e, on_text) (message-Counts works message (record s { last_input = now }) h)
        ]
    on_event-Counts (received now none works) s h = (omega arith, omega arith)
    on_event-Counts (received now (some close) works) s h = (omega arith, omega arith)
    on_event-Counts (received now (some ping) works) s h = ground arith
    on_event-Counts (received now (some pong) works) s h = (omega arith, omega arith)
    on_event-Counts (received now (some binary) works) s h = (omega arith, omega arith)
    on_event-Counts (received now (some caroba_guard.Terminal.Session.broken) works) s h =
        (omega arith, omega arith)
    on_event-Counts (output none works) s h = (omega arith, omega arith)
    on_event-Counts (output (some pty_failed) works) s h = (omega arith, omega arith)
    on_event-Counts (output (some (bytes screen)) works) s h = ground arith
    on_event-Counts (tick now (exited code)) s h = (omega arith, omega arith)
    on_event-Counts (tick now poll_failed) s h = (omega arith, omega arith)
    on_event-Counts (tick now running) s h = ground arith

    -- The events that the loop reads, of which only the last one ends it, and how it ends.
    pub data Reads : Session → List Event → Closed → Type 0 where
      reads_last :
          (event : Event) {s s' : Session} (reason : String) (code : Option ℕ)
          → on_event decode config started event s ≡ breaks reason code s'
          → Reads s (event ∷ []) (record { reason = reason; exit_code = code; session = s' })
      reads_more :
          (event : Event) {events : List Event} {s s' : Session} {c : Closed}
          → on_event decode config started event s ≡ continues s'
          → Reads s' events c
          → Reads s (event ∷ events) c

    -- The part of the events that the loop has read when it ends, and what it has counted in it.
    pub run_loop-Counts :
        (events : List Event) (s : Session) {c : Closed}
        → Fits s
        → run_loop decode config started events s ≡ some c
        → (consumed after : List Event) × (events ≡ consumed ++ after)
          × Reads s consumed c
          × Counts s (sum_of typed_by consumed) (sum_of shown_by consumed) c.session
    unfolding run_loop
    run_loop-Counts [] s h e = cc
    run_loop-Counts (event ∷ events) s h e =
        elim (Flow-cases (on_event decode config started event s)) [
          | inl (s', f) ↦
              let now = rw f at (on_event-Counts event s h) in
              let (consumed, after, split_at, reads, later) =
                run_loop-Counts events s' (omega arith, omega arith) (rw (f, run_loop) at e) in
              (
                event ∷ consumed,
                after,
                ap (λ (l : List Event). event ∷ l) split_at,
                reads_more event f reads,
                (omega arith, omega arith),
              )
          | inr (reason, code, s', f) ↦
              let now = rw f at (on_event-Counts event s h) in
              let stops = rw (f, run_loop) at e in
              (
                event ∷ [],
                events,
                refl,
                subst (Reads s (event ∷ [])) (some-closed stops) (reads_last event reason code f),
                ground arith,
              )
        ]
