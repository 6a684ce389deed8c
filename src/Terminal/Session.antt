-- ===== src/Terminal/Session.antt =====
-- src/terminal.rs, run_session: a session from its shell to its record. What `select!` takes next is a
-- list of events; a time is a number of nanoseconds. `serde_json` is the parameter `decode`, and a
-- Boolean beside an event says whether the one call that its branch awaits succeeds in time.
use caroba_guard.Prelude.{
  ℕ, ◌+◌, ◌-◌, ◌*◌, min, String, ◌≡◌, refl, ◌⊎◌, inl, inr, Bool, Option, none, some, List, [], ◌∷◌,
  ltb, leb, if◌then◌else◌, length, Bytes,
}
use caroba_guard.Error.{is_ok}
use caroba_guard.Terminal.{max_client_message_bytes, terminal_size}

pub data ClientMessage : Type 0 where
  input : Bytes → ClientMessage
  resize : ℕ → ℕ → ClientMessage

pub data ServerMessage : Type 0 where
  status : String → Option ℕ → ServerMessage
  error_message : String → ServerMessage
  exit : String → Option ℕ → ServerMessage

-- `axum::extract::ws::Message`; `broken` is an error of `recv`.
pub data Message : Type 0 where
  text : Bytes → Message
  close ping pong binary broken : Message

pub data PtyOutput : Type 0 where
  bytes : Bytes → PtyOutput
  pty_failed : PtyOutput

-- `try_wait`
pub data Poll : Type 0 where
  exited : ℕ → Poll
  running poll_failed : Poll

pub data Event : Type 0 where
  received : ℕ → Option Message → Bool → Event
  output : Option PtyOutput → Bool → Event
  tick : ℕ → Poll → Event

pub record TerminalConfig : Type 0 where
  pub terminal_idle_timeout_seconds : ℕ
  pub terminal_max_duration_seconds : ℕ

-- The variables of the loop.
pub record Session : Type 0 where
  pub last_input : ℕ
  pub input_bytes : ℕ
  pub output_bytes : ℕ

pub data Flow : Type 0 where
  continues : Session → Flow
  breaks : String → Option ℕ → Session → Flow

pub Flow-cases :
    (f : Flow)
    → ((s : Session) × (f ≡ continues s))
      ⊎ ((reason : String) × (code : Option ℕ) × (s : Session) × (f ≡ breaks reason code s))
Flow-cases (continues s) = inl (s, refl)
Flow-cases (breaks reason code s) = inr (reason, code, s, refl)

abbrev pub from_secs : ℕ → ℕ
from_secs seconds = seconds * 1000000000

-- `u64::saturating_add`
abbrev pub saturating_add : ℕ → ℕ → ℕ
saturating_add a b = min (a + b) 0xFFFFFFFFFFFFFFFF

-- `i32::try_from(code).ok()`
abbrev pub to_i32 : ℕ → Option ℕ
to_i32 code = if ltb code 0x80000000 then some code else none

unfoldable pub terminal_timeout_reason : ℕ → ℕ → ℕ → ℕ → Option String
terminal_timeout_reason idle_elapsed session_elapsed idle_timeout max_duration =
    if leb idle_timeout idle_elapsed
    then some "idle_timeout"
    else if leb max_duration session_elapsed
    then some "max_duration"
    else none

abbrev pub go_on_if : Bool → String → Session → Flow
go_on_if works reason s = if works then continues s else breaks reason none s

unfoldable pub on_client_message : Bool → ClientMessage → Session → Flow
on_client_message works (input typed) s =
    if ltb max_client_message_bytes (length typed)
    then breaks "protocol_error" none s
    else go_on_if works "pty_write_timeout"
        (record s { input_bytes = saturating_add s.input_bytes (length typed) })
on_client_message works (resize cols rows) s =
    if is_ok (terminal_size cols rows)
    then go_on_if works "pty_error" s
    else breaks "protocol_error" none s

unfoldable pub on_output : Option PtyOutput → Bool → Session → Flow
on_output none works s = breaks "pty_closed" none s
on_output (some pty_failed) works s = breaks "pty_error" none s
on_output (some (bytes shown)) works s =
    go_on_if works "client_disconnect"
      (record s { output_bytes = saturating_add s.output_bytes (length shown) })

module _ (decode : Bytes → Option ClientMessage) where
  unfoldable pub on_text : Bytes → Bool → Session → Flow
  on_text body works s = elim (decode body) [
    | none ↦ breaks "protocol_error" none s
    | some message ↦ on_client_message works message s
  ]

  unfoldable pub on_message : ℕ → Option Message → Bool → Session → Flow
  unfolding on_text
  on_message now none works s = breaks "client_disconnect" none s
  on_message now (some (text body)) works s = on_text body works (record s { last_input = now })
  on_message now (some close) works s = breaks "client_disconnect" none s
  on_message now (some ping) works s = go_on_if works "client_disconnect" s
  on_message now (some pong) works s = continues s
  on_message now (some binary) works s = breaks "protocol_error" none s
  on_message now (some broken) works s = breaks "client_disconnect" none s

module _ (config : TerminalConfig) (started : ℕ) where
  abbrev pub timeout_at : ℕ → Session → Option String
  timeout_at now s =
      terminal_timeout_reason (now - s.last_input) (now - started)
        (from_secs config.terminal_idle_timeout_seconds)
        (from_secs config.terminal_max_duration_seconds)

  unfoldable pub on_tick : ℕ → Poll → Session → Flow
  unfolding terminal_timeout_reason
  on_tick now (exited code) s = breaks "child_exit" (to_i32 code) s
  on_tick now poll_failed s = breaks "child_error" none s
  on_tick now running s = elim (timeout_at now s) [
    | none ↦ continues s
    | some reason ↦ breaks reason none s
  ]

pub record Closed : Type 0 where
  pub reason : String
  pub exit_code : Option ℕ
  pub session : Session

module _ (decode : Bytes → Option ClientMessage) (config : TerminalConfig) (started : ℕ) where
  unfoldable pub on_event : Event → Session → Flow
  unfolding on_message on_output on_tick
  on_event (received now message works) s = on_message decode now message works s
  on_event (output shown works) s = on_output shown works s
  on_event (tick now poll) s = on_tick config started now poll s

  -- `none` while the loop waits for more.
  unfoldable pub run_loop : List Event → Session → Option Closed
  run_loop [] s = none
  run_loop (event ∷ events) s = elim (on_event event s) [
    | continues s' ↦ run_loop events s'
    | breaks reason code s' ↦ some (record { reason = reason; exit_code = code; session = s' })
  ]
