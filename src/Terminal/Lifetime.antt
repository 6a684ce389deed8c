-- ===== src/Terminal/Lifetime.antt =====
-- src/terminal.rs, run_session: what a session sends, signals and records from its start to its end.
use caroba_guard.Prelude.{
  ℕ, ◌/◌, min, String, Bool, false, ◌&&◌, ◌||◌, Option, none, some, List, [], ◌∷◌, ◌++◌, str_eq,
  ◌==◌, if◌then◌else◌, map_option, unwrap_or, Bytes, codes, to_string,
}
use caroba_guard.Auth.{AuthUser}
use caroba_guard.Audit.{record_event, NewAuditEvent, AuditEvent, AuditEnv}
use caroba_guard.Context.{
  null_value, bool_value, number_value, string_value, object_value, no_fields, field, Value,
}
use caroba_guard.Terminal.{PtySize}
use caroba_guard.Terminal.Session.{
  status, error_message, exit, run_loop, ClientMessage, ServerMessage, Event, TerminalConfig,
  Session, Closed,
}
use caroba_guard.Terminal.Pty.{cleanup_signals, Signal}

-- What one session meets: whether its shell starts, its child, its two records, and the clock when it
-- starts and enters the loop. The durations are those that `started.elapsed()` answers.
pub record World : Type 0 where
  pub session_id : String
  pub source_ip : Bytes
  pub shell : Bytes
  pub spawns : Bool
  pub pid : Option ℕ
  pub leader : Option ℕ
  pub own_group : ℕ
  pub child_is_running : Bool
  pub status_is_sent : Bool
  pub started : ℕ
  pub entered : ℕ
  pub opened : ℕ
  pub closed : ℕ
  pub open_audit : AuditEnv
  pub close_audit : AuditEnv

-- What a session has done when it is over; a message is listed also where sending it fails.
pub record Outcome : Type 0 where
  pub sent : List ServerMessage
  pub signals : List Signal
  pub audit_events : List AuditEvent

pub elapsed_millis : ℕ → ℕ
elapsed_millis elapsed = min (elapsed / 1000000) 0x7FFFFFFFFFFFFFFF

abbrev pub number : ℕ → Value
number n = number_value (to_string n)

abbrev pub optional_number : Option ℕ → Value
optional_number none = null_value
optional_number (some n) = number n

pub terminal_close_metadata : Bytes → ℕ → ℕ → Value
terminal_close_metadata reason input_bytes output_bytes = object_value (
    field (codes "reason") (string_value reason) (
      field (codes "input_bytes") (number input_bytes) (
        field (codes "output_bytes") (number output_bytes)
          (field (codes "contents_recorded") (bool_value false) no_fields))))

-- The fields that the three records share.
abbrev pub terminal_event :
    AuthUser → World → String → Option Bytes → String → ℕ → Option ℕ → Value → NewAuditEvent
terminal_event user world action command result elapsed exit_code metadata = record {
  actor_user_id = some user.id;
  actor_name = user.username;
  origin = "manual";
  action = action;
  target = world.session_id;
  command = command;
  result = result;
  duration_ms = elapsed_millis elapsed;
  exit_code = exit_code;
  ai_session_id = none;
  ai_permission_mode = none;
  metadata = metadata;
}

abbrev pub is_zero : Option ℕ → Bool
is_zero none = false
is_zero (some code) = code == 0

unfoldable pub close_result : String → Option ℕ → String
close_result reason exit_code =
    if str_eq reason "child_exit" && is_zero exit_code
    then "success"
    else if str_eq reason "client_disconnect"
        || str_eq reason "idle_timeout"
        || str_eq reason "max_duration"
    then "stopped"
    else "failure"

-- A record that cannot be written is logged, and no more.
abbrev pub record_or_log : AuditEnv → NewAuditEvent → List AuditEvent → List AuditEvent
record_or_log env event events = unwrap_or (record_event env event events) events

module _ (user : AuthUser) (world : World) where
  pub record_open_failure : List AuditEvent → List AuditEvent
  record_open_failure = record_or_log world.open_audit (
      terminal_event user world "terminal.session.open" none "failure" world.opened none
        (object_value (field (codes "source_ip") (string_value world.source_ip) no_fields)))

  abbrev pub open_event : PtySize → NewAuditEvent
  open_event size =
      terminal_event user world "terminal.session.open" (some world.shell) "success" world.opened
        none
        (object_value (
          field (codes "source_ip") (string_value world.source_ip) (
            field (codes "pid") (optional_number world.pid) (
              field (codes "cols") (number size.cols)
                (field (codes "rows") (number size.rows) no_fields)))))

  unfoldable pub close_event : Closed → NewAuditEvent
  close_event c =
      terminal_event user world "terminal.session.close" none (close_result c.reason c.exit_code)
        world.closed c.exit_code
        (terminal_close_metadata (codes c.reason) c.session.input_bytes c.session.output_bytes)

  unfoldable pub record_close : Closed → List AuditEvent → List AuditEvent
  unfolding close_event
  record_close c = record_or_log world.close_audit (close_event c)

  abbrev pub signals : List Signal
  signals = cleanup_signals world.leader world.own_group world.child_is_running

  -- A session whose first message cannot be sent has read and written nothing.
  abbrev pub undelivered : Closed
  undelivered = record {
    reason = "client_disconnect";
    exit_code = none;
    session = record { last_input = 0; input_bytes = 0; output_bytes = 0 };
  }

  abbrev pub ended : List ServerMessage → Closed → List AuditEvent → Outcome
  ended sent c events = record {
    sent = sent ++ exit c.reason c.exit_code ∷ [];
    signals = signals;
    audit_events = record_close c events;
  }

  abbrev pub connected : List ServerMessage
  connected = status world.session_id world.pid ∷ []

  abbrev pub entering : Session
  entering = record { last_input = world.entered; input_bytes = 0; output_bytes = 0 }

  -- From the record of its opening on; the last argument is what becomes of the loop.
  abbrev pub after_open :
      List AuditEvent → Option Closed → Option (List AuditEvent) → Option Outcome
  after_open audit looped none = some (record {
    sent = error_message "the terminal could not be audited" ∷ [];
    signals = signals;
    audit_events = audit;
  })
  after_open audit looped (some audit') =
      if world.status_is_sent
      then map_option (λ c. ended connected c audit') looped
      else some (record {
        sent = connected;
        signals = signals;
        audit_events = record_close undelivered audit';
      })

  unfoldable pub around_loop : PtySize → List AuditEvent → Option Closed → Option Outcome
  unfolding record_open_failure record_close
  around_loop size audit looped =
      if world.spawns
      then after_open audit looped (record_event world.open_audit (open_event size) audit)
      else some (record {
        sent = error_message "could not start the terminal" ∷ [];
        signals = [];
        audit_events = record_open_failure audit;
      })

  -- `none` while the session goes on.
  unfoldable pub run_session :
      (Bytes → Option ClientMessage)
      → TerminalConfig
      → PtySize
      → List Event
      → List AuditEvent
      → Option Outcome
  unfolding around_loop
  run_session decode config size events audit =
      around_loop size audit (run_loop decode config world.started events entering)
