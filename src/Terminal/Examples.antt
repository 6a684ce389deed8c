-- ===== src/Terminal/Examples.antt =====
-- The theorems on src/terminal.rs at concrete inputs.
use caroba_guard.Prelude.{
  ◌≡◌, refl, ◌↔◌, inr, true, false, Option, none, some, [], ◌∷◌, arith, Bytes, codes,
}
use caroba_guard.Error.{ok}
use caroba_guard.Audit.{record_event, row}
use caroba_guard.Terminal.{websocket}
use caroba_guard.Terminal.Session.{
  input, status, exit, text, received, output, tick, on_client_message, on_text, on_event, run_loop,
  ClientMessage, Event, TerminalConfig, running,
}
use caroba_guard.Terminal.Lifetime.{
  open_event, close_event, record_close, around_loop, run_session, World, Outcome,
}
use caroba_guard.Terminal.Pty.{hang_up, kill_child, cleanup_signals}
use caroba_guard.Terminal.Upgrades.{websocket_iff, Upgraded}
use caroba_guard.Terminal.Ends.{run_session-ends}
use caroba_guard.Terminal.Silence.{same, typed, none_left, one_more, run_session-Alike}
use caroba_guard.Terminal.Records.{run_session-Recorded, Recorded}
use caroba_guard.Terminal.Slots.{
  new_panel, connects, here, next, Reach-IsFair, Reach-Waits, Panel, IsFair, Reach, Waits,
}
use caroba_guard.Terminal.Tests.{crypto, ann, parse_uri, upgrade, size, websocket_runs}

websocket_iff_example :
    (websocket crypto parse_uri upgrade 4 ≡ (ok size, 3))
    ↔ Upgraded crypto parse_uri upgrade 4 3 size
websocket_iff_example = websocket_iff crypto parse_uri upgrade 4 3 size

abbrev world : World
world = record {
  session_id = "t";
  source_ip = codes "127.0.0.1";
  shell = codes "/bin/bash";
  spawns = true;
  pid = some 4711;
  leader = some 4711;
  own_group = 99;
  child_is_running = true;
  status_is_sent = true;
  started = 0;
  entered = 1000;
  opened = 1000;
  closed = 5000;
  open_audit = record { id = "a"; now = 1; fails = false };
  close_audit = record { id = "b"; now = 2; fails = false };
}

-- Every text is taken for typed input.
abbrev decode : Bytes → Option ClientMessage
decode body = some (input body)

abbrev config : TerminalConfig
config = record { terminal_idle_timeout_seconds = 60; terminal_max_duration_seconds = 300 }

abbrev keys : Bytes → Event
keys pressed = received 2000 (some (text pressed)) true

run_session-ends_example :
    (o : Outcome) × (run_session ann world decode config size
        (keys (codes "ls") ∷ tick 60000002000 running ∷ keys (codes "x") ∷ [])
        []
      ≡ some o)
    × (run_session ann world decode config size
          (keys (codes "ls") ∷ tick 60000002000 running ∷ [])
          []
        ≡ some o)
run_session-ends_example =
    run_session-ends ann world decode config size (keys (codes "ls") ∷ []) (keys (codes "x") ∷ [])
      60000002000 running [] (inr (omega arith))

run_session-Alike_example :
    run_session ann world decode config size (keys (codes "ls") ∷ output none true ∷ []) []
    ≡ run_session ann world decode config size (keys (codes "pw") ∷ output none true ∷ []) []
run_session-Alike_example =
    run_session-Alike ann world decode config size (keys (codes "ls") ∷ output none true ∷ [])
      (keys (codes "pw") ∷ output none true ∷ []) []
      (one_more (typed 2000 true (codes "ls") (codes "pw") (codes "ls") (codes "pw") refl refl refl)
        (one_more (same (output none true)) none_left))

abbrev closed_one : Outcome
closed_one = record {
  sent = status "t" (some 4711) ∷ exit "pty_closed" none ∷ [];
  signals = hang_up 4711 ∷ kill_child ∷ [];
  audit_events =
      row world.close_audit (
        close_event ann world (record {
          reason = "pty_closed";
          exit_code = none;
          session = record { last_input = 2000; input_bytes = 2; output_bytes = 0 };
        }))
      ∷ row world.open_audit (open_event ann world size)
      ∷ [];
}

session_runs :
    run_session ann world decode config size (keys (codes "ls") ∷ output none true ∷ []) []
    ≡ some closed_one
unfolding run_session around_loop run_loop on_event on_client_message on_text record_close
    record_event cleanup_signals
session_runs = refl

run_session-Recorded_example :
    Recorded ann world decode config size (keys (codes "ls") ∷ output none true ∷ []) [] closed_one
run_session-Recorded_example =
    run_session-Recorded ann world decode config size (keys (codes "ls") ∷ output none true ∷ []) []
      session_runs refl refl refl

abbrev after_one : Panel
after_one = record {
  permits = 3;
  sessions = record { user = ann; world = world; size = size; events = [] } ∷ [];
}

one_connects : Reach crypto parse_uri decode config (new_panel 4) after_one
one_connects = next here (connects upgrade world size 3 websocket_runs)

Reach-IsFair_example : IsFair 4 after_one
Reach-IsFair_example = Reach-IsFair crypto parse_uri decode config 4 one_connects

Reach-Waits_example : Waits crypto parse_uri decode config after_one (new_panel 4)
Reach-Waits_example = Reach-Waits crypto parse_uri decode config 4 one_connects
