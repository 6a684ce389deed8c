-- ===== src/OpenCode/Tests.antt =====
-- Runs of src/opencode.rs at concrete inputs.
use caroba_guard.Prelude.{
  ◌≤◌, String, ◌≡◌, refl, ◌≢◌, true, false, some, List, [], ◌∷◌, arith, is_some, length, codes,
}
use caroba_guard.OpenCode.{approval}
use caroba_guard.OpenCode.Questions.{
  parse_pending_questions, validate_question_reply, QuestionInfo, PendingQuestion,
  QuestionReplyRequest,
}
use caroba_guard.OpenCode.Questions.Answers.{Match, total_bytes, validate_question_reply-ok}
use caroba_guard.OpenCode.Process.{
  detach_child, running, refresh_child_status, no_connection, open_request, release, start_check,
  start_detach, spawned, start_spawned, start_failed, start_ready, event_stream_ended, reap,
  Connection, ready,
}
use caroba_guard.OpenCode.Lifecycle.{
  spawned_as, request_begins, request_ends, start_begins, start_detaches, start_spawns,
  proxy_connects, start_finishes, step, run, new_system, System, Event,
}
use caroba_guard.OpenCode.Linked.{Linked}
use caroba_guard.OpenCode.Counted.{open_at}
use caroba_guard.OpenCode.Runs.{run-Linked, open_request-run-no_panic}
use caroba_guard.OpenCode.Requests.{run-Counted, reap-run-idle}
use caroba_guard.Error.{ok, err, bad_request}

abbrev connection_to_agent : Connection
connection_to_agent = record {
  base_url = "http://127.0.0.1:4096";
  username = "carobaguard";
  password = "s";
}

-- A startup in approval mode, then two requests, the first of which ends.
abbrev events : List Event
events =
    start_begins "/srv/app" approval running 1
    ∷ start_detaches running
    ∷ start_spawns (spawned_as 77 connection_to_agent) 2
    ∷ proxy_connects
    ∷ start_finishes "1.0" 3
    ∷ request_begins running 4
    ∷ request_begins running 5
    ∷ request_ends 1 6
    ∷ []

runs : Unit {0}
unfolding run step detach_child refresh_child_status open_request release start_check start_detach
    spawned start_spawned start_failed start_ready event_stream_ended reap
runs = tt

abbrev after_run : System
after_run = run events (new_system 0)

one_active : (after_run.process.phase ≡ ready) × (after_run.process.active_requests ≡ 1)
unfolding runs
one_active = (refl, refl)

-- The check that the agent is not busy is not made again at the detach: a request that begins in
-- between loses its process.
abbrev race : List Event
race =
    start_begins "/srv/other" approval running 7
    ∷ request_begins running 8
    ∷ start_detaches running
    ∷ []

abbrev idle_system : System
idle_system = run (request_ends 0 6 ∷ []) after_run

request_loses_process :
    is_some (run race idle_system).process.child ≡ false
    × (length (run race idle_system).guards ≡ 1)
unfolding runs
request_loses_process = (refl, refl)

run-Linked_example : Linked after_run.process
run-Linked_example = run-Linked 0 events

open_request-run-no_panic_example : (open_request running 9 after_run.process).0 ≢ no_connection
open_request-run-no_panic_example = open_request-run-no_panic 0 events running 9

run-Counted_example :
    after_run.process.active_requests ≡ open_at after_run.process.generation after_run.guards
run-Counted_example = run-Counted 0 events (omega arith)

abbrev idle_events : List Event
idle_events =
    start_begins "/srv/app" approval running 1
    ∷ start_detaches running
    ∷ start_spawns (spawned_as 77 connection_to_agent) 2
    ∷ start_finishes "1.0" 3
    ∷ []

abbrev idle_run : System
idle_run = run idle_events (new_system 0)

child_there : is_some idle_run.process.child ≡ true
unfolding runs
child_there = refl

child_reaped : is_some (reap running false 900 1000 idle_run.process).child ≡ false
unfolding runs
child_reaped = refl

reap-run-idle_example : open_at idle_run.process.generation idle_run.guards ≡ 0
reap-run-idle_example = reap-run-idle 0 idle_events 900 1000 (omega arith) child_there child_reaped

-- `pending_questions_are_bounded_and_replies_match_the_schema`
abbrev color_question : QuestionInfo
color_question = record {
  question = codes "Which color?";
  header = codes "Color";
  options =
      record { label = codes "red"; description = [] }
      ∷ record { label = codes "blue"; description = [] }
      ∷ [];
  multiple = false;
  custom = false;
}

abbrev pending_question : PendingQuestion
pending_question = record {
  id = codes "que_1";
  session_id = codes "ses_1";
  questions = color_question ∷ [];
}

abbrev reply_with : String → QuestionReplyRequest
reply_with answer = record { answers = (codes answer ∷ []) ∷ []; reject = false }

question_runs : Unit {0}
unfolding validate_question_reply parse_pending_questions
question_runs = tt

blue_is_accepted : validate_question_reply pending_question (reply_with "blue") ≡ ok tt
unfolding question_runs
blue_is_accepted = refl

green_is_no_option :
    validate_question_reply pending_question (reply_with "green")
    ≡ err (bad_request "OpenCode question answer is not an available option")
unfolding question_runs
green_is_no_option = refl

question_is_read : parse_pending_questions (pending_question ∷ []) ≡ some (pending_question ∷ [])
unfolding question_runs
question_is_read = refl

validate_question_reply-ok_example :
    Match (reply_with "blue").answers pending_question.questions
    × (total_bytes (reply_with "blue").answers ≤ 32000)
validate_question_reply-ok_example =
    validate_question_reply-ok pending_question (reply_with "blue") refl blue_is_accepted
