-- ===== src/Sessions/Tests.antt =====
-- Runs of src/opencode/session_manager.rs at concrete inputs.
use caroba_guard.Prelude.{
  String, ◌≡◌, refl, ◌≢◌, inl, inr, true, false, none, some, List, [], ◌∷◌, str_eq, eq_iff,
  if◌then◌else◌, All, Bytes, codes, bytes_eq,
}
use caroba_guard.Error.{ok}
use caroba_guard.Auth.{require, Headers, verify_csrf, AuthUser, Crypto, operator}
use caroba_guard.Context.{null_value, string_value, Value}
use caroba_guard.Audit.{record_event, AuditEnv}
use caroba_guard.OpenCode.{read_only, approval}
use caroba_guard.OpenCode.Process.{detach_child, running, refresh_child_status, ProcessState, ready}
use caroba_guard.OpenCode.Lifecycle.{new_process}
use caroba_guard.Sessions.{
  timeline, find_session, ai_session, sync_sessions, put_away, chosen_session, may_delete,
  delete_session, AiSession, Details, SessionState, SessionCall, sleep, stop, no_update_fails,
  second_update_fails,
}
use caroba_guard.Sessions.Deletion.{delete_session-ok, Deleted}
use caroba_guard.Sessions.Rows.{PutAwayLeaves, put_away-PutAwayLeaves}
use caroba_guard.Sessions.Permissions.{
  permission_asked, may_decide, permission_decision, PermissionReply, PermissionReplyRequest, Reply,
  Asking, AskCall, once, always, reject,
}
use caroba_guard.Sessions.Grants.{
  asks, decides, becomes, ask_step, ask_run, ask_run-never_always, ask_run-rejects, AskEvent,
}
use caroba_guard.Sessions.Sync.{sync_sessions-Spared}

abbrev pub serving : ProcessState
serving = record (new_process 0) {
  phase = ready;
  mode = approval;
  session_id = some "a";
  child =
      some (record { pid = 7; permission_config = approval; current_dir = "/srv"; is_pure = true });
  connection = some (record { base_url = "http://127.0.0.1:1"; username = "u"; password = "p" });
}

abbrev pub session_of : String → String → AiSession
session_of id status = record {
  id = id;
  opencode_session_id = some "ses_1";
  permission_mode = "approval";
  status = status;
  updated_at = 0;
  pid = none;
  error = none;
}

abbrev pub details : Details
details = record {
  local_session_id = "a";
  remote_session_id = "ses_1";
  permission = string_value (codes "bash");
  patterns = null_value;
  resources = null_value;
  metadata = null_value;
}

abbrev pub two_sessions : SessionState
two_sessions = record {
  process = serving;
  sessions = session_of "a" "sleeping" ∷ session_of "b" "archived" ∷ [];
  pending = ("per_1", details) ∷ [];
  approvals = ("a", codes "key") ∷ [];
  ai_messages = ("a", codes "hi") ∷ ("b", codes "ho") ∷ [];
  audit_events = [];
}

abbrev pub audit_env : AuditEnv
audit_env = record { id = "e1"; now = 9; fails = false }

abbrev pub call : SessionCall
call = record { now = 9; answer = running; audit = audit_env; statement_fails = false }

runs : Unit {0}
unfolding sync_sessions put_away delete_session may_delete timeline record_event
    refresh_child_status detach_child require verify_csrf chosen_session ai_session permission_asked
    permission_decision may_decide ask_step ask_run
runs = tt

-- An archived session that is put to sleep is archived no more.
sleep_unarchives :
    find_session "b" (put_away call no_update_fails sleep "b" two_sessions).1.sessions
    ≡ some (record (session_of "b" "sleeping") { updated_at = 9 })
unfolding runs
sleep_unarchives = refl

b_is_not_a : ◌≢◌ {A = String} "b" "a"
b_is_not_a = λ h. let t : str_eq "b" "a" ≡ true = (eq_iff "b" "a").1 h in cc t

sync_sessions-Spared_example :
    find_session "b" (sync_sessions call two_sessions).1.sessions ≡ some (session_of "b" "archived")
sync_sessions-Spared_example =
    sync_sessions-Spared call "b" (session_of "b" "archived") two_sessions refl (inr refl)

put_away-PutAwayLeaves_example :
    PutAwayLeaves call second_update_fails stop "a" "b"
      (session_of "a" "sleeping")
      two_sessions
      (put_away call second_update_fails stop "a" two_sessions)
    × (find_session "b" (put_away call second_update_fails stop "a" two_sessions).1.sessions
        ≡ find_session "b" two_sessions.sessions)
put_away-PutAwayLeaves_example =
    put_away-PutAwayLeaves call second_update_fails stop "a" "b" (session_of "a" "sleeping")
      two_sessions b_is_not_a refl

abbrev crypto : Crypto
crypto = record {
  token_hash = λ t. if bytes_eq t (codes "csrf") then "hash" else "none";
  verify_password = λ p h. str_eq p h;
  hash_password = λ p. some p;
}

abbrev ann : AuthUser
ann = record {
  id = "1";
  username = "ann";
  role = operator;
  session_id = "s1";
  csrf_token = codes "csrf";
}

abbrev headers : Headers
headers name = if str_eq name "x-csrf-token" then some (codes "csrf") else none

abbrev asleep : SessionState
asleep = (put_away call no_update_fails sleep "a" two_sessions).1

abbrev after_deletion : SessionState
after_deletion = (delete_session (λ id. true) crypto call ann headers false "a" asleep).1

deletion_runs :
    delete_session (λ id. true) crypto call ann headers false "a" asleep ≡ (ok tt, after_deletion)
unfolding runs
deletion_runs = refl

delete_session-ok_example : Deleted "a" "b" ann false asleep after_deletion
delete_session-ok_example =
    delete_session-ok (λ id. true) crypto call ann headers false "a" "b" asleep after_deletion
      b_is_not_a deletion_runs

abbrev print : Value → Bytes
print v = codes "key"

abbrev ask_call : AskCall
ask_call = record { asked = audit_env; answered = audit_env; arrives = true }

abbrev request_of : PermissionReply → PermissionReplyRequest
request_of reply = record { reply = reply; message = none }

abbrev fresh : Asking
fresh = record { state = record two_sessions { pending = []; approvals = [] }; sent = [] }

abbrev allowed_events : List AskEvent
allowed_events =
    asks ask_call "per_1" details
    ∷ decides ask_call (session_of "a" "ready") "per_1" (request_of always)
    ∷ asks ask_call "per_2" details
    ∷ []

-- The second request has the grant of the first.
granted_twice :
    (ask_run print allowed_events fresh).sent
    ≡ record { request_id = "per_2"; reply = once }
      ∷ record { request_id = "per_1"; reply = once }
      ∷ []
unfolding runs
granted_twice = refl

ask_run-never_always_example :
    All (λ (r : Reply). r.reply ≢ always) (ask_run print allowed_events fresh).sent
ask_run-never_always_example = ask_run-never_always print allowed_events fresh tt

abbrev rejected_events : List AskEvent
rejected_events =
    asks ask_call "per_1" details
    ∷ decides ask_call (session_of "a" "ready") "per_1" (request_of reject)
    ∷ becomes (record serving { mode = read_only })
    ∷ asks ask_call "per_2" details
    ∷ []

ask_run-rejects_example :
    ((ask_run print rejected_events fresh).state.approvals ≡ [])
    × All (λ (r : Reply). r.reply ≡ reject) (ask_run print rejected_events fresh).sent
ask_run-rejects_example =
    ask_run-rejects print rejected_events fresh (tt, (inl refl, (tt, (tt, tt)))) refl tt
