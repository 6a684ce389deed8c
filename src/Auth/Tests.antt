-- ===== src/Auth/Tests.antt =====
-- Runs of src/auth.rs at concrete inputs.
use caroba_guard.Prelude.{
  ℕ, ◌+◌, ◌≤◌, String, ◌≡◌, refl, true, false, none, some, List, [], ◌∷◌, arith, str_eq, ltb,
  if◌then◌else◌, Unique, Bytes, codes, bytes_eq, to_string,
}
use caroba_guard.Error.{ok, err, unauthorized, too_many_requests}
use caroba_guard.Auth.{
  require, Headers, session_cookie_name, cookie_value, session_cookie, removal_cookie, verify_csrf,
  new_session, new_user, login_response, login_start, login_finish, login, logout, session_row,
  touch_if_stale, authenticate, AuthUser, Crypto, UserRow, SessionRow, LoginAttempt, AuthDb,
  AuthConfig, LoginRequest, LoginEnv, LoginResponse, operator,
}
use caroba_guard.Auth.Cookies.{pair, cookie_header, kept, session_cookie-cookie_value}
use caroba_guard.Auth.Limits.{
  failures, begins, finishes, starts, steps, Reach-failures-le, Server, Reach,
}
use caroba_guard.Auth.Sessions.{login-authenticate, logout-revokes}

abbrev crypto : Crypto
crypto = record {
  token_hash = λ t. if bytes_eq t (codes "tok") then "hash" else "none";
  verify_password = λ p h. str_eq p h;
  hash_password = λ p. some p;
}

abbrev config : AuthConfig
config = record { session_ttl_seconds = 43200; cookie_secure = true }

abbrev ann : UserRow
ann = record { id = "1"; username = "ann"; password_hash = "pw"; role = "operator"; enabled = 1 }

abbrev start_db : AuthDb
start_db = record { users = ann ∷ []; sessions = []; login_attempts = [] }

abbrev no_headers : Headers
no_headers name = none

abbrev env_at : ℕ → LoginEnv
env_at now = record {
  source_ip = "10.0.0.1";
  checked_at = now;
  recorded_at = now;
  now = now;
  token = codes "tok";
  csrf_token = codes "csrf";
  session_id = "s1";
}

abbrev attempt : String → LoginRequest
attempt password = record { username = "ann"; password = password }

abbrev ann_user : AuthUser
ann_user = new_user (env_at 1000) ann operator

abbrev cookies : List (Bytes × Bytes)
cookies = (codes "not_carobaguard_session", codes "x") ∷ (session_cookie_name, codes "tok") ∷ []

abbrev browser : Headers
browser name =
    if str_eq name "cookie"
    then some (cookie_header cookies)
    else if str_eq name "x-csrf-token"
    then some (codes "csrf")
    else none

runs : Unit {0}
unfolding login cookie_value authenticate logout session_row require verify_csrf session_cookie
    to_string removal_cookie
runs = tt

abbrev signed_in_db : AuthDb
signed_in_db = (login crypto config (env_at 1000) no_headers (attempt "pw") start_db).1

abbrev response : LoginResponse
response =
    login_response config (env_at 1000) ann operator (session_cookie (codes "tok") 43200 true)

login_runs :
    login crypto config (env_at 1000) no_headers (attempt "pw") start_db
    ≡ (ok response, signed_in_db)
unfolding runs
login_runs = refl

wrong_password :
    (login crypto config (env_at 1000) no_headers (attempt "guess") start_db).0
    ≡ err (unauthorized "invalid username or password")
unfolding runs
wrong_password = refl

abbrev failure_at : ℕ → LoginAttempt
failure_at now = record {
  source_ip = "10.0.0.1";
  username = "ann";
  succeeded = false;
  created_at = now;
}

abbrev four_failures : AuthDb
four_failures = record start_db {
  login_attempts = failure_at 4 ∷ failure_at 3 ∷ failure_at 2 ∷ failure_at 1 ∷ [];
}

-- A login that is checked at one time and recorded at another.
abbrev slow : ℕ → ℕ → LoginEnv
slow checked recorded = record (env_at checked) { recorded_at = recorded }

abbrev idle : Server
idle = record { db = four_failures; running = []; clock = 5 }

abbrev both_checked : Server
both_checked = record idle { running = slow 7 9 ∷ slow 6 8 ∷ []; clock = 7 }

abbrev recorded_guess : ℕ → ℕ → AuthDb → AuthDb
recorded_guess checked recorded db =
    (login_finish crypto config (slow checked recorded) no_headers (attempt "guess") (some ann)
      db).1

abbrev both_recorded : Server
both_recorded = record {
  db = recorded_guess 7 9 (recorded_guess 6 8 four_failures);
  running = [];
  clock = 9;
}

start_runs :
    (now : ℕ)
    → now ≤ 900
    → login_start crypto config (slow now (now + 2)) (attempt "guess") four_failures ≡ ok (some ann)
unfolding login_start
start_runs now le = ground arith

overlapping : Reach crypto config 2 both_recorded
unfolding login_finish
overlapping =
    steps
      (steps
        (steps
          (steps (starts four_failures 5 (λ ip. ground arith)) (
            begins idle (slow 6 8) (attempt "guess") (some ann) (omega arith) (ground arith)
              (start_runs 6 (omega arith))))
          (begins (record idle { running = slow 6 8 ∷ []; clock = 6 }) (slow 7 9) (attempt "guess")
            (some ann) (omega arith) (ground arith) (start_runs 7 (omega arith))))
        (finishes both_checked (slow 6 8) no_headers (attempt "guess") (some ann) (slow 7 9 ∷ []) []
          refl (omega arith)))
      (finishes
        (record { db = recorded_guess 6 8 four_failures; running = slow 7 9 ∷ []; clock = 8 })
        (slow 7 9) no_headers (attempt "guess") (some ann) [] [] refl (omega arith))

-- Two guesses that overlap pass a limit that one of them would reach.
six_failures : failures 9 "10.0.0.1" both_recorded.db ≡ 6
unfolding login_finish
six_failures = refl

locked_out :
    (login crypto config (env_at 10) no_headers (attempt "pw") both_recorded.db).0
    ≡ err (too_many_requests "too many failed logins; try again later")
unfolding runs
locked_out = refl

Reach-failures-le_example : failures 9 "10.0.0.1" both_recorded.db ≤ 6
Reach-failures-le_example =
    Reach-failures-le crypto config 2 (omega arith) overlapping "10.0.0.1" 9 (omega arith)

session_cookie-cookie_value_example :
    (kept (session_cookie (codes "tok") 43200 true)
      ≡ some (pair (session_cookie_name, codes "tok")))
    × (cookie_value browser session_cookie_name ≡ some (codes "tok"))
session_cookie-cookie_value_example =
    session_cookie-cookie_value (codes "tok") 43200 true
      ((codes "not_carobaguard_session", codes "x") ∷ []) [] browser (ground arith) tt
      (ground arith) (ground arith) (ground arith) refl

sent_back : cookie_value browser session_cookie_name ≡ some (codes "tok")
unfolding runs
sent_back = refl

login-authenticate_example : (authenticate crypto 2000 browser signed_in_db).0 ≡ (
    if ltb 2000 response.body.expires_at
    then ok response.body.user
    else err (unauthorized "session is invalid or expired"))
login-authenticate_example =
    login-authenticate crypto config (env_at 1000) no_headers (attempt "pw") start_db signed_in_db
      response 2000 browser (tt, tt) tt login_runs sent_back

authenticate_runs : authenticate crypto 2000 browser signed_in_db ≡ (
  ok ann_user,
  touch_if_stale 2000 (new_session crypto config (env_at 1000) no_headers ann) signed_in_db,
)
unfolding runs
authenticate_runs = refl

abbrev touched_db : AuthDb
touched_db = (authenticate crypto 2000 browser signed_in_db).1

authenticate_touches : authenticate crypto 2000 browser signed_in_db ≡ (ok ann_user, touched_db)
unfolding runs
authenticate_touches = refl

logout_runs :
    (logout crypto config ann_user browser touched_db)
    ≡ (ok (removal_cookie true), (logout crypto config ann_user browser touched_db).1)
unfolding runs
logout_runs = refl

one_session : Unique (λ (s : SessionRow). s.token_hash) signed_in_db.sessions
unfolding runs
one_session = (tt, tt)

logout-revokes_example :
    (authenticate crypto 2001 browser (logout crypto config ann_user browser touched_db).1).0
    ≡ err (unauthorized "session is invalid or expired")
logout-revokes_example =
    logout-revokes crypto config 2000 2001 browser browser ann_user (removal_cookie true)
      signed_in_db touched_db (logout crypto config ann_user browser touched_db).1 one_session
      authenticate_touches logout_runs
