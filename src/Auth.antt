-- ===== src/Auth.antt =====
-- src/auth.rs: roles, the session cookie, CSRF tokens, login with its rate limit, and the session
-- check of every request. The three tables are lists; the clock, random values and the hash
-- functions are arguments. A time is a number of seconds since 1970, so that `created_at > now - 900`
-- reads `now < created_at + 900`. The queries themselves do not fail here.
pub mod Access
pub mod Cookies
pub mod Limits
pub mod Sessions
mod Tests
use caroba_guard.Prelude.{
  ℕ, ◌+◌, String, len, Bool, true, false, not, ◌&&◌, ◌||◌, Option, none, some, List, [], ◌∷◌, ◌++◌,
  map, str_eq, ltb, leb, ◌==◌, if◌then◌else◌, and_then, unwrap_or, or_else, take, all, keep, first,
  count_if, Bytes, codes, bytes_eq, trim, split_once, split, to_string,
}
use caroba_guard.Error.{
  ok, err, bad_request, unauthorized, forbidden, too_many_requests, internal, ◌>>=◌, ◌>>◌,
  reject_if, or_fail, expect, then_do, ApiResult,
}

pub data Role : Type 0 where
  admin operator viewer ai_agent : Role

abbrev pub parse : String → Option Role
parse value =
    if str_eq value "admin"
    then some admin
    else if str_eq value "operator"
    then some operator
    else if str_eq value "viewer"
    then some viewer
    else if str_eq value "ai_agent"
    then some ai_agent
    else none

abbrev pub level : Role → ℕ
level viewer = 0
level operator = 1
level admin = 2
level ai_agent = 0

abbrev pub is_ai_agent : Role → Bool
is_ai_agent ai_agent = true
is_ai_agent _ = false

unfoldable pub require : Role → Role → ApiResult (Unit {0})
require self required =
    if is_ai_agent self || ltb (level self) (level required)
    then err (forbidden "this role cannot perform the operation")
    else ok tt

pub record AuthUser : Type 0 where
  pub id : String
  pub username : String
  pub role : Role
  pub session_id : String
  pub csrf_token : Bytes

-- `headers.get(name).and_then(|value| value.to_str().ok())`: visible ASCII text.
abbrev pub Headers : Type 0
Headers = String → Option Bytes

-- SHA-256 and Argon2. `hash_password` is `none` where the worker fails.
pub record Crypto : Type 0 where
  pub token_hash : Bytes → String
  pub verify_password : String → String → Bool
  pub hash_password : String → Option String

pub record UserRow : Type 0 where
  pub id : String
  pub username : String
  pub password_hash : String
  pub role : String
  pub enabled : ℕ

pub record SessionRow : Type 0 where
  pub id : String
  pub user_id : String
  pub token_hash : String
  pub csrf_token : Bytes
  pub source_ip : String
  pub user_agent : Bytes
  pub created_at : ℕ
  pub expires_at : ℕ
  pub last_seen_at : ℕ

pub record LoginAttempt : Type 0 where
  pub source_ip : String
  pub username : String
  pub succeeded : Bool
  pub created_at : ℕ

pub record AuthDb : Type 0 where
  pub users : List UserRow
  pub sessions : List SessionRow
  pub login_attempts : List LoginAttempt

pub record AuthConfig : Type 0 where
  pub session_ttl_seconds : ℕ
  pub cookie_secure : Bool

pub record LoginRequest : Type 0 where
  pub username : String
  pub password : String

-- What one login reads from the world: the client, the clock at its three readings, and the fresh
-- random values.
pub record LoginEnv : Type 0 where
  pub source_ip : String
  pub checked_at : ℕ
  pub recorded_at : ℕ
  pub now : ℕ
  pub token : Bytes
  pub csrf_token : Bytes
  pub session_id : String

pub record SessionResponse : Type 0 where
  pub user : AuthUser
  pub csrf_token : Bytes
  pub expires_at : ℕ

pub record LoginResponse : Type 0 where
  pub body : SessionResponse
  pub set_cookie : Bytes

abbrev pub session_cookie_name : Bytes
session_cookie_name = codes "carobaguard_session"

-- One `name=value` part, or what the later parts give.
abbrev or_next : Bytes → Option (Bytes × Bytes) → Option Bytes → Option Bytes
or_next name none rest = rest
or_next name (some (key, value)) rest = if bytes_eq key name then some value else rest

find_cookie : Bytes → List Bytes → Option Bytes
find_cookie name [] = none
find_cookie name (part ∷ parts) =
    or_next name (split_once b'=' (trim part)) (find_cookie name parts)

pub cookie_value : Headers → Bytes → Option Bytes
unfolding find_cookie
cookie_value headers name = and_then (headers "cookie") λ value. find_cookie name (split b';' value)

abbrev secure_suffix : Bool → Bytes
secure_suffix secure = if secure then codes "; Secure" else []

pub session_cookie : Bytes → ℕ → Bool → Bytes
session_cookie token max_age secure =
    session_cookie_name
    ++ b'='
      ∷ (token
          ++ (codes "; Path=/; HttpOnly; SameSite=Strict; Max-Age="
              ++ (to_string max_age ++ secure_suffix secure)))

removal_cookie : Bool → Bytes
removal_cookie secure =
    session_cookie_name
    ++ (codes "=; Path=/; HttpOnly; SameSite=Strict; Max-Age=0" ++ secure_suffix secure)

-- `HeaderValue::from_str`: no control byte but the tab.
abbrev is_header_byte : ℕ → Bool
is_header_byte b = (leb 32 b && not (b == 127)) || b == 9

abbrev header_value : Bytes → ApiResult Bytes
header_value text = if all is_header_byte text then ok text else err internal

unfoldable pub verify_csrf_token : Crypto → AuthUser → Bytes → ApiResult (Unit {0})
verify_csrf_token c user supplied =
    reject_if (not (str_eq (c.token_hash supplied) (c.token_hash user.csrf_token)))
      (forbidden "invalid CSRF token")

unfoldable pub verify_csrf : Crypto → AuthUser → Headers → ApiResult (Unit {0})
unfolding verify_csrf_token
verify_csrf c user headers = do
  supplied ← or_fail (headers "x-csrf-token") (forbidden "missing CSRF token")
  verify_csrf_token c user supplied

abbrev is_failure_since : ℕ → String → LoginAttempt → Bool
is_failure_since now source_ip a =
    str_eq a.source_ip source_ip && not a.succeeded && ltb now (a.created_at + 900)

enforce_login_rate_limit : ℕ → String → AuthDb → ApiResult (Unit {0})
enforce_login_rate_limit now source_ip db =
    reject_if (leb 5 (count_if (is_failure_since now source_ip) db.login_attempts))
      (too_many_requests "too many failed logins; try again later")

record_login_attempt : ℕ → String → String → Bool → AuthDb → AuthDb
record_login_attempt now source_ip username succeeded db = record db {
  login_attempts =
      record { source_ip = source_ip; username = username; succeeded = succeeded; created_at = now }
      ∷ db.login_attempts;
}

-- Without a user a dummy hash is verified, for the time that it takes.
check_credentials : Crypto → Option UserRow → String → ApiResult Bool
check_credentials c (some row) password =
    ok (row.enabled == 1 && c.verify_password password row.password_hash)
check_credentials c none password = elim (c.hash_password "invalid-credential-placeholder") [
  | none ↦ err internal
  | some dummy ↦ ok false
]

abbrev new_session : Crypto → AuthConfig → LoginEnv → Headers → UserRow → SessionRow
new_session c config env headers row = record {
  id = env.session_id;
  user_id = row.id;
  token_hash = c.token_hash env.token;
  csrf_token = env.csrf_token;
  source_ip = env.source_ip;
  user_agent = take 512 (unwrap_or (headers "user-agent") []);
  created_at = env.now;
  expires_at = env.now + config.session_ttl_seconds;
  last_seen_at = env.now;
}

abbrev new_user : LoginEnv → UserRow → Role → AuthUser
new_user env row role = record {
  id = row.id;
  username = row.username;
  role = role;
  session_id = env.session_id;
  csrf_token = env.csrf_token;
}

abbrev login_response : AuthConfig → LoginEnv → UserRow → Role → Bytes → LoginResponse
login_response config env row role set_cookie = record {
  body = record {
    user = new_user env row role;
    csrf_token = env.csrf_token;
    expires_at = env.now + config.session_ttl_seconds;
  };
  set_cookie = set_cookie;
}

module _ (c : Crypto) (config : AuthConfig) where
  -- The part of `login` behind the credential check.
  issue_session : LoginEnv → Headers → Option UserRow → AuthDb → ApiResult LoginResponse × AuthDb
  unfolding session_cookie
  issue_session env headers found db =
      then_do (expect found, db)
        λ row db.
          then_do (or_fail (parse row.role) internal, db)
            λ role db.
              let db' = record db {
                sessions = new_session c config env headers row ∷ db.sessions;
              } in
              then_do
                (
                  header_value
                      (session_cookie env.token config.session_ttl_seconds config.cookie_secure),
                  db',
                )
                λ cookie db. (ok (login_response config env row role cookie), db)

  -- `login` until it has selected the user: what other logins do after this is not seen by the check.
  unfoldable pub login_start : LoginEnv → LoginRequest → AuthDb → ApiResult (Option UserRow)
  unfolding enforce_login_rate_limit
  login_start env request db =
      if ltb 128 (len request.username) || ltb 4096 (len request.password)
      then err (bad_request "invalid credentials")
      else (do
        enforce_login_rate_limit env.checked_at env.source_ip db
        ok (first (λ u. str_eq u.username request.username) db.users))

  -- The rest of `login`, from the verification of the password on.
  unfoldable pub login_finish :
      LoginEnv → Headers → LoginRequest → Option UserRow → AuthDb → ApiResult LoginResponse × AuthDb
  unfolding issue_session check_credentials record_login_attempt
  login_finish env headers request found db =
      then_do (check_credentials c found request.password, db)
        λ valid db.
          let db' = record_login_attempt env.recorded_at env.source_ip request.username valid db in
          if valid
          then issue_session env headers found db'
          else (err (unauthorized "invalid username or password"), db')

  pub login : LoginEnv → Headers → LoginRequest → AuthDb → ApiResult LoginResponse × AuthDb
  unfolding login_start login_finish
  login env headers request db =
      then_do (login_start env request db, db) λ found db. login_finish env headers request found db

pub me : AuthUser → SessionResponse
me user = record { user = user; csrf_token = user.csrf_token; expires_at = 0 }

-- The response is the cookie that removes the session cookie.
pub logout : Crypto → AuthConfig → AuthUser → Headers → AuthDb → ApiResult Bytes × AuthDb
unfolding verify_csrf removal_cookie
logout c config user headers db =
    then_do (verify_csrf c user headers, db)
      λ _ db. (
        header_value (removal_cookie config.cookie_secure),
        record db { sessions = keep (λ s. not (str_eq s.id user.session_id)) db.sessions },
      )

abbrev pair_with {ℓ} : {A B : Type ℓ} → A → Option B → Option (B × A)
pair_with a none = none
pair_with a (some b) = some (b, a)

-- The join of `sessions` and `users` that `authenticate` selects from.
pub session_row : String → ℕ → List UserRow → List SessionRow → Option (UserRow × SessionRow)
session_row hash now users [] = none
session_row hash now users (s ∷ ss) =
    or_else
      (if str_eq s.token_hash hash && ltb now s.expires_at
        then pair_with s (first (λ u. str_eq u.id s.user_id && u.enabled == 1) users)
        else none)
      (session_row hash now users ss)

touch : String → ℕ → SessionRow → SessionRow
touch id now s = if str_eq s.id id then record s { last_seen_at = now } else s

abbrev signed_in : UserRow → SessionRow → Role → AuthUser
signed_in u s role = record {
  id = u.id;
  username = u.username;
  role = role;
  session_id = s.id;
  csrf_token = s.csrf_token;
}

abbrev touch_if_stale : ℕ → SessionRow → AuthDb → AuthDb
touch_if_stale now s db =
    if ltb (s.last_seen_at + 300) now
    then record db { sessions = map (touch s.id now) db.sessions }
    else db

pub authenticate : Crypto → ℕ → Headers → AuthDb → ApiResult AuthUser × AuthDb
unfolding touch
authenticate c now headers db =
    then_do
      (
        or_fail (cookie_value headers session_cookie_name) (unauthorized "authentication required"),
        db,
      )
      λ token db.
        then_do
          (
            or_fail (session_row (c.token_hash token) now db.users db.sessions)
                (unauthorized "session is invalid or expired"),
            db,
          )
          λ row db.
            let db' = touch_if_stale now row.1 db in
            then_do (or_fail (parse row.0.role) internal, db')
              λ role db. (ok (signed_in row.0 row.1 role), db)
