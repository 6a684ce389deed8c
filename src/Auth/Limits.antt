-- ===== src/Auth/Limits.antt =====
-- src/auth.rs, the rate limit: how many guesses of a password one address has, with logins that overlap.
use caroba_guard.Prelude.{
  ℕ, ◌+◌, ◌≤◌, ◌<◌, String, ◌≡◌, refl, ap, Bool, Option, none, some, List, [], ◌∷◌, ◌++◌, arith,
  str_eq, eq_iff, count_if,
}
use caroba_guard.Error.{ok}
use caroba_guard.Auth.{
  Headers, is_failure_since, issue_session, login_start, login_finish, Crypto, UserRow,
  LoginAttempt, AuthDb, AuthConfig, LoginRequest, LoginEnv,
}

-- The failures of an address that still count at a time.
abbrev pub failures : ℕ → String → AuthDb → ℕ
failures now ip db = count_if (is_failure_since now ip) db.login_attempts

abbrev is_from : String → LoginEnv → Bool
is_from ip env = str_eq env.source_ip ip

-- The logins of an address that have passed the check and have not recorded their attempt.
abbrev pub in_flight : String → List LoginEnv → ℕ
in_flight ip running = count_if (is_from ip) running

pub record Server : Type 0 where
  pub db : AuthDb
  pub running : List LoginEnv
  pub clock : ℕ

module _ (c : Crypto) (config : AuthConfig) (n : ℕ) where
  -- The parts of logins, of which one address has at most `n` in flight, in any order, at times that do not go
  -- back; what other requests do to the users and the sessions comes in between.
  pub data Step : Server → Server → Type 0 where
    begins :
        (s : Server) (env : LoginEnv) (request : LoginRequest) (found : Option UserRow)
        → s.clock ≤ env.checked_at
        → in_flight env.source_ip s.running < n
        → login_start c config env request s.db ≡ ok found
        → Step s (record { db = s.db; running = env ∷ s.running; clock = env.checked_at })
    finishes :
        (s : Server) (env : LoginEnv) (headers : Headers) (request : LoginRequest)
        (found : Option UserRow) (before after : List LoginEnv)
        → s.running ≡ before ++ env ∷ after
        → s.clock ≤ env.recorded_at
        → Step s (record {
          db = (login_finish c config env headers request found s.db).1;
          running = before ++ after;
          clock = env.recorded_at;
        })
    drops :
        (s : Server) (env : LoginEnv) (before after : List LoginEnv)
        → s.running ≡ before ++ env ∷ after
        → Step s (record s { running = before ++ after })
    others :
        (s : Server) (db : AuthDb)
        → db.login_attempts ≡ s.db.login_attempts
        → Step s (record s { db = db })

  -- From a server without logins in flight, whose addresses have at most five failures that count.
  pub data Reach : Server → Type 0 where
    starts :
        (db : AuthDb) (clock : ℕ)
        → ((ip : String) → failures clock ip db ≤ 5)
        → Reach (record { db = db; running = []; clock = clock })
    steps : {s t : Server} → Reach s → Step s t → Reach t

  -- What is still to come is counted with what has come.
  abbrev IsWithin : Server → Type 0
  IsWithin s = (ip : String) → failures s.clock ip s.db + in_flight ip s.running ≤ 4 + n

-- As time passes failures drop out and none comes in.
count_older :
    (early late : ℕ) (ip : String) (past : List LoginAttempt)
    → early ≤ late
    → count_if (is_failure_since late ip) past ≤ count_if (is_failure_since early ip) past
count_older early late ip [] h = omega arith
count_older early late ip (a ∷ rest) h = ground (arith, count_older early late ip rest)

in_flight-removed :
    (ip : String) (env : LoginEnv) (before after : List LoginEnv)
    → in_flight ip (before ++ env ∷ after)
      ≡ in_flight ip (env ∷ []) + in_flight ip (before ++ after)
in_flight-removed ip env [] after = omega arith
in_flight-removed ip env (e ∷ before) after = omega (arith, in_flight-removed ip env before after)

module _ (c : Crypto) (config : AuthConfig) where
  attempts-issue_session :
      (env : LoginEnv) (headers : Headers) (found : Option UserRow) (db : AuthDb)
      → (issue_session c config env headers found db).1.login_attempts ≡ db.login_attempts
  unfolding issue_session
  attempts-issue_session env headers none db = refl
  attempts-issue_session env headers (some row) db = ground arith

  failures-login_start :
      (env : LoginEnv) (request : LoginRequest) (db : AuthDb) (found : Option UserRow)
      → login_start c config env request db ≡ ok found
      → failures env.checked_at env.source_ip db ≤ 4
  unfolding login_start
  failures-login_start env request db found h = ground arith

  -- The one failure that is recorded is of the address of the login.
  failures-login_finish :
      (env : LoginEnv) (headers : Headers) (request : LoginRequest) (found : Option UserRow)
      (db : AuthDb) (clock : ℕ) (ip : String)
      → clock ≤ env.recorded_at
      → failures env.recorded_at ip (login_finish c config env headers request found db).1
        ≤ in_flight ip (env ∷ []) + failures clock ip db
  unfolding login_finish issue_session
  failures-login_finish env headers request found db clock ip h =
      ground (arith, count_older clock env.recorded_at ip db.login_attempts h)

module _ (c : Crypto) (config : AuthConfig) (n : ℕ) where
  begins-IsWithin :
      (s : Server) (env : LoginEnv) (ip : String)
      → s.clock ≤ env.checked_at
      → in_flight env.source_ip s.running < n
      → failures env.checked_at env.source_ip s.db ≤ 4
      → failures s.clock ip s.db + in_flight ip s.running ≤ 4 + n
      → failures env.checked_at ip s.db + in_flight ip (env ∷ s.running) ≤ 4 + n
  begins-IsWithin s env ip le room few h =
      ground (
        arith,
        eq_iff env.source_ip ip,
        count_older s.clock env.checked_at ip s.db.login_attempts le,
      )

  Step-IsWithin :
      {s t : Server} → Step c config n s t → IsWithin c config n s → IsWithin c config n t
  Step-IsWithin (begins s env request found le room checked) h ip =
      begins-IsWithin s env ip le room
        (failures-login_start c config env request s.db found checked) (h ip)
  Step-IsWithin (finishes s env headers request found before after e le) h ip = omega (
    arith,
    h ip,
    ap (in_flight ip) e,
    in_flight-removed ip env before after,
    failures-login_finish c config env headers request found s.db s.clock ip le,
  )
  Step-IsWithin (drops s env before after e) h ip =
      omega (arith, h ip, ap (in_flight ip) e, in_flight-removed ip env before after)
  Step-IsWithin (others s db e) h ip =
      omega (arith, h ip, ap (count_if (is_failure_since s.clock ip)) e)

  Reach-IsWithin : {s : Server} → 1 ≤ n → Reach c config n s → IsWithin c config n s
  Reach-IsWithin le (starts db clock few) ip = omega (arith, few ip)
  Reach-IsWithin le (steps r s) ip = Step-IsWithin s (Reach-IsWithin le r) ip

  -- Where an address has at most n logins at a time between the check of the limit and the record of the
  -- attempt, logins that overlap in any way, at times that do not go back, never leave an address more than
  -- 4 + n failures of the last 900 seconds. With n = 1, where the logins of an address do not overlap, these are
  -- the five of the limit. At the start there is no login, and at most five failures that count.
  pub Reach-failures-le :
      {s : Server}
      → 1 ≤ n
      → Reach c config n s
      → (ip : String) (now : ℕ) → s.clock ≤ now
      → failures now ip s.db ≤ 4 + n
  Reach-failures-le {s} one r ip now le =
      omega (arith, Reach-IsWithin one r ip, count_older s.clock now ip s.db.login_attempts le)
