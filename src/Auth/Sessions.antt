-- ===== src/Auth/Sessions.antt =====
-- src/auth.rs, the life of a session: issued by `login`, accepted by `authenticate` until it expires
-- or `logout` deletes it.
use caroba_guard.Prelude.{
  ℕ, ◌+◌, ◌<◌, String, ◌≡◌, refl, sym, ap, subst, ◌∙◌, ◌≢◌, ◌⊎◌, inl, inr, true, not, ◌&&◌, none,
  some, List, [], ◌∷◌, arith, str_eq, eq_iff, eq_refl, ltb, ◌==◌, if◌then◌else◌, Bool-cases,
  Option-cases, keep, first, All, first_holds, first-All, Unique, keep-All, map-All, Bytes,
}
use caroba_guard.Auth.{
  parse, Headers, session_cookie_name, cookie_value, new_session, new_user, issue_session,
  login_start, login_finish, login, logout, session_row, touch, touch_if_stale, authenticate, Role,
  AuthUser, Crypto, UserRow, SessionRow, AuthDb, AuthConfig, LoginRequest, LoginEnv, LoginResponse,
}
use caroba_guard.Error.{ok, err, unauthorized}

-- Every property of all sessions and of all users holds of the row that is selected.
session_row_holds :
    (hash : String) (now : ℕ) (users : List UserRow) (ss : List SessionRow) (u : UserRow)
    (s : SessionRow)
    → session_row hash now users ss ≡ some (u, s)
    → (s.token_hash ≡ hash) × (now < s.expires_at) × (u.id ≡ s.user_id) × (u.enabled ≡ 1)
unfolding session_row
session_row_holds hash now users [] u s h = cc
session_row_holds hash now users (x ∷ ss) u s h = ground (
  arith,
  eq_iff x.token_hash hash,
  eq_iff u.id x.user_id,
  first_holds (λ (v : UserRow). str_eq v.id x.user_id && v.enabled == 1) users {r = u},
  session_row_holds hash now users ss u s,
)

session_row-none :
    (hash : String) (now : ℕ) (users : List UserRow) (ss : List SessionRow)
    → All (λ s. s.token_hash ≢ hash) ss
    → session_row hash now users ss ≡ none
unfolding session_row
session_row-none hash now users [] h = refl
session_row-none hash now users (x ∷ ss) h =
    ground (arith, eq_iff x.token_hash hash, h.0, session_row-none hash now users ss h.1)

-- With one user to an id, the user found by name is the one that the join finds by its id.
first_same_user :
    (name : String) (users : List UserRow) (row : UserRow)
    → Unique (λ (u : UserRow). u.id) users
    → first (λ (u : UserRow). str_eq u.username name) users ≡ some row
    → row.enabled ≡ 1
    → first (λ (u : UserRow). str_eq u.id row.id && u.enabled == 1) users ≡ some row
first_same_user name [] row distinct found enabled = cc
first_same_user name (x ∷ users) row distinct found enabled =
    elim (Bool-cases (str_eq x.username name)) [
      | inl e ↦ ground (arith, eq_refl row.id, eq_iff x.id row.id)
      | inr e ↦ ground (
        arith,
        eq_iff x.id row.id,
        first-All (λ (y : UserRow). y.id ≢ x.id) (λ (u : UserRow). str_eq u.username name) users
            {r = row} distinct.0,
        first_same_user name users row distinct.1,
      )
    ]

session_row_cases :
    (hash : String) (now : ℕ) (users : List UserRow) (x : SessionRow) (ss : List SessionRow)
    (u : UserRow) (s : SessionRow)
    → session_row hash now users (x ∷ ss) ≡ some (u, s)
    → (s ≡ x) ⊎ (session_row hash now users ss ≡ some (u, s))
unfolding session_row
session_row_cases hash now users x ss u s h = ground arith

-- The selected session has what all sessions have.
session_row-All {ℓ} :
    (P : SessionRow → Type ℓ) (hash : String) (now : ℕ) (users : List UserRow)
    (ss : List SessionRow) (u : UserRow) (s : SessionRow)
    → All P ss
    → session_row hash now users ss ≡ some (u, s)
    → P s
unfolding session_row
session_row-All P hash now users [] u s a h = cc
session_row-All P hash now users (x ∷ ss) u s a h =
    elim (session_row_cases hash now users x ss u s h) [
      | inl e ↦ subst P (sym e) a.0
      | inr e ↦ session_row-All P hash now users ss u s a.1 e
    ]

-- Where token hashes are unique, only the selected session has the token.
abbrev IsOther : String → String → SessionRow → Type 0
IsOther hash id x = (x.token_hash ≢ hash) ⊎ (x.id ≡ id)

others_of_ne :
    (hash id : String) (ss : List SessionRow)
    → All (λ (y : SessionRow). y.token_hash ≢ hash) ss
    → All (IsOther hash id) ss
others_of_ne hash id [] a = tt
others_of_ne hash id (y ∷ ss) a = (inl a.0, others_of_ne hash id ss a.1)

others_of_Unique :
    (hash : String) (now : ℕ) (users : List UserRow) (ss : List SessionRow) (u : UserRow)
    (s : SessionRow)
    → Unique (λ (x : SessionRow). x.token_hash) ss
    → session_row hash now users ss ≡ some (u, s)
    → All (IsOther hash s.id) ss
others_of_Unique hash now users [] u s distinct h = tt
others_of_Unique hash now users (x ∷ ss) u s distinct h =
    let found = session_row_holds hash now users (x ∷ ss) u s h in
    elim (session_row_cases hash now users x ss u s h) [
      | inl e ↦ (
        inr (ap (λ (y : SessionRow). y.id) (sym e)),
        others_of_ne hash s.id ss
            (rw (ap (λ (y : SessionRow). y.token_hash) (sym e) ∙ found.0) at distinct.0),
      )
      | inr e ↦ (
        inl (λ same.
            session_row-All (λ (y : SessionRow). y.token_hash ≢ x.token_hash) hash now users ss u s
              distinct.0 e (found.0 ∙ sym same)),
        others_of_Unique hash now users ss u s distinct.1 e,
      )
    ]

module _ (c : Crypto) (config : AuthConfig) where
  -- What a successful login has checked, and what it has written.
  abbrev pub Issued :
      LoginEnv → Headers → LoginRequest → AuthDb → UserRow → Role → LoginResponse → AuthDb → Type 0
  Issued env headers request db row role resp db' =
      (first (λ (u : UserRow). str_eq u.username request.username) db.users ≡ some row)
      × (row.enabled ≡ 1)
      × (c.verify_password request.password row.password_hash ≡ true)
      × (parse row.role ≡ some role)
      × (resp.body.user ≡ new_user env row role)
      × (resp.body.expires_at ≡ env.now + config.session_ttl_seconds)
      × (db'.users ≡ db.users)
      × (db'.sessions ≡ new_session c config env headers row ∷ db.sessions)

  login-Issued :
      (env : LoginEnv) (headers : Headers) (request : LoginRequest) (db db' : AuthDb)
      (resp : LoginResponse)
      → login c config env headers request db ≡ (ok resp, db')
      → (row : UserRow) × (role : Role) × Issued env headers request db row role resp db'
  unfolding login login_start login_finish issue_session
  login-Issued env headers request db db' resp h =
      elim (Option-cases (first (λ (u : UserRow). str_eq u.username request.username) db.users)) [
        | inl e ↦ absurd (ground arith)
        | inr (row, e) ↦ elim (Option-cases (parse row.role)) [
          | inl r ↦ absurd (ground arith)
          | inr (role, r) ↦ (
            row,
            role,
            (
              e,
              ground arith,
              ground arith,
              r,
              ground arith,
              ground arith,
              ground arith,
              ground arith,
            ),
          )
        ]
      ]

  -- The token of a successful login signs the same user in until it expires, and not from then on:
  -- the answer is the user of the login response, or 401.
  pub login-authenticate :
      (env : LoginEnv) (headers : Headers) (request : LoginRequest) (db db' : AuthDb)
      (resp : LoginResponse) (later : ℕ) (next : Headers)
      → Unique (λ (u : UserRow). u.id) db.users
      → All (λ (s : SessionRow). s.token_hash ≢ c.token_hash env.token) db.sessions
      → login c config env headers request db ≡ (ok resp, db')
      → cookie_value next session_cookie_name ≡ some env.token
      → (authenticate c later next db').0 ≡ (
          if ltb later resp.body.expires_at
          then ok resp.body.user
          else err (unauthorized "session is invalid or expired"))
  unfolding authenticate session_row
  login-authenticate env headers request db db' resp later next distinct fresh h sent =
      let (row, role, p) = login-Issued env headers request db db' resp h in
      ground (
        arith,
        p,
        sent,
        eq_refl (c.token_hash env.token),
        session_row-none (c.token_hash env.token) later db.users db.sessions fresh,
        first_same_user request.username db.users row distinct p.0 p.1,
      )

  -- A request that is signed in has a token whose hash is that of a session which has not expired,
  -- of an enabled user; the answer is that user with the stored role.
  abbrev pub SignedIn :
      ℕ → Headers → AuthDb → AuthUser → AuthDb → Bytes → UserRow → SessionRow → Type 0
  SignedIn now headers db user db' token u s =
      (cookie_value headers session_cookie_name ≡ some token)
      × (session_row (c.token_hash token) now db.users db.sessions ≡ some (u, s))
      × (parse u.role ≡ some user.role)
      × (user.id ≡ u.id)
      × (user.session_id ≡ s.id)
      × (user.csrf_token ≡ s.csrf_token)
      × (db' ≡ touch_if_stale now s db)

  authenticate-SignedIn :
      (now : ℕ) (headers : Headers) (db : AuthDb) (user : AuthUser) (db' : AuthDb)
      → authenticate c now headers db ≡ (ok user, db')
      → (token : Bytes) × (u : UserRow) × (s : SessionRow) × SignedIn now headers db user db' token
          u s
  unfolding authenticate
  authenticate-SignedIn now headers db user db' h =
      elim (Option-cases (cookie_value headers session_cookie_name)) [
        | inl e ↦ absurd (ground arith)
        | inr (token, e) ↦
            elim (Option-cases (session_row (c.token_hash token) now db.users db.sessions)) [
              | inl f ↦ absurd (ground arith)
              | inr ((u, s), f) ↦ (
                token,
                u,
                s,
                (e, f, ground arith, ground arith, ground arith, ground arith, ground arith),
              )
            ]
      ]

  touch-others :
      (hash id : String) (now : ℕ) (s : SessionRow) (db : AuthDb)
      → All (IsOther hash id) db.sessions
      → All (IsOther hash id) (touch_if_stale now s db).sessions
  unfolding touch
  touch-others hash id now s db a = elim (Bool-cases (ltb (s.last_seen_at + 300) now)) [
    | inl e ↦ rw e (
        map-All (IsOther hash id) (IsOther hash id) (touch s.id now) db.sessions
          (λ x h. ground arith) a)
    | inr e ↦ rw e a
  ]

  unauthenticated :
      (later : ℕ) (next : Headers) (token : Bytes) (db : AuthDb)
      → cookie_value next session_cookie_name ≡ some token
      → All (λ (s : SessionRow). s.token_hash ≢ c.token_hash token) db.sessions
      → (authenticate c later next db).0 ≡ err (unauthorized "session is invalid or expired")
  unfolding authenticate
  unauthenticated later next token db e gone =
      ground (arith, session_row-none (c.token_hash token) later db.users db.sessions gone)

  -- After `logout` the token that had signed the user in is refused, at any time.
  pub logout-revokes :
      (now later : ℕ) (next headers : Headers) (user : AuthUser) (cookie : Bytes)
      (db db' db'' : AuthDb)
      → Unique (λ (s : SessionRow). s.token_hash) db.sessions
      → authenticate c now next db ≡ (ok user, db')
      → logout c config user headers db' ≡ (ok cookie, db'')
      → (authenticate c later next db'').0 ≡ err (unauthorized "session is invalid or expired")
  unfolding logout
  logout-revokes now later next headers user cookie db db' db'' distinct h out =
      let (token, u, s, p) = authenticate-SignedIn now next db user db' h in
      let hash : String = c.token_hash token in
      let others : All (IsOther hash user.session_id) db'.sessions =
        rw (p.6, p.4)
          (touch-others hash s.id now s db
            (others_of_Unique hash now db.users db.sessions u s distinct p.1)) in
      let gone : All (λ (x : SessionRow). x.token_hash ≢ hash)
          (keep (λ (x : SessionRow). not (str_eq x.id user.session_id)) db'.sessions) =
        keep-All (IsOther hash user.session_id) (λ (x : SessionRow). x.token_hash ≢ hash)
          (λ (x : SessionRow). not (str_eq x.id user.session_id)) db'.sessions
          (λ x o k. ground (arith, eq_iff x.id user.session_id)) others in
      let left : keep (λ (x : SessionRow). not (str_eq x.id user.session_id)) db'.sessions
          ≡ db''.sessions =
        ground arith in
      unauthenticated later next token db'' p.0
        (subst (All (λ (x : SessionRow). x.token_hash ≢ hash)) left gone)
