-- ===== src/Terminal/Slots.antt =====
-- src/terminal.rs: the sessions of the panel and the permits that they hold, as a step relation. A
-- session holds its permit until `run_session` returns.
use caroba_guard.Prelude.{
  ℕ, ◌+◌, ◌≡◌, refl, ap, subst, inl, inr, false, Option, none, some, List, [], ◌∷◌, ◌++◌, arith,
  Option-cases, length, length-append, All, All-append, All-split, Bytes,
}
use caroba_guard.Error.{ok, is_ok, ApiResult}
use caroba_guard.Auth.{AuthUser, Crypto, operator}
use caroba_guard.Auth.Access.{Permits}
use caroba_guard.Audit.{AuditEvent}
use caroba_guard.Terminal.{websocket, PtySize, Uri, Upgrade}
use caroba_guard.Terminal.Session.{tick, from_secs, ClientMessage, Event, TerminalConfig, running}
use caroba_guard.Terminal.Lifetime.{run_session, World, Outcome}
use caroba_guard.Terminal.Upgrades.{InLimits, websocket-refused, websocket_iff}
use caroba_guard.Terminal.Ends.{run_session-ends}

-- A session with the events that it has met so far.
pub record Running : Type 0 where
  pub user : AuthUser
  pub world : World
  pub size : PtySize
  pub events : List Event

pub record Panel : Type 0 where
  pub permits : ℕ
  pub sessions : List Running

abbrev pub more : Event → Running → Running
more event r = record r { events = r.events ++ event ∷ [] }

-- `TerminalService::new`
abbrev pub new_panel : ℕ → Panel
new_panel max_sessions = record { permits = max_sessions; sessions = [] }

abbrev pub IsLegit : Running → Type 0
IsLegit r = Permits r.user.role operator × InLimits r.size

pub record IsFair (max_sessions : ℕ) (p : Panel) : Type 0 where
  pub none_lost : p.permits + length p.sessions ≡ max_sessions
  pub legit : All IsLegit p.sessions

abbrev at : ℕ → List Running → Panel
at permits sessions = record { permits = permits; sessions = sessions }

module _ (c : Crypto) (parse_uri : Bytes → Option Uri) (decode : Bytes → Option ClientMessage)
    (config : TerminalConfig) where
  abbrev pub result : Running → List AuditEvent → Option Outcome
  result r audit = run_session r.user r.world decode config r.size r.events audit

  pub data Step (p : Panel) : Panel → Type 0 where
    connects :
        (upgrade : Upgrade) (world : World) (size : PtySize) (left : ℕ)
        → websocket c parse_uri upgrade p.permits ≡ (ok size, left)
        → Step p (record {
          permits = left;
          sessions =
              record { user = upgrade.user; world = world; size = size; events = [] } ∷ p.sessions;
        })
    is_refused :
        (upgrade : Upgrade) (answer : ApiResult PtySize) (left : ℕ)
        → websocket c parse_uri upgrade p.permits ≡ (answer, left)
        → is_ok answer ≡ false
        → Step p (record p { permits = left })
    goes_on :
        (before after : List Running) (r : Running) (event : Event) (audit : List AuditEvent)
        → p.sessions ≡ before ++ r ∷ after
        → result r audit ≡ none
        → Step p (record p { sessions = before ++ more event r ∷ after })
    ends :
        (before after : List Running) (r : Running) (audit : List AuditEvent) (o : Outcome)
        → p.sessions ≡ before ++ r ∷ after
        → result r audit ≡ some o
        → Step p (record { permits = p.permits + 1; sessions = before ++ after })

  pub data Reach (p : Panel) : Panel → Type 0 where
    here : Reach p p
    next : {q r : Panel} → Reach p q → Step q r → Reach p r

  Step-IsFair :
      {max_sessions : ℕ} {p q : Panel} → Step p q → IsFair max_sessions p → IsFair max_sessions q
  Step-IsFair {p} (connects upgrade world size left e) f =
      let u = (websocket_iff c parse_uri upgrade p.permits left size).0 e in
      record {
        none_lost = ground (arith, u.one_taken, f.none_lost);
        legit = ((u.permitted, u.in_limits), f.legit);
      }
  Step-IsFair {p} (is_refused upgrade answer left e n) f = record {
    none_lost = omega (arith, websocket-refused c parse_uri upgrade p.permits e n, f.none_lost);
    legit = f.legit;
  }
  Step-IsFair (goes_on before after r event audit e n) f =
      let parts = All-split IsLegit before r after (subst (All IsLegit) e f.legit) in
      record {
        none_lost = omega (
          arith,
          ap length e,
          f.none_lost,
          length-append before (r ∷ after),
          length-append before (more event r ∷ after),
        );
        legit = All-append IsLegit before (more event r ∷ after) parts.0 (parts.1, parts.2);
      }
  Step-IsFair (ends before after r audit o e d) f =
      let parts = All-split IsLegit before r after (subst (All IsLegit) e f.legit) in
      record {
        none_lost = omega (
          arith,
          ap length e,
          f.none_lost,
          length-append before (r ∷ after),
          length-append before after,
        );
        legit = All-append IsLegit before after parts.0 parts.2;
      }

  -- The clock moves on and the shells go on running; sessions return.
  abbrev pub IsWait : {p q : Panel} → Step p q → Type 0
  IsWait (connects _ _ _ _ _) = ⊥
  IsWait (is_refused _ _ _ _ _) = ⊥
  IsWait (goes_on before after r event audit e n) = (now : ℕ) × (event ≡ tick now running)
  IsWait (ends _ _ _ _ _ _ _) = Unit {0}

  pub data Waits (p : Panel) : Panel → Type 0 where
    at_once : Waits p p
    then_wait : {q r : Panel} → Waits p q → (step : Step q r) → IsWait step → Waits p r

  deadline : Running → ℕ
  deadline r = r.world.started + from_secs config.terminal_max_duration_seconds

  one-drains :
      (p : Panel) (permits : ℕ) (r : Running) (rs : List Running)
      → Waits p (at permits (r ∷ rs))
      → Waits p (at (permits + 1) rs)
  unfolding deadline
  one-drains p permits r rs w = elim (Option-cases (result r [])) [
    | inr (o, e) ↦ then_wait w (ends [] rs r [] o refl e) tt
    | inl n ↦
        let timeout = tick (deadline r) running in
        let (o, e, _) =
          run_session-ends r.user r.world decode config r.size r.events [] (deadline r) running []
            (inl (omega arith)) in
        then_wait (then_wait w (goes_on [] rs r timeout [] refl n) (deadline r, refl))
          (ends [] rs (more timeout r) [] o refl e) tt
  ]

  all-drain :
      (p : Panel) (permits : ℕ) (rs : List Running)
      → Waits p (at permits rs)
      → Waits p (at (permits + length rs) [])
  all-drain p permits [] w = subst (λ n. Waits p (at n [])) (omega arith) w
  all-drain p permits (r ∷ rs) w =
      subst (λ n. Waits p (at n [])) (omega arith)
        (all-drain p (permits + 1) rs (one-drains p permits r rs w))

  Reach-IsFair_in :
      {max_sessions : ℕ} {p : Panel} → Reach (new_panel max_sessions) p → IsFair max_sessions p
  Reach-IsFair_in here = record { none_lost = omega arith; legit = tt }
  Reach-IsFair_in (next r s) = Step-IsFair s (Reach-IsFair_in r)

-- Whatever connects, is sent and ends, in whatever order: the permits that are left and the sessions
-- that run make up the maximum, and each session is an operator's or an administrator's, with a size
-- in the limits.
pub Reach-IsFair :
    (c : Crypto) (parse_uri : Bytes → Option Uri) (decode : Bytes → Option ClientMessage)
    (config : TerminalConfig) (max_sessions : ℕ) {p : Panel}
    → Reach c parse_uri decode config (new_panel max_sessions) p
    → IsFair max_sessions p
Reach-IsFair c parse_uri decode config max_sessions r = Reach-IsFair_in c parse_uri decode config r

-- From every state that can be reached, waiting alone can end every session and give back every
-- permit: it takes ticks of the clock, but no message of a client, and no shell has to end.
pub Reach-Waits :
    (c : Crypto) (parse_uri : Bytes → Option Uri) (decode : Bytes → Option ClientMessage)
    (config : TerminalConfig) (max_sessions : ℕ) {p : Panel}
    → Reach c parse_uri decode config (new_panel max_sessions) p
    → Waits c parse_uri decode config p (new_panel max_sessions)
Reach-Waits c parse_uri decode config max_sessions {p} r =
    subst (λ n. Waits c parse_uri decode config p (record { permits = n; sessions = [] }))
      (Reach-IsFair c parse_uri decode config max_sessions r).none_lost
      (all-drain c parse_uri decode config p p.permits p.sessions at_once)
