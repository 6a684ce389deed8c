-- ===== src/Adapters/Obedience.antt =====
-- src/docker.rs and src/services.rs, `action`: who may act, what is sent, and what is recorded.
use caroba_guard.Prelude.{
  ◌≤◌, String, ◌≡◌, refl, ap, ◌∙◌, ◌≢◌, inl, inr, Bool, true, false, Option, some, List, [], ◌∷◌,
  arith, Bool-cases, Option-cases, length, All, Bytes, codes, split, split-append,
}
use caroba_guard.Error.{ok, err, panicked, internal, ◌>>◌, reject_if, ApiError, ApiResult}
use caroba_guard.Auth.{require, Headers, verify_csrf_token, verify_csrf, AuthUser, Crypto, operator}
use caroba_guard.Auth.Access.{require_decides, verify_csrf_iff, Permits}
use caroba_guard.Adapters.Names.{validate_container_id-Avoids}
use caroba_guard.Adapters.{validate_container_id}
use caroba_guard.Audit.{
  record_event, row, record_event-row, record_event-none, NewAuditEvent, AuditEvent,
}
use caroba_guard.Adapters.Actions.{
  endpoint_of, docker_action, systemd_action, answer_of, after_record, with_sent, after_gate,
  container_record, container_action, unit_record, unit_action, ContainerAction, UnitAction,
  Attempt, ActionEnv, kill,
}

-- An operator or administrator, with the session's token in the request.
pub record MayAct (c : Crypto) (user : AuthUser) (headers : Headers) : Type 0 where
  pub permitted : Permits user.role operator
  pub supplied : Bytes
  pub header : headers "x-csrf-token" ≡ some supplied
  pub hash : c.token_hash supplied ≡ c.token_hash user.csrf_token

module _ (c : Crypto) (user : AuthUser) (headers : Headers) where
  gate : ApiResult (Unit {0})
  gate = require user.role operator >> verify_csrf c user headers

  gate-ok : gate ≡ ok tt → MayAct c user headers
  unfolding gate
  gate-ok h = elim (require_decides user.role operator) [
    | inr (n, e) ↦ cc (rw e at h)
    | inl (p, e) ↦
        let (supplied, header, hash) = (verify_csrf_iff c user headers).0 (rw e at h) in
        record { permitted = p; supplied = supplied; header = header; hash = hash }
  ]

  gate_of : MayAct c user headers → gate ≡ ok tt
  unfolding gate
  gate_of m = elim (require_decides user.role operator) [
    | inr (n, e) ↦ absurd (n m.permitted)
    | inl (p, e) ↦ rw e ((verify_csrf_iff c user headers).1 (m.supplied, m.header, m.hash))
  ]

  returns : (bad : Bool) (why : ApiError) → reject_if bad why ≢ panicked
  returns true why h = cc h
  returns false why h = cc h

  gate_no_panic : gate ≢ panicked
  unfolding gate verify_csrf verify_csrf_token
  gate_no_panic h = elim (require_decides user.role operator) [
    | inr (n, e) ↦ cc (rw e at h)
    | inl (p, e) ↦ elim (Option-cases (headers "x-csrf-token")) [
      | inl m ↦ cc (rw (e, m) at h)
      | inr (supplied, f) ↦ returns _ _ (rw (e, f) at h)
    ]
  ]

module _ {ℓ} {A : Type ℓ} (c : Crypto) (user : AuthUser) (headers : Headers) (env : ActionEnv) where
  -- The three ends of a call: it was refused; or it was done and its record could not be written; or
  -- it was done and recorded.
  pub data Obeys (attempt : Attempt A) (event : NewAuditEvent) (audit : List AuditEvent)
      : ApiResult (Unit {0}) × List A × List AuditEvent → Type ℓ where
    refused :
        (why : ApiError) → ¬ MayAct c user headers → Obeys attempt event audit (err why, [], audit)
    unrecorded :
        MayAct c user headers
        → env.audit.fails ≡ true
        → Obeys attempt event audit (err internal, attempt.sent, audit)
    and_recorded :
        MayAct c user headers
        → env.audit.fails ≡ false
        → Obeys attempt event audit
            (answer_of attempt.error, attempt.sent, row env.audit event ∷ audit)

  done-Obeys :
      (attempt : Attempt A) (event : NewAuditEvent) (audit : List AuditEvent)
      → MayAct c user headers
      → Obeys attempt event audit (
          with_sent attempt.sent
            (after_record attempt.error audit (record_event env.audit event audit)))
  done-Obeys attempt event audit m = elim (Bool-cases env.audit.fails) [
    | inl f ↦ rw (record_event-none env.audit event audit f) (unrecorded m f)
    | inr w ↦ rw (record_event-row env.audit event audit w) (and_recorded m w)
  ]

  gated-Obeys :
      (attempt : Attempt A) (event : NewAuditEvent) (audit : List AuditEvent)
      (g : ApiResult (Unit {0}))
      → gate c user headers ≡ g
      → Obeys attempt event audit (
          after_gate g audit (
            with_sent attempt.sent
              (after_record attempt.error audit (record_event env.audit event audit))))
  gated-Obeys attempt event audit (ok done) e =
      done-Obeys attempt event audit (gate-ok c user headers e)
  gated-Obeys attempt event audit (err why) e = refused why (λ m. cc (gate_of c user headers m, e))
  gated-Obeys attempt event audit panicked e = absurd (gate_no_panic c user headers e)

split-endpoint :
    (action : ContainerAction) → split b'/' (endpoint_of action) ≡ endpoint_of action ∷ []
split-endpoint ContainerAction.start = refl
split-endpoint ContainerAction.stop = refl
split-endpoint ContainerAction.restart = refl
split-endpoint kill = refl

abbrev pub OneSegment : String → ContainerAction → Bytes → Type 0
OneSegment id action path =
    split b'/' path ≡ [] ∷ codes "containers" ∷ codes id ∷ endpoint_of action ∷ []

docker_action-OneSegment :
    (daemon : Bytes → Option String) (id : String) (action : ContainerAction)
    → All (OneSegment id action) (docker_action daemon id action).sent
unfolding docker_action
docker_action-OneSegment daemon id action = elim (Bool-cases (validate_container_id (codes id))) [
  | inr n ↦ rw (n, docker_action) tt
  | inl v ↦
      rw (v, docker_action)
        (
          ap (λ (s : List Bytes). [] ∷ codes "containers" ∷ s)
              (split-append b'/' (codes id) (endpoint_of action)
                  (validate_container_id-Avoids (codes id) v)
                ∙ ap (λ (s : List Bytes). codes id ∷ s) (split-endpoint action)),
          tt,
        )
]

docker_action-length :
    (daemon : Bytes → Option String) (id : String) (action : ContainerAction)
    → length (docker_action daemon id action).sent ≤ 1
unfolding docker_action
docker_action-length daemon id action = elim (Bool-cases (validate_container_id (codes id))) [
  | inr n ↦ rw (n, docker_action) (omega arith)
  | inl v ↦ rw (v, docker_action) (omega arith)
]

-- What a user's action on a container does. Without the rights or the session's token nothing is sent
-- and nothing is recorded. With them the action, its failure included, is recorded, or the answer is the
-- error 500. At most one path is sent, in which one segment is the text of the identifier and no other
-- comes from the request. (The identifiers . and .. are accepted, and name no container.)
pub container_action-Obeys :
    (c : Crypto) (user : AuthUser) (headers : Headers) (env : ActionEnv)
    (daemon : Bytes → Option String) (id : String) (action : ContainerAction)
    (audit : List AuditEvent)
    → Obeys c user headers env
        (docker_action daemon id action)
        (container_record c user headers env id action (docker_action daemon id action).error)
        audit
        (container_action c user headers env daemon id action audit)
      × All (OneSegment id action) (docker_action daemon id action).sent
      × (length (docker_action daemon id action).sent ≤ 1)
unfolding container_action gate
container_action-Obeys c user headers env daemon id action audit = (
  gated-Obeys c user headers env (docker_action daemon id action) _ audit (gate c user headers)
      refl,
  docker_action-OneSegment daemon id action,
  docker_action-length daemon id action,
)

-- The same of an action on a unit.
pub unit_action-Obeys :
    (c : Crypto) (user : AuthUser) (headers : Headers) (env : ActionEnv)
    (daemon : List Bytes → Option String) (unit : String) (action : UnitAction)
    (audit : List AuditEvent)
    → Obeys c user headers env
        (systemd_action daemon unit action)
        (unit_record c user headers env unit action (systemd_action daemon unit action).error)
        audit
        (unit_action c user headers env daemon unit action audit)
unfolding unit_action gate
unit_action-Obeys c user headers env daemon unit action audit =
    gated-Obeys c user headers env (systemd_action daemon unit action) _ audit (gate c user headers)
      refl
