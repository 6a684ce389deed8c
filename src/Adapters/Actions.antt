-- ===== src/Adapters/Actions.antt =====
-- src/docker.rs and src/services.rs, `action`: what an operator has a daemon do, with its record. What
-- Docker's API and systemctl answer is a parameter. A name is a `String`; its `codes` are its bytes, if it is
-- ASCII, and any other name is refused.
use caroba_guard.Prelude.{
  ℕ, String, Option, none, some, List, [], ◌∷◌, ◌++◌, if◌then◌else◌, Bytes, codes,
}
use caroba_guard.Error.{ok, err, panicked, bad_request, internal, ◌>>◌, ApiResult}
use caroba_guard.Auth.{require, Headers, verify_csrf, AuthUser, Crypto, operator}
use caroba_guard.Audit.{record_event, NewAuditEvent, AuditEvent, AuditEnv}
use caroba_guard.Context.{object_value, no_fields}
use caroba_guard.Adapters.{validate_container_id, validate_unit}

pub data ContainerAction : Type 0 where
  start stop restart kill : ContainerAction

pub data UnitAction : Type 0 where
  start stop restart reload enable disable : UnitAction

abbrev pub operation_of : ContainerAction → Bytes
operation_of ContainerAction.start = codes "start"
operation_of ContainerAction.stop = codes "stop"
operation_of ContainerAction.restart = codes "restart"
operation_of kill = codes "kill"

-- What stands at the end of the path.
abbrev pub endpoint_of : ContainerAction → Bytes
endpoint_of ContainerAction.start = codes "start"
endpoint_of ContainerAction.stop = codes "stop?t=10"
endpoint_of ContainerAction.restart = codes "restart?t=10"
endpoint_of kill = codes "kill"

abbrev pub container_event : ContainerAction → String
container_event ContainerAction.start = "container.start"
container_event ContainerAction.stop = "container.stop"
container_event ContainerAction.restart = "container.restart"
container_event kill = "container.kill"

abbrev pub action_name : UnitAction → Bytes
action_name UnitAction.start = codes "start"
action_name UnitAction.stop = codes "stop"
action_name UnitAction.restart = codes "restart"
action_name reload = codes "reload"
action_name enable = codes "enable"
action_name disable = codes "disable"

abbrev pub unit_event : UnitAction → String
unit_event UnitAction.start = "service.start"
unit_event UnitAction.stop = "service.stop"
unit_event UnitAction.restart = "service.restart"
unit_event reload = "service.reload"
unit_event enable = "service.enable"
unit_event disable = "service.disable"

-- The request path of `DockerService::action`.
abbrev pub action_path : Bytes → ContainerAction → Bytes
action_path id action = codes "/containers/" ++ (id ++ b'/' ∷ endpoint_of action)

-- What was sent to the daemon, and the error, if there was one.
pub record Attempt {ℓ} (A : Type ℓ) : Type ℓ where
  pub sent : List A
  pub error : Option String

-- `DockerService::action`; the parameter is the error of a request, if it fails.
unfoldable pub docker_action : (Bytes → Option String) → String → ContainerAction → Attempt Bytes
docker_action daemon id action =
    if validate_container_id (codes id)
    then record {
      sent = action_path (codes id) action ∷ [];
      error = daemon (action_path (codes id) action);
    }
    else record { sent = []; error = some "invalid container identifier" }

abbrev pub unit_arguments : Bytes → UnitAction → List Bytes
unit_arguments unit action = action_name action ∷ unit ∷ codes "--no-pager" ∷ []

-- `SystemdService::action`; what is sent are the arguments of `systemctl`.
unfoldable pub systemd_action :
    (List Bytes → Option String) → String → UnitAction → Attempt (List Bytes)
systemd_action daemon unit action =
    if validate_unit (codes unit)
    then record {
      sent = unit_arguments (codes unit) action ∷ [];
      error = daemon (unit_arguments (codes unit) action);
    }
    else record { sent = []; error = some "invalid systemd service name" }

abbrev pub outcome_text : Option String → String
outcome_text none = "success"
outcome_text (some error) = "failure"

abbrev pub outcome_code : Option String → ℕ
outcome_code none = 0
outcome_code (some error) = 1

-- The record of both handlers.
abbrev pub action_event : AuthUser → String → String → Bytes → Option String → ℕ → NewAuditEvent
action_event user name target command error duration_ms = record {
  actor_user_id = some user.id;
  actor_name = user.username;
  origin = "manual";
  action = name;
  target = target;
  command = some command;
  result = outcome_text error;
  duration_ms = duration_ms;
  exit_code = some (outcome_code error);
  ai_session_id = none;
  ai_permission_mode = none;
  metadata = object_value no_fields;
}

-- The end of both: the error of the record comes before that of the daemon.
abbrev pub answer_of : Option String → ApiResult (Unit {0})
answer_of none = ok tt
answer_of (some error) = err (bad_request error)

abbrev pub after_record :
    Option String
    → List AuditEvent
    → Option (List AuditEvent)
    → ApiResult (Unit {0}) × List AuditEvent
after_record error audit none = (err internal, audit)
after_record error audit (some audit') = (answer_of error, audit')

abbrev pub with_sent {ℓ} :
    {A : Type ℓ}
    → List A
    → ApiResult (Unit {0}) × List AuditEvent
    → ApiResult (Unit {0}) × List A × List AuditEvent
with_sent sent (answer, audit) = (answer, sent, audit)

-- What one call meets: its record, and how long the daemon took.
pub record ActionEnv : Type 0 where
  pub audit : AuditEnv
  pub duration_ms : ℕ

-- Nothing is done where the role or the token is refused.
abbrev pub after_gate {ℓ} :
    {A : Type ℓ}
    → ApiResult (Unit {0})
    → List AuditEvent
    → ApiResult (Unit {0}) × List A × List AuditEvent
    → ApiResult (Unit {0}) × List A × List AuditEvent
after_gate (ok done) audit acted = acted
after_gate (err why) audit acted = (err why, [], audit)
after_gate panicked audit acted = (panicked, [], audit)

module _ (c : Crypto) (user : AuthUser) (headers : Headers) (env : ActionEnv) where
  abbrev pub acted {ℓ} :
      {A : Type ℓ}
      → Attempt A
      → NewAuditEvent
      → List AuditEvent
      → ApiResult (Unit {0}) × List A × List AuditEvent
  acted attempt event audit =
      after_gate (require user.role operator >> verify_csrf c user headers) audit (
        with_sent attempt.sent
          (after_record attempt.error audit (record_event env.audit event audit)))

  abbrev pub container_record : (String → ContainerAction → Option String → NewAuditEvent)
  container_record id action error =
      action_event user (container_event action) id
        (codes "docker " ++ operation_of action ++ codes " " ++ codes id) error env.duration_ms

  unfoldable pub container_action :
      (Bytes → Option String)
      → String
      → ContainerAction
      → List AuditEvent
      → ApiResult (Unit {0}) × List Bytes × List AuditEvent
  container_action daemon id action audit =
      let attempt = docker_action daemon id action in
      acted attempt (container_record id action attempt.error) audit

  abbrev pub unit_record : (String → UnitAction → Option String → NewAuditEvent)
  unit_record unit action error =
      action_event user (unit_event action) unit
        (codes "systemctl " ++ action_name action ++ codes " " ++ codes unit) error env.duration_ms

  unfoldable pub unit_action :
      (List Bytes → Option String)
      → String
      → UnitAction
      → List AuditEvent
      → ApiResult (Unit {0}) × List (List Bytes) × List AuditEvent
  unit_action daemon unit action audit =
      let attempt = systemd_action daemon unit action in
      acted attempt (unit_record unit action attempt.error) audit
