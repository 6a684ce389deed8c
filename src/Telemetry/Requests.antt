-- ===== src/Telemetry/Requests.antt =====
-- src/api.rs, configure_metrics: the request that changes the profile and the mode.
use caroba_guard.Prelude.{ℕ, ◌≡◌, refl, ◌≢◌, Bool, Option, none, some}
use caroba_guard.Error.{ok, err, panicked, internal, ◌>>◌, ApiResult}
use caroba_guard.Auth.{require, Headers, verify_csrf, AuthUser, Crypto, operator}
use caroba_guard.Telemetry.Snapshot.{Numbers}
use caroba_guard.Telemetry.Service.{configure, TelemetryProfile, TelemetryService, WriteFailure}

pub record MetricsConfigResponse : Type 0 where
  pub profile : TelemetryProfile
  pub performance_mode : Bool
  pub interval_seconds : ℕ

module _ (n : Numbers) where
  abbrev answered :
      TelemetryProfile
      → Bool
      → Option ℕ × TelemetryService n
      → ApiResult MetricsConfigResponse × TelemetryService n
  answered profile mode (none, service) = (err internal, service)
  answered profile mode (some seconds, service) = (
    ok (record { profile = profile; performance_mode = mode; interval_seconds = seconds }),
    service,
  )

  abbrev if_allowed :
      ApiResult (Unit {0})
      → TelemetryService n
      → ApiResult MetricsConfigResponse × TelemetryService n
      → ApiResult MetricsConfigResponse × TelemetryService n
  if_allowed (ok done) service changed = changed
  if_allowed (err why) service changed = (err why, service)
  if_allowed panicked service changed = (panicked, service)

  pub configure_metrics :
      Crypto
      → AuthUser
      → Headers
      → WriteFailure n
      → TelemetryProfile
      → Bool
      → TelemetryService n
      → ApiResult MetricsConfigResponse × TelemetryService n
  unfolding configure require verify_csrf
  configure_metrics crypto user headers failure profile mode service =
      if_allowed (require user.role operator >> verify_csrf crypto user headers) service
        (answered profile mode (configure n failure profile mode service))

  if_allowed-refused :
      (gate : ApiResult (Unit {0})) (service : TelemetryService n)
      (changed : ApiResult MetricsConfigResponse × TelemetryService n)
      → gate ≢ ok tt
      → (if_allowed gate service changed).1 ≡ service
  if_allowed-refused (ok done) service changed h = absurd (h refl)
  if_allowed-refused (err why) service changed h = refl
  if_allowed-refused panicked service changed h = refl

  -- Without the rights or the token a request leaves the service and its database as they are.
  pub configure_metrics-refused :
      (crypto : Crypto) (user : AuthUser) (headers : Headers) (failure : WriteFailure n)
      (profile : TelemetryProfile) (mode : Bool) (service : TelemetryService n)
      → ((require user.role operator >> verify_csrf crypto user headers) ≢ ok tt)
      → (configure_metrics crypto user headers failure profile mode service).1 ≡ service
  unfolding configure_metrics
  configure_metrics-refused crypto user headers failure profile mode service h =
      if_allowed-refused (require user.role operator >> verify_csrf crypto user headers) service
        (answered profile mode (configure n failure profile mode service)) h
