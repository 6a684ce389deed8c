-- ===== src/Adapters/Tests.antt =====
-- Runs of src/docker.rs and src/services.rs at concrete inputs, their unit tests among them.
use caroba_guard.Prelude.{
  ◌≤◌, ◌≡◌, refl, true, false, none, some, [], ◌∷◌, arith, if◌then◌else◌, length, All, codes,
  bytes_eq, from_utf8_lossy,
}
use caroba_guard.Logs.Frames.{encode_all, payloads}
use caroba_guard.Adapters.{
  validate_container_id, validate_unit, collect_limited, decode_docker_log_stream,
}
use caroba_guard.Error.{err, bad_request, forbidden}
use caroba_guard.Audit.{record_event, row}
use caroba_guard.Auth.{require, verify_csrf, AuthUser, Crypto, operator}
use caroba_guard.Adapters.Actions.{
  docker_action, container_record, container_action, ActionEnv, kill,
}
use caroba_guard.Adapters.Obedience.{OneSegment, container_action-Obeys, Obeys}
use caroba_guard.Adapters.Streams.{decode_docker_log_stream-encode_all}

runs : Unit {0}
unfolding container_action docker_action require verify_csrf record_event validate_container_id
    validate_unit decode_docker_log_stream collect_limited
runs = tt

-- `rejects_path_segments_in_container_identifiers`
safe_name : validate_container_id (codes "safe_name-1.2") ≡ true
unfolding runs
safe_name = refl

path_is_rejected : validate_container_id (codes "../containers/json") ≡ false
unfolding runs
path_is_rejected = refl

-- The parent segment alone is an accepted identifier.
parent_is_accepted : validate_container_id (codes "..") ≡ true
unfolding runs
parent_is_accepted = refl

-- `unit_name_validation_blocks_option_and_path_injection`
root_is_rejected : validate_unit (codes "--root=/tmp.service") ≡ false
unfolding runs
root_is_rejected = refl

-- An option of `systemctl` that wants no `=` is an accepted unit name.
host_is_accepted : validate_unit (codes "-Hroot@example.service") ≡ true
unfolding runs
host_is_accepted = refl

third_frame_is_too_much : collect_limited 4 [] (codes "ab" ∷ codes "cd" ∷ codes "e" ∷ []) ≡ none
unfolding runs
third_frame_is_too_much = refl

abbrev crypto : Crypto
crypto = record {
  token_hash = λ t. if bytes_eq t (codes "tok") then "hash" else "none";
  verify_password = λ p h. false;
  hash_password = λ p. none;
}

abbrev ann : AuthUser
ann = record {
  id = "1";
  username = "ann";
  role = operator;
  session_id = "s";
  csrf_token = codes "tok";
}

abbrev env : ActionEnv
env = record { audit = record { id = "e"; now = 5; fails = false }; duration_ms = 3 }

-- Docker refuses, and the failure is recorded.
failure_is_recorded :
    container_action crypto ann
      (λ name. some (codes "tok"))
      env
      (λ path. some "no such container")
      "web.1"
      kill
      []
    ≡ (
      err (bad_request "no such container"),
      codes "/containers/web.1/kill" ∷ [],
      row env.audit
            (container_record crypto ann (λ name. none) env "web.1" kill (some "no such container"))
          ∷ [],
    )
unfolding runs
failure_is_recorded = refl

other_site_is_refused :
    container_action crypto ann (λ name. some (codes "x")) env (λ path. none) "web.1" kill []
    ≡ (err (forbidden "invalid CSRF token"), [], [])
unfolding runs
other_site_is_refused = refl

container_action-Obeys_example :
    Obeys crypto ann
      (λ name. some (codes "tok"))
      env
      (docker_action (λ path. none) "web.1" kill)
      (container_record crypto ann
        (λ name. some (codes "tok"))
        env
        "web.1"
        kill
        (docker_action (λ path. none) "web.1" kill).error)
      []
      (container_action crypto ann (λ name. some (codes "tok")) env (λ path. none) "web.1" kill [])
    × All (OneSegment "web.1" kill) (docker_action (λ path. none) "web.1" kill).sent
    × (length (docker_action (λ path. none) "web.1" kill).sent ≤ 1)
container_action-Obeys_example =
    container_action-Obeys crypto ann (λ name. some (codes "tok")) env (λ path. none) "web.1" kill
      []

decode_docker_log_stream-encode_all_example :
    decode_docker_log_stream (
      encode_all
        (record { kind = 1; payload = codes "a" } ∷ record { kind = 2; payload = codes "b" } ∷ []))
    ≡ from_utf8_lossy (
        payloads (
          record { kind = 1; payload = codes "a" } ∷ record { kind = 2; payload = codes "b" } ∷ []))
decode_docker_log_stream-encode_all_example =
    decode_docker_log_stream-encode_all (record { kind = 1; payload = codes "a" })
      (record { kind = 2; payload = codes "b" } ∷ []) (ground arith)
