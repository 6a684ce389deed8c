-- ===== src/Terminal/Tests.antt =====
-- Runs of src/terminal.rs at concrete inputs, its unit tests among them.
use caroba_guard.Prelude.{
  ◌≡◌, refl, true, false, Option, none, some, [], ◌∷◌, str_eq, if◌then◌else◌, map_option, Bytes,
  codes, bytes_eq, strip_prefix,
}
use caroba_guard.Error.{ok, is_ok}
use caroba_guard.Auth.{require, Headers, verify_csrf_token, AuthUser, Crypto, operator}
use caroba_guard.Terminal.{
  terminal_size, websocket_csrf_token, verify_websocket_origin, websocket, PtySize, Uri, Upgrade,
}
use caroba_guard.Terminal.Session.{bytes, terminal_timeout_reason}
use caroba_guard.Terminal.Pty.{
  read, read_pty, write_pty, kill_child, cleanup_signals, resolve_shell, interrupted, eio,
}

runs : Unit {0}
unfolding require verify_csrf_token websocket websocket_csrf_token verify_websocket_origin
    terminal_size terminal_timeout_reason read_pty write_pty resolve_shell cleanup_signals
runs = tt

abbrev pub crypto : Crypto
crypto = record {
  token_hash = λ t. if bytes_eq t (codes "expected") then "hash" else "none";
  verify_password = λ p h. false;
  hash_password = λ p. none;
}

abbrev pub ann : AuthUser
ann = record {
  id = "1";
  username = "ann";
  role = operator;
  session_id = "s";
  csrf_token = codes "expected";
}

abbrev pub headers_of : Bytes → Bytes → Headers
headers_of origin protocols name =
    if str_eq name "origin"
    then some origin
    else if str_eq name "host"
    then some (codes "server.example:8090")
    else if str_eq name "sec-websocket-protocol"
    then some protocols
    else none

abbrev pub own_page : Bytes
own_page = codes "https://server.example:8090"

-- As much of a URI parser as the examples need.
abbrev pub parse_uri : Bytes → Option Uri
parse_uri origin =
    map_option
      (λ authority. record {
        scheme = some (codes "https");
        authority = some authority;
        path = codes "/";
        query = none;
      })
      (strip_prefix (codes "https://") origin)

-- `websocket_requires_exact_same_origin`
own_origin : verify_websocket_origin parse_uri (headers_of own_page []) ≡ ok tt
unfolding runs
own_origin = refl

attacker_origin :
    is_ok (verify_websocket_origin parse_uri (headers_of (codes "https://attacker.example") []))
    ≡ false
unfolding runs
attacker_origin = refl

-- `csrf_protocol_is_not_accepted_without_version_or_when_duplicated`
both_protocols :
    websocket_csrf_token (headers_of own_page (codes "carobaguard-v1, csrf.expected"))
    ≡ ok (codes "expected")
unfolding runs
both_protocols = refl

no_version : is_ok (websocket_csrf_token (headers_of own_page (codes "csrf.expected"))) ≡ false
unfolding runs
no_version = refl

two_tokens :
    is_ok (websocket_csrf_token (headers_of own_page (codes "carobaguard-v1, csrf.one, csrf.two")))
    ≡ false
unfolding runs
two_tokens = refl

-- `terminal_dimensions_are_bounded`
usual_size : is_ok (terminal_size 80 24) ≡ true
unfolding runs
usual_size = refl

one_column : is_ok (terminal_size 1 24) ≡ false
unfolding runs
one_column = refl

too_many_rows : is_ok (terminal_size 80 201) ≡ false
unfolding runs
too_many_rows = refl

-- `terminal_timeouts_remain_bounded`
idle : terminal_timeout_reason 60 60 60 300 ≡ some "idle_timeout"
unfolding runs
idle = refl

too_old : terminal_timeout_reason 1 300 60 300 ≡ some "max_duration"
unfolding runs
too_old = refl

in_time : terminal_timeout_reason 1 1 60 300 ≡ none
unfolding runs
in_time = refl

shell_is_missing :
    resolve_shell (λ path. bytes_eq path (codes "/bin/sh")) (some (codes "zsh")) ≡ codes "/bin/sh"
unfolding runs
shell_is_missing = refl

own_group_is_spared : cleanup_signals (some 7) 7 true ≡ kill_child ∷ []
unfolding runs
own_group_is_spared = refl

worker_stops :
    read_pty
      ((read (codes "a"), true) ∷ (interrupted, true) ∷ (eio, true) ∷ (read (codes "b"), true) ∷ [])
    ≡ bytes (codes "a") ∷ []
unfolding runs
worker_stops = refl

abbrev pub upgrade : Upgrade
upgrade = record {
  user = ann;
  headers = headers_of own_page (codes "carobaguard-v1, csrf.expected");
  query = record { cols = none; rows = some 40 };
}

abbrev pub size : PtySize
size = record { rows = 40; cols = 100; pixel_width = 0; pixel_height = 0 }

pub websocket_runs : websocket crypto parse_uri upgrade 4 ≡ (ok size, 3)
unfolding runs
websocket_runs = refl
