-- ===== src/Terminal.antt =====
-- src/terminal.rs: the WebSocket terminal. Here what is checked before a session; in the children the
-- session itself. `http::Uri` is a parameter. A header that is no visible ASCII text counts as missing.
pub mod Session
pub mod Lifetime
pub mod Ends
pub mod Silence
pub mod Counts
pub mod Records
pub mod Slots
pub mod Pty
pub mod Protocols
pub mod Origins
pub mod Upgrades
mod Tests
mod Examples
use caroba_guard.Prelude.{
  ℕ, zero, suc, ◌/◌, Bool, true, false, not, ◌&&◌, ◌||◌, Option, none, some, List, [], ◌∷◌, leb,
  if◌then◌else◌, unwrap_or, is_some, Bytes, codes, bytes_eq, trim, strip_prefix, split,
  to_ascii_lowercase,
}
use caroba_guard.Error.{
  ok, err, panicked, bad_request, forbidden, too_many_requests, ◌>>=◌, ◌>>◌, reject_if, or_fail,
  then_do, ApiResult,
}
use caroba_guard.Auth.{require, Headers, verify_csrf_token, AuthUser, Crypto, operator}

abbrev pub terminal_protocol : Bytes
terminal_protocol = codes "carobaguard-v1"

abbrev pub csrf_protocol_prefix : Bytes
csrf_protocol_prefix = codes "csrf."

abbrev pub max_client_message_bytes : ℕ
max_client_message_bytes = 65536

pub record PtySize : Type 0 where
  pub rows : ℕ
  pub cols : ℕ
  pub pixel_width : ℕ
  pub pixel_height : ℕ

pub terminal_size : ℕ → ℕ → ApiResult PtySize
terminal_size cols rows =
    if not (leb 2 cols && leb cols 500) || not (leb 1 rows && leb rows 200)
    then err (bad_request "invalid terminal dimensions")
    else ok (record { rows = rows; cols = cols; pixel_width = 0; pixel_height = 0 })

-- The two variables of the loop over the protocols.
pub record Offer : Type 0 where
  pub has_version : Bool
  pub csrf : Option Bytes

abbrev pub is_empty : Bytes → Bool
is_empty [] = true
is_empty (b ∷ bs) = false

-- `csrf.replace(token).is_some()` is reached only by a token that is not empty.
abbrev pub replace_csrf : Option Bytes → Offer → ApiResult Offer
replace_csrf none offer = ok offer
replace_csrf (some token) offer =
    if is_empty token || is_some offer.csrf
    then err (forbidden "invalid terminal protocol")
    else ok (record offer { csrf = some token })

pub note_protocol : Bytes → Offer → ApiResult Offer
note_protocol protocol offer =
    if bytes_eq protocol terminal_protocol
    then ok (record offer { has_version = true })
    else replace_csrf (strip_prefix csrf_protocol_prefix protocol) offer

pub scan_protocols : List Bytes → Offer → ApiResult Offer
scan_protocols [] offer = ok offer
scan_protocols (protocol ∷ protocols) offer = do
  offer' ← note_protocol (trim protocol) offer
  scan_protocols protocols offer'

pub websocket_csrf_token : Headers → ApiResult Bytes
unfolding scan_protocols note_protocol
websocket_csrf_token headers = do
  protocols ← or_fail (headers "sec-websocket-protocol") (forbidden "missing terminal protocol")
  offer ← scan_protocols (split b',' protocols) (record { has_version = false; csrf = none })
  reject_if (not offer.has_version) (forbidden "invalid terminal protocol")
  or_fail offer.csrf (forbidden "missing CSRF token")

-- What the handler reads of an `http::Uri`.
pub record Uri : Type 0 where
  pub scheme : Option Bytes
  pub authority : Option Bytes
  pub path : Bytes
  pub query : Option Bytes

abbrev pub is_web : Option Bytes → Bool
is_web none = false
is_web (some scheme) = bytes_eq scheme (codes "http") || bytes_eq scheme (codes "https")

abbrev pub eq_ignore_ascii_case : Bytes → Bytes → Bool
eq_ignore_ascii_case a b = bytes_eq (to_ascii_lowercase a) (to_ascii_lowercase b)

abbrev pub is_other_authority : Bytes → Option Bytes → Bool
is_other_authority host none = true
is_other_authority host (some authority) = not (eq_ignore_ascii_case authority host)

pub verify_websocket_origin : (Bytes → Option Uri) → Headers → ApiResult (Unit {0})
verify_websocket_origin parse_uri headers = do
  origin ← or_fail (headers "origin") (forbidden "missing WebSocket origin")
  host ← or_fail (headers "host") (forbidden "missing Host header")
  uri ← or_fail (parse_uri origin) (forbidden "invalid WebSocket origin")
  reject_if
      (not (is_web uri.scheme)
        || is_other_authority host uri.authority
        || not (bytes_eq uri.path (codes "/"))
        || is_some uri.query)
      (forbidden "cross-origin WebSocket denied")

pub record TerminalQuery : Type 0 where
  pub cols : Option ℕ
  pub rows : Option ℕ

-- The semaphore of `TerminalService`, as the number of permits that are left.
pub acquire : ℕ → ApiResult ℕ
acquire zero = err (too_many_requests "terminal session limit reached")
acquire (suc permits) = ok permits

-- What a connection brings.
pub record Upgrade : Type 0 where
  pub user : AuthUser
  pub headers : Headers
  pub query : TerminalQuery

checked_upgrade : Crypto → (Bytes → Option Uri) → Upgrade → ApiResult (Unit {0})
unfolding verify_websocket_origin websocket_csrf_token
checked_upgrade c parse_uri upgrade = do
  require upgrade.user.role operator
  verify_websocket_origin parse_uri upgrade.headers
  token ← websocket_csrf_token upgrade.headers
  verify_csrf_token c upgrade.user token

-- A permit that is taken is given back at once where the size is refused; else the session keeps it.
abbrev sized : TerminalQuery → ℕ → ℕ → ApiResult PtySize × ℕ
sized query before after =
    elim (terminal_size (unwrap_or query.cols 100) (unwrap_or query.rows 30)) [
      | ok size ↦ (ok size, after)
      | err why ↦ (err why, before)
      | panicked ↦ (panicked, before)
    ]

-- The answer of the handler and the permits that are left.
pub websocket : Crypto → (Bytes → Option Uri) → Upgrade → ℕ → ApiResult PtySize × ℕ
unfolding checked_upgrade terminal_size acquire
websocket c parse_uri upgrade permits =
    then_do (checked_upgrade c parse_uri upgrade, permits)
      λ _ permits.
        then_do (acquire permits, permits) (λ after permits. sized upgrade.query permits after)
