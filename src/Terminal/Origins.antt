-- ===== src/Terminal/Origins.antt =====
-- src/terminal.rs, verify_websocket_origin: which origins it accepts.
use caroba_guard.Prelude.{
  ◌≡◌, refl, Bool, true, false, not, ◌||◌, Option, none, some, arith, is_some, Bytes, codes,
  bytes_eq, bytes_eq_refl, eq_of_bytes_eq, to_ascii_lowercase,
}
use caroba_guard.Error.{ok, forbidden, or_fail, >>=-eq-ok, or_fail-ok, reject_if-ok}
use caroba_guard.Auth.{Headers}
use caroba_guard.Terminal.{is_web, is_other_authority, verify_websocket_origin, Uri}

-- The page that connects is the panel's own: a web page of the host that the request is for.
pub record SameOrigin (parse_uri : Bytes → Option Uri) (headers : Headers) : Type 0 where
  pub origin : Bytes
  pub host : Bytes
  pub uri : Uri
  pub authority : Bytes
  pub origin_header : headers "origin" ≡ some origin
  pub host_header : headers "host" ≡ some host
  pub parsed : parse_uri origin ≡ some uri
  pub web : is_web uri.scheme ≡ true
  pub has_authority : uri.authority ≡ some authority
  pub same : to_ascii_lowercase authority ≡ to_ascii_lowercase host
  pub at_root : uri.path ≡ codes "/"
  pub no_query : uri.query ≡ none

abbrev is_foreign : Bytes → Uri → Bool
is_foreign host uri =
    not (is_web uri.scheme)
    || is_other_authority host uri.authority
    || not (bytes_eq uri.path (codes "/"))
    || is_some uri.query

abbrev Own : Bytes → Uri → Type 0
Own host uri =
    (is_web uri.scheme ≡ true)
    × ((authority : Bytes) × (uri.authority ≡ some authority)
        × (to_ascii_lowercase authority ≡ to_ascii_lowercase host))
    × (uri.path ≡ codes "/")
    × (uri.query ≡ none)

or-eq-false : (a b : Bool) → (a || b) ≡ false → (a ≡ false) × (b ≡ false)
or-eq-false true b h = cc
or-eq-false false b h = (refl, h)

none_of : (query : Option Bytes) → is_some query ≡ false → query ≡ none
none_of none h = refl
none_of (some q) h = cc

same_of :
    (host : Bytes) (a : Option Bytes)
    → is_other_authority host a ≡ false
    → (authority : Bytes) × (a ≡ some authority)
      × (to_ascii_lowercase authority ≡ to_ascii_lowercase host)
same_of host none h = cc
same_of host (some a) h =
    (a, refl, eq_of_bytes_eq (to_ascii_lowercase a) (to_ascii_lowercase host) (ground arith))

is_foreign-Own : (host : Bytes) (uri : Uri) → is_foreign host uri ≡ false → Own host uri
is_foreign-Own host uri h =
    let bare = or-eq-false _ (is_some uri.query) h in
    let root = or-eq-false _ (not (bytes_eq uri.path (codes "/"))) bare.0 in
    let same =
      or-eq-false (not (is_web uri.scheme)) (is_other_authority host uri.authority) root.0 in
    (
      ground (arith, same.0),
      same_of host uri.authority same.1,
      eq_of_bytes_eq uri.path (codes "/") (ground (arith, root.1)),
      none_of uri.query bare.1,
    )

not_foreign : (host : Bytes) (uri : Uri) → Own host uri → is_foreign host uri ≡ false
not_foreign host uri (web, (authority, e, same), root, bare) =
    rw (web, e, same, root, bare) (rw (bytes_eq_refl (to_ascii_lowercase host)) refl)

pub verify_websocket_origin-ok :
    (parse_uri : Bytes → Option Uri) (headers : Headers)
    → verify_websocket_origin parse_uri headers ≡ ok tt
    → SameOrigin parse_uri headers
unfolding verify_websocket_origin
verify_websocket_origin-ok parse_uri headers h =
    let (origin, eo, h1) =
      >>=-eq-ok (or_fail (headers "origin") (forbidden "missing WebSocket origin")) _ h in
    let (host, eh, h2) =
      >>=-eq-ok (or_fail (headers "host") (forbidden "missing Host header")) _ h1 in
    let (uri, eu, h3) =
      >>=-eq-ok (or_fail (parse_uri origin) (forbidden "invalid WebSocket origin")) _ h2 in
    let own = is_foreign-Own host uri (reject_if-ok (is_foreign host uri) _ h3) in
    record {
      origin = origin;
      host = host;
      uri = uri;
      authority = own.1.0;
      origin_header = or_fail-ok _ _ eo;
      host_header = or_fail-ok _ _ eh;
      parsed = or_fail-ok _ _ eu;
      web = own.0;
      has_authority = own.1.1;
      same = own.1.2;
      at_root = own.2;
      no_query = own.3;
    }

pub origin_of :
    (parse_uri : Bytes → Option Uri) (headers : Headers)
    → SameOrigin parse_uri headers
    → verify_websocket_origin parse_uri headers ≡ ok tt
unfolding verify_websocket_origin
origin_of parse_uri headers o =
    rw (o.origin_header, o.host_header, o.parsed)
      (rw
        (not_foreign o.host o.uri
          (o.web, (o.authority, o.has_authority, o.same), o.at_root, o.no_query))
        refl)
