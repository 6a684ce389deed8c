-- ===== src/Config/Limits.antt =====
-- src/config.rs, Config::from_env: the limits of the settings that are accepted.
use caroba_guard.Prelude.{
  ℕ, suc, ◌≤◌, ◌<◌, String, ◌≡◌, refl, ap, subst, Bool, true, false, not, ◌&&◌, Option, none, some,
  List, [], ◌∷◌, arith, ltb, leb, ◌==◌, unwrap_or, length, All, Bytes, codes, parse_unsigned,
  parse_signed, is_less, parse_unsigned-lt,
}
use caroba_guard.Config.{
  ok, bail, ◌>>=◌, context, bail_if, var, data_dir_of, parse_bool, parse_integer, root_of, roots_of,
  root_paths, project_roots, session_ttl, from_env, Machine, Loaded, Config,
}

pub record InLimits (m : Machine) (c : Config m.IpAddr) : Type 0 where
  pub port : c.port < 0x10000
  pub session_ttl : 300 ≤ c.session_ttl_seconds
  pub sessions : (1 ≤ c.terminal_max_sessions) × (c.terminal_max_sessions ≤ 32)
  pub idle : 60 ≤ c.terminal_idle_timeout_seconds
  pub max_duration : 300 ≤ c.terminal_max_duration_seconds
  pub streams : (1 ≤ c.log_max_streams) × (c.log_max_streams ≤ 64)
  pub some_root : 1 ≤ length c.project_roots
  pub roots : All (λ root. m.is_dir root ≡ true) c.project_roots

>>=-eq-ok {ℓ κ} :
    {A : Type ℓ} {B : Type κ} {result : B} (first : Loaded A) (next : A → Loaded B)
    → (first >>= next) ≡ ok result
    → (found : A) × (first ≡ ok found) × (next found ≡ ok result)
>>=-eq-ok (bail why) next e = cc
>>=-eq-ok (ok found) next e = (found, refl, e)

context-ok {ℓ} :
    {A : Type ℓ} (o : Option A) (why : String) {a : A} → context o why ≡ ok a → o ≡ some a
context-ok none why h = cc
context-ok (some a) why h = cc

bail_if-ok : (bad : Bool) (why : String) {u : Unit {0}} → bail_if bad why ≡ ok u → bad ≡ false
bail_if-ok true why h = cc
bail_if-ok false why h = refl

ok-inj {ℓ} : {A : Type ℓ} {a b : A} → Loaded.ok a ≡ Loaded.ok b → a ≡ b
ok-inj h = cc

module _ (m : Machine) where
  abbrev AreDirs : List Bytes → List Bytes → Type 0
  AreDirs paths roots = (length roots ≡ length paths) × All (λ root. m.is_dir root ≡ true) roots

  root_of-ok : (path : Bytes) {root : Bytes} → root_of m path ≡ ok root → m.is_dir root ≡ true
  unfolding root_of
  root_of-ok path h =
      let (canonical, e, h1) = >>=-eq-ok (context (m.canonicalize path) _) _ h in
      let (_, dir, h2) = >>=-eq-ok (bail_if (not (m.is_dir canonical)) _) _ h1 in
      let is = bail_if-ok (not (m.is_dir canonical)) _ dir in
      subst (λ root. m.is_dir root ≡ true) (ok-inj h2) (ground (arith, is))

  roots_of-ok :
      (paths : List Bytes) {roots : List Bytes}
      → roots_of m paths ≡ ok roots
      → (length roots ≡ length paths) × All (λ root. m.is_dir root ≡ true) roots
  unfolding roots_of
  roots_of-ok [] h = subst (AreDirs []) (ok-inj h) (refl, tt)
  roots_of-ok (path ∷ paths) h =
      let (root, e, h1) = >>=-eq-ok (root_of m path) _ h in
      let (roots, es, h2) = >>=-eq-ok (roots_of m paths) _ h1 in
      let (same, dirs) = roots_of-ok paths es in
      subst (AreDirs (path ∷ paths)) (ok-inj h2) (ap suc same, (root_of-ok path e, dirs))

  project_roots-ok :
      {roots : List Bytes}
      → project_roots m ≡ ok roots
      → (1 ≤ length roots) × All (λ root. m.is_dir root ≡ true) roots
  unfolding project_roots
  project_roots-ok h =
      let (values, e, h1) = >>=-eq-ok (root_paths m) _ h in
      let (_, some_value, h2) = >>=-eq-ok (bail_if (length values == 0) _) _ h1 in
      let (same, dirs) = roots_of-ok values h2 in
      let found = bail_if-ok (length values == 0) _ some_value in
      (ground (arith, found, same), dirs)

  session_ttl-ok : {ttl : ℕ} → session_ttl m ≡ ok ttl → 300 ≤ ttl
  unfolding session_ttl
  session_ttl-ok h =
      let (ttl, e, h1) =
        >>=-eq-ok
          (context
            (parse_signed 0x8000000000000000
              (unwrap_or (var m "CAROBAGUARD_SESSION_TTL_SECONDS") (codes "43200")))
            _)
          _ h in
      let (_, large, h2) = >>=-eq-ok (bail_if (is_less ttl 300) _) _ h1 in
      let far = bail_if-ok (is_less ttl 300) _ large in ground (arith, far, h2)

in_range :
    (low high n : ℕ) (why : String) {u : Unit {0}}
    → bail_if (not (leb low n && leb n high)) why ≡ ok u
    → (low ≤ n) × (n ≤ high)
in_range low high n why h =
    let inside = bail_if-ok (not (leb low n && leb n high)) why h in ground (arith, inside)

at_least : (low n : ℕ) (why : String) {u : Unit {0}} → bail_if (ltb n low) why ≡ ok u → low ≤ n
at_least low n why h = let large = bail_if-ok (ltb n low) why h in ground (arith, large)

-- Settings that are accepted are in their limits: a session lasts five minutes at least, a terminal waits a minute and
-- lasts five at least, there are 1 to 32 terminals and 1 to 64 log streams, the port has 16 bits, and there
-- is at least one project root, each of which is a directory.
pub from_env-InLimits : (m : Machine) {c : Config m.IpAddr} → from_env m ≡ ok c → InLimits m c
unfolding from_env
from_env-InLimits m h =
    let (port, ep, h1) =
      >>=-eq-ok
        (context (parse_unsigned 0x10000 (unwrap_or (var m "CAROBAGUARD_PORT") (codes "8090"))) _) _
        h in
    let (host, eh, h2) =
      >>=-eq-ok (context (m.parse_ip (unwrap_or (var m "CAROBAGUARD_HOST") (codes "127.0.0.1"))) _)
        _ h1 in
    let (data_dir, ed, h3) = >>=-eq-ok (data_dir_of m) _ h2 in
    let (secure, es, h4) = >>=-eq-ok (parse_bool m "CAROBAGUARD_COOKIE_SECURE" false) _ h3 in
    let (ttl, et, h5) = >>=-eq-ok (session_ttl m) _ h4 in
    let (max_sessions, em, h6) =
      >>=-eq-ok (parse_integer m "CAROBAGUARD_TERMINAL_MAX_SESSIONS" 4) _ h5 in
    let (_, bm, h7) =
      >>=-eq-ok (bail_if (not (leb 1 max_sessions && leb max_sessions 32)) _) _ h6 in
    let (idle, ei, h8) =
      >>=-eq-ok (parse_integer m "CAROBAGUARD_TERMINAL_IDLE_TIMEOUT_SECONDS" 900) _ h7 in
    let (_, bi, h9) = >>=-eq-ok (bail_if (ltb idle 60) _) _ h8 in
    let (duration, edu, h10) =
      >>=-eq-ok (parse_integer m "CAROBAGUARD_TERMINAL_MAX_DURATION_SECONDS" 14400) _ h9 in
    let (_, bd, h11) = >>=-eq-ok (bail_if (ltb duration 300) _) _ h10 in
    let (streams, est, h12) = >>=-eq-ok (parse_integer m "CAROBAGUARD_LOG_MAX_STREAMS" 8) _ h11 in
    let (_, bs, h13) = >>=-eq-ok (bail_if (not (leb 1 streams && leb streams 64)) _) _ h12 in
    let (roots, er, h14) = >>=-eq-ok (project_roots m) _ h13 in
    let dirs = project_roots-ok m er in
    subst (InLimits m) (ok-inj h14) (record {
      port = parse_unsigned-lt 0x10000 _ (omega arith) (context-ok _ _ ep);
      session_ttl = session_ttl-ok m et;
      sessions = in_range 1 32 max_sessions _ bm;
      idle = at_least 60 idle _ bi;
      max_duration = at_least 300 duration _ bd;
      streams = in_range 1 64 streams _ bs;
      some_root = dirs.0;
      roots = dirs.1;
    })
