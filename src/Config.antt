-- ===== src/Config.antt =====
-- src/config.rs: the settings that the environment gives. A variable is its bytes; `IpAddr` and the
-- file system are parameters; `usize` has 64 bits. The text of an error is that of its outermost context,
-- without the names and paths in it.
pub mod Limits
mod Tests
use caroba_guard.Prelude.{
  ℕ, String, Bool, true, false, not, ◌&&◌, Option, none, some, List, [], ◌∷◌, ◌++◌, ltb, leb, ◌==◌,
  if◌then◌else◌, unwrap_or, length, any, first, Bytes, codes, bytes_eq, split, to_ascii_lowercase,
  from_utf8_lossy, parse_unsigned, parse_signed, is_less,
}

-- The value of an environment variable: valid Unicode, or not.
pub data OsText : Type 0 where
  unicode : Bytes → OsText
  other : Bytes → OsText

abbrev pub os_bytes : OsText → Bytes
os_bytes (unicode text) = text
os_bytes (other text) = text

pub record Machine : Type 1 where
  pub IpAddr : Type 0
  pub var_os : String → Option OsText
  pub parse_ip : Bytes → Option IpAddr
  pub canonicalize : Bytes → Option Bytes
  pub is_dir : Bytes → Bool

pub data Loaded {ℓ} (A : Type ℓ) : Type ℓ where
  ok : A → Loaded A
  bail : String → Loaded A

infixl 5 ◌>>=◌ ◌>>◌
abbrev pub ◌>>=◌ {ℓ κ} : {A : Type ℓ} {B : Type κ} → Loaded A → (A → Loaded B) → Loaded B
ok a >>= next = next a
bail why >>= next = bail why

abbrev pub ◌>>◌ {ℓ} : {B : Type ℓ} → Loaded (Unit {0}) → Loaded B → Loaded B
first >> next = first >>= λ _. next

abbrev pub context {ℓ} : {A : Type ℓ} → Option A → String → Loaded A
context none why = bail why
context (some a) why = ok a

abbrev pub bail_if : Bool → String → Loaded (Unit {0})
bail_if true why = bail why
bail_if false why = ok tt

pub record Config (IpAddr : Type 0) : Type 0 where
  pub ip : IpAddr
  pub port : ℕ
  pub data_dir : Bytes
  pub database_url : Bytes
  pub cookie_secure : Bool
  pub session_ttl_seconds : ℕ
  pub terminal_max_sessions : ℕ
  pub terminal_idle_timeout_seconds : ℕ
  pub terminal_max_duration_seconds : ℕ
  pub log_max_streams : ℕ
  pub project_roots : List Bytes

abbrev ends_with_slash : Bytes → Bool
ends_with_slash [] = false
ends_with_slash (b ∷ []) = b == b'/'
ends_with_slash (b ∷ c ∷ bs) = ends_with_slash (c ∷ bs)

-- `Path::join` of a relative path.
pub join : Bytes → Bytes → Bytes
join [] name = name
join (b ∷ base) name =
    if ends_with_slash (b ∷ base) then (b ∷ base) ++ name else (b ∷ base) ++ b'/' ∷ name

abbrev pub is_any_of : Bytes → List Bytes → Bool
is_any_of value allowed = any (bytes_eq value) allowed

abbrev pub bool_of : String → Bytes → Loaded Bool
bool_of why value =
    if is_any_of value (codes "1" ∷ codes "true" ∷ codes "yes" ∷ codes "on" ∷ [])
    then ok true
    else if is_any_of value (codes "0" ∷ codes "false" ∷ codes "no" ∷ codes "off" ∷ [])
    then ok false
    else bail why

module _ (m : Machine) where
  -- `env::var`, which fails on what is no Unicode.
  abbrev pub var : String → Option Bytes
  var name = elim (m.var_os name) [
    | none ↦ none
    | some (unicode text) ↦ some text
    | some (other text) ↦ none
  ]

  pub default_data_dir : Loaded Bytes
  default_data_dir = elim (m.var_os "XDG_DATA_HOME") [
    | some value ↦ ok (join (os_bytes value) (codes "carobaguard"))
    | none ↦ elim (m.var_os "HOME") [
      | none ↦ bail "cannot determine data directory; set CAROBAGUARD_DATA_DIR explicitly"
      | some home ↦ ok (join (os_bytes home) (codes ".local/share/carobaguard"))
    ]
  ]

  abbrev pub data_dir_of : Loaded Bytes
  data_dir_of = elim (m.var_os "CAROBAGUARD_DATA_DIR") [
    | some value ↦ ok (os_bytes value)
    | none ↦ default_data_dir
  ]

  pub parse_bool : String → Bool → Loaded Bool
  parse_bool name default = elim (m.var_os name) [
    | none ↦ ok default
    | some value ↦
        bool_of "must be true or false" (to_ascii_lowercase (from_utf8_lossy (os_bytes value)))
  ]

  -- The types that the settings use have 64 bits.
  pub parse_integer : String → ℕ → Loaded ℕ
  parse_integer name default = elim (var name) [
    | none ↦ ok default
    | some value ↦ context (parse_unsigned 0x10000000000000000 value) "must be an integer"
  ]

  root_of : Bytes → Loaded Bytes
  root_of path = do
    canonical ← context (m.canonicalize path) "project root is unavailable"
    bail_if (not (m.is_dir canonical)) "project root is not a directory"
    ok canonical

  roots_of : List Bytes → Loaded (List Bytes)
  unfolding root_of
  roots_of [] = ok []
  roots_of (path ∷ paths) = do root ← root_of path; roots ← roots_of paths; ok (root ∷ roots)

  abbrev pub root_paths : Loaded (List Bytes)
  root_paths = elim (m.var_os "CAROBAGUARD_PROJECT_ROOTS") [
    | some value ↦ ok (split b':' (os_bytes value))
    | none ↦ elim (m.var_os "HOME") [
      | none ↦ bail "CAROBAGUARD_PROJECT_ROOTS or HOME is required"
      | some home ↦ ok (os_bytes home ∷ [])
    ]
  ]

  pub project_roots : Loaded (List Bytes)
  unfolding roots_of
  project_roots = do
    values ← root_paths
    bail_if (length values == 0) "CAROBAGUARD_PROJECT_ROOTS must contain at least one path"
    roots_of values

  -- An `i64`: a negative value is an integer, and too small.
  session_ttl : Loaded ℕ
  session_ttl = do
    ttl ←
        context
          (parse_signed 0x8000000000000000
            (unwrap_or (var "CAROBAGUARD_SESSION_TTL_SECONDS") (codes "43200")))
          "CAROBAGUARD_SESSION_TTL_SECONDS must be an integer"
    bail_if (is_less ttl 300) "CAROBAGUARD_SESSION_TTL_SECONDS must be at least 300"
    ok ttl.magnitude

  pub from_env : Loaded (Config m.IpAddr)
  unfolding default_data_dir parse_bool parse_integer project_roots session_ttl
  from_env = do
    port ←
        context (parse_unsigned 0x10000 (unwrap_or (var "CAROBAGUARD_PORT") (codes "8090")))
          "CAROBAGUARD_PORT must be a valid TCP port"
    host ←
        context (m.parse_ip (unwrap_or (var "CAROBAGUARD_HOST") (codes "127.0.0.1")))
          "CAROBAGUARD_HOST must be an IP address"
    data_dir ← data_dir_of
    cookie_secure ← parse_bool "CAROBAGUARD_COOKIE_SECURE" false
    ttl ← session_ttl
    max_sessions ← parse_integer "CAROBAGUARD_TERMINAL_MAX_SESSIONS" 4
    bail_if (not (leb 1 max_sessions && leb max_sessions 32))
        "CAROBAGUARD_TERMINAL_MAX_SESSIONS must be between 1 and 32"
    idle ← parse_integer "CAROBAGUARD_TERMINAL_IDLE_TIMEOUT_SECONDS" 900
    bail_if (ltb idle 60) "CAROBAGUARD_TERMINAL_IDLE_TIMEOUT_SECONDS must be at least 60"
    max_duration ← parse_integer "CAROBAGUARD_TERMINAL_MAX_DURATION_SECONDS" 14400
    bail_if (ltb max_duration 300) "CAROBAGUARD_TERMINAL_MAX_DURATION_SECONDS must be at least 300"
    streams ← parse_integer "CAROBAGUARD_LOG_MAX_STREAMS" 8
    bail_if (not (leb 1 streams && leb streams 64))
        "CAROBAGUARD_LOG_MAX_STREAMS must be between 1 and 64"
    roots ← project_roots
    ok (record {
      ip = host;
      port = port;
      data_dir = data_dir;
      database_url = codes "sqlite://" ++ from_utf8_lossy (join data_dir (codes "carobaguard.db"));
      cookie_secure = cookie_secure;
      session_ttl_seconds = ttl;
      terminal_max_sessions = max_sessions;
      terminal_idle_timeout_seconds = idle;
      terminal_max_duration_seconds = max_duration;
      log_max_streams = streams;
      project_roots = roots;
    })
