-- ===== src/Config/Tests.antt =====
-- Runs of src/config.rs at concrete environments.
use caroba_guard.Prelude.{
  String, ◌≡◌, refl, true, false, Option, none, some, [], ◌∷◌, str_eq, if◌then◌else◌, codes,
  from_utf8_lossy, parse_unsigned, parse_signed,
}
use caroba_guard.Config.{
  unicode, ok, bail, join, default_data_dir, from_env, OsText, Machine, Config,
}
use caroba_guard.Config.Limits.{from_env-InLimits, InLimits}

-- A machine whose only address is an empty record, and on which every path is a directory.
abbrev machine_with : (String → Option OsText) → Machine
machine_with vars = record {
  IpAddr = Unit {0};
  var_os = vars;
  parse_ip = λ text. some tt;
  canonicalize = λ path. some path;
  is_dir = λ path. true;
}

abbrev home_only : Machine
home_only =
    machine_with (λ name. if str_eq name "HOME" then some (unicode (codes "/home/ann")) else none)

abbrev default_config : Config (Unit {0})
default_config = record {
  ip = tt;
  port = 8090;
  data_dir = codes "/home/ann/.local/share/carobaguard";
  database_url = codes "sqlite:///home/ann/.local/share/carobaguard/carobaguard.db";
  cookie_secure = false;
  session_ttl_seconds = 43200;
  terminal_max_sessions = 4;
  terminal_idle_timeout_seconds = 900;
  terminal_max_duration_seconds = 14400;
  log_max_streams = 8;
  project_roots = codes "/home/ann" ∷ [];
}

defaults : from_env home_only ≡ ok default_config
unfolding from_env join default_data_dir from_utf8_lossy parse_unsigned parse_signed
defaults = refl

negative_ttl :
    from_env (
      machine_with (λ name.
        if str_eq name "HOME"
        then some (unicode (codes "/"))
        else if str_eq name "CAROBAGUARD_SESSION_TTL_SECONDS"
        then some (unicode (codes "-400"))
        else none))
    ≡ bail "CAROBAGUARD_SESSION_TTL_SECONDS must be at least 300"
unfolding defaults
negative_ttl = refl

from_env-InLimits_example : InLimits home_only default_config
from_env-InLimits_example = from_env-InLimits home_only defaults
