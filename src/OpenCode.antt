-- ===== src/OpenCode.antt =====
-- src/opencode.rs: the agent's permission modes, and in the child modules its process.
pub mod Process
pub mod Lifecycle
pub mod Linked
pub mod Counted
pub mod Runs
pub mod Tally
pub mod Requests
pub mod Modes
pub mod Questions
mod Tests
use caroba_guard.Prelude.{String, Bool, false, not, Option, none, some, [], str_eq, if◌then◌else◌}
use caroba_guard.Error.{bad_request, ◌>>=◌, ◌>>◌, reject_if, ApiResult}
use caroba_guard.Auth.{require, Role, admin, operator}

pub data AiPermissionMode : Type 0 where
  read_only approval unrestricted : AiPermissionMode

abbrev pub as_str : AiPermissionMode → String
as_str read_only = "read_only"
as_str approval = "approval"
as_str unrestricted = "unrestricted"

pub parse_mode : String → AiPermissionMode
parse_mode value =
    if str_eq value "approval"
    then approval
    else if str_eq value "unrestricted"
    then unrestricted
    else read_only

abbrev pub same_mode : AiPermissionMode → AiPermissionMode → Bool
same_mode a b = str_eq (as_str a) (as_str b)

abbrev pub unrestricted_confirmation : String
unrestricted_confirmation = "I understand OpenCode will have full control"

abbrev pub is_confirmed : Option String → Bool
is_confirmed none = false
is_confirmed (some text) = str_eq text unrestricted_confirmation

pub ensure_mode_authorized : Role → AiPermissionMode → Option String → ApiResult (Unit {0})
ensure_mode_authorized role unrestricted confirmation = do
  require role admin
  reject_if (not (is_confirmed confirmation))
      (bad_request "explicit unrestricted-mode confirmation is required")
ensure_mode_authorized role _ confirmation = require role operator
