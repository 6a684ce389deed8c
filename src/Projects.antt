-- ===== src/Projects.antt =====
-- src/projects.rs: the registered projects. A project is registered or removed together with its
-- audit record. Tables are lists, newest first; a canonical path is the list of its components.
pub mod Registration
pub mod Removal
mod Tests
use caroba_guard.Prelude.{
  ℕ, String, Bool, true, false, not, ◌&&◌, ◌||◌, Option, none, some, List, [], ◌∷◌, str_eq, ltb,
  ◌==◌, if◌then◌else◌, length, any, keep, first, Bytes, codes, bytes_eq, Chars, is_control,
  utf8_length, trim_chars,
}
use caroba_guard.Error.{
  ok, err, bad_request, forbidden, not_found, internal, ◌>>=◌, ◌>>◌, reject_if, or_fail, then_do,
  ApiResult,
}
use caroba_guard.Auth.{require, Headers, verify_csrf, AuthUser, Crypto, operator}
use caroba_guard.Context.{bool_value, string_value, object_value, no_fields, field, Fields, project}
use caroba_guard.Audit.{record_event, NewAuditEvent, AuditEvent, AuditEnv}

pub record ProjectRow : Type 0 where
  pub id : String
  pub name : Chars
  pub path : Chars
  pub created_at : ℕ
  pub updated_at : ℕ

pub record RegisterProjectRequest : Type 0 where
  pub name : Chars
  pub path : Chars

pub record ProjectDb : Type 0 where
  pub projects : List ProjectRow
  pub audit_events : List AuditEvent

abbrev pub PathParts : Type 0
PathParts = List Chars

-- The file system, the settings and the libraries that the handlers call.
pub record Host : Type 0 where
  pub crypto : Crypto
  pub project_roots : List PathParts
  pub canonicalize : Chars → Option PathParts
  pub is_dir : PathParts → Bool
  pub to_string_lossy : PathParts → Chars
  pub is_uuid : String → Bool
  pub json_text : Chars → Bytes

-- What one call meets: its new identifier and time, and which statements fail.
pub record Call : Type 0 where
  pub id : String
  pub now : ℕ
  pub duration_ms : ℕ
  pub audit : AuditEnv
  pub statement_fails : Bool
  pub undo_fails : Bool

pub validate_name : Chars → ApiResult (Unit {0})
validate_name raw =
    let name = trim_chars raw in
    reject_if (length name == 0 || ltb 128 (utf8_length name) || any is_control name)
      (bad_request "invalid project name")

pub validate_id : Host → String → ApiResult (Unit {0})
validate_id host id = reject_if (not (host.is_uuid id)) (bad_request "invalid project ID")

-- `Path::starts_with`, by components.
abbrev pub chars_eq : Chars → Chars → Bool
chars_eq = bytes_eq

pub path_starts_with : PathParts → PathParts → Bool
path_starts_with path [] = true
path_starts_with [] (root ∷ roots) = false
path_starts_with (part ∷ path) (root ∷ roots) = chars_eq part root && path_starts_with path roots

pub path_allowed : PathParts → List PathParts → Bool
unfolding path_starts_with
path_allowed path roots = any (path_starts_with path) roots

-- What `register` checks before it writes.
checked_path : Host → AuthUser → Headers → RegisterProjectRequest → ApiResult PathParts
unfolding validate_name path_allowed
checked_path host user headers request = do
  require user.role operator
  verify_csrf host.crypto user headers
  validate_name request.name
  reject_if (ltb 4096 (utf8_length request.path)) (bad_request "project path is too long")
  path ← or_fail (host.canonicalize request.path) (bad_request "project directory does not exist")
  reject_if (not (host.is_dir path) || not (path_allowed path host.project_roots))
      (forbidden "project directory is outside CAROBAGUARD_PROJECT_ROOTS")
  ok path

abbrev outcome : Bool → String
outcome succeeded = if succeeded then "success" else "failure"

abbrev pub project_event : AuthUser → String → String → Bool → ℕ → Fields → NewAuditEvent
project_event user action target succeeded duration_ms metadata = record {
  actor_user_id = some user.id;
  actor_name = user.username;
  origin = "manual";
  action = action;
  target = target;
  command = none;
  result = outcome succeeded;
  duration_ms = duration_ms;
  exit_code = some (if succeeded then 0 else 1);
  ai_session_id = none;
  ai_permission_mode = none;
  metadata = object_value metadata;
}

abbrev pub text_field : Host → Bytes → Chars → Fields → Fields
text_field host key text rest = field key (string_value (host.json_text text)) rest

abbrev pub new_row : Host → Call → RegisterProjectRequest → PathParts → ProjectRow
new_row host call request path = record {
  id = call.id;
  name = trim_chars request.name;
  path = host.to_string_lossy path;
  created_at = call.now;
  updated_at = call.now;
}

abbrev pub register_event : Host → Call → AuthUser → ProjectRow → Bool → NewAuditEvent
register_event host call user row succeeded =
    project_event user "project.register" row.id succeeded call.duration_ms
      (text_field host (codes "name") row.name (text_field host (codes "path") row.path no_fields))

-- The insertion: the key and the unique path decide, unless the statement fails for another reason.
abbrev pub clashes : ProjectRow → ProjectRow → Bool
clashes row other = str_eq other.id row.id || chars_eq other.path row.path

abbrev pub insert_succeeds : Call → ProjectRow → List ProjectRow → Bool
insert_succeeds call row projects = not call.statement_fails && not (any (clashes row) projects)

abbrev pub without : String → List ProjectRow → List ProjectRow
without id projects = keep (λ p. not (str_eq p.id id)) projects

-- The writes of `register`; `undo` is what it does when the record cannot be written.
abbrev pub undo_insert : Call → Bool → ProjectRow → List ProjectRow → List ProjectRow
undo_insert call succeeded row projects =
    if succeeded && not call.undo_fails then without row.id projects else projects

abbrev pub with_row : Bool → ProjectRow → List ProjectRow → List ProjectRow
with_row succeeded row projects = if succeeded then row ∷ projects else projects

-- The end of `register`, from what became of the insertion and of the record. The text of an
-- insertion's error is left out of the answer.
abbrev pub after_insert :
    Call
    → ProjectRow
    → ProjectDb
    → Bool
    → Option (List AuditEvent)
    → ApiResult ProjectRow × ProjectDb
after_insert call row db succeeded none = (
  err internal,
  record db { projects = undo_insert call succeeded row (with_row succeeded row db.projects) },
)
after_insert call row db succeeded (some events) = (
  if succeeded then ok row else err (bad_request "project could not be registered"),
  record { projects = with_row succeeded row db.projects; audit_events = events },
)

abbrev pub record_insert :
    Host → Call → AuthUser → ProjectRow → ProjectDb → Bool → ApiResult ProjectRow × ProjectDb
record_insert host call user row db succeeded =
    after_insert call row db succeeded
      (record_event call.audit (register_event host call user row succeeded) db.audit_events)

insert_row : Host → Call → AuthUser → ProjectRow → ProjectDb → ApiResult ProjectRow × ProjectDb
insert_row host call user row db =
    record_insert host call user row db (insert_succeeds call row db.projects)

pub register :
    Host
    → Call
    → AuthUser
    → Headers
    → RegisterProjectRequest
    → ProjectDb
    → ApiResult ProjectRow × ProjectDb
unfolding checked_path insert_row
register host call user headers request db =
    then_do (checked_path host user headers request, db)
      (λ path db. insert_row host call user (new_row host call request path) db)

abbrev pub project_row : String → List ProjectRow → Option ProjectRow
project_row id projects = first (λ p. str_eq p.id id) projects

found_row : Host → AuthUser → Headers → String → ProjectDb → ApiResult ProjectRow
unfolding validate_id
found_row host user headers id db = do
  require user.role operator
  verify_csrf host.crypto user headers
  validate_id host id
  or_fail (project_row id db.projects) (not_found "project is not registered")

abbrev pub remove_event : Host → Call → AuthUser → String → ProjectRow → Bool → NewAuditEvent
remove_event host call user id row succeeded =
    project_event user "project.unregister" id succeeded call.duration_ms (
      text_field host (codes "name") row.name (
        text_field host (codes "path") row.path
          (field (codes "files_removed") (bool_value false) no_fields)))

-- `INSERT OR IGNORE`
abbrev pub undo_delete : Call → Bool → ProjectRow → List ProjectRow → List ProjectRow
undo_delete call succeeded row projects =
    if succeeded && not call.undo_fails && not (any (clashes row) projects)
    then row ∷ projects
    else projects

abbrev pub without_if : Bool → String → List ProjectRow → List ProjectRow
without_if succeeded id projects = if succeeded then without id projects else projects

abbrev pub after_delete :
    Call
    → String
    → ProjectRow
    → ProjectDb
    → Bool
    → Option (List AuditEvent)
    → ApiResult (Unit {0}) × ProjectDb
after_delete call id row db succeeded none = (
  err internal,
  record db { projects = undo_delete call succeeded row (without_if succeeded id db.projects) },
)
after_delete call id row db succeeded (some events) = (
  if call.statement_fails
      then err internal
      else if succeeded
      then ok tt
      else err (not_found "project was not registered"),
  record { projects = without_if succeeded id db.projects; audit_events = events },
)

abbrev pub delete_succeeds : Call → String → List ProjectRow → Bool
delete_succeeds call id projects = not call.statement_fails && any (λ p. str_eq p.id id) projects

abbrev pub record_delete :
    Host
    → Call
    → AuthUser
    → String
    → ProjectRow
    → ProjectDb
    → Bool
    → ApiResult (Unit {0}) × ProjectDb
record_delete host call user id row db succeeded =
    after_delete call id row db succeeded
      (record_event call.audit (remove_event host call user id row succeeded) db.audit_events)

delete_row :
    Host → Call → AuthUser → String → ProjectRow → ProjectDb → ApiResult (Unit {0}) × ProjectDb
delete_row host call user id row db =
    record_delete host call user id row db (delete_succeeds call id db.projects)

pub remove :
    Host → Call → AuthUser → Headers → String → ProjectDb → ApiResult (Unit {0}) × ProjectDb
unfolding found_row delete_row
remove host call user headers id db =
    then_do (found_row host user headers id db, db) (λ row db. delete_row host call user id row db)
