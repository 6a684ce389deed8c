-- ===== src/Projects/Tests.antt =====
-- Runs of src/projects.rs at concrete inputs, its unit tests among them.
use caroba_guard.Prelude.{
  String, ◌≡◌, refl, ◌≢◌, Bool, true, false, none, some, [], ◌∷◌, str_eq, eq_iff, if◌then◌else◌,
  Unique, codes, bytes_eq,
}
use caroba_guard.Error.{ok, err, bad_request, internal, ApiResult}
use caroba_guard.Auth.{require, Headers, verify_csrf, AuthUser, Crypto, operator}
use caroba_guard.Audit.{record_event}
use caroba_guard.Projects.{
  PathParts, validate_name, validate_id, path_allowed, checked_path, new_row, register_event,
  insert_row, register, project_row, found_row, remove_event, delete_row, remove, ProjectRow,
  RegisterProjectRequest, ProjectDb, Host, Call,
}
use caroba_guard.Projects.Registration.{MayRegister, register-ok, register-err}
use caroba_guard.Projects.Removal.{remove-err, remove-ok}

abbrev site_path : PathParts
site_path = codes "srv" ∷ codes "projects" ∷ codes "site" ∷ []

abbrev crypto : Crypto
crypto = record {
  token_hash = λ t. if bytes_eq t (codes "csrf") then "hash" else "none";
  verify_password = λ p h. str_eq p h;
  hash_password = λ p. some p;
}

abbrev host : Host
host = record {
  crypto = crypto;
  project_roots = (codes "srv" ∷ codes "projects" ∷ []) ∷ [];
  canonicalize = λ p. if bytes_eq p (codes "/srv/projects/site") then some site_path else none;
  is_dir = λ p. true;
  to_string_lossy = λ p. codes "/srv/projects/site";
  is_uuid = λ s. str_eq s "11111111-1111-4111-8111-111111111111";
  json_text = λ t. t;
}

abbrev call_with : Bool → Call
call_with audit_fails = record {
  id = "11111111-1111-4111-8111-111111111111";
  now = 5;
  duration_ms = 1;
  audit = record { id = "a1"; now = 5; fails = audit_fails };
  statement_fails = false;
  undo_fails = false;
}

abbrev ann : AuthUser
ann = record {
  id = "1";
  username = "ann";
  role = operator;
  session_id = "s1";
  csrf_token = codes "csrf";
}

abbrev headers : Headers
headers name = if str_eq name "x-csrf-token" then some (codes "csrf") else none

abbrev empty_db : ProjectDb
empty_db = record { projects = []; audit_events = [] }

abbrev site_request : RegisterProjectRequest
site_request = record { name = codes " Site "; path = codes "/srv/projects/site" }

abbrev row : ProjectRow
row = new_row host (call_with false) site_request site_path

runs : Unit {0}
unfolding register remove require verify_csrf validate_name validate_id record_event path_allowed
    checked_path insert_row found_row delete_row
runs = tt

abbrev registered : ApiResult ProjectRow × ProjectDb
registered = register host (call_with false) ann headers site_request empty_db

abbrev site_db : ProjectDb
site_db = registered.1

register_runs :
    register host (call_with false) ann headers site_request empty_db ≡ (ok row, site_db)
unfolding runs
register_runs = refl

-- `project_names_and_ids_are_validated`
newline_is_no_name : validate_name (codes "\n") ≡ err (bad_request "invalid project name")
unfolding runs
newline_is_no_name = refl

-- `canonical_project_paths_must_be_inside_an_allowed_root`
private_is_outside : path_allowed (codes "srv" ∷ codes "private" ∷ []) host.project_roots ≡ false
unfolding runs
private_is_outside = refl

register-ok_example :
    (path : PathParts) × MayRegister host ann headers site_request path
    × (row ≡ new_row host (call_with false) site_request path)
    × (site_db.projects ≡ row ∷ empty_db.projects)
    × (record_event
          (call_with false).audit
          (register_event host (call_with false) ann row true)
          empty_db.audit_events
        ≡ some site_db.audit_events)
register-ok_example =
    register-ok host (call_with false) ann headers site_request empty_db site_db row register_runs

abbrev unaudited_db : ProjectDb
unaudited_db = (register host (call_with true) ann headers site_request empty_db).1

unaudited_runs :
    register host (call_with true) ann headers site_request empty_db ≡ (err internal, unaudited_db)
unfolding runs
unaudited_runs = refl

register-err_example : unaudited_db.projects ≡ empty_db.projects
register-err_example =
    register-err host (call_with true) ann headers site_request empty_db unaudited_db internal refl
      unaudited_runs

abbrev site_id : String
site_id = "11111111-1111-4111-8111-111111111111"

abbrev kept_db : ProjectDb
kept_db = (remove host (call_with true) ann headers site_id site_db).1

kept_runs : remove host (call_with true) ann headers site_id site_db ≡ (err internal, kept_db)
unfolding runs
kept_runs = refl

site-Unique : Unique (λ (p : ProjectRow). p.path) site_db.projects
unfolding runs
site-Unique = (tt, tt)

remove-err_example : project_row site_id kept_db.projects ≡ project_row site_id site_db.projects
remove-err_example =
    remove-err host (call_with true) ann headers site_id site_id site_db kept_db internal refl
      site-Unique kept_runs

abbrev removed_db : ProjectDb
removed_db = (remove host (call_with false) ann headers site_id site_db).1

removed_runs : remove host (call_with false) ann headers site_id site_db ≡ (ok tt, removed_db)
unfolding runs
removed_runs = refl

other_id : "other" ≢ site_id
other_id = λ h. let t : str_eq "other" site_id ≡ true = (eq_iff "other" site_id).1 h in cc t

remove-ok_example :
    (require ann.role operator ≡ ok tt)
    × (project_row site_id removed_db.projects ≡ none)
    × (project_row "other" removed_db.projects ≡ project_row "other" site_db.projects)
    × ((found : ProjectRow) × (project_row site_id site_db.projects ≡ some found)
        × (record_event
              (call_with false).audit
              (remove_event host (call_with false) ann site_id found true)
              site_db.audit_events
            ≡ some removed_db.audit_events))
remove-ok_example =
    remove-ok host (call_with false) ann headers site_id "other" site_db removed_db other_id
      removed_runs
