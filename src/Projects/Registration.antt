-- ===== src/Projects/Registration.antt =====
-- src/projects.rs, `register`: a project and its record, or neither.
use caroba_guard.Prelude.{
  ◌≡◌, refl, sym, ap, subst, ◌∙◌, inl, inr, Bool, true, false, not, ◌||◌, Option, none, some, List,
  [], ◌∷◌, str_eq, eq_refl, ltb, Bool-cases, any, utf8_length,
}
use caroba_guard.Error.{
  ok, err, panicked, bad_request, forbidden, reject_if, or_fail, then_do, >>=-eq-ok, or_fail-ok,
  reject_if-ok, ApiError, ApiResult,
}
use caroba_guard.Auth.{require, Headers, verify_csrf, AuthUser, operator}
use caroba_guard.Audit.{record_event, AuditEvent}
use caroba_guard.Projects.{
  PathParts, validate_name, chars_eq, path_allowed, checked_path, new_row, register_event, clashes,
  insert_succeeds, without, after_insert, record_insert, insert_row, register, ProjectRow,
  RegisterProjectRequest, ProjectDb, Host, Call,
}

pub without-no_clash :
    (row : ProjectRow) (projects : List ProjectRow)
    → any (clashes row) projects ≡ false
    → without row.id projects ≡ projects
without-no_clash row [] h = refl
without-no_clash row (p ∷ projects) h = elim (Bool-cases (str_eq p.id row.id)) [
  | inl e ↦ cc (rw e at h)
  | inr e ↦ elim (Bool-cases (chars_eq p.path row.path)) [
    | inl f ↦ cc (rw (e, f) at h)
    | inr f ↦ rw e (ap (◌∷◌ p) (without-no_clash row projects (rw (e, f) at h)))
  ]
]

insert_succeeds-no_clash :
    (call : Call) (row : ProjectRow) (projects : List ProjectRow)
    → insert_succeeds call row projects ≡ true
    → any (clashes row) projects ≡ false
insert_succeeds-no_clash call row projects h = elim (Bool-cases (any (clashes row) projects)) [
  | inr e ↦ e
  | inl e ↦ elim (Bool-cases call.statement_fails) [
    | inl f ↦ cc (rw (e, f) at h)
    | inr f ↦ cc (rw (e, f) at h)
  ]
]

without-new :
    (row : ProjectRow) (projects : List ProjectRow)
    → any (clashes row) projects ≡ false
    → without row.id (row ∷ projects) ≡ projects
without-new row projects h = rw (eq_refl row.id) (without-no_clash row projects h)

-- What the insertion leaves, in each of its cases.
abbrev Inserted :
    Host → Call → AuthUser → ProjectRow → ProjectDb → ApiResult ProjectRow × ProjectDb → Type 0
Inserted host call user row db (ok r, after) =
    (r ≡ row)
    × (after.projects ≡ row ∷ db.projects)
    × (record_event call.audit (register_event host call user row true) db.audit_events
        ≡ some after.audit_events)
Inserted host call user row db (err e, after) =
    call.undo_fails ≡ false → after.projects ≡ db.projects
Inserted host call user row db (panicked, after) = ⊥

insert_row-Inserted :
    (host : Host) (call : Call) (user : AuthUser) (row : ProjectRow) (db : ProjectDb)
    → Inserted host call user row db (insert_row host call user row db)
unfolding insert_row
insert_row-Inserted host call user row db =
    of_insert (insert_succeeds call row db.projects) (insert_succeeds-no_clash call row db.projects)
  where
    of_record :
        (succeeded : Bool)
        → (succeeded ≡ true → any (clashes row) db.projects ≡ false)
        → (events : Option (List AuditEvent))
        → record_event call.audit (register_event host call user row succeeded) db.audit_events
          ≡ events
        → Inserted host call user row db (after_insert call row db succeeded events)
    of_record true h none e = λ u. rw u (without-new row db.projects (h refl))
    of_record false h none e = λ u. refl
    of_record true h (some events) e = (refl, refl, e)
    of_record false h (some events) e = λ u. refl

    of_insert :
        (succeeded : Bool)
        → (succeeded ≡ true → any (clashes row) db.projects ≡ false)
        → Inserted host call user row db (record_insert host call user row db succeeded)
    of_insert succeeded h =
        of_record succeeded h
          (record_event call.audit (register_event host call user row succeeded) db.audit_events)
          refl

-- What `register` has checked when it writes.
abbrev pub MayRegister : Host → AuthUser → Headers → RegisterProjectRequest → PathParts → Type 0
MayRegister host user headers request path =
    (require user.role operator ≡ ok tt)
    × (verify_csrf host.crypto user headers ≡ ok tt)
    × (host.canonicalize request.path ≡ some path)
    × (host.is_dir path ≡ true)
    × (path_allowed path host.project_roots ≡ true)

or-false : (a b : Bool) → (not a || not b) ≡ false → (a ≡ true) × (b ≡ true)
or-false true true h = (refl, refl)
or-false true false h = cc
or-false false b h = cc

checked_path-ok :
    (host : Host) (user : AuthUser) (headers : Headers) (request : RegisterProjectRequest)
    {path : PathParts}
    → checked_path host user headers request ≡ ok path
    → MayRegister host user headers request path
unfolding checked_path
checked_path-ok host user headers request {path} h =
    let r1 = >>=-eq-ok (require user.role operator) _ h in
    let r2 = >>=-eq-ok (verify_csrf host.crypto user headers) _ r1.2 in
    let r3 = >>=-eq-ok (validate_name request.name) _ r2.2 in
    let r4 =
      >>=-eq-ok
        (reject_if (ltb 4096 (utf8_length request.path)) (bad_request "project path is too long")) _
        r3.2 in
    let r5 =
      >>=-eq-ok
        (or_fail (host.canonicalize request.path) (bad_request "project directory does not exist"))
        _ r4.2 in
    let r6 =
      >>=-eq-ok
        (reject_if (not (host.is_dir r5.0) || not (path_allowed r5.0 host.project_roots))
          (forbidden "project directory is outside CAROBAGUARD_PROJECT_ROOTS"))
        _ r5.2 in
    let same : r5.0 ≡ path = cc r6.2 in
    let inside =
      or-false (host.is_dir r5.0) (path_allowed r5.0 host.project_roots) (reject_if-ok _ _ r6.1) in
    (
      r1.1,
      r2.1,
      or_fail-ok (host.canonicalize request.path) _ r5.1 ∙ ap (λ (x : PathParts). some x) same,
      subst (λ (x : PathParts). host.is_dir x ≡ true) same inside.0,
      subst (λ (x : PathParts). path_allowed x host.project_roots ≡ true) same inside.1,
    )

-- A registration that succeeds comes from an operator with the session's token, is of a directory
-- within an allowed root, adds exactly the project to its table, and leaves its record.
pub register-ok :
    (host : Host) (call : Call) (user : AuthUser) (headers : Headers)
    (request : RegisterProjectRequest) (db after : ProjectDb) (row : ProjectRow)
    → register host call user headers request db ≡ (ok row, after)
    → (path : PathParts) × MayRegister host user headers request path
      × (row ≡ new_row host call request path)
      × (after.projects ≡ row ∷ db.projects)
      × (record_event call.audit (register_event host call user row true) db.audit_events
          ≡ some after.audit_events)
unfolding register
register-ok host call user headers request db after row h =
    of_check (checked_path host user headers request) refl h
  where
    Goal : Type 0
    Goal =
        (path : PathParts) × MayRegister host user headers request path
        × (row ≡ new_row host call request path)
        × (after.projects ≡ row ∷ db.projects)
        × (record_event call.audit (register_event host call user row true) db.audit_events
            ≡ some after.audit_events)

    of_check :
        (r : ApiResult PathParts)
        → checked_path host user headers request ≡ r
        → then_do (r, db) (λ path db. insert_row host call user (new_row host call request path) db)
          ≡ (ok row, after)
        → Goal
    of_check panicked e k = cc k
    of_check (err why) e k = cc k
    of_check (ok path) e k =
        let new : ProjectRow = new_row host call request path in
        let i : Inserted host call user new db (ok row, after) =
          subst (λ (x : ApiResult ProjectRow × ProjectDb). Inserted host call user new db x) k
            (insert_row-Inserted host call user new db) in
        (
          path,
          checked_path-ok host user headers request e,
          i.0,
          i.1 ∙ ap (λ (r : ProjectRow). r ∷ db.projects) (sym i.0),
          ap
                (λ (r : ProjectRow).
                  record_event call.audit (register_event host call user r true) db.audit_events)
                i.0
              ∙ i.2,
        )

-- A registration that fails, at a check, at the insertion or at the record, leaves the projects as
-- they were, unless the statement that undoes the insertion fails as well.
pub register-err :
    (host : Host) (call : Call) (user : AuthUser) (headers : Headers)
    (request : RegisterProjectRequest) (db after : ProjectDb) (e : ApiError)
    → call.undo_fails ≡ false
    → register host call user headers request db ≡ (err e, after)
    → after.projects ≡ db.projects
unfolding register
register-err host call user headers request db after e undo h =
    of_check (checked_path host user headers request) h
  where
    of_check :
        (r : ApiResult PathParts)
        → then_do (r, db) (λ path db. insert_row host call user (new_row host call request path) db)
          ≡ (err e, after)
        → after.projects ≡ db.projects
    of_check panicked k = cc k
    of_check (err why) k = ap (λ (x : ApiResult ProjectRow × ProjectDb). x.1.projects) (sym k)
    of_check (ok path) k =
        let new : ProjectRow = new_row host call request path in
        subst (λ (x : ApiResult ProjectRow × ProjectDb). Inserted host call user new db x) k
          (insert_row-Inserted host call user new db) undo
