-- ===== src/Projects/Removal.antt =====
-- src/projects.rs, `remove`: a project is removed with its record, or is still there.
use caroba_guard.Prelude.{
  String, ◌≡◌, refl, sym, ap, subst, ◌∙◌, ◌≢◌, inl, inr, Bool, true, false, Option, none, some,
  List, [], ◌∷◌, arith, str_eq, eq_iff, Bool-cases, any, All, first_holds, first-All, Unique,
  eq_of_bytes_eq, Chars,
}
use caroba_guard.Projects.{
  validate_id, chars_eq, clashes, without, project_row, found_row, remove_event, after_delete,
  delete_succeeds, record_delete, delete_row, remove, ProjectRow, ProjectDb, Host, Call,
}
use caroba_guard.Error.{
  ok, err, panicked, not_found, then_do, >>=-eq-ok, or_fail-ok, ApiError, ApiResult,
}
use caroba_guard.Auth.{require, Headers, verify_csrf, AuthUser, operator}
use caroba_guard.Audit.{record_event, AuditEvent}

abbrev pub has_id : String → ProjectRow → Bool
has_id id p = str_eq p.id id

id_of_row :
    (id : String) (projects : List ProjectRow) {row : ProjectRow}
    → project_row id projects ≡ some row
    → row.id ≡ id
id_of_row id projects {row} h = (eq_iff row.id id).0 (first_holds (has_id id) projects h)

-- Removing one project does not touch the others.
project_row-without :
    (id other : String) (projects : List ProjectRow)
    → other ≢ id
    → project_row other (without id projects) ≡ project_row other projects
project_row-without id other [] ne = refl
project_row-without id other (p ∷ projects) ne = elim (Bool-cases (str_eq p.id id)) [
  | inl e ↦
      let there : p.id ≡ id = (eq_iff p.id id).0 e in
      let apart : str_eq p.id other ≡ false = ground (arith, eq_iff p.id other) in
      rw (e, apart) (project_row-without id other projects ne)
  | inr e ↦ rw e (elim (Bool-cases (str_eq p.id other)) [
    | inl f ↦ rw f
    | inr f ↦ rw f (project_row-without id other projects ne)
  ])
]

differs : (x y : Chars) → x ≢ y → chars_eq x y ≡ false
differs x y ne = elim (Bool-cases (chars_eq x y)) [
  | inl g ↦ absurd (ne (eq_of_bytes_eq x y g))
  | inr g ↦ g
]

-- A row does not clash with the others of a table with unique paths.
no_clash-path :
    (row : ProjectRow) (id : String) (projects : List ProjectRow)
    → row.id ≡ id
    → All (λ p. p.path ≢ row.path) projects
    → any (clashes row) (without id projects) ≡ false
no_clash-path row id [] e a = refl
no_clash-path row id (p ∷ projects) e a = elim (Bool-cases (str_eq p.id id)) [
  | inl f ↦ rw f (no_clash-path row id projects e a.1)
  | inr f ↦
      let other : str_eq p.id row.id ≡ false = rw e f in
      let apart : chars_eq p.path row.path ≡ false = differs p.path row.path a.0 in
      rw (f, other, apart) (no_clash-path row id projects e a.1)
]

no_clash-found :
    (id : String) (projects : List ProjectRow) {row : ProjectRow}
    → Unique (λ (p : ProjectRow). p.path) projects
    → project_row id projects ≡ some row
    → any (clashes row) (without id projects) ≡ false
no_clash-found id [] u h = cc
no_clash-found id (p ∷ projects) {row} u h = elim (Bool-cases (str_eq p.id id)) [
  | inl e ↦
      let same : p ≡ row = cc (rw e at h) in
      rw e (
        subst (λ (r : ProjectRow). any (clashes r) (without id projects) ≡ false) same
          (no_clash-path p id projects ((eq_iff p.id id).0 e) u.0))
  | inr e ↦
      let later : project_row id projects ≡ some row = rw e at h in
      let named : row.id ≡ id = id_of_row id projects later in
      let other : str_eq p.id row.id ≡ false = rw named e in
      let path_ne : row.path ≢ p.path =
        first-All (λ (q : ProjectRow). q.path ≢ p.path) (has_id id) projects u.0 later in
      let apart : chars_eq p.path row.path ≡ false =
        differs p.path row.path (λ g. path_ne (sym g)) in
      rw (e, other, apart) (no_clash-found id projects u.1 later)
]

-- The row that was deleted and put back is found again, and so is every other.
put_back :
    (id other : String) (projects : List ProjectRow) (row : ProjectRow)
    → project_row id projects ≡ some row
    → project_row other (row ∷ without id projects) ≡ project_row other projects
put_back id other projects row h =
    let named : row.id ≡ id = id_of_row id projects h in
    elim (Bool-cases (str_eq row.id other)) [
      | inl e ↦
          let same : id ≡ other = sym named ∙ (eq_iff row.id other).0 e in
          rw e (sym h ∙ ap (λ (i : String). project_row i projects) same)
      | inr e ↦ rw e (
          project_row-without id other projects (λ (g : other ≡ id).
            let same : str_eq row.id other ≡ true = (eq_iff row.id other).1 (named ∙ sym g) in cc))
    ]

found_row-ok :
    (host : Host) (user : AuthUser) (headers : Headers) (id : String) (db : ProjectDb)
    {row : ProjectRow}
    → found_row host user headers id db ≡ ok row
    → (require user.role operator ≡ ok tt)
      × (verify_csrf host.crypto user headers ≡ ok tt)
      × (project_row id db.projects ≡ some row)
unfolding found_row
found_row-ok host user headers id db {row} h =
    let r1 = >>=-eq-ok (require user.role operator) _ h in
    let r2 = >>=-eq-ok (verify_csrf host.crypto user headers) _ r1.2 in
    let r3 = >>=-eq-ok (validate_id host id) _ r2.2 in
    (
      r1.1,
      r2.1,
      or_fail-ok (project_row id db.projects) (not_found "project is not registered") r3.2,
    )

-- What a failed deletion leaves, where nothing else fails.
abbrev Left : String → ProjectDb → ApiResult (Unit {0}) × ProjectDb → Type 0
Left other db (err e, after) = project_row other after.projects ≡ project_row other db.projects
Left other db _ = Unit

delete_row-Left :
    (host : Host) (call : Call) (user : AuthUser) (id other : String) (row : ProjectRow)
    (db : ProjectDb)
    → call.undo_fails ≡ false
    → Unique (λ (p : ProjectRow). p.path) db.projects
    → project_row id db.projects ≡ some row
    → Left other db (delete_row host call user id row db)
unfolding delete_row
delete_row-Left host call user id other row db undo u h =
    of_delete (delete_succeeds call id db.projects) (statement_of call db.projects)
  where
    statement_of :
        (call : Call) (projects : List ProjectRow)
        → delete_succeeds call id projects ≡ true
        → call.statement_fails ≡ false
    statement_of call projects e = elim (Bool-cases call.statement_fails) [
      | inl f ↦ cc (rw f at e)
      | inr f ↦ f
    ]

    of_record :
        (succeeded : Bool)
        → (succeeded ≡ true → call.statement_fails ≡ false)
        → (events : Option (List AuditEvent))
        → Left other db (after_delete call id row db succeeded events)
    of_record true f none =
        rw (undo, no_clash-found id db.projects u h) (put_back id other db.projects row h)
    of_record false f none = refl
    of_record true f (some events) = rw (f refl) tt
    of_record false f (some events) = elim (Bool-cases call.statement_fails) [
      | inl g ↦ rw g refl
      | inr g ↦ rw g refl
    ]

    of_delete :
        (succeeded : Bool)
        → (succeeded ≡ true → call.statement_fails ≡ false)
        → Left other db (record_delete host call user id row db succeeded)
    of_delete succeeded f =
        of_record succeeded f
          (record_event call.audit (remove_event host call user id row succeeded) db.audit_events)

-- A removal that fails, whether at a check, at the deletion or at the record, leaves every project
-- to be found as before, given that paths are unique, as the table declares, and that the statement
-- that puts the row back does not fail as well.
pub remove-err :
    (host : Host) (call : Call) (user : AuthUser) (headers : Headers) (id other : String)
    (db after : ProjectDb) (e : ApiError)
    → call.undo_fails ≡ false
    → Unique (λ (p : ProjectRow). p.path) db.projects
    → remove host call user headers id db ≡ (err e, after)
    → project_row other after.projects ≡ project_row other db.projects
unfolding remove
remove-err host call user headers id other db after e undo u h =
    of_found (found_row host user headers id db) refl h
  where
    of_found :
        (r : ApiResult ProjectRow)
        → found_row host user headers id db ≡ r
        → then_do (r, db) (λ row db. delete_row host call user id row db) ≡ (err e, after)
        → project_row other after.projects ≡ project_row other db.projects
    of_found panicked f k = cc k
    of_found (err why) f k =
        ap (λ (x : ApiResult (Unit {0}) × ProjectDb). project_row other x.1.projects) (sym k)
    of_found (ok row) f k =
        subst (λ (x : ApiResult (Unit {0}) × ProjectDb). Left other db x) k
          (delete_row-Left host call user id other row db undo u
            (found_row-ok host user headers id db f).2)

-- What a deletion that succeeds leaves.
abbrev Removed :
    Host
    → Call
    → AuthUser
    → String
    → ProjectRow
    → ProjectDb
    → ApiResult (Unit {0}) × ProjectDb
    → Type 0
Removed host call user id row db (ok u, after) =
    (after.projects ≡ without id db.projects)
    × (record_event call.audit (remove_event host call user id row true) db.audit_events
        ≡ some after.audit_events)
Removed host call user id row db _ = Unit

statement_holds :
    (call : Call) (id : String) (projects : List ProjectRow)
    → delete_succeeds call id projects ≡ true
    → call.statement_fails ≡ false
statement_holds call id projects e = elim (Bool-cases call.statement_fails) [
  | inl f ↦ cc (rw f at e)
  | inr f ↦ f
]

delete_row-Removed :
    (host : Host) (call : Call) (user : AuthUser) (id : String) (row : ProjectRow) (db : ProjectDb)
    → Removed host call user id row db (delete_row host call user id row db)
unfolding delete_row
delete_row-Removed host call user id row db =
    of_delete (delete_succeeds call id db.projects) (statement_holds call id db.projects)
  where
    of_record :
        (succeeded : Bool)
        → (succeeded ≡ true → call.statement_fails ≡ false)
        → (events : Option (List AuditEvent))
        → record_event call.audit (remove_event host call user id row succeeded) db.audit_events
          ≡ events
        → Removed host call user id row db (after_delete call id row db succeeded events)
    of_record true f none e = tt
    of_record false f none e = tt
    of_record true f (some events) e = rw (f refl) (refl, e)
    of_record false f (some events) e = elim (Bool-cases call.statement_fails) [
      | inl g ↦ rw g tt
      | inr g ↦ rw g tt
    ]

    of_delete :
        (succeeded : Bool)
        → (succeeded ≡ true → call.statement_fails ≡ false)
        → Removed host call user id row db (record_delete host call user id row db succeeded)
    of_delete succeeded f =
        of_record succeeded f
          (record_event call.audit (remove_event host call user id row succeeded) db.audit_events)
          refl

project_row-gone :
    (id : String) (projects : List ProjectRow) → project_row id (without id projects) ≡ none
project_row-gone id [] = refl
project_row-gone id (p ∷ projects) = elim (Bool-cases (str_eq p.id id)) [
  | inl e ↦ rw e (project_row-gone id projects)
  | inr e ↦ rw (e, e) (project_row-gone id projects)
]

-- After a removal that succeeds the project is not found any more, every other one is, and the
-- record of the removal is written.
pub remove-ok :
    (host : Host) (call : Call) (user : AuthUser) (headers : Headers) (id other : String)
    (db after : ProjectDb)
    → other ≢ id
    → remove host call user headers id db ≡ (ok tt, after)
    → (require user.role operator ≡ ok tt)
      × (project_row id after.projects ≡ none)
      × (project_row other after.projects ≡ project_row other db.projects)
      × ((row : ProjectRow) × (project_row id db.projects ≡ some row)
          × (record_event call.audit (remove_event host call user id row true) db.audit_events
              ≡ some after.audit_events))
unfolding remove
remove-ok host call user headers id other db after ne h =
    of_found (found_row host user headers id db) refl h
  where
    of_found :
        (r : ApiResult ProjectRow)
        → found_row host user headers id db ≡ r
        → then_do (r, db) (λ row db. delete_row host call user id row db) ≡ (ok tt, after)
        → (require user.role operator ≡ ok tt)
          × (project_row id after.projects ≡ none)
          × (project_row other after.projects ≡ project_row other db.projects)
          × ((row : ProjectRow) × (project_row id db.projects ≡ some row)
              × (record_event call.audit (remove_event host call user id row true) db.audit_events
                  ≡ some after.audit_events))
    of_found panicked f k = cc k
    of_found (err why) f k = cc k
    of_found (ok row) f k =
        let facts = found_row-ok host user headers id db f in
        let d : Removed host call user id row db (ok tt, after) =
          subst (λ (x : ApiResult (Unit {0}) × ProjectDb). Removed host call user id row db x) k
            (delete_row-Removed host call user id row db) in
        (
          facts.0,
          ap (project_row id) d.0 ∙ project_row-gone id db.projects,
          ap (project_row other) d.0 ∙ project_row-without id other db.projects ne,
          (row, facts.2, d.1),
        )
