-- ===== src/Audit.antt =====
-- src/audit.rs: the record that every action leaves, and the list of the records.
use caroba_guard.Prelude.{
  ℕ, ◌+◌, min, max, String, ◌≡◌, refl, inl, inr, Bool, true, false, Option, none, some, List, [],
  ◌∷◌, arith, ltb, if◌then◌else◌, Bool-cases, length, take, drop, Bytes, Signed,
}
use caroba_guard.Context.{Value}

pub record NewAuditEvent : Type 0 where
  pub actor_user_id : Option String
  pub actor_name : String
  pub origin : String
  pub action : String
  pub target : String
  pub command : Option Bytes
  pub result : String
  pub duration_ms : ℕ
  pub exit_code : Option ℕ
  pub ai_session_id : Option String
  pub ai_permission_mode : Option String
  pub metadata : Value

-- A row of `audit_events`.
pub record AuditEvent : Type 0 where
  pub id : String
  pub event : NewAuditEvent
  pub created_at : ℕ

-- The identifier and the time of one record, and whether the statement fails.
pub record AuditEnv : Type 0 where
  pub id : String
  pub now : ℕ
  pub fails : Bool

-- `record`: the table after it, or nothing when the statement fails.
unfoldable pub record_event : AuditEnv → NewAuditEvent → List AuditEvent → Option (List AuditEvent)
record_event env event rows =
    if env.fails
    then none
    else some (record { id = env.id; event = event; created_at = env.now } ∷ rows)

pub record AuditQuery : Type 0 where
  pub limit : Option Signed
  pub offset : Option Signed

-- `unwrap_or(default).clamp(1, 500)`, and `unwrap_or(0).max(0)`.
abbrev limit_of : Option Signed → ℕ
limit_of none = 100
limit_of (some limit) = if limit.minus then 1 else min (max limit.magnitude 1) 500

abbrev offset_of : Option Signed → ℕ
offset_of none = 0
offset_of (some offset) = if offset.minus then 0 else offset.magnitude

abbrev insert_latest : AuditEvent → List AuditEvent → List AuditEvent
insert_latest e [] = e ∷ []
insert_latest e (f ∷ fs) =
    if ltb e.created_at f.created_at then f ∷ insert_latest e fs else e ∷ f ∷ fs

abbrev latest_first : List AuditEvent → List AuditEvent
latest_first [] = []
latest_first (e ∷ es) = insert_latest e (latest_first es)

-- `list`. Events of the same second keep the order of the table, which the statement leaves open.
unfoldable pub list_events : AuditQuery → List AuditEvent → List AuditEvent
list_events query rows =
    take (limit_of query.limit) (drop (offset_of query.offset) (latest_first rows))

-- The row of a record that could be written.
abbrev pub row : AuditEnv → NewAuditEvent → AuditEvent
row env event = record { id = env.id; event = event; created_at = env.now }

pub record_event-row :
    (env : AuditEnv) (event : NewAuditEvent) (rows : List AuditEvent)
    → env.fails ≡ false
    → record_event env event rows ≡ some (row env event ∷ rows)
unfolding record_event
record_event-row env event rows h = rw h refl

pub record_event-none :
    (env : AuditEnv) (event : NewAuditEvent) (rows : List AuditEvent)
    → env.fails ≡ true
    → record_event env event rows ≡ none
unfolding record_event
record_event-none env event rows h = rw h refl

pub record_event-length :
    (env : AuditEnv) (event : NewAuditEvent) (rows : List AuditEvent) {rows' : List AuditEvent}
    → record_event env event rows ≡ some rows'
    → length rows' ≡ length rows + 1
unfolding record_event
record_event-length env event rows h = elim (Bool-cases env.fails) [
  | inl f ↦ cc (rw (f, record_event) at h)
  | inr w ↦ ground arith
]
