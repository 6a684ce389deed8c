-- ===== src/OpenCode/Linked.antt =====
-- src/opencode.rs: what every section keeps of the process, its connection and its configuration.
use caroba_guard.Prelude.{
  ℕ, ◌-◌, String, ◌≡◌, refl, ◌∙◌, inl, inr, Bool, true, false, not, ◌&&◌, Option, none, some, leb,
  ◌==◌, if◌then◌else◌, Bool-cases, is_some,
}
use caroba_guard.OpenCode.{same_mode, AiPermissionMode, unrestricted}
use caroba_guard.OpenCode.Process.{
  is_ready, detach_child, exited, running, wait_failed, refresh_for, refresh_child_status,
  fail_phase, open_refreshed, open_request, release, serves, start_check, start_failed,
  event_stream_ended, reap, Child, ProcessState, TryWait,
}
use caroba_guard.OpenCode.Lifecycle.{no_startup, checked, detached, started, Startup}

-- The process runs with the mode and in the project that the state names.
abbrev pub Configured : Option Child → AiPermissionMode → Option String → Type 0
Configured none mode project = Unit
Configured (some c) mode project =
    (c.permission_config ≡ mode)
    × (some c.current_dir ≡ project)
    × (c.is_pure ≡ not (same_mode mode unrestricted))

-- The process and the connection are there together, and when the phase is `Ready`.
abbrev pub Linked : ProcessState → Type 0
Linked p =
    (is_some p.child ≡ is_some p.connection)
    × (is_ready p.phase ≡ true → is_some p.child ≡ true)
    × Configured p.child p.mode p.project_path

-- A startup past its detach has put its mode and project in the state, which is not ready yet.
abbrev pub InPlace : String → AiPermissionMode → ProcessState → Type 0
InPlace project mode p =
    (p.mode ≡ mode) × (p.project_path ≡ some project) × (is_ready p.phase ≡ false)

abbrev pub Staged : Startup → ProcessState → Type 0
Staged (detached project mode) p = InPlace project mode p
Staged (started project mode pid generation) p = InPlace project mode p
Staged _ p = Unit

-- A phase that is not `Ready`, where mode and project stay.
abbrev pub Quieter : ProcessState → ProcessState → Type 0
Quieter p q =
    (q.mode ≡ p.mode)
    × (q.project_path ≡ p.project_path)
    × (is_ready p.phase ≡ false → is_ready q.phase ≡ false)

pub Staged-Quieter :
    (stage : Startup) (p q : ProcessState) → Quieter p q → Staged stage p → Staged stage q
Staged-Quieter no_startup p q h s = tt
Staged-Quieter (checked project mode) p q h s = tt
Staged-Quieter (detached project mode) p q h s = (h.0 ∙ s.0, h.1 ∙ s.1, h.2 s.2)
Staged-Quieter (started project mode pid generation) p q h s = (h.0 ∙ s.0, h.1 ∙ s.1, h.2 s.2)

-- What an operation that never makes the phase `Ready` keeps.
abbrev pub Kept : ProcessState → ProcessState → Type 0
Kept p q = Linked q × Quieter p q

abbrev pub Keeps : (ProcessState → ProcessState) → Type 0
Keeps f = (p : ProcessState) → Linked p → Kept p (f p)

pub Kept-trans : (p q r : ProcessState) → Kept p q → Kept q r → Kept p r
Kept-trans p q r h k = (k.0, (k.1.0 ∙ h.1.0, k.1.1 ∙ h.1.1, λ e. k.1.2 (h.1.2 e)))

pub Kept-refl : (p : ProcessState) → Linked p → Kept p p
Kept-refl p h = (h, (refl, refl, λ e. e))

pub detach_child-Keeps : Keeps detach_child
unfolding detach_child
detach_child-Keeps p h = ((refl, λ e. cc e, tt), (refl, refl, λ e. refl))

pub fail_phase-Keeps : (text : String) → Keeps (fail_phase text)
fail_phase-Keeps text p h = ((h.0, λ e. cc e, h.2), (refl, refl, λ e. refl))

pub refresh-Keeps : (answer : TryWait) → Keeps (refresh_child_status answer)
unfolding refresh_child_status
refresh-Keeps answer p h = of_child answer p.child
  where
    of_child : (answer : TryWait) (c : Option Child) → Kept p (refresh_for c answer p)
    of_child answer none = Kept-refl p h
    of_child (exited status) (some c) = ((refl, λ e. cc e, tt), (refl, refl, λ e. refl))
    of_child running (some c) = Kept-refl p h
    of_child (wait_failed text) (some c) = fail_phase-Keeps text p h

pub start_failed-Keeps : (text : String) → Keeps (start_failed text)
unfolding start_failed
start_failed-Keeps text p h =
    let d : Kept p (detach_child p) = detach_child-Keeps p h in
    Kept-trans p (detach_child p) (start_failed text p) d
      (fail_phase-Keeps text (detach_child p) d.0)

pub release-Keeps : (generation now : ℕ) → Keeps (release generation now)
unfolding release
release-Keeps generation now p h = elim (Bool-cases (p.generation == generation)) [
  | inl e ↦ rw e (h, (refl, refl, λ e. e))
  | inr e ↦ rw e (Kept-refl p h)
]

pub event_stream_ended-Keeps :
    (generation : ℕ) (reason : String) → Keeps (event_stream_ended generation reason)
unfolding event_stream_ended start_failed
event_stream_ended-Keeps generation reason p h = elim (Bool-cases (p.generation == generation)) [
  | inl e ↦ rw e (start_failed-Keeps reason p h)
  | inr e ↦ rw e (Kept-refl p h)
]

pub reap-Keeps :
    (answer : TryWait) (unhealthy : Bool) (timeout now : ℕ)
    → Keeps (reap answer unhealthy timeout now)
unfolding reap start_failed
reap-Keeps answer unhealthy timeout now p h =
    let q : ProcessState = refresh_child_status answer p in
    let k : Kept p q = refresh-Keeps answer p h in
    let idle : Bool =
      is_ready q.phase && q.active_requests == 0 && leb timeout (now - q.last_active) in
    of_tests unhealthy idle q k
  where
    of_tests :
        (unhealthy idle : Bool) (q : ProcessState)
        → Kept p q
        → Kept p (
            if unhealthy
            then start_failed "OpenCode health check failed" q
            else if idle
            then detach_child q
            else q)
    of_tests true idle q k =
        Kept-trans p q (start_failed "OpenCode health check failed" q) k
          (start_failed-Keeps "OpenCode health check failed" q k.0)
    of_tests false true q k = Kept-trans p q (detach_child q) k (detach_child-Keeps q k.0)
    of_tests false false q k = k

pub start_check-Keeps :
    (project : String) (mode : AiPermissionMode) (now : ℕ)
    → Keeps (λ p. (start_check project mode now p).1)
unfolding start_check
start_check-Keeps project mode now p h = elim (Bool-cases (serves project mode p)) [
  | inl e ↦ rw e (h, (refl, refl, λ e. e))
  | inr e ↦ rw e (elim (Bool-cases (p.active_requests == 0)) [
    | inl f ↦ rw f (Kept-refl p h)
    | inr f ↦ rw f (Kept-refl p h)
  ])
]

pub open_request-Keeps : (answer : TryWait) (now : ℕ) → Keeps (λ p. (open_request answer now p).1)
unfolding open_request
open_request-Keeps answer now p h =
    of_phase (refresh_child_status answer p) (refresh-Keeps answer p h)
  where
    of_phase : (q : ProcessState) → Kept p q → Kept p (open_refreshed now q).1
    of_phase q k = elim (Bool-cases (is_ready q.phase)) [ inl e ↦ rw e k | inr e ↦ rw e k ]
