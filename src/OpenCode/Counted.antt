-- ===== src/OpenCode/Counted.antt =====
-- src/opencode.rs: the count of active requests beside the guards that are open.
use caroba_guard.Prelude.{
  ℕ, zero, suc, ◌+◌, ◌-◌, ◌^◌, ◌≤◌, ◌<◌, String, ◌≡◌, refl, sym, ap, ◌∙◌, ◌⊎◌, inl, inr, Bool, true,
  false, ◌&&◌, Option, none, some, List, [], ◌∷◌, arith, leb, ◌==◌, if◌then◌else◌, Bool-cases,
  get_elem?, count_if, All,
}
use caroba_guard.OpenCode.{AiPermissionMode}
use caroba_guard.OpenCode.Process.{
  is_ready, next_generation, detach_child, exited, running, wait_failed, refresh_for,
  refresh_child_status, release, start_detach, start_failed, event_stream_ended, reap, Child,
  AgentPhase, ProcessState, TryWait, sleeping, starting, ready, error,
}
use caroba_guard.OpenCode.Lifecycle.{remove_at, after_error}
use caroba_guard.OpenCode.Runs.{}

abbrev pub open_at : ℕ → List ℕ → ℕ
open_at generation guards = count_if (λ g. g == generation) guards

-- The count is that of the open requests of this generation, and no guard is of a later one.
abbrev pub Counted : List ℕ → ProcessState → Type 0
Counted guards p =
    (p.active_requests ≡ open_at p.generation guards) × All (λ g. g ≤ p.generation) guards

-- At most `n` new generations, the count reset by each; or nothing of the two has changed.
abbrev pub Turn : ℕ → ProcessState → ProcessState → Type 0
Turn n p q =
    ((q.generation ≡ p.generation) × (q.active_requests ≡ p.active_requests))
    ⊎ ((p.generation < q.generation) × (q.generation ≤ p.generation + n) × (q.active_requests ≡ 0))

-- The generation is a `u64`: this many more steps cannot wrap it.
abbrev pub Room : ℕ → ProcessState → Type 0
Room n p = p.generation + n < 2 ^ 64

abbrev pub Turns : ℕ → (ProcessState → ProcessState) → Type 0
Turns n f = (p : ProcessState) → Room n p → Turn n p (f p)

pub next_generation_lem : (g : ℕ) → g + 1 < 2 ^ 64 → next_generation g ≡ g + 1
next_generation_lem g h = omega arith

Turn-trans : (n m : ℕ) (p q r : ProcessState) → Turn n p q → Turn m q r → Turn (n + m) p r
Turn-trans n m p q r (inl h) (inl k) = inl (k.0 ∙ h.0, k.1 ∙ h.1)
Turn-trans n m p q r (inl h) (inr k) = inr (omega arith, omega arith, k.2)
Turn-trans n m p q r (inr h) (inl k) = inr (omega arith, omega arith, k.1 ∙ h.2)
Turn-trans n m p q r (inr h) (inr k) = inr (omega arith, omega arith, k.2)

pub Turn-more : (n m : ℕ) (p q : ProcessState) → n ≤ m → Turn n p q → Turn m p q
Turn-more n m p q le (inl h) = inl h
Turn-more n m p q le (inr h) = inr (h.0, omega arith, h.2)

pub detach_child-Turns : Turns 1 detach_child
unfolding detach_child
detach_child-Turns p room = inr (
  omega (arith, next_generation_lem p.generation),
  omega (arith, next_generation_lem p.generation),
  refl,
)

pub refresh-Turns : (answer : TryWait) → Turns 1 (refresh_child_status answer)
unfolding refresh_child_status
refresh-Turns answer p room = of_child answer p.child
  where
    of_child : (answer : TryWait) (c : Option Child) → Turn 1 p (refresh_for c answer p)
    of_child answer none = inl (refl, refl)
    of_child (exited status) (some c) = inr (
      omega (arith, next_generation_lem p.generation),
      omega (arith, next_generation_lem p.generation),
      refl,
    )
    of_child running (some c) = inl (refl, refl)
    of_child (wait_failed text) (some c) = inl (refl, refl)

pub start_failed-Turns : (text : String) → Turns 1 (start_failed text)
unfolding start_failed
start_failed-Turns text p room = detach_child-Turns p room

pub event_stream_ended-Turns :
    (generation : ℕ) (reason : String) → Turns 1 (event_stream_ended generation reason)
unfolding event_stream_ended start_failed
event_stream_ended-Turns generation reason p room = elim (Bool-cases (p.generation == generation)) [
  | inl e ↦ rw e (start_failed-Turns reason p room)
  | inr e ↦ rw e (inl (refl, refl))
]

-- A second section after the first, with what room is left.
Turn-then :
    (f : ProcessState → ProcessState) (p q : ProcessState)
    → Turns 1 f
    → Room 2 p
    → Turn 1 p q
    → Turn 2 p (f q)
Turn-then f p q turns room (inl h) = Turn-trans 1 1 p q (f q) (inl h) (turns q (omega arith))
Turn-then f p q turns room (inr h) = Turn-trans 1 1 p q (f q) (inr h) (turns q (omega arith))

pub reap-Turns :
    (answer : TryWait) (unhealthy : Bool) (timeout now : ℕ)
    → Turns 2 (reap answer unhealthy timeout now)
unfolding reap start_failed
reap-Turns answer unhealthy timeout now p room =
    let q : ProcessState = refresh_child_status answer p in
    of_tests unhealthy
      (is_ready q.phase && q.active_requests == 0 && leb timeout (now - q.last_active)) q
      (refresh-Turns answer p (omega arith))
  where
    of_tests :
        (unhealthy idle : Bool) (q : ProcessState)
        → Turn 1 p q
        → Turn 2 p (
            if unhealthy
            then start_failed "OpenCode health check failed" q
            else if idle
            then detach_child q
            else q)
    of_tests true idle q k =
        Turn-then (start_failed "OpenCode health check failed") p q
          (start_failed-Turns "OpenCode health check failed") room k
    of_tests false true q k = Turn-then detach_child p q detach_child-Turns room k
    of_tests false false q k = Turn-more 1 2 p q (omega arith) k

pub start_detach-Turns :
    (project : String) (mode : AiPermissionMode) (answer : TryWait)
    → Turns 2 (start_detach project mode answer)
unfolding start_detach
start_detach-Turns project mode answer p room =
    Turn-then detach_child p (refresh_child_status answer p) detach_child-Turns room
      (refresh-Turns answer p (omega arith))

pub after_error-Turns : (text : String) → Turns 1 (after_error text)
after_error-Turns text p room = of_phase p.phase
  where
    of_phase :
        (phase : AgentPhase) → Turn 1 p (elim phase [ starting ↦ start_failed text p | _ ↦ p ])
    of_phase starting = start_failed-Turns text p room
    of_phase sleeping = inl (refl, refl)
    of_phase ready = inl (refl, refl)
    of_phase error = inl (refl, refl)

later-none : (g h : ℕ) (guards : List ℕ) → g < h → All (λ x. x ≤ g) guards → open_at h guards ≡ 0
later-none g h [] lt a = refl
later-none g h (x ∷ guards) lt a = ground (arith, later-none g h guards lt a.1)

later-All : (g h : ℕ) (guards : List ℕ) → g ≤ h → All (λ x. x ≤ g) guards → All (λ x. x ≤ h) guards
later-All g h [] le a = tt
later-All g h (x ∷ guards) le a = (omega arith, later-All g h guards le a.1)

pub Counted-Turn :
    (n : ℕ) (guards : List ℕ) (p q : ProcessState)
    → Turn n p q
    → Counted guards p
    → Counted guards q
Counted-Turn n guards p q (inl h) c = (
  h.1 ∙ c.0 ∙ ap (λ (g : ℕ). open_at g guards) (sym h.0),
  later-All p.generation q.generation guards (omega arith) c.1,
)
Counted-Turn n guards p q (inr h) c = (
  h.2 ∙ sym (later-none p.generation q.generation guards h.0 c.1),
  later-All p.generation q.generation guards (omega arith) c.1,
)

-- Closing a guard.
remove_at-All :
    (m i : ℕ) (guards : List ℕ) → All (λ x. x ≤ m) guards → All (λ x. x ≤ m) (remove_at i guards)
remove_at-All m i [] a = tt
remove_at-All m zero (x ∷ guards) a = a.1
remove_at-All m (suc i) (x ∷ guards) a = (a.0, remove_at-All m i guards a.1)

open_at-remove_at :
    (generation i g : ℕ) (guards : List ℕ)
    → get_elem? guards i ≡ some g
    → open_at generation guards
      ≡ (if g == generation then 1 else 0) + open_at generation (remove_at i guards)
open_at-remove_at generation i g [] e = cc
open_at-remove_at generation zero g (x ∷ guards) e =
    let same : x ≡ g = cc in
    ap (λ (y : ℕ). (if y == generation then 1 else 0) + open_at generation guards) same
open_at-remove_at generation (suc i) g (x ∷ guards) e =
    omega (arith, open_at-remove_at generation i g guards e)

pub release-Counted :
    (i g now : ℕ) (guards : List ℕ) (p : ProcessState)
    → get_elem? guards i ≡ some g
    → Counted guards p
    → Counted (remove_at i guards) (release g now p)
unfolding release
release-Counted i g now guards p e c =
    let counts : open_at p.generation guards
        ≡ (if g == p.generation then 1 else 0) + open_at p.generation (remove_at i guards) =
      open_at-remove_at p.generation i g guards e in
    elim (Bool-cases (p.generation == g)) [
      | inl t ↦ rw t (ground arith, remove_at-All p.generation i guards c.1)
      | inr t ↦ rw t (ground arith, remove_at-All p.generation i guards c.1)
    ]
