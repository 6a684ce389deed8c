-- ===== src/OpenCode/Tally.antt =====
-- src/opencode.rs: how each section of a startup moves the count of active requests.
use caroba_guard.Prelude.{
  ℕ, ◌+◌, String, ◌≡◌, refl, sym, subst, ◌∙◌, inl, inr, true, false, Option, none, some, arith,
  ◌==◌, Bool-cases, is_some,
}
use caroba_guard.OpenCode.{AiPermissionMode}
use caroba_guard.OpenCode.Process.{
  is_ready, next_generation, detach_child, fail_phase, expect_connection, open_refreshed, serves,
  reused, busy, go_on, start_check, start_detach, spawned, start_spawned, has_pid, start_ready,
  Connection, ProcessState, TryWait, Check,
}
use caroba_guard.OpenCode.Lifecycle.{
  no_startup, checked, detached, started, spawned_as, not_spawned, with_process, startup_over,
  after_opening, after_check, after_spawn, after_finish, detach_in, Startup, System, Spawn,
}
use caroba_guard.OpenCode.Linked.{Staged, Staged-Quieter, Kept}
use caroba_guard.OpenCode.Counted.{
  Counted, Turn, Room, Turns, next_generation_lem, Turn-more, start_detach-Turns, Counted-Turn,
}

-- Between its detach and its spawn, a startup lets no request in.
abbrev pub Idle : Startup → ProcessState → Type 0
Idle (detached project mode) p = p.active_requests ≡ 0
Idle _ p = Unit

abbrev pub Tally : ℕ → System → Type 0
Tally n s = Counted s.guards s.process × Idle s.startup s.process × Room n s.process

Idle-Turn :
    (n : ℕ) (stage : Startup) (p q : ProcessState) → Turn n p q → Idle stage p → Idle stage q
Idle-Turn n no_startup p q t h = tt
Idle-Turn n (checked project mode) p q t h = tt
Idle-Turn n (detached project mode) p q (inl t) h = t.1 ∙ h
Idle-Turn n (detached project mode) p q (inr t) h = t.2
Idle-Turn n (started project mode pid generation) p q t h = tt

Room-Turn : (n : ℕ) (p q : ProcessState) → Turn 2 p q → Room (n + 2) p → Room n q
Room-Turn n p q (inl t) r = omega arith
Room-Turn n p q (inr t) r = omega arith

pub Tally-less : (n : ℕ) (s : System) → Tally (n + 2) s → Tally n s
Tally-less n s h = (h.0, h.1, omega arith)

-- A section that changes the process alone, and one that ends the startup.
pub of_Turn :
    (n : ℕ) (s : System) (q : ProcessState)
    → Turn 2 s.process q
    → Tally (n + 2) s
    → Tally n (with_process q s)
of_Turn n s q t h = (
  Counted-Turn 2 s.guards s.process q t h.0,
  Idle-Turn 2 s.startup s.process q t h.1,
  Room-Turn n s.process q t h.2,
)

over_Turn :
    (n : ℕ) (s : System) (q : ProcessState)
    → Turn 2 s.process q
    → Tally (n + 2) s
    → Tally n (startup_over q s)
over_Turn n s q t h = (Counted-Turn 2 s.guards s.process q t h.0, tt, Room-Turn n s.process q t h.2)

-- The same for a section with one new generation at most.
pub of_Turns :
    (n : ℕ) (s : System) (f : ProcessState → ProcessState)
    → Turns 1 f
    → Tally (n + 2) s
    → Tally n (with_process (f s.process) s)
of_Turns n s f t h =
    of_Turn n s (f s.process)
      (Turn-more 1 2 s.process (f s.process) (omega arith) (t s.process (omega arith))) h

pub over_Turns :
    (n : ℕ) (s : System) (f : ProcessState → ProcessState)
    → Turns 1 f
    → Tally (n + 2) s
    → Tally n (startup_over (f s.process) s)
over_Turns n s f t h =
    over_Turn n s (f s.process)
      (Turn-more 1 2 s.process (f s.process) (omega arith) (t s.process (omega arith))) h

pub after_check-Tally :
    (n : ℕ) (project : String) (mode : AiPermissionMode) (r : Check × ProcessState) (s : System)
    → s.startup ≡ no_startup
    → Turn 2 s.process r.1
    → Tally (n + 2) s
    → Tally n (after_check project mode r s)
after_check-Tally n project mode (reused, p) s e t h = of_Turn n s p t h
after_check-Tally n project mode (busy, p) s e t h = of_Turn n s p t h
after_check-Tally n project mode (go_on, p) s e t h = over_Turn n s p t h

pub start_check-same :
    (project : String) (mode : AiPermissionMode) (now : ℕ) (p q : ProcessState)
    → Turn 1 p q
    → Turn 2 p (start_check project mode now q).1
unfolding start_check
start_check-same project mode now p q t =
    let more : Turn 2 p q = Turn-more 1 2 p q (omega arith) t in
    elim (Bool-cases (serves project mode q)) [
      | inl e ↦ rw e more
      | inr e ↦
          rw e
            (elim (Bool-cases (q.active_requests == 0)) [ inl f ↦ rw f more | inr f ↦ rw f more ])
    ]

start_detach_idle :
    (project : String) (mode : AiPermissionMode) (answer : TryWait) (p : ProcessState)
    → (start_detach project mode answer p).active_requests ≡ 0
unfolding start_detach detach_child
start_detach_idle project mode answer p = refl

pub start_detach-Tally :
    (n : ℕ) (project : String) (mode : AiPermissionMode) (answer : TryWait) (s : System)
    → Tally (n + 2) s
    → Tally n (detach_in answer s project mode)
start_detach-Tally n project mode answer s h =
    let q : ProcessState = start_detach project mode answer s.process in
    let t : Turn 2 s.process q = start_detach-Turns project mode answer s.process (omega arith) in
    (
      Counted-Turn 2 s.guards s.process q t h.0,
      start_detach_idle project mode answer s.process,
      Room-Turn n s.process q t h.2,
    )

pub after_spawn-Tally :
    (n : ℕ) (project : String) (mode : AiPermissionMode) (spawn : Spawn) (now : ℕ) (s : System)
    → s.startup ≡ detached project mode
    → Tally (n + 2) s
    → Tally n (after_spawn project mode spawn now s)
unfolding start_spawned
after_spawn-Tally n project mode (not_spawned text) now s e h =
    over_Turn n s (fail_phase text s.process) (inl (refl, refl)) h
after_spawn-Tally n project mode (spawned_as pid connection) now s e h =
    let p : ProcessState = s.process in
    let room : Room (n + 2) p = h.2 in
    let none_active : p.active_requests ≡ 0 = subst (λ (stage : Startup). Idle stage p) e h.1 in
    let next : next_generation p.generation ≡ p.generation + 1 =
      next_generation_lem p.generation (omega arith) in
    over_Turn n s (start_spawned (spawned pid project mode) connection now p)
      (inr (omega arith, omega arith, none_active)) h

pub after_finish-Tally :
    (n pid : ℕ) (version : String) (now : ℕ) (s : System)
    → Tally (n + 2) s
    → Tally n (after_finish (start_ready pid version now s.process) s)
unfolding start_ready
after_finish-Tally n pid version now s h = elim (Bool-cases (has_pid pid s.process.child)) [
  | inl e ↦ rw e (over_Turn n s s.process (inl (refl, refl)) h)
  | inr e ↦ rw e (over_Turn n s s.process (inl (refl, refl)) h)
]

-- A request that is let in is counted; none is while a startup is between its detach and its spawn.
pub open_refreshed-Tally :
    (n now : ℕ) (s : System) (q : ProcessState)
    → Turn 1 s.process q
    → Kept s.process q
    → Staged s.startup s.process
    → Tally (n + 2) s
    → Tally n (after_opening (open_refreshed now q) s)
open_refreshed-Tally n now s q t k staged h = elim (Bool-cases (is_ready q.phase)) [
  | inl e ↦ rw e (of_connection q.connection (sym k.0.0 ∙ k.0.1 e) e)
  | inr e ↦ rw e moved
]
  where
    more : Turn 2 s.process q
    more = Turn-more 1 2 s.process q (omega arith) t

    moved : Tally n (with_process q s)
    moved = of_Turn n s q more h

    entered :
        (stage : Startup)
        → Staged stage q
        → is_ready q.phase ≡ true
        → Idle stage (record q { active_requests = q.active_requests + 1; last_active = now })
    entered no_startup g e = tt
    entered (checked project mode) g e = tt
    entered (detached project mode) g e = let shut : is_ready q.phase ≡ false = g.2 in cc
    entered (started project mode pid generation) g e = tt

    of_connection :
        (c : Option Connection)
        → is_some c ≡ true
        → is_ready q.phase ≡ true
        → Tally n (
            after_opening
              (
                expect_connection q c,
                record q { active_requests = q.active_requests + 1; last_active = now },
              )
              s)
    of_connection none f e = cc f
    of_connection (some c) f e = (
      (ground (arith, moved.0.0), (omega arith, moved.0.1)),
      entered s.startup (Staged-Quieter s.startup s.process q k.1 staged) e,
      moved.2,
    )
