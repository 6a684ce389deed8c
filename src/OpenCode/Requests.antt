-- ===== src/OpenCode/Requests.antt =====
-- src/opencode.rs: the count of active requests through any interleaving of the sections.
use caroba_guard.Prelude.{
  ℕ, ◌+◌, ◌-◌, ◌*◌, ◌^◌, ◌<◌, ◌≡◌, refl, sym, ap, subst, ◌∙◌, inl, inr, Bool, true, false, ◌&&◌,
  Option, none, some, List, [], ◌∷◌, arith, leb, ◌==◌, if◌then◌else◌, Bool-cases, Option-cases,
  is_some, length, get_elem?,
}
use caroba_guard.OpenCode.Process.{
  is_ready, detach_child, running, refresh_for, refresh_child_status, fail_phase, open_request,
  release, start_check, start_failed, start_ready, event_stream_ended, reap, Child, ProcessState,
}
use caroba_guard.OpenCode.Lifecycle.{
  no_startup, checked, detached, started, poll, request_begins, request_ends, start_begins,
  start_detaches, start_spawns, start_gives_up, start_handles, start_fails, proxy_connects,
  start_finishes, stops, reaps, stream_ends, wake_fails, after_spawn, after_error, after_finish,
  close_guard, proxy_connected, detach_in, step, run, new_system, when_free_lem, when_checked_lem,
  when_detached_lem, when_started_lem, when_held_lem, Startup, System, Event,
}
use caroba_guard.OpenCode.Linked.{refresh-Keeps}
use caroba_guard.OpenCode.Runs.{Consistent, step-Consistent}
use caroba_guard.OpenCode.Counted.{
  open_at, Counted, Room, detach_child-Turns, refresh-Turns, start_failed-Turns,
  event_stream_ended-Turns, reap-Turns, after_error-Turns, release-Counted,
}
use caroba_guard.OpenCode.Tally.{
  Idle, Tally, Tally-less, of_Turn, of_Turns, over_Turns, after_check-Tally, start_check-same,
  start_detach-Tally, after_spawn-Tally, after_finish-Tally, open_refreshed-Tally,
}

Idle-release :
    (stage : Startup) (g now : ℕ) (p : ProcessState) → Idle stage p → Idle stage (release g now p)
unfolding release
Idle-release no_startup g now p h = tt
Idle-release (checked project mode) g now p h = tt
Idle-release (detached project mode) g now p h = elim (Bool-cases (p.generation == g)) [
  | inl t ↦ rw t (omega arith)
  | inr t ↦ rw t h
]
Idle-release (started project mode pid generation) g now p h = tt

Room-release : (n g now : ℕ) (p : ProcessState) → Room n p → Room n (release g now p)
unfolding release
Room-release n g now p h = elim (Bool-cases (p.generation == g)) [ inl t ↦ rw t h | inr t ↦ rw t h ]

close_guard-Tally :
    (n i now : ℕ) (s : System)
    → Tally (n + 2) s
    → Tally n (close_guard i now (get_elem? s.guards i) s)
close_guard-Tally n i now s h = elim (Option-cases (get_elem? s.guards i)) [
  | inl e ↦ rw e (Tally-less n s h)
  | inr (g, e) ↦ rw e (
    release-Counted i g now s.guards s.process e h.0,
    Idle-release s.startup g now s.process h.1,
    Room-release n g now s.process (omega arith),
  )
]

step-Tally :
    (n : ℕ) (event : Event) (s : System) → Consistent s → Tally (n + 2) s → Tally n (step event s)
unfolding step open_request
step-Tally n (poll answer) s c h =
    of_Turns n s (refresh_child_status answer) (refresh-Turns answer) h
step-Tally n (request_begins answer now) s c h =
    open_refreshed-Tally n now s (refresh_child_status answer s.process)
      (refresh-Turns answer s.process (omega arith)) (refresh-Keeps answer s.process c.0) c.1 h
step-Tally n (request_ends i now) s c h = close_guard-Tally n i now s h
step-Tally n (start_begins project mode answer now) s c h =
    when_free_lem (Tally n) s (Tally-less n s h) _ (λ e.
      after_check-Tally n project mode
        (start_check project mode now (refresh_child_status answer s.process)) s e
        (start_check-same project mode now s.process (refresh_child_status answer s.process)
          (refresh-Turns answer s.process (omega arith)))
        h)
step-Tally n (start_detaches answer) s c h =
    when_checked_lem (Tally n) s (Tally-less n s h) (detach_in answer s)
      (λ project mode e. start_detach-Tally n project mode answer s h)
step-Tally n (start_spawns spawn now) s c h =
    when_detached_lem (Tally n) s (Tally-less n s h)
      (λ project mode. after_spawn project mode spawn now s)
      (λ project mode e. after_spawn-Tally n project mode spawn now s e h)
step-Tally n (start_fails text) s c h =
    when_started_lem (Tally n) s (Tally-less n s h) _ (λ project mode pid generation e.
      over_Turns n s (start_failed text) (start_failed-Turns text) h)
step-Tally n proxy_connects s c h =
    when_started_lem (Tally n) s (Tally-less n s h)
      (λ pid generation. proxy_connected pid generation s)
      (λ project mode pid generation e.
        of_Turn n s (proxy_connected pid generation s).process (inl (refl, refl)) h)
step-Tally n (start_finishes version now) s c h =
    when_started_lem (Tally n) s (Tally-less n s h)
      (λ pid generation. after_finish (start_ready pid version now s.process) s)
      (λ project mode pid generation e. after_finish-Tally n pid version now s h)
step-Tally n start_gives_up s c h =
    when_held_lem (Tally n) s (Tally-less n s h) _
      (over_Turns n s (λ p. p) (λ p b. inl (refl, refl)) h)
step-Tally n (start_handles text) s c h =
    when_free_lem (Tally n) s (Tally-less n s h) _
      (λ e. of_Turns n s (after_error text) (after_error-Turns text) h)
step-Tally n stops s c h =
    when_free_lem (Tally n) s (Tally-less n s h) _
      (λ e. of_Turns n s (detach_child) (detach_child-Turns) h)
step-Tally n (reaps answer unhealthy timeout now) s c h =
    when_free_lem (Tally n) s (Tally-less n s h) _ (λ e.
      of_Turn n s (reap answer unhealthy timeout now s.process)
        (reap-Turns answer unhealthy timeout now s.process (omega arith)) h)
step-Tally n (stream_ends generation reason) s c h =
    of_Turns n s (event_stream_ended generation reason) (event_stream_ended-Turns generation reason)
      h
step-Tally n (wake_fails text) s c h =
    when_free_lem (Tally n) s (Tally-less n s h) _
      (λ e. of_Turn n s (fail_phase text s.process) (inl (refl, refl)) h)

run-Tally :
    (events : List Event) (s : System)
    → Consistent s
    → Tally (2 * length events) s
    → Counted (run events s).guards (run events s).process
unfolding run
run-Tally [] s c h = h.0
run-Tally (event ∷ events) s c h =
    run-Tally events (step event s) (step-Consistent event s c)
      (step-Tally (2 * length events) event s c (h.0, h.1, omega arith))

-- While fewer than 2^63 sections have run, so that the `u64` generation has not wrapped, the count of
-- active requests is exactly the number of open guards of the current generation.
pub run-Counted :
    (now : ℕ) (events : List Event)
    → length events < 2 ^ 63
    → (run events (new_system now)).process.active_requests
      ≡ open_at
          (run events (new_system now)).process.generation
          (run events (new_system now)).guards
run-Counted now events few =
    (run-Tally events (new_system now) ((refl, λ e. cc e, tt), tt) ((refl, tt), tt, omega arith)).0

refresh-running : (p : ProcessState) (c : Option Child) → refresh_for c running p ≡ p
refresh-running p none = refl
refresh-running p (some c) = refl

of_tests :
    (a idle b : Bool) (q : ProcessState)
    → idle ≡ false
    → is_some (if a && idle && b then detach_child q else q).child ≡ false
    → is_some q.child ≡ false
of_tests true true b q e g = cc e
of_tests false true b q e g = g
of_tests true false b q e g = g
of_tests false false b q e g = g

detached_idle :
    (p : ProcessState) (timeout now : ℕ)
    → is_some p.child ≡ true
    → is_some (reap running false timeout now p).child ≡ false
    → p.active_requests ≡ 0
unfolding reap refresh_child_status
detached_idle p timeout now there gone =
    let same : refresh_for p.child running p ≡ p = refresh-running p p.child in
    of_process (refresh_for p.child running p) same gone
  where
    of_process :
        (q : ProcessState)
        → q ≡ p
        → is_some
            (if is_ready q.phase && q.active_requests == 0 && leb timeout (now - q.last_active)
              then detach_child q
              else q).child
          ≡ false
        → p.active_requests ≡ 0
    of_process q e g = elim (Bool-cases (q.active_requests == 0)) [
      | inl t ↦ ap (λ (x : ProcessState). x.active_requests) (sym e) ∙ ground arith
      | inr t ↦
          let kept : is_some q.child ≡ false =
            of_tests (is_ready q.phase) (q.active_requests == 0) (leb timeout (now - q.last_active))
              q t g in
          let also : is_some p.child ≡ false =
            subst (λ (x : ProcessState). is_some x.child ≡ false) e kept in
          cc
    ]

-- While fewer than 2^63 sections have run, a reaper that takes away a process that is running and
-- healthy does so with no open guard of its generation.
pub reap-run-idle :
    (now : ℕ) (events : List Event) (timeout at : ℕ)
    → length events < 2 ^ 63
    → is_some (run events (new_system now)).process.child ≡ true
    → is_some (reap running false timeout at (run events (new_system now)).process).child ≡ false
    → open_at (run events (new_system now)).process.generation (run events (new_system now)).guards
      ≡ 0
reap-run-idle now events timeout at few there gone =
    sym (run-Counted now events few)
    ∙ detached_idle (run events (new_system now)).process timeout at there gone
