-- ===== src/OpenCode/Runs.antt =====
-- src/opencode.rs: the agent's process through any interleaving of its sections.
use caroba_guard.Prelude.{
  ℕ, String, ◌≡◌, refl, sym, ap, subst, ◌∙◌, ◌≢◌, inl, inr, true, not, Option, none, some, List, [],
  ◌∷◌, Bool-cases, is_some, get_elem?,
}
use caroba_guard.OpenCode.{same_mode, AiPermissionMode, unrestricted}
use caroba_guard.OpenCode.Process.{
  is_ready, detach_child, refresh_child_status, fail_phase, opened, not_ready, no_connection,
  expect_connection, open_refreshed, open_request, release, reused, busy, go_on, start_check,
  start_detach, spawned, start_spawned, start_failed, has_pid, start_ready, event_stream_ended,
  reap, Child, Connection, AgentPhase, ProcessState, TryWait, Opening, Check, sleeping, starting,
  ready, error,
}
use caroba_guard.OpenCode.Lifecycle.{
  no_startup, detached, spawned_as, not_spawned, poll, request_begins, request_ends, start_begins,
  start_detaches, start_spawns, start_gives_up, start_handles, start_fails, proxy_connects,
  start_finishes, stops, reaps, stream_ends, wake_fails, with_process, after_opening, after_check,
  after_spawn, after_error, after_finish, close_guard, proxy_connected, detach_in, step, run,
  new_system, when_free_lem, when_checked_lem, when_detached_lem, when_started_lem, when_held_lem,
  Startup, System, Spawn, Event,
}
use caroba_guard.OpenCode.Linked.{
  Linked, InPlace, Staged, Staged-Quieter, Kept, Keeps, detach_child-Keeps, fail_phase-Keeps,
  refresh-Keeps, start_failed-Keeps, release-Keeps, event_stream_ended-Keeps, reap-Keeps,
  start_check-Keeps, open_request-Keeps,
}

abbrev pub Consistent : System → Type 0
Consistent s = Linked s.process × Staged s.startup s.process

-- An operation of `OpenCode.Linked` on the process alone, and one that ends the startup.
of_Keeps :
    (f : ProcessState → ProcessState) (s : System)
    → Keeps f
    → Consistent s
    → Consistent (with_process (f s.process) s)
of_Keeps f s k h =
    let r : Kept s.process (f s.process) = k s.process h.0 in
    (r.0, Staged-Quieter s.startup s.process (f s.process) r.1 h.1)

after_error-Keeps : (text : String) → Keeps (after_error text)
after_error-Keeps text p h = of_phase p.phase
  where
    of_phase : (phase : AgentPhase) → Kept p (elim phase [ starting ↦ start_failed text p | _ ↦ p ])
    of_phase starting = start_failed-Keeps text p h
    of_phase sleeping = (h, (refl, refl, λ e. e))
    of_phase ready = (h, (refl, refl, λ e. e))
    of_phase error = (h, (refl, refl, λ e. e))

start_detach-InPlace :
    (project : String) (mode : AiPermissionMode) (answer : TryWait) (p : ProcessState)
    → Linked (start_detach project mode answer p)
      × InPlace project mode (start_detach project mode answer p)
unfolding start_detach detach_child
start_detach-InPlace project mode answer p = ((refl, λ e. cc e, tt), (refl, refl, refl))

after_check-Consistent :
    (project : String) (mode : AiPermissionMode) (answer : TryWait) (now : ℕ) (s : System)
    → s.startup ≡ no_startup
    → Linked s.process
    → Consistent (
        after_check project mode
          (start_check project mode now (refresh_child_status answer s.process))
          s)
after_check-Consistent project mode answer now s e h =
    of_check (start_check project mode now q)
      (start_check-Keeps project mode now q (refresh-Keeps answer s.process h).0).0
  where
    q : ProcessState
    q = refresh_child_status answer s.process

    idle : (p : ProcessState) → Staged s.startup p
    idle p = subst (λ (stage : Startup). Staged stage p) (sym e) tt

    of_check : (r : Check × ProcessState) → Linked r.1 → Consistent (after_check project mode r s)
    of_check (reused, p) k = (k, idle p)
    of_check (busy, p) k = (k, idle p)
    of_check (go_on, p) k = (k, tt)

after_spawn-Consistent :
    (project : String) (mode : AiPermissionMode) (spawn : Spawn) (now : ℕ) (s : System)
    → s.startup ≡ detached project mode
    → Consistent s
    → Consistent (after_spawn project mode spawn now s)
unfolding start_spawned spawned
after_spawn-Consistent project mode (not_spawned text) now s e h =
    ((fail_phase-Keeps text s.process h.0).0, tt)
after_spawn-Consistent project mode (spawned_as pid connection) now s e h =
    let g : InPlace project mode s.process =
      subst (λ (stage : Startup). Staged stage s.process) e h.1 in
    (
      (
        refl,
        λ r. refl,
        (sym g.0, sym g.1, ap (λ (m : AiPermissionMode). not (same_mode m unrestricted)) (sym g.0)),
      ),
      g,
    )

is_some-has_pid : (pid : ℕ) (c : Option Child) → has_pid pid c ≡ true → is_some c ≡ true
is_some-has_pid pid none e = cc
is_some-has_pid pid (some c) e = refl

after_finish-Consistent :
    (pid : ℕ) (version : String) (now : ℕ) (s : System)
    → Linked s.process
    → Consistent (after_finish (start_ready pid version now s.process) s)
unfolding start_ready
after_finish-Consistent pid version now s h = elim (Bool-cases (has_pid pid s.process.child)) [
  | inl e ↦ rw e ((h.0, λ r. is_some-has_pid pid s.process.child e, h.2), tt)
  | inr e ↦ rw e (h, tt)
]

after_opening-Consistent :
    (r : Opening × ProcessState) (s : System)
    → Consistent s
    → Kept s.process r.1
    → Consistent (after_opening r s)
after_opening-Consistent (opened o, p) s h k = (k.0, Staged-Quieter s.startup s.process p k.1 h.1)
after_opening-Consistent (not_ready, p) s h k = (k.0, Staged-Quieter s.startup s.process p k.1 h.1)
after_opening-Consistent (no_connection, p) s h k =
    (k.0, Staged-Quieter s.startup s.process p k.1 h.1)

close_guard-Consistent :
    (i now : ℕ) (guard : Option ℕ) (s : System)
    → Consistent s
    → Consistent (close_guard i now guard s)
close_guard-Consistent i now none s h = h
close_guard-Consistent i now (some generation) s h =
    of_Keeps (release generation now) s (release-Keeps generation now) h

pub step-Consistent : (event : Event) (s : System) → Consistent s → Consistent (step event s)
unfolding step
step-Consistent (poll answer) s h =
    of_Keeps (refresh_child_status answer) s (refresh-Keeps answer) h
step-Consistent (request_begins answer now) s h =
    after_opening-Consistent (open_request answer now s.process) s h
      (open_request-Keeps answer now s.process h.0)
step-Consistent (request_ends i now) s h = close_guard-Consistent i now (get_elem? s.guards i) s h
step-Consistent (start_begins project mode answer now) s h =
    when_free_lem Consistent s h _ (λ e. after_check-Consistent project mode answer now s e h.0)
step-Consistent (start_detaches answer) s h =
    when_checked_lem Consistent s h (detach_in answer s)
      (λ project mode e. start_detach-InPlace project mode answer s.process)
step-Consistent (start_spawns spawn now) s h =
    when_detached_lem Consistent s h (λ project mode. after_spawn project mode spawn now s)
      (λ project mode e. after_spawn-Consistent project mode spawn now s e h)
step-Consistent (start_fails text) s h =
    when_started_lem Consistent s h _
      (λ project mode pid generation e. ((start_failed-Keeps text s.process h.0).0, tt))
step-Consistent proxy_connects s h =
    when_started_lem Consistent s h (λ pid generation. proxy_connected pid generation s)
      (λ project mode pid generation e. (
        h.0,
        Staged-Quieter s.startup s.process (proxy_connected pid generation s).process
            (refl, refl, λ r. r) h.1,
      ))
step-Consistent (start_finishes version now) s h =
    when_started_lem Consistent s h
      (λ pid generation. after_finish (start_ready pid version now s.process) s)
      (λ project mode pid generation e. after_finish-Consistent pid version now s h.0)
step-Consistent start_gives_up s h = when_held_lem Consistent s h _ (h.0, tt)
step-Consistent (start_handles text) s h =
    when_free_lem Consistent s h _ (λ e. of_Keeps (after_error text) s (after_error-Keeps text) h)
step-Consistent stops s h =
    when_free_lem Consistent s h _ (λ e. of_Keeps detach_child s detach_child-Keeps h)
step-Consistent (reaps answer unhealthy timeout now) s h = when_free_lem Consistent s h _ (λ e.
    of_Keeps (reap answer unhealthy timeout now) s (reap-Keeps answer unhealthy timeout now) h)
step-Consistent (stream_ends generation reason) s h =
    of_Keeps (event_stream_ended generation reason) s (event_stream_ended-Keeps generation reason) h
step-Consistent (wake_fails text) s h =
    when_free_lem Consistent s h _ (λ e. of_Keeps (fail_phase text) s (fail_phase-Keeps text) h)

run-Consistent : (events : List Event) (s : System) → Consistent s → Consistent (run events s)
unfolding run
run-Consistent [] s h = h
run-Consistent (event ∷ events) s h =
    run-Consistent events (step event s) (step-Consistent event s h)

-- In every state that any interleaving reaches from the manager's start, a phase of `Ready` means
-- that there are a process and a connection, and whatever process there is was spawned with the
-- permission mode and in the project that the state reports, with `--pure` unless unrestricted.
pub run-Linked : (now : ℕ) (events : List Event) → Linked (run events (new_system now)).process
run-Linked now events = (run-Consistent events (new_system now) ((refl, λ e. cc e, tt), tt)).0

expect_connection_total :
    (p : ProcessState) (c : Option Connection)
    → is_some c ≡ true
    → expect_connection p c ≢ no_connection
expect_connection_total p none e = cc e
expect_connection_total p (some c) e = λ h. cc h

-- In every state that any interleaving reaches from the manager's start, and whatever `try_wait` then
-- answers, the `expect("ready connection")` of `request_json` does not fail.
pub open_request-run-no_panic :
    (now : ℕ) (events : List Event) (answer : TryWait) (at : ℕ)
    → (open_request answer at (run events (new_system now)).process).0 ≢ no_connection
unfolding open_request
open_request-run-no_panic now events answer at =
    of_process (refresh_child_status answer p) (refresh-Keeps answer p (run-Linked now events)).0
  where
    p : ProcessState
    p = (run events (new_system now)).process

    of_process : (q : ProcessState) → Linked q → (open_refreshed at q).0 ≢ no_connection
    of_process q k = elim (Bool-cases (is_ready q.phase)) [
      | inl e ↦ rw e (expect_connection_total q q.connection (sym k.0 ∙ k.1 e))
      | inr e ↦ rw e (λ h. cc h)
    ]
