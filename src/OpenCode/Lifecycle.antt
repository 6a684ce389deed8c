-- ===== src/OpenCode/Lifecycle.antt =====
-- src/opencode.rs: the sections of `OpenCode.Process` as they interleave. `start_inner` holds the
-- start lock through its five sections; `stop_inner` and the reaper wait for that lock, and requests,
-- polls and the end of an event stream do not.
use caroba_guard.Prelude.{
  ℕ, zero, suc, String, ◌≡◌, refl, Bool, Option, none, some, List, [], ◌∷◌, get_elem?,
}
use caroba_guard.OpenCode.{AiPermissionMode, read_only}
use caroba_guard.OpenCode.Process.{
  detach_child, refresh_child_status, fail_phase, opened, open_request, release, go_on, start_check,
  start_detach, spawned, start_spawned, start_failed, start_ready, event_stream_ended, reap,
  Connection, ProcessState, TryWait, Opening, Check, sleeping, starting,
}

-- Where the startup that holds the start lock stands, with its local variables.
pub data Startup : Type 0 where
  no_startup : Startup
  checked : String → AiPermissionMode → Startup
  detached : String → AiPermissionMode → Startup
  started : String → AiPermissionMode → ℕ → ℕ → Startup

-- `guards` are the generations of the requests that are open.
pub record System : Type 0 where
  pub process : ProcessState
  pub guards : List ℕ
  pub startup : Startup

pub data Spawn : Type 0 where
  spawned_as : ℕ → Connection → Spawn
  not_spawned : String → Spawn

pub data Event : Type 0 where
  poll : TryWait → Event
  request_begins : TryWait → ℕ → Event
  request_ends : ℕ → ℕ → Event
  start_begins : String → AiPermissionMode → TryWait → ℕ → Event
  start_detaches : TryWait → Event
  start_spawns : Spawn → ℕ → Event
  start_gives_up : Event
  start_handles : String → Event
  start_fails : String → Event
  proxy_connects : Event
  start_finishes : String → ℕ → Event
  stops : Event
  reaps : TryWait → Bool → ℕ → ℕ → Event
  stream_ends : ℕ → String → Event
  wake_fails : String → Event

abbrev pub with_process : ProcessState → System → System
with_process p s = record s { process = p }

abbrev pub startup_over : ProcessState → System → System
startup_over p s = record s { process = p; startup = no_startup }

abbrev pub remove_at : ℕ → List ℕ → List ℕ
remove_at i [] = []
remove_at zero (x ∷ xs) = xs
remove_at (suc i) (x ∷ xs) = x ∷ remove_at i xs

abbrev pub after_opening : Opening × ProcessState → System → System
after_opening (opened o, p) s = record s { process = p; guards = o.generation ∷ s.guards }
after_opening (_, p) s = with_process p s

abbrev pub after_check : String → AiPermissionMode → Check × ProcessState → System → System
after_check project mode (go_on, p) s = record s { process = p; startup = checked project mode }
after_check project mode (_, p) s = with_process p s

abbrev pub after_spawn : String → AiPermissionMode → Spawn → ℕ → System → System
after_spawn project mode (not_spawned text) now s = startup_over (fail_phase text s.process) s
after_spawn project mode (spawned_as pid connection) now s =
    let p = start_spawned (spawned pid project mode) connection now s.process in
    record s { process = p; startup = started project mode pid p.generation }

-- A startup that ends early leaves the lock (`start_gives_up`), and its caller handles the error: `start` so,
-- where the startup has not put it in the state itself (`start_handles`), and `wake` without detaching the
-- process (`wake_fails`). Both hold the lock of the transitions, so that no other startup is under way.
abbrev pub after_error : String → ProcessState → ProcessState
after_error text p = elim p.phase [ starting ↦ start_failed text p | _ ↦ p ]

abbrev pub after_finish : Option ProcessState → System → System
after_finish none s = startup_over s.process s
after_finish (some p) s = startup_over p s

-- Who may run: with the start lock free, and the startup that holds it, by its stage.
abbrev pub when_free : System → Startup → System → System
when_free t no_startup s = t
when_free t _ s = s

abbrev pub when_checked : (String → AiPermissionMode → System) → Startup → System → System
when_checked f (checked project mode) s = f project mode
when_checked f _ s = s

abbrev pub when_detached : (String → AiPermissionMode → System) → Startup → System → System
when_detached f (detached project mode) s = f project mode
when_detached f _ s = s

abbrev pub when_started : (ℕ → ℕ → System) → Startup → System → System
when_started f (started project mode pid generation) s = f pid generation
when_started f _ s = s

abbrev pub when_held : System → Startup → System → System
when_held t no_startup s = s
when_held t _ s = t

abbrev pub close_guard : ℕ → ℕ → Option ℕ → System → System
close_guard i now none s = s
close_guard i now (some generation) s = record s {
  process = release generation now s.process;
  guards = remove_at i s.guards;
}

abbrev pub proxy_connected : ℕ → ℕ → System → System
proxy_connected pid generation s =
    with_process (record (s.process) { event_task = some generation }) s

abbrev pub detach_in : TryWait → System → String → AiPermissionMode → System
detach_in answer s project mode = record s {
  process = start_detach project mode answer s.process;
  startup = detached project mode;
}

unfoldable pub step : Event → System → System
step (poll answer) s = with_process (refresh_child_status answer s.process) s
step (request_begins answer now) s = after_opening (open_request answer now s.process) s
step (request_ends i now) s = close_guard i now (get_elem? s.guards i) s
step (start_begins project mode answer now) s =
    when_free
      (after_check project mode
        (start_check project mode now (refresh_child_status answer s.process)) s)
      s.startup s
step (start_detaches answer) s = when_checked (detach_in answer s) s.startup s
step (start_spawns spawn now) s =
    when_detached (λ project mode. after_spawn project mode spawn now s) s.startup s
step (start_fails text) s =
    when_started (λ pid generation. startup_over (start_failed text s.process) s) s.startup s
step proxy_connects s =
    when_started (λ pid generation. proxy_connected pid generation s) s.startup s
step (start_finishes version now) s =
    when_started (λ pid generation. after_finish (start_ready pid version now s.process) s)
      s.startup s
step start_gives_up s = when_held (startup_over s.process s) s.startup s
step (start_handles text) s = when_free (with_process (after_error text s.process) s) s.startup s
step stops s = when_free (with_process (detach_child s.process) s) s.startup s
step (reaps answer unhealthy timeout now) s =
    when_free (with_process (reap answer unhealthy timeout now s.process) s) s.startup s
step (stream_ends generation reason) s =
    with_process (event_stream_ended generation reason s.process) s
step (wake_fails text) s = when_free (with_process (fail_phase text s.process) s) s.startup s

unfoldable pub run : List Event → System → System
run [] s = s
run (event ∷ events) s = run events (step event s)

-- `OpenCodeManager::new`, at the instant `now`.
abbrev pub new_process : ℕ → ProcessState
new_process now = record {
  phase = sleeping;
  session_id = none;
  event_task = none;
  child = none;
  connection = none;
  project_path = none;
  mode = read_only;
  version = none;
  started_at = none;
  last_active = now;
  active_requests = 0;
  generation = 0;
  error = none;
}

abbrev pub new_system : ℕ → System
new_system now = record { process = new_process now; guards = []; startup = no_startup }

-- To prove a property of a step: of the state as it is, and of what the stage's section makes of it.
module _ {ℓ} (P : System → Type ℓ) (s : System) (h : P s) where
  pub when_free_lem : (t : System) → (s.startup ≡ no_startup → P t) → P (when_free t s.startup s)
  when_free_lem t k = go s.startup refl
    where
      go : (stage : Startup) → s.startup ≡ stage → P (when_free t stage s)
      go no_startup e = k e
      go (checked project mode) e = h
      go (detached project mode) e = h
      go (started project mode pid generation) e = h

  pub when_checked_lem :
      (f : String → AiPermissionMode → System)
      → ((project : String) (mode : AiPermissionMode)
          → s.startup ≡ checked project mode
          → P (f project mode))
      → P (when_checked f s.startup s)
  when_checked_lem f k = go s.startup refl
    where
      go : (stage : Startup) → s.startup ≡ stage → P (when_checked f stage s)
      go no_startup e = h
      go (checked project mode) e = k project mode e
      go (detached project mode) e = h
      go (started project mode pid generation) e = h

  pub when_detached_lem :
      (f : String → AiPermissionMode → System)
      → ((project : String) (mode : AiPermissionMode)
          → s.startup ≡ detached project mode
          → P (f project mode))
      → P (when_detached f s.startup s)
  when_detached_lem f k = go s.startup refl
    where
      go : (stage : Startup) → s.startup ≡ stage → P (when_detached f stage s)
      go no_startup e = h
      go (checked project mode) e = h
      go (detached project mode) e = k project mode e
      go (started project mode pid generation) e = h

  pub when_started_lem :
      (f : ℕ → ℕ → System)
      → ((project : String) (mode : AiPermissionMode) (pid generation : ℕ)
          → s.startup ≡ started project mode pid generation
          → P (f pid generation))
      → P (when_started f s.startup s)
  when_started_lem f k = go s.startup refl
    where
      go : (stage : Startup) → s.startup ≡ stage → P (when_started f stage s)
      go no_startup e = h
      go (checked project mode) e = h
      go (detached project mode) e = h
      go (started project mode pid generation) e = k project mode pid generation e

  pub when_held_lem : (t : System) → P t → P (when_held t s.startup s)
  when_held_lem t k = go s.startup
    where
      go : (stage : Startup) → P (when_held t stage s)
      go no_startup = h
      go (checked project mode) = k
      go (detached project mode) = k
      go (started project mode pid generation) = k
