-- ===== src/Terminal/Pty.antt =====
-- src/terminal.rs: the pseudo-terminal's two workers, the end of its child, and what it is started with.
-- The file system is a parameter. A process identifier is positive.
use caroba_guard.Prelude.{
  ℕ, Bool, true, false, not, ◌&&◌, Option, none, some, List, [], ◌∷◌, ltb, ◌==◌, if◌then◌else◌,
  unwrap_or, or_else, first, Bytes, codes,
}
use caroba_guard.Terminal.Session.{bytes, pty_failed, PtyOutput}

-- One answer of `read`, and whether the receiver of the queue is still there.
pub data ReadResult : Type 0 where
  read : Bytes → ReadResult
  interrupted eio read_failed : ReadResult

-- What reaches the queue, in order; the text of an error is left out.
unfoldable pub read_pty : List (ReadResult × Bool) → List PtyOutput
read_pty [] = []
read_pty ((read [], there) ∷ rest) = []
read_pty ((read (b ∷ bs), there) ∷ rest) =
    let later = read_pty rest in if there then bytes (b ∷ bs) ∷ later else []
read_pty ((interrupted, there) ∷ rest) = read_pty rest
read_pty ((eio, there) ∷ rest) = []
read_pty ((read_failed, there) ∷ rest) = if there then pty_failed ∷ [] else []

-- The chunks that are written, with whether an error ended the worker.
unfoldable pub write_pty : List (Bytes × Bool) → List Bytes × Bool
write_pty [] = ([], false)
write_pty ((chunk, works) ∷ rest) =
    let later = write_pty rest in if works then (chunk ∷ later.0, later.1) else ([], true)

pub data Signal : Type 0 where
  hang_up : ℕ → Signal
  kill_child : Signal

abbrev pub may_signal : ℕ → ℕ → Bool
may_signal own_group group = ltb 1 group && not (group == own_group)

-- What `cleanup_child` sends before it waits: to the leader's group, then to the child.
unfoldable pub cleanup_signals : Option ℕ → ℕ → Bool → List Signal
cleanup_signals leader own_group false = []
cleanup_signals none own_group true = kill_child ∷ []
cleanup_signals (some group) own_group true =
    if may_signal own_group group then hang_up group ∷ kill_child ∷ [] else kill_child ∷ []

abbrev pub is_absolute : Bytes → Bool
is_absolute [] = false
is_absolute (b ∷ bs) = b == b'/'

abbrev pub filter_option {ℓ} : {A : Type ℓ} → (A → Bool) → Option A → Option A
filter_option p none = none
filter_option p (some a) = if p a then some a else none

unfoldable pub resolve_shell : (Bytes → Bool) → Option Bytes → Bytes
resolve_shell is_executable shell =
    unwrap_or
      (or_else (filter_option (λ path. is_absolute path && is_executable path) shell)
        (first is_executable (codes "/bin/bash" ∷ codes "/usr/bin/bash" ∷ codes "/bin/sh" ∷ [])))
      (codes "/bin/sh")

pub resolve_working_directory : (Bytes → Bool) → Option Bytes → Bytes
resolve_working_directory is_dir home =
    unwrap_or (filter_option (λ path. is_absolute path && is_dir path) home) (codes "/")
