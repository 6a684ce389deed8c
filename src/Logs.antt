-- ===== src/Logs.antt =====
-- src/logs.rs: the decoder that turns chunks of a Docker log stream into lines, and the bounded
-- log streams. A chunk is a list of bytes; `anyhow` errors are the constructors of `LogError`.
pub mod Lines
pub mod Rounds
pub mod Frames
pub mod Fuel
pub mod Chunks
pub mod Cuts
pub mod Bounds
pub mod Ends
mod Tests
use caroba_guard.Prelude.{
  ℕ, zero, suc, ◌+◌, ◌*◌, Bool, true, false, ◌&&◌, Option, none, some, List, [], ◌∷◌, ◌++◌, map,
  ltb, leb, ◌==◌, if◌then◌else◌, length, take, drop, Bytes, codes, from_utf8_lossy,
}

pub data LogError : Type 0 where
  buffer_limit invalid_header frame_limit incomplete_frame : LogError

pub data LogResult {ℓ} (A : Type ℓ) : Type ℓ where
  ok : A → LogResult A
  err : LogError → LogResult A

pub data DockerStreamMode : Type 0 where
  unknown raw multiplexed : DockerStreamMode

pub record DockerLogDecoder : Type 0 where
  pub mode : DockerStreamMode
  pub pending : Bytes
  pub line : Bytes
  pub line_truncated : Bool

abbrev pub default : DockerLogDecoder
default = record { mode = unknown; pending = []; line = []; line_truncated = false }

abbrev pub max_log_line_bytes : ℕ
max_log_line_bytes = 65536

abbrev pub max_docker_frame_bytes : ℕ
max_docker_frame_bytes = 1048576

abbrev pub max_docker_buffer_bytes : ℕ
max_docker_buffer_bytes = 2097152

-- `u32::from_be_bytes`
abbrev pub from_be_bytes : ℕ → ℕ → ℕ → ℕ → ℕ
from_be_bytes a b c d = ((a * 256 + b) * 256 + c) * 256 + d

pub docker_header : Bytes → Option ℕ
docker_header (kind ∷ x ∷ y ∷ z ∷ a ∷ b ∷ c ∷ d ∷ rest) =
    if leb kind 2 && x == 0 && y == 0 && z == 0 then some (from_be_bytes a b c d) else none
docker_header _ = none

-- The line without the `\r` at its end.
pub pop_cr : Bytes → Bytes
pop_cr [] = []
pop_cr (b ∷ []) = if b == b'\r' then [] else b ∷ []
pop_cr (b ∷ c ∷ bs) = b ∷ pop_cr (c ∷ bs)

-- " … [truncated]"
abbrev pub truncation_mark : Bytes
truncation_mark = 32 ∷ 0xE2 ∷ 0x80 ∷ 0xA6 ∷ codes " [truncated]"

abbrev pub mark_truncated : Bool → Bytes → Bytes
mark_truncated truncated line = if truncated then line ++ truncation_mark else line

-- The lines that are complete so far, oldest last, beside the unfinished one.
pub record Scan : Type 0 where
  pub line : Bytes
  pub line_truncated : Bool
  pub output : List Bytes

-- The loop of `push_text` and its body; `limit` is `MAX_LOG_LINE_BYTES`.
pub push_byte : ℕ → ℕ → Scan → Scan
unfolding pop_cr
push_byte limit byte s =
    if byte == b'\n'
    then record {
      line = [];
      line_truncated = false;
      output = s.output ++ mark_truncated s.line_truncated (from_utf8_lossy (pop_cr s.line)) ∷ [];
    }
    else if ltb (length s.line) limit
    then record s { line = s.line ++ byte ∷ [] }
    else record s { line_truncated = true }

pub scan : ℕ → Bytes → Scan → Scan
scan limit [] s = s
scan limit (byte ∷ bytes) s = scan limit bytes (push_byte limit byte s)

abbrev pub scan_of : DockerLogDecoder → Scan
scan_of d = record { line = d.line; line_truncated = d.line_truncated; output = [] }

abbrev pub lines_of : DockerLogDecoder → Scan → List Bytes × DockerLogDecoder
lines_of d s = (s.output, record d { line = s.line; line_truncated = s.line_truncated })

pub push_text : DockerLogDecoder → Bytes → List Bytes × DockerLogDecoder
push_text d bytes = lines_of d (scan max_log_line_bytes bytes (scan_of d))

-- The loop over the frames of `pending`. A round takes at least the eight bytes of a header, so
-- that `length pending` rounds are enough.
abbrev pub Drained : Type 0
Drained = LogResult (List Bytes) × DockerLogDecoder

abbrev pub with_lines : List Bytes → Drained → Drained
with_lines lines (ok more, d) = (ok (lines ++ more), d)
with_lines lines (err e, d) = (err e, d)

abbrev pub frame_payload : ℕ → Bytes → Bytes
frame_payload size pending = take size (drop 8 pending)

pub drain : ℕ → DockerLogDecoder → Drained
drain zero d = (ok [], d)
drain (suc fuel) d = elim (ltb (length d.pending) 8) [
  | true ↦ (ok [], d)
  | false ↦ elim (docker_header d.pending) [
    | none ↦ (err invalid_header, d)
    | some size ↦ elim (leb size max_docker_frame_bytes) [
      | false ↦ (err frame_limit, d)
      | true ↦ elim (ltb (length d.pending) (8 + size)) [
        | true ↦ (ok [], d)
        | false ↦
            let r =
              push_text (record d { pending = drop (8 + size) d.pending })
                (frame_payload size d.pending) in
            with_lines r.0 (drain fuel r.1)
      ]
    ]
  ]
]

abbrev pub lift_lines : List Bytes × DockerLogDecoder → Drained
lift_lines (lines, d) = (ok lines, d)

-- `push` behind its buffer check, by the mode.
pub push_buffered : DockerStreamMode → DockerLogDecoder → Drained
push_buffered unknown d =
    if ltb (length d.pending) 8 then (ok [], d) else elim (docker_header d.pending) [
      | some size ↦ drain (length d.pending) (record d { mode = multiplexed })
      | none ↦ lift_lines (push_text (record d { mode = raw; pending = [] }) d.pending)
    ]
push_buffered _ d = drain (length d.pending) d

abbrev pub push_in : DockerStreamMode → DockerLogDecoder → Bytes → Drained
push_in raw d bytes = lift_lines (push_text d bytes)
push_in mode d bytes =
    if ltb max_docker_buffer_bytes (length d.pending + length bytes)
    then (err buffer_limit, d)
    else push_buffered mode (record d { pending = d.pending ++ bytes })

pub push : DockerLogDecoder → Bytes → Drained
unfolding push_buffered
push d bytes = push_in d.mode d bytes

-- `finish` on a decoder whose bytes are all scanned.
abbrev finish_line : DockerLogDecoder → Drained
finish_line d = elim d.line [
  | [] ↦
      if d.line_truncated
      then (
        ok (mark_truncated true (from_utf8_lossy []) ∷ []),
        record d { line = []; line_truncated = false },
      )
      else (ok [], d)
  | b ∷ bs ↦ (
    ok (mark_truncated d.line_truncated (from_utf8_lossy (b ∷ bs)) ∷ []),
    record d { line = []; line_truncated = false },
  )
]

-- The recursive call of `finish` meets a decoder in raw mode with nothing pending.
finish_in : DockerStreamMode → Bytes → DockerLogDecoder → Drained
finish_in unknown (b ∷ bs) d =
    let r = push_text (record d { mode = raw; pending = [] }) (b ∷ bs) in
    with_lines r.0 (finish_line r.1)
finish_in multiplexed (b ∷ bs) d = (err incomplete_frame, d)
finish_in _ _ d = finish_line d

pub finish : DockerLogDecoder → Drained
unfolding finish_in
finish d = finish_in d.mode d.pending d

pub data LogMessage : Type 0 where
  line_message status_message : Bytes → LogMessage
  error_message : LogError → LogMessage

-- The loop of `docker_stream` over the data that arrives, with a receiver that stays: what is sent, and the decoder, unless an error has
-- ended the loop.
abbrev pub Sent : Type 0
Sent = List LogMessage × Option DockerLogDecoder

abbrev pub after_push : Drained → (DockerLogDecoder → Sent) → Sent
after_push (ok lines, d) rest = let r = rest d in (map line_message lines ++ r.0, r.1)
after_push (err e, d) rest = (error_message e ∷ [], none)

unfoldable pub stream : List Bytes → DockerLogDecoder → Sent
unfolding push
stream [] d = ([], some d)
stream (bytes ∷ chunks) d = after_push (push d bytes) (stream chunks)

-- What `finish` sends at the end of the body.
abbrev pub sent_at_end : Drained → List LogMessage
sent_at_end (ok lines, d) =
    map line_message lines ++ status_message (codes "Docker log stream ended") ∷ []
sent_at_end (err e, d) = error_message e ∷ []

abbrev pub with_end : Sent → List LogMessage
with_end (messages, none) = messages
with_end (messages, some d) = messages ++ sent_at_end (finish d)

-- All that is sent for a body that ends without a failure of its own.
unfoldable pub docker_stream : List Bytes → List LogMessage
unfolding stream finish
docker_stream chunks = with_end (stream chunks default)
