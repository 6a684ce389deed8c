-- ===== src/Logs/Tests.antt =====
-- Runs of src/logs.rs at concrete inputs, its unit tests among them.
use caroba_guard.Prelude.{◌≡◌, refl, List, [], ◌∷◌, ◌++◌, map, arith, Bytes, codes, from_utf8_lossy}
use caroba_guard.Logs.{
  ok, err, default, max_log_line_bytes, docker_header, pop_cr, push_byte, scan, push_text, Drained,
  drain, push_buffered, push, finish, error_message, stream, DockerLogDecoder, invalid_header,
  frame_limit, incomplete_frame, multiplexed, line_message,
}
use caroba_guard.Logs.Lines.{render, at_line_start}
use caroba_guard.Logs.Frames.{encode, encode_all, push-encode_all, Frame}
use caroba_guard.Logs.Cuts.{SentAlike, stream-append}
use caroba_guard.Logs.Bounds.{Bounded, push_all, push_all-Bounded}

runs : Unit {0}
unfolding push push_buffered push_text scan push_byte pop_cr drain docker_header finish
    from_utf8_lossy
runs = tt

abbrev head_bytes : Bytes
head_bytes = 1 ∷ 0 ∷ 0 ∷ []

abbrev size_bytes : Bytes
size_bytes = 0 ∷ 0 ∷ 0 ∷ 0 ∷ 6 ∷ codes "h"

abbrev hello_chunks : List Bytes
hello_chunks = head_bytes ∷ size_bytes ∷ []

abbrev after_two : DockerLogDecoder
after_two = (push (push default head_bytes).1 size_bytes).1

-- `decodes_split_multiplexed_docker_frames`
split_frames : (push after_two (codes "ello\n")).0 ≡ ok (codes "hello" ∷ [])
unfolding runs
split_frames = refl

-- `decodes_raw_docker_logs_and_flushes_partial_line`
abbrev raw_logs : Drained
raw_logs = push default (codes "first\nsecond")

raw_lines : raw_logs.0 ≡ ok (codes "first" ∷ [])
unfolding runs
raw_lines = refl

raw_flush : (finish raw_logs.1).0 ≡ ok (codes "second" ∷ [])
unfolding runs
raw_flush = refl

-- `rejects_oversized_docker_frames_before_allocating_payload`
oversized : (push default (1 ∷ 0 ∷ 0 ∷ 0 ∷ 0 ∷ 16 ∷ 0 ∷ 1 ∷ [])).0 ≡ err frame_limit
unfolding runs
oversized = refl

-- `rejects_incomplete_multiplexed_frame_at_eof`
incomplete :
    (finish (push default (1 ∷ 0 ∷ 0 ∷ 0 ∷ 0 ∷ 0 ∷ 0 ∷ 8 ∷ codes "x")).1).0 ≡ err incomplete_frame
unfolding runs
incomplete = refl

abbrev out_frame : Frame
out_frame = record { kind = 1; payload = codes "ab" }

abbrev err_frame : Frame
err_frame = record { kind = 2; payload = codes "c\nd\n" }

push-encode_all_example : push default (encode_all (out_frame ∷ err_frame ∷ [])) ≡ (
  ok (map (render max_log_line_bytes) (codes "abc" ∷ codes "d" ∷ [])),
  at_line_start multiplexed [],
)
push-encode_all_example =
    push-encode_all out_frame (err_frame ∷ []) (codes "abc" ∷ codes "d" ∷ []) (ground arith)
      (ground arith) (ground arith) refl

stream-append_example :
    SentAlike
      (push default head_bytes).0
      (stream ((head_bytes ++ size_bytes) ∷ hello_chunks) default)
      (stream (head_bytes ∷ size_bytes ∷ hello_chunks) default)
stream-append_example = stream-append default head_bytes size_bytes hello_chunks (omega arith)

abbrev one_frame : Bytes
one_frame = encode (record { kind = 1; payload = codes "ab\n" })

-- A line before a header that is none is sent only if it came in an earlier chunk.
line_is_lost :
    ((stream ((one_frame ++ codes "nonsense") ∷ []) default).0 ≡ error_message invalid_header ∷ [])
    × ((stream (one_frame ∷ codes "nonsense" ∷ []) default).0
        ≡ line_message (codes "ab") ∷ error_message invalid_header ∷ [])
unfolding runs stream
line_is_lost = (refl, refl)

push_all-Bounded_example : Bounded (push_all default hello_chunks)
push_all-Bounded_example = push_all-Bounded hello_chunks default (omega arith, omega arith)
