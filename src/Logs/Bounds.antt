-- ===== src/Logs/Bounds.antt =====
-- src/logs.rs: the memory that a decoder holds between two chunks.
use caroba_guard.Prelude.{
  ℕ, ◌+◌, ◌≤◌, inl, inr, List, [], ◌∷◌, ◌++◌, arith, ltb, if◌then◌else◌, Bool-cases, Option-cases,
  length, drop, length-append, length-drop, Bytes,
}
use caroba_guard.Logs.{
  err, max_log_line_bytes, max_docker_buffer_bytes, docker_header, push_byte, scan, scan_of,
  push_text, frame_payload, drain, lift_lines, push_buffered, push_in, push, DockerStreamMode,
  DockerLogDecoder, Scan, buffer_limit, unknown, raw, multiplexed,
}
use caroba_guard.Logs.Rounds.{drain_inv}

-- The buffer and the unfinished line stay within the two limits.
abbrev pub Bounded : DockerLogDecoder → Type 0
Bounded d = (length d.pending ≤ max_docker_buffer_bytes) × (length d.line ≤ max_log_line_bytes)

length-push_byte-le :
    (limit byte : ℕ) (s : Scan)
    → length s.line ≤ limit
    → length (push_byte limit byte s).line ≤ limit
unfolding push_byte
length-push_byte-le limit byte s h = ground (arith, length-append s.line (byte ∷ []))

length-scan-le :
    (limit : ℕ) (bytes : Bytes) (s : Scan)
    → length s.line ≤ limit
    → length (scan limit bytes s).line ≤ limit
unfolding scan
length-scan-le limit [] s h = h
length-scan-le limit (b ∷ bytes) s h =
    length-scan-le limit bytes (push_byte limit b s) (length-push_byte-le limit b s h)

push_text-Bounded :
    (d : DockerLogDecoder) (bytes : Bytes) → Bounded d → Bounded (push_text d bytes).1
unfolding push_text
push_text-Bounded d bytes h = (h.0, length-scan-le max_log_line_bytes bytes (scan_of d) h.1)

drain-Bounded : (fuel : ℕ) (d : DockerLogDecoder) → Bounded d → Bounded (drain fuel d).1
drain-Bounded = drain_inv Bounded (λ d size h.
    push_text-Bounded (record d { pending = drop (8 + size) d.pending })
      (frame_payload size d.pending) (omega (arith, length-drop (8 + size) d.pending), h.1))

lift_lines-Bounded : (r : List Bytes × DockerLogDecoder) → Bounded r.1 → Bounded (lift_lines r).1
lift_lines-Bounded (lines, d) h = h

push_buffered-Bounded :
    (mode : DockerStreamMode) (d : DockerLogDecoder) → Bounded d → Bounded (push_buffered mode d).1
unfolding push_buffered
push_buffered-Bounded unknown d h = elim (Bool-cases (ltb (length d.pending) 8)) [
  | inl s ↦ rw (s, push_buffered) h
  | inr l ↦ elim (Option-cases (docker_header d.pending)) [
    | inl n ↦
        rw (l, n, push_buffered)
          (lift_lines-Bounded (push_text (record d { mode = raw; pending = [] }) d.pending) (
            push_text-Bounded (record d { mode = raw; pending = [] }) d.pending (omega arith, h.1)))
    | inr (size, e) ↦
        rw (l, e, push_buffered)
          (drain-Bounded (length d.pending) (record d { mode = multiplexed }) h)
  ]
]
push_buffered-Bounded raw d h = drain-Bounded (length d.pending) d h
push_buffered-Bounded multiplexed d h = drain-Bounded (length d.pending) d h

buffered-Bounded :
    (mode : DockerStreamMode) (d : DockerLogDecoder) (bytes : Bytes)
    → Bounded d
    → Bounded
        (if ltb max_docker_buffer_bytes (length d.pending + length bytes)
          then (err buffer_limit, d)
          else push_buffered mode (record d { pending = d.pending ++ bytes })).1
buffered-Bounded mode d bytes h =
    elim (Bool-cases (ltb max_docker_buffer_bytes (length d.pending + length bytes))) [
      | inl e ↦ rw e h
      | inr e ↦ rw e (
          push_buffered-Bounded mode (record d { pending = d.pending ++ bytes })
            (ground (arith, length-append d.pending bytes), h.1))
    ]

push-Bounded : (d : DockerLogDecoder) (bytes : Bytes) → Bounded d → Bounded (push d bytes).1
unfolding push
push-Bounded d bytes h = in_mode d.mode
  where
    in_mode : (m : DockerStreamMode) → Bounded (push_in m d bytes).1
    in_mode raw = lift_lines-Bounded (push_text d bytes) (push_text-Bounded d bytes h)
    in_mode multiplexed = buffered-Bounded multiplexed d bytes h
    in_mode unknown = buffered-Bounded unknown d bytes h

-- The decoder after any chunks; an error leaves it where it stands.
pub push_all : DockerLogDecoder → List Bytes → DockerLogDecoder
push_all d [] = d
push_all d (chunk ∷ chunks) = push_all (push d chunk).1 chunks

-- Whatever chunks the daemon sends, and whether or not a chunk is an error, a decoder that starts
-- within the limits holds at most 2 MiB of undecoded bytes and 64 KiB of the unfinished line.
pub push_all-Bounded :
    (chunks : List Bytes) (d : DockerLogDecoder) → Bounded d → Bounded (push_all d chunks)
unfolding push_all
push_all-Bounded [] d h = h
push_all-Bounded (chunk ∷ chunks) d h =
    push_all-Bounded chunks (push d chunk).1 (push-Bounded d chunk h)
