-- ===== src/Logs/Chunks.antt =====
-- src/logs.rs, `push`: how a stream is cut into chunks does not matter.
use caroba_guard.Prelude.{
  ℕ, ◌+◌, ◌≤◌, ◌≡◌, refl, sym, ap, ◌∙◌, inl, inr, true, false, none, some, [], ◌++◌, append_assoc,
  arith, ltb, Bool-cases, Option-cases, length, length-append, Bytes,
}
use caroba_guard.Logs.{
  ok, err, max_docker_buffer_bytes, docker_header, push_text, Drained, with_lines, drain,
  lift_lines, push_buffered, push_in, push, DockerStreamMode, DockerLogDecoder, unknown, raw,
  multiplexed,
}
use caroba_guard.Logs.Rounds.{mode-drain, pending-drain-le}
use caroba_guard.Logs.Lines.{push_text-append}
use caroba_guard.Logs.Fuel.{
  then_push, add_pending, settle, then_drain, with_lines-nil, header-append, drain-add_pending,
  room,
}

in_mode :
    (m : DockerStreamMode) (d : DockerLogDecoder) (b : Bytes)
    → d.mode ≡ m
    → push d b ≡ push_in m d b
unfolding push
in_mode m d b e = ap (λ (x : DockerStreamMode). push_in x d b) e

push_multiplexed :
    (d : DockerLogDecoder) (b : Bytes)
    → d.mode ≡ multiplexed
    → length d.pending + length b ≤ max_docker_buffer_bytes
    → push d b ≡ drain (length (d.pending ++ b)) (add_pending b d)
unfolding push_buffered
push_multiplexed d b e fits =
    in_mode multiplexed d b e ∙ rw (room (length d.pending + length b) fits)

then_drain-push :
    (r : Drained) (b : Bytes)
    → r.1.mode ≡ multiplexed
    → length r.1.pending + length b ≤ max_docker_buffer_bytes
    → then_drain r b ≡ then_push r b
then_drain-push (ok lines, d) b e fits = ap (with_lines lines) (sym (push_multiplexed d b e fits))
then_drain-push (err x, d) b e fits = refl

-- Two chunks on a decoder that has seen a header.
drain-then_push :
    (d : DockerLogDecoder) (a b : Bytes)
    → d.mode ≡ multiplexed
    → length d.pending + length a + length b ≤ max_docker_buffer_bytes
    → settle (drain (length (d.pending ++ (a ++ b))) (add_pending (a ++ b) d))
      ≡ settle (then_push (drain (length (d.pending ++ a)) (add_pending a d)) b)
drain-then_push d a b e fits =
    let first : Drained = drain (length (d.pending ++ a)) (add_pending a d) in
    rw (sym (append_assoc d.pending a b)) (
      drain-add_pending b (length (d.pending ++ a)) (length ((d.pending ++ a) ++ b))
        (add_pending a d) (omega arith) (omega arith))
    ∙ ap settle (
        then_drain-push first b (mode-drain (length (d.pending ++ a)) (add_pending a d) ∙ e) (
          omega (
            arith,
            pending-drain-le (length (d.pending ++ a)) (add_pending a d),
            length-append d.pending a,
          )))

push_text-then_push :
    (d : DockerLogDecoder) (a b : Bytes)
    → d.mode ≡ raw
    → lift_lines (push_text d (a ++ b)) ≡ then_push (lift_lines (push_text d a)) b
unfolding push_text
push_text-then_push d a b e =
    ap lift_lines (push_text-append d a b)
    ∙ ap (with_lines (push_text d a).0) (sym (in_mode raw (push_text d a).1 b e))

module _ (d : DockerLogDecoder) where
  still_unknown : ltb (length d.pending) 8 ≡ true → push_buffered unknown d ≡ (ok [], d)
  unfolding push_buffered
  still_unknown s = rw (s, push_buffered)

  found_raw :
      ltb (length d.pending) 8 ≡ false
      → docker_header d.pending ≡ none
      → push_buffered unknown d
        ≡ lift_lines (push_text (record d { mode = raw; pending = [] }) d.pending)
  unfolding push_buffered
  found_raw l n = rw (l, n, push_buffered)

  found_multiplexed :
      (size : ℕ)
      → ltb (length d.pending) 8 ≡ false
      → docker_header d.pending ≡ some size
      → push_buffered unknown d ≡ drain (length d.pending) (record d { mode = multiplexed })
  unfolding push_buffered
  found_multiplexed size l h = rw (l, h, push_buffered)

-- The first chunks, until eight bytes are there and show whether the stream has headers.
module _ (d : DockerLogDecoder) (a b : Bytes) where
  together : add_pending (a ++ b) d ≡ add_pending b (add_pending a d)
  together = ap (λ (p : Bytes). record d { pending = p }) (sym (append_assoc d.pending a b))

  header_together :
      ltb (length (d.pending ++ a)) 8 ≡ false
      → docker_header (d.pending ++ (a ++ b)) ≡ docker_header (d.pending ++ a)
  header_together l =
      ap docker_header (sym (append_assoc d.pending a b)) ∙ header-append b (add_pending a d) l

  long_together :
      ltb (length (d.pending ++ a)) 8 ≡ false → ltb (length (d.pending ++ (a ++ b))) 8 ≡ false
  long_together l =
      ground (arith, length-append d.pending a, length-append d.pending (a ++ b), length-append a b)

  push_buffered-append :
      d.mode ≡ unknown
      → length d.pending + length a + length b ≤ max_docker_buffer_bytes
      → settle (push_buffered unknown (add_pending (a ++ b) d))
        ≡ settle (then_push (push_buffered unknown (add_pending a d)) b)
  push_buffered-append e fits = elim (Bool-cases (ltb (length (d.pending ++ a)) 8)) [
    | inl s ↦
        ap settle (
          ap (push_buffered unknown) together
          ∙ sym (
              with_lines-nil (push (add_pending a d) b)
              ∙ in_mode unknown (add_pending a d) b e
              ∙ rw (
                  room (length (d.pending ++ a) + length b)
                    (omega (arith, length-append d.pending a)))))
        ∙ ap (λ (r : Drained). settle (then_push r b)) (sym (still_unknown (add_pending a d) s))
    | inr l ↦ elim (Option-cases (docker_header (d.pending ++ a))) [
      | inl n ↦
          ap settle (
            found_raw (add_pending (a ++ b) d) (long_together l) (header_together l ∙ n)
            ∙ rw (sym (append_assoc d.pending a b)) (
                push_text-then_push (record d { mode = raw; pending = [] }) (d.pending ++ a) b
                  refl))
          ∙ ap (λ (r : Drained). settle (then_push r b)) (sym (found_raw (add_pending a d) l n))
      | inr (size, h) ↦
          ap settle (
            found_multiplexed (add_pending (a ++ b) d) size (long_together l)
              (header_together l ∙ h))
          ∙ drain-then_push (record d { mode = multiplexed }) a b refl fits
          ∙ ap (λ (r : Drained). settle (then_push r b))
              (sym (found_multiplexed (add_pending a d) size l h))
    ]
  ]

push_in-append :
    (m : DockerStreamMode) (d : DockerLogDecoder) (a b : Bytes)
    → d.mode ≡ m
    → length d.pending + length a + length b ≤ max_docker_buffer_bytes
    → settle (push_in m d (a ++ b)) ≡ settle (then_push (push_in m d a) b)
unfolding push_buffered
push_in-append raw d a b e fits = ap settle (push_text-then_push d a b e)
push_in-append multiplexed d a b e fits =
    rw
      (
        room (length d.pending + length (a ++ b)) (omega (arith, length-append a b)),
        room (length d.pending + length a) (omega arith),
      )
      (drain-then_push d a b e fits)
push_in-append unknown d a b e fits =
    rw
      (
        room (length d.pending + length (a ++ b)) (omega (arith, length-append a b)),
        room (length d.pending + length a) (omega arith),
      )
      (push_buffered-append d a b e fits)

-- A stream cut in two anywhere gives the lines, the error or the decoder that it gives whole, while
-- its undecoded bytes stay within the buffer.
pub push-append :
    (d : DockerLogDecoder) (a b : Bytes)
    → length d.pending + length a + length b ≤ max_docker_buffer_bytes
    → settle (push d (a ++ b)) ≡ settle (then_push (push d a) b)
unfolding push
push-append d a b fits = push_in-append d.mode d a b refl fits
