-- ===== src/Logs/Fuel.antt =====
-- src/logs.rs, the loop of `push` over a text that goes on: how many rounds it needs.
use caroba_guard.Prelude.{
  ℕ, zero, suc, ◌+◌, ◌≤◌, ◌≡◌, refl, sym, ap, ◌∙◌, false, List, [], ◌∷◌, ◌++◌, append_assoc, arith,
  ltb, length, drop, length-append, length-drop, take-append_le, drop-append_le, Bytes,
}
use caroba_guard.Logs.{
  ok, err, default, max_docker_buffer_bytes, docker_header, push_text, Drained, with_lines,
  frame_payload, drain, push, LogError, LogResult, DockerLogDecoder, invalid_header, frame_limit,
}
use caroba_guard.Logs.Rounds.{
  drain_step, short, invalid, large, partial, whole, Round-of, drain-stop,
}

-- Two chunks, where an error drops the lines before it as one call of `push` does: only for proofs.
abbrev pub then_push : Drained → Bytes → Drained
then_push (ok lines, d) more = with_lines lines (push d more)
then_push (err e, d) more = (err e, d)

-- The first eight bytes decide the header.
pub docker_header-append :
    (p more : Bytes) → 8 ≤ length p → docker_header (p ++ more) ≡ docker_header p
unfolding docker_header
docker_header-append (a ∷ b ∷ c ∷ d ∷ e ∷ f ∷ g ∷ h ∷ p) more le = refl
docker_header-append [] more le = absurd (omega arith)
docker_header-append (a ∷ []) more le = absurd (omega arith)
docker_header-append (a ∷ b ∷ []) more le = absurd (omega arith)
docker_header-append (a ∷ b ∷ c ∷ []) more le = absurd (omega arith)
docker_header-append (a ∷ b ∷ c ∷ d ∷ []) more le = absurd (omega arith)
docker_header-append (a ∷ b ∷ c ∷ d ∷ e ∷ []) more le = absurd (omega arith)
docker_header-append (a ∷ b ∷ c ∷ d ∷ e ∷ f ∷ []) more le = absurd (omega arith)
docker_header-append (a ∷ b ∷ c ∷ d ∷ e ∷ f ∷ g ∷ []) more le = absurd (omega arith)

abbrev pub add_pending : Bytes → DockerLogDecoder → DockerLogDecoder
add_pending more d = record d { pending = d.pending ++ more }

-- Fuel beyond the length of the bytes is never used.
drain_fuel :
    (fuel more : ℕ) (d : DockerLogDecoder)
    → length d.pending ≤ fuel
    → fuel ≤ more
    → drain more d ≡ drain fuel d
unfolding drain push_text
drain_fuel zero more d le up = drain-stop more d (ground arith)
drain_fuel (suc fuel) zero d le up = absurd (omega arith)
drain_fuel (suc fuel) (suc more) d le up = elim (Round-of d) [
  | short s ↦ rw (s, drain)
  | invalid l n ↦ rw (l, n, drain)
  | large size l h b ↦ rw (l, h, b, drain)
  | partial size l h f p ↦ rw (l, h, f, p, drain)
  | whole size l h f w ↦
      drain_step more d size l h f w
      ∙ ap
          (with_lines
            (push_text (record d { pending = drop (8 + size) d.pending })
              (frame_payload size d.pending)).0)
          (drain_fuel fuel more
            (push_text (record d { pending = drop (8 + size) d.pending })
              (frame_payload size d.pending)).1
            (ground (arith, length-drop (8 + size) d.pending)) (omega arith))
      ∙ sym (drain_step fuel d size l h f w)
]

-- After an error the stream ends, and the decoder with it.
abbrev pub settle : Drained → Drained
settle (ok lines, d) = (ok lines, d)
settle (err e, d) = (err e, default)

abbrev pub then_drain : Drained → Bytes → Drained
then_drain (ok lines, d) more =
    with_lines lines (drain (length (d.pending ++ more)) (add_pending more d))
then_drain (err e, d) more = (err e, d)

pub with_lines-nil : (r : Drained) → with_lines [] r ≡ r
with_lines-nil (ok lines, d) = refl
with_lines-nil (err e, d) = refl

with_lines_twice :
    (a b : List Bytes) (r : Drained) → with_lines a (with_lines b r) ≡ with_lines (a ++ b) r
with_lines_twice a b (ok lines, d) =
    ap (λ (l : List Bytes). (LogResult.ok l, d)) (sym (append_assoc a b lines))
with_lines_twice a b (err e, d) = refl

settle-with_lines :
    (l : List Bytes) (r : Drained) → settle (with_lines l r) ≡ with_lines l (settle r)
settle-with_lines l (ok lines, d) = refl
settle-with_lines l (err e, d) = refl

then_drain-with_lines :
    (l : List Bytes) (r : Drained) (more : Bytes)
    → then_drain (with_lines l r) more ≡ with_lines l (then_drain r more)
then_drain-with_lines l (ok lines, d) more =
    sym (with_lines_twice l lines (drain (length (d.pending ++ more)) (add_pending more d)))
then_drain-with_lines l (err e, d) more = refl

module _ (more : Bytes) where
  long-append :
      (d : DockerLogDecoder) (n : ℕ)
      → ltb (length d.pending) n ≡ false
      → ltb (length (d.pending ++ more)) n ≡ false
  long-append d n h = ground (arith, length-append d.pending more)

  pub header-append :
      (d : DockerLogDecoder)
      → ltb (length d.pending) 8 ≡ false
      → docker_header (d.pending ++ more) ≡ docker_header d.pending
  header-append d h = docker_header-append d.pending more (ground arith)

  waiting :
      (big : ℕ) (d : DockerLogDecoder) (r : Drained)
      → r ≡ (ok [], d)
      → length (d.pending ++ more) ≤ big
      → settle (drain big (add_pending more d)) ≡ settle (then_drain r more)
  waiting big d r e up =
      rw (e, with_lines-nil (drain (length (d.pending ++ more)) (add_pending more d)))
        (ap settle
          (drain_fuel (length (d.pending ++ more)) big (add_pending more d) (omega arith) up))

  failing :
      (d : DockerLogDecoder) (e : LogError) (l r : Drained)
      → l ≡ (err e, add_pending more d)
      → r ≡ (err e, d)
      → settle l ≡ settle (then_drain r more)
  failing d e l r p q = rw (p, q)

  -- Bytes that come later do not change what the bytes so far give.
  pub drain-add_pending :
      (fuel big : ℕ) (d : DockerLogDecoder)
      → length d.pending ≤ fuel
      → length (d.pending ++ more) ≤ big
      → settle (drain big (add_pending more d)) ≡ settle (then_drain (drain fuel d) more)
  unfolding drain push_text
  drain-add_pending zero big d le up = waiting big d (drain zero d) refl up
  drain-add_pending (suc fuel) zero d le up =
      waiting zero d (drain (suc fuel) d)
        (drain-stop (suc fuel) d (ground (arith, length-append d.pending more))) up
  drain-add_pending (suc fuel) (suc big) d le up = elim (Round-of d) [
    | short s ↦ waiting (suc big) d (drain (suc fuel) d) (rw (s, drain)) up
    | invalid l n ↦
        failing d invalid_header (drain (suc big) (add_pending more d)) (drain (suc fuel) d)
          (rw (long-append d 8 l, header-append d l, n, drain)) (rw (l, n, drain))
    | large size l h b ↦
        failing d frame_limit (drain (suc big) (add_pending more d)) (drain (suc fuel) d)
          (rw (long-append d 8 l, header-append d l, h, b, drain)) (rw (l, h, b, drain))
    | partial size l h f p ↦ waiting (suc big) d (drain (suc fuel) d) (rw (l, h, f, p, drain)) up
    | whole size l h f w ↦
        let le8 : 8 + size ≤ length d.pending = ground arith in
        let next : DockerLogDecoder = record d { pending = drop (8 + size) d.pending } in
        let payload : Bytes = frame_payload size d.pending in
        let taken : Drained = drain big (add_pending more (push_text next payload).1) in
        let step : drain (suc big) (add_pending more d)
            ≡ with_lines (push_text next payload).0 taken =
          drain_step big (add_pending more d) size (long-append d 8 l) (header-append d l ∙ h) f
            (long-append d (8 + size) w)
          ∙ rw (
            drop-append_le (8 + size) d.pending more le8,
            drop-append_le 8 d.pending more (omega arith),
            take-append_le size (drop 8 d.pending) more (omega (arith, length-drop 8 d.pending)),
          ) in
        ap settle step
        ∙ settle-with_lines (push_text next payload).0 taken
        ∙ ap (with_lines (push_text next payload).0) (
            drain-add_pending fuel big (push_text next payload).1
              (omega (arith, length-drop (8 + size) d.pending))
              (omega (
                arith,
                length-append d.pending more,
                length-append (drop (8 + size) d.pending) more,
                length-drop (8 + size) d.pending,
              )))
        ∙ sym (
            settle-with_lines (push_text next payload).0
              (then_drain (drain fuel (push_text next payload).1) more))
        ∙ ap settle (
            sym (
              then_drain-with_lines (push_text next payload).0
                (drain fuel (push_text next payload).1) more))
        ∙ ap (λ (r : Drained). settle (then_drain r more)) (sym (drain_step fuel d size l h f w))
  ]

pub room : (n : ℕ) → n ≤ max_docker_buffer_bytes → ltb max_docker_buffer_bytes n ≡ false
room n h = ground arith
