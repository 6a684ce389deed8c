-- ===== src/Logs/Rounds.antt =====
-- src/logs.rs, the loop of `push` over the frames, round by round.
use caroba_guard.Prelude.{
  ℕ, zero, suc, ◌+◌, ◌≤◌, ◌≡◌, refl, sym, ap, subst, ◌∙◌, inl, inr, true, false, none, some, List,
  [], arith, ltb, leb, Bool-cases, Option-cases, length, drop, length-drop, Bytes,
}
use caroba_guard.Logs.{
  ok, err, max_docker_frame_bytes, docker_header, push_text, Drained, with_lines, frame_payload,
  drain, DockerLogDecoder,
}

-- A round of the loop that takes a frame.
pub drain_step :
    (fuel : ℕ) (d : DockerLogDecoder) (size : ℕ)
    → ltb (length d.pending) 8 ≡ false
    → docker_header d.pending ≡ some size
    → leb size max_docker_frame_bytes ≡ true
    → ltb (length d.pending) (8 + size) ≡ false
    → let r =
        push_text
          (record d { pending = drop (8 + size) d.pending })
          (frame_payload size d.pending) in
      drain (suc fuel) d ≡ with_lines r.0 (drain fuel r.1)
unfolding drain
drain_step fuel d size long header small whole = rw (long, header, small, whole, drain)

-- The ways a round of the loop ends.
pub data Round (d : DockerLogDecoder) : Type 0 where
  short : ltb (length d.pending) 8 ≡ true → Round d
  invalid : ltb (length d.pending) 8 ≡ false → docker_header d.pending ≡ none → Round d
  large :
      (size : ℕ)
      → ltb (length d.pending) 8 ≡ false
      → docker_header d.pending ≡ some size
      → leb size max_docker_frame_bytes ≡ false
      → Round d
  partial :
      (size : ℕ)
      → ltb (length d.pending) 8 ≡ false
      → docker_header d.pending ≡ some size
      → leb size max_docker_frame_bytes ≡ true
      → ltb (length d.pending) (8 + size) ≡ true
      → Round d
  whole :
      (size : ℕ)
      → ltb (length d.pending) 8 ≡ false
      → docker_header d.pending ≡ some size
      → leb size max_docker_frame_bytes ≡ true
      → ltb (length d.pending) (8 + size) ≡ false
      → Round d

pub Round-of : (d : DockerLogDecoder) → Round d
Round-of d = elim (Bool-cases (ltb (length d.pending) 8)) [
  | inl s ↦ short s
  | inr l ↦ elim (Option-cases (docker_header d.pending)) [
    | inl n ↦ invalid l n
    | inr (size, h) ↦ elim (Bool-cases (leb size max_docker_frame_bytes)) [
      | inr big ↦ large size l h big
      | inl fits ↦ elim (Bool-cases (ltb (length d.pending) (8 + size))) [
        | inl p ↦ partial size l h fits p
        | inr w ↦ whole size l h fits w
      ]
    ]
  ]
]

pub drain-stop :
    (fuel : ℕ) (d : DockerLogDecoder)
    → (ltb (length d.pending) 8 ≡ true)
    → drain fuel d ≡ (ok [], d)
unfolding drain
drain-stop zero d h = refl
drain-stop (suc fuel) d h = rw (h, drain)

-- What every frame keeps, the whole loop keeps.
pub drain_inv {ℓ} :
    (P : DockerLogDecoder → Type ℓ)
    → ((d : DockerLogDecoder) (size : ℕ)
        → P d
        → P
            (push_text
              (record d { pending = drop (8 + size) d.pending })
              (frame_payload size d.pending)).1)
    → (fuel : ℕ) (d : DockerLogDecoder) → P d
    → P (drain fuel d).1
unfolding drain
drain_inv P keeps zero d h = h
drain_inv P keeps (suc fuel) d h = elim (Round-of d) [
  | short s ↦ rw (s, drain) h
  | invalid l n ↦ rw (l, n, drain) h
  | large size l e b ↦ rw (l, e, b, drain) h
  | partial size l e f p ↦ rw (l, e, f, p, drain) h
  | whole size l e f w ↦
      let r : List Bytes × DockerLogDecoder =
        push_text (record d { pending = drop (8 + size) d.pending })
          (frame_payload size d.pending) in
      subst P
        (sym (
          ap (λ (x : Drained). x.1) (drain_step fuel d size l e f w)
          ∙ with_lines_state r.0 (drain fuel r.1)))
        (drain_inv P keeps fuel r.1 (keeps d size h))
]
  where
    with_lines_state : (l : List Bytes) (r : Drained) → (with_lines l r).1 ≡ r.1
    with_lines_state l (ok more, d) = refl
    with_lines_state l (err e, d) = refl

pub mode-drain : (fuel : ℕ) (d : DockerLogDecoder) → (drain fuel d).1.mode ≡ d.mode
unfolding push_text
mode-drain fuel d =
    drain_inv (λ (x : DockerLogDecoder). x.mode ≡ d.mode) (λ x size h. h) fuel d refl

pub pending-drain-le :
    (fuel : ℕ) (d : DockerLogDecoder) → length (drain fuel d).1.pending ≤ length d.pending
unfolding push_text
pending-drain-le fuel d =
    drain_inv (λ (x : DockerLogDecoder). length x.pending ≤ length d.pending)
      (λ x size h. omega (arith, length-drop (8 + size) x.pending)) fuel d (omega arith)
