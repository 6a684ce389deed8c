-- ===== src/Logs/Cuts.antt =====
-- src/logs.rs, the loop of docker_stream: what a cut of the stream changes in what is sent.
use caroba_guard.Prelude.{
  ◌+◌, ◌≤◌, ◌≡◌, refl, ap, ◌∙◌, ◌⊎◌, inl, inr, none, List, [], ◌∷◌, ◌++◌, map, append_assoc,
  map-append, length, first, Bytes,
}
use caroba_guard.Logs.{
  ok, err, max_docker_buffer_bytes, Drained, with_lines, push, error_message, Sent, after_push,
  stream, LogError, LogResult, DockerLogDecoder, LogMessage, line_message,
}
use caroba_guard.Logs.Fuel.{then_push, settle}
use caroba_guard.Logs.Chunks.{push-append}

-- Two runs of the loop that differ at most in the lines before an error, which are those of `first`.
abbrev pub SentAlike : LogResult (List Bytes) → Sent → Sent → Type 0
SentAlike first whole cut =
    (whole ≡ cut)
    ⊎ ((lines : List Bytes) × (e : LogError) × (first ≡ ok lines)
        × (whole ≡ (error_message e ∷ [], none))
        × (cut ≡ (map line_message lines ++ error_message e ∷ [], none)))

err-inj : {e f : LogError} → ◌≡◌ {A = LogResult (List Bytes)} (err e) (err f) → e ≡ f
err-inj h = cc

ok-inj : {a b : List Bytes} → LogResult.ok a ≡ ok b → a ≡ b
ok-inj h = cc

-- The second chunk, after the lines of the first.
abbrev after_both : List Bytes → Drained → (DockerLogDecoder → Sent) → Sent
after_both first second rest =
    let r = after_push second rest in (map line_message first ++ r.0, r.1)

both_ok :
    (first second : List Bytes) (d : DockerLogDecoder) (rest : DockerLogDecoder → Sent)
    → after_push (ok (first ++ second), d) rest ≡ after_both first (ok second, d) rest
both_ok first second d rest =
    ap (λ (m : List LogMessage). (m, (rest d).1))
      (ap (λ (m : List LogMessage). m ++ (rest d).0) (map-append line_message first second)
        ∙ append_assoc (map line_message first) (map line_message second) (rest d).0)

second-SentAlike :
    (first : List Bytes) (whole second : Drained) (rest : DockerLogDecoder → Sent)
    → settle whole ≡ settle (with_lines first second)
    → SentAlike (ok first) (after_push whole rest) (after_both first second rest)
second-SentAlike first (ok lines, d) (ok more, d') rest h =
    let same_lines : lines ≡ first ++ more = ok-inj (ap (λ (r : Drained). r.0) h) in
    let same_decoder : d ≡ d' = ap (λ (r : Drained). r.1) h in
    inl (
      ap (λ (l : List Bytes). after_push (ok l, d) rest) same_lines
      ∙ ap (λ (x : DockerLogDecoder). after_push (ok (first ++ more), x) rest) same_decoder
      ∙ both_ok first more d' rest)
second-SentAlike first (ok lines, d) (err e, d') rest h = cc (ap (λ (r : Drained). r.0) h)
second-SentAlike first (err f, d) (ok more, d') rest h = cc (ap (λ (r : Drained). r.0) h)
second-SentAlike first (err f, d) (err e, d') rest h =
    let same : f ≡ e = err-inj (ap (λ (r : Drained). r.0) h) in
    inr (first, e, refl, ap (λ (x : LogError). after_push (err x, d) rest) same, refl)

first-SentAlike :
    (b : Bytes) (whole first : Drained) (chunks : List Bytes)
    → settle whole ≡ settle (then_push first b)
    → SentAlike first.0 (after_push whole (stream chunks)) (after_push first (stream (b ∷ chunks)))
unfolding stream
first-SentAlike b whole (ok lines, d) chunks h =
    second-SentAlike lines whole (push d b) (stream chunks) h
first-SentAlike b (ok more, d') (err e, d) chunks h = cc (ap (λ (r : Drained). r.0) h)
first-SentAlike b (err f, d') (err e, d) chunks h =
    let same : f ≡ e = err-inj (ap (λ (r : Drained). r.0) h) in
    inl (ap (λ (x : LogError). after_push (err x, d') (stream chunks)) same)

-- While its undecoded bytes stay within the buffer, a chunk that is cut in two anywhere, with others after
-- it, has the same messages sent and the same decoder left, or none, as the whole one; or else both have the
-- same error sent last, the whole one nothing before it, and the cut one the lines that `push` gives for its first part.
pub stream-append :
    (d : DockerLogDecoder) (a b : Bytes) (chunks : List Bytes)
    → length d.pending + length a + length b ≤ max_docker_buffer_bytes
    → SentAlike (push d a).0 (stream ((a ++ b) ∷ chunks) d) (stream (a ∷ b ∷ chunks) d)
unfolding stream
stream-append d a b chunks fits =
    first-SentAlike b (push d (a ++ b)) (push d a) chunks (push-append d a b fits)
