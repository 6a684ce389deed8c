-- ===== src/Logs/Frames.antt =====
-- src/logs.rs, the frames of a multiplexed stream: what Docker encodes is decoded.
use caroba_guard.Prelude.{
  ℕ, zero, suc, ◌+◌, ◌/◌, ◌%◌, ◌≤◌, ◌<◌, ◌≡◌, refl, sym, ap, ◌∙◌, false, some, List, [], ◌∷◌, ◌++◌,
  map, arith, ltb, length, drop, length-append, take-length, drop-length, All, Bytes, Avoids,
}
use caroba_guard.Logs.{
  ok, default, max_log_line_bytes, max_docker_frame_bytes, max_docker_buffer_bytes, from_be_bytes,
  docker_header, scan, push_text, Drained, with_lines, drain, push_buffered, push, DockerLogDecoder,
  multiplexed,
}
use caroba_guard.Logs.Lines.{push_text-append, render, unlines, at_line_start, push_text-unlines}
use caroba_guard.Logs.Rounds.{drain_step}

-- The header of a stream and its payload, as the Docker Engine API documents it.
pub record Frame : Type 0 where
  pub kind : ℕ
  pub payload : Bytes

abbrev pub be_byte : ℕ → ℕ → ℕ
be_byte shift n = n / shift % 256

abbrev pub encode : Frame → Bytes
encode f =
    f.kind
    ∷ 0
    ∷ 0
    ∷ 0
    ∷ be_byte 16777216 (length f.payload)
    ∷ be_byte 65536 (length f.payload)
    ∷ be_byte 256 (length f.payload)
    ∷ length f.payload % 256
    ∷ f.payload

abbrev pub IsFrame : Frame → Type 0
IsFrame f = (f.kind ≤ 2) × (length f.payload ≤ max_docker_frame_bytes)

pub be_bytes_roundtrip :
    (n : ℕ)
    → n < 4294967296
    → from_be_bytes (be_byte 16777216 n) (be_byte 65536 n) (be_byte 256 n) (n % 256) ≡ n
be_bytes_roundtrip n h = omega arith

docker_header-encode :
    (f : Frame) (rest : Bytes)
    → IsFrame f
    → docker_header (encode f ++ rest) ≡ some (length f.payload)
unfolding docker_header
docker_header-encode f rest h = ground (arith, be_bytes_roundtrip (length f.payload))

abbrev pub encode_all : List Frame → Bytes
encode_all [] = []
encode_all (f ∷ fs) = encode f ++ encode_all fs

abbrev pub payloads : List Frame → Bytes
payloads [] = []
payloads (f ∷ fs) = f.payload ++ payloads fs

pub drop_header :
    (n a b c e f g h i : ℕ) (rest : Bytes)
    → drop (8 + n) (a ∷ b ∷ c ∷ e ∷ f ∷ g ∷ h ∷ i ∷ rest) ≡ drop n rest
drop_header n a b c e f g h i rest =
    let eight : 8 + n ≡ suc (suc (suc (suc (suc (suc (suc (suc n))))))) = omega arith in rw eight

drain-encode :
    (fuel : ℕ) (d : DockerLogDecoder) (f : Frame) (rest : Bytes)
    → IsFrame f
    → drain (suc fuel) (record d { pending = encode f ++ rest })
      ≡ with_lines
          (push_text (record d { pending = rest }) f.payload).0
          (drain fuel (push_text (record d { pending = rest }) f.payload).1)
drain-encode fuel d f rest h =
    let left : drop (8 + length f.payload) (encode f ++ rest) ≡ rest =
      drop_header (length f.payload) _ _ _ _ _ _ _ _ (f.payload ++ rest)
      ∙ drop-length f.payload rest in
    drain_step fuel (record d { pending = encode f ++ rest }) (length f.payload) (ground arith)
      (docker_header-encode f rest h) (ground arith) (ground (arith, length-append f.payload rest))
    ∙ rw (left, take-length f.payload rest)

push_text-nil : (d : DockerLogDecoder) → push_text d [] ≡ ([], d)
unfolding push_text scan
push_text-nil d = refl

abbrev pub lift : List Bytes × DockerLogDecoder → Drained
lift (lines, d) = (ok lines, d)

drain-encode_all :
    (fuel : ℕ) (d : DockerLogDecoder) (fs : List Frame)
    → All IsFrame fs
    → length fs ≤ fuel
    → drain fuel (record d { pending = encode_all fs })
      ≡ lift (push_text (record d { pending = [] }) (payloads fs))
unfolding drain push_text
drain-encode_all zero d [] h le = ap lift (sym (push_text-nil (record d { pending = [] })))
drain-encode_all (suc fuel) d [] h le = ap lift (sym (push_text-nil (record d { pending = [] })))
drain-encode_all zero d (f ∷ fs) h le = absurd (omega arith)
drain-encode_all (suc fuel) d (f ∷ fs) h le =
    let next : DockerLogDecoder = (push_text (record d { pending = [] }) f.payload).1 in
    let ih : drain fuel (push_text (record d { pending = encode_all fs }) f.payload).1
        ≡ lift (push_text (record next { pending = [] }) (payloads fs)) =
      drain-encode_all fuel next fs h.1 (omega arith) in
    drain-encode fuel d f (encode_all fs) h.0
    ∙ ap (with_lines (push_text (record d { pending = encode_all fs }) f.payload).0) ih
    ∙ ap lift (sym (push_text-append (record d { pending = [] }) f.payload (payloads fs)))

pub length-le-encode_all : (fs : List Frame) → length fs ≤ length (encode_all fs)
length-le-encode_all [] = omega arith
length-le-encode_all (f ∷ fs) =
    omega (arith, length-append (encode f) (encode_all fs), length-le-encode_all fs)

-- Frames of the three kinds, each with at most 1 MiB and all in at most 2 MiB with their headers, sent in
-- one chunk, give the lines of their payloads put together, if these are whole lines:
-- each line cut and marked as `render` says, no byte of a header among them, nothing left over.
pub push-encode_all :
    (f : Frame) (fs : List Frame) (lines : List Bytes)
    → All IsFrame (f ∷ fs)
    → length (encode_all (f ∷ fs)) ≤ max_docker_buffer_bytes
    → All (Avoids b'\n') lines
    → payloads (f ∷ fs) ≡ unlines lines
    → push default (encode_all (f ∷ fs))
      ≡ (ok (map (render max_log_line_bytes) lines), at_line_start multiplexed [])
unfolding push push_buffered
push-encode_all f fs lines h fits plain same =
    let all_bytes : Bytes = encode_all (f ∷ fs) in
    let room : ltb max_docker_buffer_bytes (0 + length all_bytes) ≡ false = ground arith in
    let header : docker_header all_bytes ≡ some (length f.payload) =
      docker_header-encode f (encode_all fs) h.0 in
    let done : drain (length all_bytes) (at_line_start multiplexed all_bytes)
        ≡ (ok (map (render max_log_line_bytes) lines), at_line_start multiplexed []) =
      drain-encode_all (length all_bytes) (at_line_start multiplexed []) (f ∷ fs) h
        (length-le-encode_all (f ∷ fs))
      ∙ ap (λ (b : Bytes). lift (push_text (at_line_start multiplexed []) b)) same
      ∙ ap lift (push_text-unlines multiplexed [] lines plain) in
    rw (room, header, push, push_buffered) (ground (arith, done))
