-- ===== src/Adapters/Streams.antt =====
-- src/docker.rs, `decode_docker_log_stream`: the frames of a whole log.
use caroba_guard.Prelude.{
  ℕ, zero, suc, ◌%◌, ◌≤◌, ◌≡◌, refl, ap, true, List, [], ◌∷◌, ◌++◌, arith, leb, length,
  length-append, take-length, drop-length, All, from_utf8_lossy,
}
use caroba_guard.Logs.Frames.{
  be_byte, IsFrame, be_bytes_roundtrip, encode_all, payloads, drop_header, length-le-encode_all,
  Frame,
}
use caroba_guard.Adapters.{decode_frames, decode_docker_log_stream}
use caroba_guard.Logs.{from_be_bytes}

decode_frames-encode_all :
    (fuel : ℕ) (fs : List Frame)
    → All IsFrame fs
    → length fs ≤ fuel
    → decode_frames fuel (encode_all fs) ≡ payloads fs
unfolding decode_frames
decode_frames-encode_all zero [] h le = refl
decode_frames-encode_all (suc fuel) [] h le = refl
decode_frames-encode_all zero (f ∷ fs) h le = absurd (omega arith)
decode_frames-encode_all (suc fuel) (f ∷ fs) h le =
    let n : ℕ = length f.payload in
    let e : from_be_bytes (be_byte 16777216 n) (be_byte 65536 n) (be_byte 256 n) (n % 256) ≡ n =
      be_bytes_roundtrip n (omega arith) in
    let ih : decode_frames fuel (encode_all fs) ≡ payloads fs =
      decode_frames-encode_all fuel fs h.1 (omega arith) in
    rw
      (
        e,
        drop_header n f.kind 0 0 0 (be_byte 16777216 n) (be_byte 65536 n) (be_byte 256 n) (n % 256)
            (f.payload ++ encode_all fs),
        take-length f.payload (encode_all fs),
        drop-length f.payload (encode_all fs),
        ih,
      )
      (ground (arith, length-append f.payload (encode_all fs)))

-- The log of a container, as frames of any kinds and sizes up to 1 MiB, is decoded to its payloads put
-- together, with nothing of a header among them.
pub decode_docker_log_stream-encode_all :
    (f : Frame) (fs : List Frame)
    → All IsFrame (f ∷ fs)
    → decode_docker_log_stream (encode_all (f ∷ fs)) ≡ from_utf8_lossy (payloads (f ∷ fs))
unfolding decode_docker_log_stream
decode_docker_log_stream-encode_all f fs h =
    let kind : leb f.kind 2 ≡ true = ground arith in
    rw kind (
      ap from_utf8_lossy (
        decode_frames-encode_all (length (encode_all (f ∷ fs))) (f ∷ fs) h
          (length-le-encode_all (f ∷ fs))))
