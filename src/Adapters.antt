-- ===== src/Adapters.antt =====
-- src/docker.rs and src/services.rs: the names that requests carry into the commands and paths of the two
-- daemons, and the logs of a container as one text. A text is the list of its bytes.
pub mod Names
pub mod Streams
pub mod Actions
pub mod Obedience
pub mod Containers
pub mod Units
mod Tests
mod Examples
use caroba_guard.Prelude.{
  ℕ, zero, suc, ◌+◌, ◌-◌, Bool, false, not, ◌&&◌, ◌||◌, Option, none, some, List, [], ◌∷◌, ◌++◌,
  ltb, leb, ◌==◌, if◌then◌else◌, length, take, drop, any, all, Bytes, codes, bytes_eq,
  is_alphanumeric, from_utf8_lossy,
}
use caroba_guard.Logs.{from_be_bytes}

abbrev pub is_one_of : Bytes → ℕ → Bool
is_one_of allowed b = any (λ a. a == b) allowed

-- `validate_container_id`, `validate_unit` and `validate_since` are true where the source is `Ok`.
pub validate_container_id : Bytes → Bool
validate_container_id id =
    not (length id == 0)
    && leb (length id) 128
    && all (λ b. is_alphanumeric b || is_one_of (codes "_-.") b) id

abbrev pub ends_with : Bytes → Bytes → Bool
ends_with suffix text =
    leb (length suffix) (length text) && bytes_eq (drop (length text - length suffix) text) suffix

pub validate_unit : Bytes → Bool
validate_unit unit =
    ends_with (codes ".service") unit
    && leb (length unit) 256
    && all (λ b. is_alphanumeric b || is_one_of (codes "_-.@:\\") b) unit

pub validate_since : Bytes → Bool
validate_since value =
    not (length value == 0)
    && leb (length value) 64
    && all (λ b. is_alphanumeric b || is_one_of (codes " -:.+/_") b) value

-- The path of `inspect`.
pub inspect_path : Bytes → Bytes
inspect_path id = codes "/containers/" ++ id ++ codes "/json"

-- `collect_limited` over the data frames of a body.
pub collect_limited : ℕ → Bytes → List Bytes → Option Bytes
collect_limited maximum output [] = some output
collect_limited maximum output (data_frame ∷ frames) =
    let rest = collect_limited maximum (output ++ data_frame) frames in
    if ltb maximum (length output + length data_frame) then none else rest

abbrev pub is_multiplexed : Bytes → Bool
is_multiplexed (kind ∷ x ∷ y ∷ z ∷ a ∷ b ∷ c ∷ d ∷ rest) = leb kind 2 && x == 0 && y == 0 && z == 0
is_multiplexed _ = false

abbrev pub frame_size : Bytes → ℕ
frame_size (kind ∷ x ∷ y ∷ z ∷ a ∷ b ∷ c ∷ d ∷ rest) = from_be_bytes a b c d
frame_size _ = 0

-- The loop over the frames, from what `offset` has not passed. Every round passes eight bytes.
pub decode_frames : ℕ → Bytes → Bytes
decode_frames zero bytes = []
decode_frames (suc fuel) bytes =
    let rest = decode_frames fuel (drop (8 + frame_size bytes) bytes) in
    if ltb (length bytes) 8
    then []
    else if ltb (length bytes) (8 + frame_size bytes)
    then []
    else take (frame_size bytes) (drop 8 bytes) ++ rest

pub decode_docker_log_stream : Bytes → Bytes
unfolding decode_frames
decode_docker_log_stream bytes =
    if is_multiplexed bytes
    then from_utf8_lossy (decode_frames (length bytes) bytes)
    else from_utf8_lossy bytes
