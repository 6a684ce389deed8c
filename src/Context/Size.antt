-- ===== src/Context/Size.antt =====
-- src/context.rs: how large a context can become.
use caroba_guard.Prelude.{
  ℕ, ◌+◌, ◌-◌, ◌≤◌, min, max, inl, inr, Option, none, some, List, [], ◌∷◌, ◌++◌, arith, ltb, leb,
  Bool-cases, length, take, length-append, length-take-le, Bytes,
}
use caroba_guard.Context.{
  max_context_bytes, floor_boundary, truncated_suffix, truncate_utf8, section, preamble, block,
  add_sections, assemble, target_sections, build_context, ContextRequest, Adapters,
}
use caroba_guard.Context.Truncation.{floor_boundary-le}

-- The mark is 27 bytes, three more than `truncate_utf8` leaves for it.
length-truncate_utf8-le :
    (value : Bytes) (maximum : ℕ) → length (truncate_utf8 value maximum) ≤ max (maximum + 3) 27
unfolding truncate_utf8
length-truncate_utf8-le value maximum =
    let top : ℕ = min (maximum - 24) (length value) in
    let le : floor_boundary value top ≤ maximum - 24 = omega (arith, floor_boundary-le value top) in
    elim (Bool-cases (leb (length value) maximum)) [
      | inl e ↦ rw (e, truncate_utf8) (ground arith)
      | inr e ↦
          rw (e, truncate_utf8)
            (omega (
              arith,
              length-append (take (floor_boundary value top) value) truncated_suffix,
              length-take-le (floor_boundary value top) value,
            ))
    ]

length-add_sections-le :
    (sections : List (Bytes × Bytes)) (output : Bytes)
    → length output ≤ max_context_bytes + 11
    → length (add_sections output sections) ≤ max_context_bytes + 11
unfolding add_sections
length-add_sections-le [] output h = h
length-add_sections-le ((name, value) ∷ sections) output h =
    let remaining : ℕ = max_context_bytes - length output in
    let cut : Bytes = truncate_utf8 (block name value) remaining in
    elim (Bool-cases (ltb remaining (length name + 16))) [
      | inl e ↦ rw (e, add_sections) h
      | inr e ↦
          let room : 16 ≤ remaining = ground arith in
          rw (e, add_sections)
            (length-add_sections-le sections (output ++ cut) (
              omega (
                arith,
                length-append output cut,
                length-truncate_utf8-le (block name value) remaining,
              )))
    ]

-- Whatever is asked for and whatever the adapters answer, a context has at most 64 KiB and 11
-- bytes.
pub length-build_context-le :
    (adapters : Adapters) (request : Option ContextRequest)
    → length (build_context adapters request) ≤ 65536 + 11
unfolding build_context assemble
length-build_context-le adapters none =
    length-add_sections-le (section "host_metrics" adapters.host_metrics ∷ []) preamble
      (omega arith)
length-build_context-le adapters (some request) =
    length-add_sections-le
      (section "host_metrics" adapters.host_metrics
        ∷ target_sections adapters request.kind request.target)
      preamble (omega arith)
