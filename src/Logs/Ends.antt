-- ===== src/Logs/Ends.antt =====
-- src/logs.rs, `finish`: the end of a stream.
use caroba_guard.Prelude.{
  ℕ, ◌+◌, ◌≡◌, refl, ap, ◌∙◌, false, List, [], ◌∷◌, ◌++◌, map, append-nil, arith, ltb, length, take,
  All, Bytes, Avoids, from_utf8_lossy,
}
use caroba_guard.Logs.{
  ok, max_log_line_bytes, mark_truncated, lines_of, push_text, finish, DockerLogDecoder, raw,
}
use caroba_guard.Logs.Lines.{
  push_text-append, render, scan_line, unlines, at_line_start, push_text-unlines,
}

-- The unfinished line as it is sent: cut and marked as any other, its carriage return kept.
abbrev pub render_last : Bytes → Bytes
render_last line =
    mark_truncated (ltb max_log_line_bytes (length line))
      (from_utf8_lossy (take max_log_line_bytes line))

-- The decoder in the middle of a line.
abbrev in_line : Bytes → DockerLogDecoder
in_line line = record {
  mode = raw;
  pending = [];
  line = take max_log_line_bytes line;
  line_truncated = ltb max_log_line_bytes (length line);
}

push_text-in_line :
    (line : Bytes) → Avoids b'\n' line → push_text (at_line_start raw []) line ≡ ([], in_line line)
unfolding push_text
push_text-in_line line h =
    let e : 0 + length line ≡ length line = omega arith in
    ap (lines_of (at_line_start raw [])) (
      scan_line max_log_line_bytes line [] [] h false (omega arith)
      ∙ ap
          (λ (n : ℕ). record {
            line = take max_log_line_bytes line;
            line_truncated = ltb max_log_line_bytes n;
            output = [];
          })
          e)

finish-in_line :
    (b : ℕ) (line : Bytes)
    → finish (in_line (b ∷ line)) ≡ (ok (render_last (b ∷ line) ∷ []), at_line_start raw [])
unfolding finish
finish-in_line b line = refl

-- A raw text of whole lines and an unfinished one that is not empty: the lines are sent as it comes,
-- the unfinished one at the end of the stream, and nothing is left.
finish-push_text :
    (lines : List Bytes) (b : ℕ) (rest : Bytes)
    → All (Avoids b'\n') lines
    → Avoids b'\n' (b ∷ rest)
    → let r = push_text (at_line_start raw []) (unlines lines ++ b ∷ rest) in
      (r.0 ≡ map (render max_log_line_bytes) lines)
      × (finish r.1 ≡ (ok (render_last (b ∷ rest) ∷ []), at_line_start raw []))
finish-push_text lines b rest plain last =
    let whole_text : push_text (at_line_start raw []) (unlines lines ++ b ∷ rest)
        ≡ (map (render max_log_line_bytes) lines ++ [], in_line (b ∷ rest)) =
      push_text-append (at_line_start raw []) (unlines lines) (b ∷ rest)
      ∙ rw (push_text-unlines raw [] lines plain) (rw (push_text-in_line (b ∷ rest) last)) in
    (
      ap (λ (x : List Bytes × DockerLogDecoder). x.0) whole_text
          ∙ append-nil (map (render max_log_line_bytes) lines),
      ap (λ (x : List Bytes × DockerLogDecoder). finish x.1) whole_text ∙ finish-in_line b rest,
    )
